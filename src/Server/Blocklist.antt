-- ===== src/Server/Blocklist.antt =====
-- src/server/server.c: the list of blocked addresses. Each operation runs under the list's mutex.
-- A null pointer is not modelled. An address is stored in 64 bytes with its terminator.
use pcd.Prelude.{
  ℕ, ◌+◌, ◌≤◌, ◌<◌, ◌≡◌, ◌≢◌, refl, sym, ap, ◌∙◌, subst, arith, Bool, true, false, ◌||◌, Option,
  none, some, List, [], ◌∷◌, ◌++◌, Bytes, bytes_eq, bytes_eq_refl, bytes_eq_sound, codes, length,
  length-append, take_all, ltb, leb, ◌==◌, if◌then◌else◌, snprintf, Bool-cases, inl, inr, ◌⊎◌,
  ltb→lt,
}

abbrev pub max_blocked_ips : ℕ
max_blocked_ips = 32

unfoldable pub blocklist_init : List Bytes
blocklist_init = []

unfoldable pub blocklist_contains : List Bytes → Bytes → Bool
blocklist_contains [] ip = false
blocklist_contains (other ∷ ips) ip = bytes_eq other ip || blocklist_contains ips ip

-- `true` for 0 and `false` for -1.
unfoldable pub blocklist_add : List Bytes → Bytes → Bool × List Bytes
blocklist_add ips ip =
    if length ip == 0
    then (false, ips)
    else if blocklist_contains ips ip
    then (true, ips)
    else if ltb (length ips) max_blocked_ips
    then (true, ips ++ (snprintf 64 ip ∷ []))
    else (false, ips)

-- The first such entry goes, and the later ones move up.
unfoldable pub remove_first : List Bytes → Bytes → Bool × List Bytes
remove_first [] ip = (false, [])
remove_first (other ∷ ips) ip = elim (bytes_eq other ip) [
  | true ↦ (true, ips)
  | false ↦ ((remove_first ips ip).0, other ∷ (remove_first ips ip).1)
]

unfoldable pub blocklist_remove : List Bytes → Bytes → Bool × List Bytes
blocklist_remove ips ip = if length ip == 0 then (false, ips) else remove_first ips ip

-- The text after an entry: a comma stands between entries.
unfoldable pub with_entry : Bytes → Bytes → Bytes
with_entry [] ip = ip
with_entry out ip = out ++ (b',' ∷ ip)

unfoldable pub format_entries : ℕ → List Bytes → Bytes → Bytes
unfolding with_entry
format_entries out_size [] out = out
format_entries out_size (ip ∷ ips) out =
    let rest = format_entries out_size ips (with_entry out ip) in
    if leb out_size (length (with_entry out ip) + 1) then out else rest

-- `none` for -1.
unfoldable pub blocklist_format : List Bytes → ℕ → Option Bytes
blocklist_format ips out_size =
    if out_size == 0
    then none
    else if length ips == 0
    then some (snprintf out_size (codes "empty"))
    else some (format_entries out_size ips [])

contains-append :
    (ips : List Bytes) (stored ip : Bytes)
    → blocklist_contains (ips ++ (stored ∷ [])) ip
      ≡ (blocklist_contains ips ip || bytes_eq stored ip)
unfolding blocklist_contains
contains-append [] stored ip = ground arith
contains-append (other ∷ ips) stored ip = ground (arith, contains-append ips stored ip)

bytes_eq-other : (a b : Bytes) → a ≢ b → bytes_eq a b ≡ false
bytes_eq-other a b ne = elim (Bool-cases (bytes_eq a b)) [
  | inl same ↦ absurd (ne (bytes_eq_sound a b same))
  | inr other ↦ other
]

stored_whole : (ip : Bytes) → length ip < 64 → snprintf 64 ip ≡ ip
stored_whole ip short = take_all 63 ip (omega (arith, short))

-- An addition that succeeds finds the address or stores it at the end.
blocklist_add_cases :
    (ips : List Bytes) (ip : Bytes)
    → (blocklist_add ips ip).0 ≡ true
    → ((blocklist_contains ips ip ≡ true) × ((blocklist_add ips ip).1 ≡ ips))
      ⊎ ((blocklist_contains ips ip ≡ false)
          × (length ips < max_blocked_ips)
          × ((blocklist_add ips ip).1 ≡ ips ++ (snprintf 64 ip ∷ [])))
unfolding blocklist_add
blocklist_add_cases ips ip added = elim (Bool-cases (length ip == 0)) [
  | inl none_given ↦ absurd (ground (arith, none_given, added))
  | inr given ↦ elim (Bool-cases (blocklist_contains ips ip)) [
    | inl known ↦ inl (known, rw (blocklist_add, given, known) refl)
    | inr new ↦ elim (Bool-cases (ltb (length ips) max_blocked_ips)) [
      | inl room ↦
          inr (
            new,
            ltb→lt (length ips) max_blocked_ips room,
            rw (blocklist_add, given, new, room) refl,
          )
      | inr full ↦ absurd (ground (arith, given, new, full, added))
    ]
  ]
]

-- An address of less than 64 bytes that is added is found.
pub blocklist_add-found :
    (ips : List Bytes) (ip : Bytes)
    → length ip < 64
    → (blocklist_add ips ip).0 ≡ true
    → blocklist_contains (blocklist_add ips ip).1 ip ≡ true
blocklist_add-found ips ip short added = elim (blocklist_add_cases ips ip added) [
  | inl (known, same) ↦ rw same known
  | inr (new, room, stored) ↦
      rw (stored, stored_whole ip short, contains-append ips ip ip, bytes_eq_refl ip)
        (or_true (blocklist_contains ips ip))
]
  where
    or_true : (b : Bool) → (b || true) ≡ true
    or_true true = refl
    or_true false = refl

-- An address of less than 64 bytes that is added without an error is found afterwards, and every
-- other address is found as before.
pub blocklist_contains-add :
    (ips : List Bytes) (ip other : Bytes)
    → length ip < 64
    → ip ≢ other
    → (blocklist_add ips ip).0 ≡ true
    → (blocklist_contains (blocklist_add ips ip).1 ip ≡ true)
      × (blocklist_contains (blocklist_add ips ip).1 other ≡ blocklist_contains ips other)
blocklist_contains-add ips ip other short ne added = elim (blocklist_add_cases ips ip added) [
  | inl (known, same) ↦ (blocklist_add-found ips ip short added, rw same refl)
  | inr (new, room, stored) ↦ (
    blocklist_add-found ips ip short added,
    rw (stored, stored_whole ip short, contains-append ips ip other, bytes_eq-other ip other ne)
        (or_false (blocklist_contains ips other)),
  )
]
  where
    or_false : (b : Bool) → (b || false) ≡ b
    or_false true = refl
    or_false false = refl

remove_first-append :
    (ips : List Bytes) (ip : Bytes)
    → blocklist_contains ips ip ≡ false
    → remove_first (ips ++ (ip ∷ [])) ip ≡ (true, ips)
unfolding remove_first blocklist_contains
remove_first-append [] ip new = rw (remove_first, bytes_eq_refl ip) refl
remove_first-append (other ∷ ips) ip new = elim (Bool-cases (bytes_eq other ip)) [
  | inl same ↦ absurd (ground (arith, same, new))
  | inr differs ↦
      let rest = remove_first-append ips ip (ground (arith, differs, new)) in
      rw (remove_first, differs, rest) refl
]

-- Adding an address and removing it again gives the list back: for an address of 1 to 63 bytes that
-- is not in the list, and a list that is not full.
pub blocklist_remove-add :
    (ips : List Bytes) (ip : Bytes)
    → 0 < length ip
    → length ip < 64
    → length ips < max_blocked_ips
    → blocklist_contains ips ip ≡ false
    → blocklist_remove (blocklist_add ips ip).1 ip ≡ (true, ips)
unfolding blocklist_add blocklist_remove
blocklist_remove-add ips ip some_byte short room new =
    let given : (length ip == 0) ≡ false = ground arith in
    let fits : ltb (length ips) max_blocked_ips ≡ true = ground arith in
    let stored : (blocklist_add ips ip).1 ≡ ips ++ (ip ∷ []) =
      rw (blocklist_add, given, new, fits, stored_whole ip short) refl in
    rw (stored, blocklist_remove, given) (remove_first-append ips ip new)

-- Entries are different from each other.
abbrev pub AllDifferent : List Bytes → Type 0
AllDifferent [] = Unit
AllDifferent (ip ∷ ips) = (blocklist_contains ips ip ≡ false) × AllDifferent ips

remove_first_lem :
    (ips : List Bytes) (ip other : Bytes)
    → AllDifferent ips
    → ip ≢ other
    → (remove_first ips ip).0 ≡ true
    → (blocklist_contains (remove_first ips ip).1 ip ≡ false)
      × (blocklist_contains (remove_first ips ip).1 other ≡ blocklist_contains ips other)
unfolding remove_first blocklist_contains
remove_first_lem [] ip other different ne removed = (refl, refl)
remove_first_lem (entry ∷ ips) ip other (here, different) ne removed =
    elim (Bool-cases (bytes_eq entry ip)) [
      | inl same ↦
          let found = bytes_eq_sound entry ip same in
          let unlike : bytes_eq entry other ≡ false =
            bytes_eq-other entry other (λ e. ne (sym found ∙ e)) in
          rw (remove_first, same)
            (
              subst (λ (b : Bytes). blocklist_contains ips b ≡ false) found here,
              rw (blocklist_contains, unlike) refl,
            )
      | inr differs ↦
          let (gone, others) =
            remove_first_lem ips ip other different ne (ground (arith, differs, removed)) in
          rw (remove_first, differs)
            (
              rw (blocklist_contains, differs, gone) refl,
              ap (λ (b : Bool). bytes_eq entry other || b) others,
            )
    ]

-- An address that is removed from a list of different addresses is not found any more, and every
-- other address is found as before.
pub blocklist_contains-remove :
    (ips : List Bytes) (ip other : Bytes)
    → AllDifferent ips
    → ip ≢ other
    → (blocklist_remove ips ip).0 ≡ true
    → (blocklist_contains (blocklist_remove ips ip).1 ip ≡ false)
      × (blocklist_contains (blocklist_remove ips ip).1 other ≡ blocklist_contains ips other)
unfolding blocklist_remove
blocklist_contains-remove ips ip other different ne removed = elim (Bool-cases (length ip == 0)) [
  | inl none_given ↦ absurd (ground (arith, none_given, removed))
  | inr given ↦
      rw (blocklist_remove, given)
        (remove_first_lem ips ip other different ne (ground (arith, given, removed)))
]

pub length-blocklist_add :
    (ips : List Bytes) (ip : Bytes)
    → length ips ≤ max_blocked_ips
    → length (blocklist_add ips ip).1 ≤ max_blocked_ips
unfolding blocklist_add
length-blocklist_add ips ip bounded = elim (Bool-cases (length ip == 0)) [
  | inl none_given ↦ rw (blocklist_add, none_given) bounded
  | inr given ↦ elim (Bool-cases (blocklist_contains ips ip)) [
    | inl known ↦ rw (blocklist_add, given, known) bounded
    | inr new ↦ elim (Bool-cases (ltb (length ips) max_blocked_ips)) [
      | inl room ↦
          rw (blocklist_add, given, new, room)
            (omega (
              arith,
              ltb→lt (length ips) max_blocked_ips room,
              length-append ips (snprintf 64 ip ∷ []),
            ))
      | inr full ↦ rw (blocklist_add, given, new, full) bounded
    ]
  ]
]

length-remove_first : (ips : List Bytes) (ip : Bytes) → length (remove_first ips ip).1 ≤ length ips
unfolding remove_first
length-remove_first [] ip = omega arith
length-remove_first (other ∷ ips) ip = elim (Bool-cases (bytes_eq other ip)) [
  | inl same ↦ rw (remove_first, same) (omega arith)
  | inr differs ↦ rw (remove_first, differs) (omega (arith, length-remove_first ips ip))
]

pub length-blocklist_remove :
    (ips : List Bytes) (ip : Bytes) → length (blocklist_remove ips ip).1 ≤ length ips
unfolding blocklist_remove
length-blocklist_remove ips ip = elim (Bool-cases (length ip == 0)) [
  | inl none_given ↦ rw (blocklist_remove, none_given) (omega arith)
  | inr given ↦ rw (blocklist_remove, given) (length-remove_first ips ip)
]
