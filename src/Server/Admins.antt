-- ===== src/Server/Admins.antt =====
-- The administrators among the sessions of src/server/server.c.
use pcd.Prelude.{
  ℕ, zero, suc, ◌+◌, ◌≤◌, ◌≡◌, refl, ap, subst, arith, Bool, true, false, not, ◌&&◌, ◌||◌, Option,
  none, some, List, [], ◌∷◌, Bytes, length, set, get_elem?, if◌then◌else◌, ◌==◌, Bool-cases,
  Option-cases, inl, inr,
}
use pcd.Job.{Timespec}
use pcd.Server.Clients.{
  ClientType, ClientSession, is_admin, is_user, close_client, behind, add_client, has_admin,
  from_ip, kick_client, kick_ip, close_kicked,
}

unfoldable pub is_admin_session : ClientSession → Bool
unfolding is_admin
is_admin_session client = client.active && is_admin client.type

unfoldable pub count_admins : List ClientSession → ℕ
unfolding is_admin_session
count_admins [] = 0
count_admins (client ∷ clients) =
    let rest = count_admins clients in if is_admin_session client then suc rest else rest

-- Each session of the second list is an administrator only if it was one in the first.
abbrev pub Tamer : List ClientSession → List ClientSession → Type 0
Tamer [] [] = Unit
Tamer [] (d ∷ ds) = ⊥
Tamer (c ∷ cs) [] = ⊥
Tamer (c ∷ cs) (d ∷ ds) = ((not (is_admin_session d) || is_admin_session c) ≡ true) × Tamer cs ds

pub length-Tamer : (cs ds : List ClientSession) → Tamer cs ds → length ds ≡ length cs
length-Tamer [] [] h = refl
length-Tamer [] (d ∷ ds) h = absurd h
length-Tamer (c ∷ cs) [] h = absurd h
length-Tamer (c ∷ cs) (d ∷ ds) (here, rest) = ap suc (length-Tamer cs ds rest)

pub count_admins-Tamer :
    (cs ds : List ClientSession) → Tamer cs ds → count_admins ds ≤ count_admins cs
unfolding count_admins
count_admins-Tamer [] [] h = omega arith
count_admins-Tamer [] (d ∷ ds) h = absurd h
count_admins-Tamer (c ∷ cs) [] h = absurd h
count_admins-Tamer (c ∷ cs) (d ∷ ds) (here, rest) =
    ground (arith, here, count_admins-Tamer cs ds rest)

same_session :
    (client : ClientSession) → (not (is_admin_session client) || is_admin_session client) ≡ true
same_session client = elim (Bool-cases (is_admin_session client)) [
  | inl admin ↦ rw admin refl
  | inr other ↦ rw other refl
]

Tamer-same : (clients : List ClientSession) → Tamer clients clients
Tamer-same [] = tt
Tamer-same (client ∷ clients) = (same_session client, Tamer-same clients)

closed_session :
    (client : ClientSession)
    → (not (is_admin_session (close_client client)) || is_admin_session client) ≡ true
unfolding close_client is_admin_session
closed_session client = elim (Bool-cases client.active) [
  | inl active ↦ simp active refl
  | inr free ↦ simp free refl
]

pub Tamer-close :
    (clients : List ClientSession) (slot : ℕ) (client : ClientSession)
    → get_elem? clients slot ≡ some client
    → Tamer clients (set clients slot (close_client client))
Tamer-close [] slot client e = tt
Tamer-close (c ∷ clients) zero client e =
    let same : c ≡ client = cc in
    (
      subst
          (λ (d : ClientSession).
            (not (is_admin_session (close_client d)) || is_admin_session c) ≡ true)
          same (closed_session c),
      Tamer-same clients,
    )
Tamer-close (c ∷ clients) (suc slot) client e = (same_session c, Tamer-close clients slot client e)

pub Tamer-close_kicked : (clients : List ClientSession) → Tamer clients (close_kicked clients)
unfolding close_kicked
Tamer-close_kicked [] = tt
Tamer-close_kicked (client ∷ clients) = elim (Bool-cases (client.active && client.kick_requested)) [
  | inl kicked ↦ simp kicked (closed_session client, Tamer-close_kicked clients)
  | inr stays ↦ simp stays (same_session client, Tamer-close_kicked clients)
]

kicked_session :
    (client : ClientSession)
    → (not (is_admin_session (record client { kick_requested = true })) || is_admin_session client)
      ≡ true
unfolding is_admin_session
kicked_session client = same_session client

pub Tamer-kick_ip :
    (clients : List ClientSession) (ip : Bytes) → Tamer clients (kick_ip clients ip).1
unfolding kick_ip
Tamer-kick_ip [] ip = tt
Tamer-kick_ip (client ∷ clients) ip = elim (Bool-cases (from_ip ip client)) [
  | inl from ↦ simp from (kicked_session client, Tamer-kick_ip clients ip)
  | inr other ↦ simp other (same_session client, Tamer-kick_ip clients ip)
]

abbrev TamerIf : List ClientSession → Option (List ClientSession) → Type 0
TamerIf clients none = Unit
TamerIf clients (some after) = Tamer clients after

TamerIf-behind :
    (client : ClientSession) (clients : List ClientSession) (r : Option (List ClientSession))
    → TamerIf clients r
    → TamerIf (client ∷ clients) (behind client r)
TamerIf-behind client clients none h = tt
TamerIf-behind client clients (some after) h = (same_session client, h)

TamerIf-kick_client :
    (clients : List ClientSession) (target_fd : ℕ) → TamerIf clients (kick_client clients target_fd)
unfolding kick_client is_admin_session
TamerIf-kick_client [] target_fd = tt
TamerIf-kick_client (client ∷ clients) target_fd =
    let rest = TamerIf-behind client clients _ (TamerIf-kick_client clients target_fd) in
    elim (Option-cases client.fd) [
      | inl closed ↦ simp closed rest
      | inr (fd, open_fd) ↦
          elim (Bool-cases (client.active && ((fd == target_fd) && is_user client.type))) [
            | inl found ↦ simp (open_fd, found) (kicked_session client, Tamer-same clients)
            | inr other ↦ simp (open_fd, other) rest
          ]
    ]

pub Tamer-kick_client :
    (clients after : List ClientSession) (target_fd : ℕ)
    → kick_client clients target_fd ≡ some after
    → Tamer clients after
Tamer-kick_client clients after target_fd e =
    subst (TamerIf clients) e (TamerIf-kick_client clients target_fd)

-- One administrator more at most, and only when the new session is one.
abbrev AddedIf : List ClientSession → ClientType → Option (List ClientSession) → Type 0
AddedIf clients type none = Unit
AddedIf clients type (some after) =
    (length after ≡ length clients)
    × (count_admins after ≤ count_admins clients + (if is_admin type then 1 else 0))

AddedIf-behind :
    (client : ClientSession) (clients : List ClientSession) (type : ClientType)
    (r : Option (List ClientSession))
    → AddedIf clients type r
    → AddedIf (client ∷ clients) type (behind client r)
unfolding count_admins
AddedIf-behind client clients type none h = tt
AddedIf-behind client clients type (some after) (size, count) =
    elim (Bool-cases (is_admin_session client)) [
      | inl admin ↦ (ap suc size, rw (count_admins, admin) (omega (arith, count)))
      | inr other ↦ (ap suc size, rw (count_admins, other) count)
    ]

AddedIf-add_client :
    (now : Timespec) (clients : List ClientSession) (fd : ℕ) (type : ClientType) (addr_str : Bytes)
    → AddedIf clients type (add_client now clients fd type addr_str)
unfolding add_client count_admins is_admin_session
AddedIf-add_client now [] fd type addr_str = tt
AddedIf-add_client now (client ∷ clients) fd type addr_str = elim (Bool-cases client.active) [
  | inl active ↦
      simp active
        (AddedIf-behind client clients type _ (AddedIf-add_client now clients fd type addr_str))
  | inr free ↦ elim (Bool-cases (is_admin type)) [
    | inl admin ↦ simp (free, admin) (refl, omega arith)
    | inr other ↦ simp (free, other) (refl, omega arith)
  ]
]

-- An added session is an administrator only when it is asked for.
pub count_admins-add_client :
    (now : Timespec) (clients after : List ClientSession) (fd : ℕ) (type : ClientType)
    (addr_str : Bytes)
    → add_client now clients fd type addr_str ≡ some after
    → (length after ≡ length clients)
      × (count_admins after ≤ count_admins clients + (if is_admin type then 1 else 0))
count_admins-add_client now clients after fd type addr_str e =
    subst (AddedIf clients type) e (AddedIf-add_client now clients fd type addr_str)

pub count_admins-has_admin :
    (clients : List ClientSession) → has_admin clients ≡ false → count_admins clients ≡ 0
unfolding has_admin count_admins is_admin_session
count_admins-has_admin [] none_there = refl
count_admins-has_admin (client ∷ clients) none_there =
    elim (Bool-cases (client.active && is_admin client.type)) [
      | inl admin ↦ absurd (ground (arith, admin, none_there))
      | inr other ↦
          rw (count_admins, other)
            (count_admins-has_admin clients (ground (arith, other, none_there)))
    ]
