-- ===== src/Server/Inotify.antt =====
-- src/server/server.c: the texts that describe the events of the watched directories in the log.
use pcd.Prelude.{
  ℕ, zero, suc, ◌+◌, ◌-◌, ◌/◌, ◌%◌, ◌<◌, ◌≡◌, arith, bit_and, Option, none, some, List, [], ◌∷◌,
  ◌++◌, Bytes, codes, length, length-take, ltb, leb, ◌==◌, if◌then◌else◌, snprintf, Bool-cases, inl,
  inr, subst,
}
use pcd.Storage.{StorageDirs}

-- The watch descriptors of the server.
pub record Watches : Type 0 where
  pub uploads : ℕ
  pub results : ℕ
  pub temp : ℕ

unfoldable pub inotify_watch_name : StorageDirs → Watches → ℕ → Bytes
inotify_watch_name dirs watches wd =
    if wd == watches.uploads
    then dirs.uploads
    else if wd == watches.results
    then dirs.results
    else if wd == watches.temp
    then dirs.temp
    else codes "unknown"

-- A bar stands between labels.
unfoldable pub with_label : Bytes → Bytes → Bytes
with_label [] label = label
with_label out label = out ++ (b'|' ∷ label)

-- A label that does not fit is left out.
unfoldable pub append_event_label : ℕ → Bytes → Bytes → Bytes
append_event_label out_size out label =
    if out_size == 0
    then out
    else if leb out_size (length (with_label out label) + 1)
    then out
    else with_label out label

-- The events by their bits, in the order of the source.
unfoldable pub event_labels : List (ℕ × Bytes)
event_labels =
    (0x100, codes "CREATE")
    ∷ (0x8, codes "CLOSE_WRITE")
    ∷ (0x2, codes "MODIFY")
    ∷ (0x200, codes "DELETE")
    ∷ (0x40, codes "MOVED_FROM")
    ∷ (0x80, codes "MOVED_TO")
    ∷ (0x4, codes "ATTRIB")
    ∷ (0x4000, codes "Q_OVERFLOW")
    ∷ (0x8000, codes "IGNORED")
    ∷ []

unfoldable pub append_labels : ℕ → ℕ → List (ℕ × Bytes) → Bytes → Bytes
unfolding append_event_label
append_labels out_size mask [] out = out
append_labels out_size mask ((event, label) ∷ labels) out =
    append_labels out_size mask labels
      (if bit_and mask event == 0 then out else append_event_label out_size out label)

-- The digits of a number in base 16, from the last.
unfoldable pub hex_before : ℕ → ℕ → Bytes → Bytes
hex_before zero n text = text
hex_before (suc digits) n text =
    let digit = n % 16 in
    hex_before digits (n / 16) ((if ltb digit 10 then digit + 48 else digit + 87) ∷ text)

-- `none` when the size is 0, and nothing is written.
unfoldable pub inotify_mask_to_string : ℕ → ℕ → Option Bytes
inotify_mask_to_string mask out_size =
    let labels = append_labels out_size mask event_labels [] in
    if out_size == 0
    then none
    else if length labels == 0
    then some (snprintf out_size (codes "mask=0x" ++ hex_before 8 mask []))
    else some labels

append_event_label-lt :
    (out_size : ℕ) (out label : Bytes)
    → length out < out_size
    → length (append_event_label out_size out label) < out_size
unfolding append_event_label
append_event_label-lt out_size out label fits = elim (Bool-cases (out_size == 0)) [
  | inl nothing ↦ rw (append_event_label, nothing) fits
  | inr some_room ↦ elim (Bool-cases (leb out_size (length (with_label out label) + 1))) [
    | inl long ↦ rw (append_event_label, some_room, long) fits
    | inr room ↦ rw (append_event_label, some_room, room) (ground (arith, room))
  ]
]

append_labels-lt :
    (out_size mask : ℕ) (labels : List (ℕ × Bytes)) (out : Bytes)
    → length out < out_size
    → length (append_labels out_size mask labels out) < out_size
unfolding append_labels
append_labels-lt out_size mask [] out fits = fits
append_labels-lt out_size mask ((event, label) ∷ labels) out fits =
    elim (Bool-cases (bit_and mask event == 0)) [
      | inl unset ↦ rw unset (append_labels-lt out_size mask labels out fits)
      | inr set ↦ rw set (
          append_labels-lt out_size mask labels (append_event_label out_size out label)
            (append_event_label-lt out_size out label fits))
    ]

-- Whether what is written fits.
abbrev FitsIf : ℕ → Option Bytes → Type 0
FitsIf out_size none = Unit
FitsIf out_size (some text) = length text < out_size

FitsIf-mask : (mask out_size : ℕ) → FitsIf out_size (inotify_mask_to_string mask out_size)
unfolding inotify_mask_to_string
FitsIf-mask mask out_size = elim (Bool-cases (out_size == 0)) [
  | inl nothing ↦ rw (inotify_mask_to_string, nothing) tt
  | inr some_room ↦
      let positive : 0 < out_size = ground (arith, some_room) in
      let labels = append_labels out_size mask event_labels [] in
      elim (Bool-cases (length labels == 0)) [
        | inl unknown ↦
            rw (inotify_mask_to_string, some_room, unknown)
              (omega (
                arith,
                positive,
                length-take (out_size - 1) (codes "mask=0x" ++ hex_before 8 mask []),
              ))
        | inr known ↦
            rw (inotify_mask_to_string, some_room, known)
              (append_labels-lt out_size mask event_labels [] positive)
      ]
]

-- The text of a mask fits its buffer with the terminator, whatever events the mask has, for every
-- size of the buffer but 0.
pub inotify_mask_to_string-lt :
    (mask out_size : ℕ) (text : Bytes)
    → inotify_mask_to_string mask out_size ≡ some text
    → length text < out_size
inotify_mask_to_string-lt mask out_size text written =
    subst (FitsIf out_size) written (FitsIf-mask mask out_size)
