-- ===== src/Console.antt =====
-- src/admin/main.c: the administrator's console. The bytes typed, the connection to the server, and
-- the outcome of archiving the logs in a child process are arguments; what it prints is left out.
pub mod Input
pub mod Commands
mod Examples
use pcd.Prelude.{
  ℕ, zero, suc, ◌+◌, ◌-◌, ◌^◌, Bool, true, false, Option, none, some, List, [], ◌∷◌, ◌++◌, Bytes,
  codes, length, leb, ◌*◌, ◌==◌, if◌then◌else◌, snprintf, c_string, u32, u64,
}
use pcd.Net.{Descriptor, read_line, write_all}
use pcd.Protocol.{buffer_size, trim_newline}
use pcd.Protocol.Number.{read_digits, skip_space}

-- The connection, and what is still to be read from the standard input.
pub record ConsoleState : Type 0 where
  pub connection : Descriptor
  pub stdin : Bytes

-- `fgets` with room for so many bytes: the bytes up to a newline and with it, and the input left.
unfoldable pub fgets : ℕ → Bytes → Bytes × Bytes
fgets zero stdin = ([], stdin)
fgets (suc room) [] = ([], [])
fgets (suc room) (ch ∷ stdin) =
    let (line, rest) = fgets room stdin in
    if ch == b'\n' then (ch ∷ [], stdin) else (ch ∷ line, rest)

-- At the end of the input the line is empty.
unfoldable pub read_line_stdin : ℕ → Bytes → Bytes × Bytes
unfolding fgets
read_line_stdin buf_size stdin =
    let (line, rest) = fgets (buf_size - 1) stdin in (trim_newline (c_string line), rest)

-- `strtol` as a 64-bit word, and `atoi` as a 32-bit one.
unfoldable pub strtol_word : Bytes → ℕ
strtol_word text = elim (skip_space text) [
  | [] ↦ 0
  | c ∷ s ↦
      let below = (read_digits 0 s).0 in
      let value = if c == b'+' then below else (read_digits 0 (c ∷ s)).0 in
      if c == b'-'
      then (if leb (2 ^ 63) below then 2 ^ 63 else u64 (2 ^ 64 - below))
      else if leb (2 ^ 63) value
      then 2 ^ 63 - 1
      else value
]

unfoldable pub atoi : Bytes → ℕ
unfolding strtol_word
atoi text = u32 (strtol_word text)

-- Whether the command was sent.
unfoldable pub send_cmd : Bytes → ConsoleState → Bool × ConsoleState
send_cmd cmd s =
    let (total, connection) = write_all s.connection cmd in
    let ok : Bool = elim total [ none ↦ false | some n ↦ true ] in
    (ok, record s { connection = connection })

abbrev some_line : Option Bytes → Bool
some_line none = false
some_line (some []) = false
some_line (some (ch ∷ line)) = true

unfoldable pub recv_and_print : ConsoleState → Bool × ConsoleState
recv_and_print s =
    let (line, connection) = read_line s.connection (2 * buffer_size) in
    (some_line line, record s { connection = connection })

unfoldable pub do_simple : Bytes → ConsoleState → Bool × ConsoleState
do_simple cmd s =
    let (sent, after) = send_cmd cmd s in
    let answered = recv_and_print after in if sent then answered else (false, after)

-- The text that the user types; the command is given up when it is empty.
unfoldable pub prompt_nonempty : ℕ → ConsoleState → Option Bytes × ConsoleState
prompt_nonempty out_size s =
    let (text, rest) = read_line_stdin out_size s.stdin in
    let after = record s { stdin = rest } in
    if length text == 0 then (none, after) else (some text, after)

unfoldable pub do_with_arg : Bytes → ConsoleState → Bool × ConsoleState
do_with_arg verb s =
    let (arg, after) = prompt_nonempty 256 s in
    elim arg [
      | none ↦ (true, after)
      | some text ↦ do_simple (snprintf 512 (verb ++ (b' ' ∷ (text ++ codes "\n")))) after
    ]

unfoldable pub do_raw : ConsoleState → Bool × ConsoleState
do_raw s =
    let (line, after) = prompt_nonempty buffer_size s in
    elim line [
      | none ↦ (true, after)
      | some text ↦ do_simple (snprintf (buffer_size + 2) (text ++ codes "\n")) after
    ]

-- `tar`: whether `fork` and `waitpid` succeed for the destination.
unfoldable pub do_export_logs : (Bytes → Bool) → ConsoleState → Bool × ConsoleState
do_export_logs tar s =
    let (dest, after) = prompt_nonempty 256 s in
    elim dest [ none ↦ (true, after) | some path ↦ (tar path, after) ]

-- What an option of the menu does.
pub data MenuAction : Type 0 where
  simple with_arg : Bytes → MenuAction
  raw export_logs leave invalid : MenuAction

unfoldable pub menu : List (ℕ × MenuAction)
menu =
    (1, simple (codes "STATS\n"))
    ∷ (2, simple (codes "LISTJOBS\n"))
    ∷ (3, simple (codes "HISTORY\n"))
    ∷ (4, simple (codes "LISTCLIENTS\n"))
    ∷ (5, simple (codes "AVGDURATION\n"))
    ∷ (6, with_arg (codes "CANCEL"))
    ∷ (7, with_arg (codes "KICK"))
    ∷ (8, with_arg (codes "BLOCKIP"))
    ∷ (9, with_arg (codes "UNBLOCKIP"))
    ∷ (10, simple (codes "PING\n"))
    ∷ (11, simple (codes "HELP\n"))
    ∷ (12, raw)
    ∷ (13, export_logs)
    ∷ (0, leave)
    ∷ []

unfoldable pub menu_action : List (ℕ × MenuAction) → ℕ → MenuAction
menu_action [] opt = invalid
menu_action ((n, action) ∷ rest) opt =
    let other = menu_action rest opt in if opt == n then action else other

-- The result of an action: whether the loop goes on, and the state.
unfoldable pub act : (Bytes → Bool) → MenuAction → ConsoleState → Bool × ConsoleState
act tar (simple cmd) s = do_simple cmd s
act tar (with_arg verb) s = do_with_arg verb s
act tar raw s = do_raw s
act tar export_logs s = do_export_logs tar s
act tar leave s = (false, (do_simple (codes "QUIT\n") s).1)
act tar invalid s = (true, s)

-- One round of the loop of `main`: an empty line changes nothing.
unfoldable pub console_turn : (Bytes → Bool) → ConsoleState → Bool × ConsoleState
console_turn tar s =
    let (input, rest) = read_line_stdin 64 s.stdin in
    let after = record s { stdin = rest } in
    if length input == 0 then (true, after) else act tar (menu_action menu (atoi input)) after

-- So many rounds, or fewer when the loop ends before; `main` reads the banner first. The Boolean
-- says whether the loop still goes on.
unfoldable pub console_rounds : (Bytes → Bool) → ℕ → ConsoleState → Bool × ConsoleState
console_rounds tar zero s = (true, s)
console_rounds tar (suc rounds) s =
    let (running, after) = console_turn tar s in
    let rest = console_rounds tar rounds after in if running then rest else (false, after)

unfoldable pub console : (Bytes → Bool) → ℕ → ConsoleState → Bool × ConsoleState
console tar rounds s = console_rounds tar rounds (recv_and_print s).1
