-- ===== src/Console/Input.antt =====
-- How the console of src/admin/main.c reads what is typed.
use pcd.Prelude.{
  ℕ, zero, suc, ◌+◌, ◌-◌, ◌<◌, ◌≡◌, ◌≢◌, refl, ap, ◌∙◌, arith, Bool, true, false, some, [], ◌∷◌,
  ◌++◌, Bytes, All, length, subst, ◌==◌, c_string,
}
use pcd.Net.{Descriptor, write_all}
use pcd.Net.Left.{CanWrite, write_all-CanWrite}
use pcd.Protocol.{trim_newline}
use pcd.Client.Commands.{trim_newline-append}
use pcd.Client.Lines.{Plain, Plain-newline, c_string-line}
use pcd.Console.{
  ConsoleState, fgets, read_line_stdin, send_cmd, recv_and_print, do_simple, prompt_nonempty,
  console_turn, console_rounds,
}

pub fgets-line :
    (room : ℕ) (text rest : Bytes)
    → length text < room
    → All (λ ch. ch ≢ b'\n') text
    → fgets room (text ++ (b'\n' ∷ rest)) ≡ (text ++ (b'\n' ∷ []), rest)
unfolding fgets
fgets-line zero text rest fits plain = absurd (omega arith)
fgets-line (suc room) [] rest fits plain = refl
fgets-line (suc room) (ch ∷ text) rest fits (other, plain) =
    let differs : (ch == b'\n') ≡ false = ground (arith, other) in
    rw (fgets, fgets-line room text rest (omega arith) plain, differs) refl

-- A line that fits is read whole, without its newline.
pub read_line_stdin-line :
    (buf_size : ℕ) (text rest : Bytes)
    → length text + 1 < buf_size
    → All Plain text
    → read_line_stdin buf_size (text ++ (b'\n' ∷ rest)) ≡ (text, rest)
unfolding read_line_stdin
read_line_stdin-line buf_size text rest fits plain =
    rw
      (
        read_line_stdin,
        fgets-line (buf_size - 1) text rest (omega arith) (Plain-newline text plain),
        c_string-line text plain,
        trim_newline-append text,
      )
      refl

-- A command is written in full, whatever the answer is.
pub do_simple-output :
    (cmd : Bytes) (s : ConsoleState)
    → CanWrite s.connection (length cmd)
    → ((do_simple cmd s).1.connection.output ≡ s.connection.output ++ cmd)
      × ((do_simple cmd s).1.stdin ≡ s.stdin)
unfolding do_simple send_cmd recv_and_print pcd.Net.read_line
do_simple-output cmd s can =
    let (count, output, left) =
      write_all-CanWrite s.connection cmd 0 (subst (CanWrite s.connection) (omega arith) can) in
    rw (do_simple, send_cmd, count) (output, refl)

pub prompt_nonempty-line :
    (size : ℕ) (s : ConsoleState) (text rest : Bytes)
    → length text + 1 < size
    → 0 < length text
    → All Plain text
    → s.stdin ≡ text ++ (b'\n' ∷ rest)
    → prompt_nonempty size s ≡ (some text, record s { stdin = rest })
unfolding prompt_nonempty
prompt_nonempty-line size s text rest fits some_text plain there =
    let got = ap (read_line_stdin size) there ∙ read_line_stdin-line size text rest fits plain in
    let sized : (length text == 0) ≡ false = ground (arith, some_text) in
    rw (prompt_nonempty, got, sized) refl

fgets-end : (room : ℕ) → fgets room [] ≡ ([], [])
unfolding fgets
fgets-end zero = refl
fgets-end (suc room) = refl

read_line_stdin-end : (buf_size : ℕ) → read_line_stdin buf_size [] ≡ ([], [])
unfolding read_line_stdin trim_newline c_string
read_line_stdin-end buf_size = rw (read_line_stdin, fgets-end (buf_size - 1)) refl

-- At the end of the input the loop goes on for ever, without sending anything.
console_rounds-end :
    (tar : Bytes → Bool) (rounds : ℕ) (s : ConsoleState)
    → s.stdin ≡ []
    → ((console_rounds tar rounds s).0 ≡ true)
      × ((console_rounds tar rounds s).1.connection.output ≡ s.connection.output)
unfolding console_rounds console_turn
console_rounds-end tar zero s none_left = (refl, refl)
console_rounds-end tar (suc rounds) s none_left =
    let nothing : ◌≡◌ {A = Bytes × Bytes} (read_line_stdin 64 s.stdin) ([], []) =
      ap (read_line_stdin 64) none_left ∙ read_line_stdin-end 64 in
    rw (console_rounds, console_turn, nothing)
      (console_rounds-end tar rounds (record s { stdin = [] }) refl)
