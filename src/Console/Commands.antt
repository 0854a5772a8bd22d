-- ===== src/Console/Commands.antt =====
-- What is typed into the console of src/admin/main.c is what src/server/server.c does.
use pcd.Prelude.{
  ℕ, ◌+◌, ◌-◌, ◌≤◌, ◌<◌, ◌≡◌, refl, sym, ap, ap₂, ◌∙◌, arith, Bool, true, false, Option, some, [],
  ◌∷◌, ◌++◌, append_assoc, Bytes, All, All-append, codes, length, length-append, take, take_all,
  subst, ◌==◌,
}
use pcd.Net.Left.{CanRead, CanWrite}
use pcd.Protocol.{
  ProtocolCommand, ProtocolRequest, a_text, request_of, buffer_size, protocol_parse_line,
  trim_newline, starts_with, find_plain, plain_commands, find_prefixed, prefixed_commands,
  parse_argument, kick, blockip, unblockip,
}
use pcd.Prelude.{bytes_eq}
use pcd.Server.Clients.{ClientSession, is_admin}
use pcd.Server.State.{ServerState, Surroundings}
use pcd.Server.Admin.{handle_admin_command, handle_kick, handle_blockip, handle_unblockip}
use pcd.Server.Loop.{handle_client_command, handle_request}
use pcd.Client.Commands.{parse_prefixed}
use pcd.Client.Lines.{Plain, is_plain, is_plain-Plain}
use pcd.Client.Uploads.{line_taken, handle_client_command-request}
use pcd.Console.{
  ConsoleState, read_line_stdin, do_simple, prompt_nonempty, do_with_arg, menu, menu_action, act,
  with_arg, console_turn, atoi, strtol_word,
}
use pcd.Console.Input.{read_line_stdin-line, do_simple-output, prompt_nonempty-line}

-- The options of the menu that act on a user or an address.
pub data Moderation : Type 0 where
  kicking blocking unblocking : Moderation

unfoldable pub option_text : Moderation → Bytes
option_text kicking = codes "7"
option_text blocking = codes "8"
option_text unblocking = codes "9"

unfoldable pub verb : Moderation → Bytes
verb kicking = codes "KICK"
verb blocking = codes "BLOCKIP"
verb unblocking = codes "UNBLOCKIP"

-- The line without its newline.
abbrev pub command_text : Moderation → Bytes → Bytes
command_text option text = verb option ++ (b' ' ∷ text)

-- What is typed: the option and the argument.
abbrev pub typed : Moderation → Bytes → Bytes → Bytes
typed option text rest = option_text option ++ (b'\n' ∷ (text ++ (b'\n' ∷ rest)))

command_text-Plain :
    (option : Moderation) (text : Bytes) → All Plain text → All Plain (command_text option text)
unfolding verb is_plain
command_text-Plain kicking text plain =
    All-append Plain (codes "KICK ") text (is_plain-Plain (codes "KICK ") refl) plain
command_text-Plain blocking text plain =
    All-append Plain (codes "BLOCKIP ") text (is_plain-Plain (codes "BLOCKIP ") refl) plain
command_text-Plain unblocking text plain =
    All-append Plain (codes "UNBLOCKIP ") text (is_plain-Plain (codes "UNBLOCKIP ") refl) plain

length-command_text :
    (option : Moderation) (text : Bytes) → length (command_text option text) ≤ length text + 10
unfolding verb
length-command_text kicking text = omega arith
length-command_text blocking text = omega arith
length-command_text unblocking text = omega arith

unfoldable pub moderation_command : Moderation → ProtocolCommand
moderation_command kicking = kick
moderation_command blocking = blockip
moderation_command unblocking = unblockip

abbrev pub moderation_request : Moderation → Bytes → ProtocolRequest
moderation_request option text = record (request_of (moderation_command option)) {
  argument1 = text;
}

text_argument :
    (command : ProtocolCommand) (text : Bytes)
    → length text < buffer_size
    → parse_argument command a_text text ≡ record (request_of command) { argument1 = text }
unfolding parse_argument
text_argument command text short =
    ap (λ (t : Bytes). record (request_of command) { argument1 = t })
      (take_all (buffer_size - 1) text (omega arith))

protocol_parse_line-command_text :
    (option : Moderation) (text : Bytes)
    → length text < 1000
    → protocol_parse_line (command_text option text ++ (b'\n' ∷ []))
      ≡ moderation_request option text
unfolding verb moderation_command find_plain plain_commands find_prefixed prefixed_commands
    starts_with bytes_eq
protocol_parse_line-command_text kicking text short =
    parse_prefixed (command_text kicking text) text kick a_text (omega arith) refl refl
    ∙ text_argument kick text (omega arith)
protocol_parse_line-command_text blocking text short =
    parse_prefixed (command_text blocking text) text blockip a_text (omega arith) refl refl
    ∙ text_argument blockip text (omega arith)
protocol_parse_line-command_text unblocking text short =
    parse_prefixed (command_text unblocking text) text unblockip a_text (omega arith) refl refl
    ∙ text_argument unblockip text (omega arith)

chosen_action :
    (option : Moderation) → menu_action menu (atoi (option_text option)) ≡ with_arg (verb option)
unfolding menu_action menu atoi strtol_word option_text verb pcd.Protocol.Number.skip_space
    pcd.Protocol.Number.is_space pcd.Protocol.Number.read_digits pcd.Protocol.Number.is_digit
chosen_action kicking = refl
chosen_action blocking = refl
chosen_action unblocking = refl

option_text-Plain : (option : Moderation) → All Plain (option_text option)
unfolding option_text is_plain
option_text-Plain kicking = is_plain-Plain (codes "7") refl
option_text-Plain blocking = is_plain-Plain (codes "8") refl
option_text-Plain unblocking = is_plain-Plain (codes "9") refl

length-option_text : (option : Moderation) → length (option_text option) ≡ 1
unfolding option_text
length-option_text kicking = refl
length-option_text blocking = refl
length-option_text unblocking = refl

do_with_arg-output :
    (option : Moderation) (s : ConsoleState) (text rest : Bytes)
    → All Plain text
    → 0 < length text
    → length text ≤ 254
    → CanWrite s.connection (length (command_text option text) + 1)
    → s.stdin ≡ text ++ (b'\n' ∷ rest)
    → ((do_with_arg (verb option) s).1.connection.output
        ≡ s.connection.output ++ (command_text option text ++ (b'\n' ∷ [])))
      × ((do_with_arg (verb option) s).1.stdin ≡ rest)
unfolding do_with_arg
do_with_arg-output option s text rest plain some_text short can there =
    let got = prompt_nonempty-line 256 s text rest (omega arith) some_text plain there in
    let cmd = command_text option text ++ (b'\n' ∷ []) in
    let size = length-append (command_text option text) (b'\n' ∷ []) in
    let whole : take 511 (verb option ++ (b' ' ∷ (text ++ (b'\n' ∷ [])))) ≡ cmd =
      ap (take 511) (sym (append_assoc (verb option) (b' ' ∷ text) (b'\n' ∷ [])))
      ∙ take_all 511 cmd (omega (arith, size, length-command_text option text)) in
    let after : ConsoleState = record s { stdin = rest } in
    let (output, input) =
      do_simple-output cmd after (subst (CanWrite s.connection) (omega (arith, size)) can) in
    let found : (prompt_nonempty 256 s).0 ≡ some text =
      ap (λ (r : Option Bytes × ConsoleState). r.0) got in
    let steps : do_with_arg (verb option) s ≡ do_simple cmd after =
      rw (do_with_arg, found) refl
      ∙ ap₂ do_simple whole (ap (λ (r : Option Bytes × ConsoleState). r.1) got) in
    rw steps (output, input)

-- What is typed for KICK, BLOCKIP or UNBLOCKIP is one command line to the server.
pub console_turn-output :
    (tar : Bytes → Bool) (option : Moderation) (s : ConsoleState) (text rest : Bytes)
    → All Plain text
    → 0 < length text
    → length text ≤ 254
    → CanWrite s.connection (length (command_text option text) + 1)
    → s.stdin ≡ typed option text rest
    → ((console_turn tar s).1.connection.output
        ≡ s.connection.output ++ (command_text option text ++ (b'\n' ∷ [])))
      × ((console_turn tar s).1.stdin ≡ rest)
unfolding console_turn act
console_turn-output tar option s text rest plain some_text short can there =
    let one = length-option_text option in
    let left = text ++ (b'\n' ∷ rest) in
    let got =
      ap (read_line_stdin 64) there
      ∙ read_line_stdin-line 64 (option_text option) left (omega (arith, one))
          (option_text-Plain option) in
    let sized : (length (option_text option) == 0) ≡ false = ground (arith, one) in
    let after : ConsoleState = record s { stdin = left } in
    rw (console_turn, got, sized, chosen_action option)
      (do_with_arg-output option after text rest plain some_text short can refl)

-- What the server does for the option.
unfoldable pub moderate : Surroundings → ServerState → ℕ → ℕ → Moderation → Bytes → ServerState
moderate env state slot fd kicking text = handle_kick env state slot fd text
moderate env state slot fd blocking text = handle_blockip env state slot fd text
moderate env state slot fd unblocking text = handle_unblockip env state slot fd text

-- The option KICK, BLOCKIP or UNBLOCKIP with an argument that is typed into the console of a
-- connected administrator is what the server then does, with exactly that argument, and nothing
-- stays unread: for an argument of 1 to 254 bytes without a newline or a terminator, a server that
-- has read all that the console sent before, and calls of read and write that do not fail, one for
-- each byte at most.
pub console_turn-handle_client_command :
    (tar : Bytes → Bool) (option : Moderation) (s : ConsoleState) (text rest : Bytes)
    (env : Surroundings) (state : ServerState) (slot fd : ℕ) (client : ClientSession)
    → All Plain text
    → 0 < length text
    → length text ≤ 254
    → s.stdin ≡ typed option text rest
    → s.connection.output ≡ []
    → CanWrite s.connection (length (command_text option text) + 1)
    → is_admin client.type ≡ true
    → (state.connections fd).input ≡ (console_turn tar s).1.connection.output
    → CanRead (state.connections fd) (length (command_text option text) + 1)
    → (handle_client_command env state slot fd client
        ≡ moderate env (line_taken state fd) slot fd option text)
      × (((line_taken state fd).connections fd).input ≡ [])
unfolding handle_request handle_admin_command moderate moderation_command
console_turn-handle_client_command tar option s text rest env state slot fd client plain some_text
      short there fresh can_write admin carried can_read =
    let (output, left) =
      console_turn-output tar option s text rest plain some_text short can_write there in
    let sent : (state.connections fd).input ≡ command_text option text ++ (b'\n' ∷ []) =
      carried
      ∙ output
      ∙ ap (λ (o : Bytes). o ++ (command_text option text ++ (b'\n' ∷ []))) fresh in
    let (handled, unread, ready) =
      handle_client_command-request env state slot fd 0 client (command_text option text) []
        (moderation_request option text) (command_text-Plain option text plain)
        (omega (arith, length-command_text option text))
        (protocol_parse_line-command_text option text (omega (arith, short)))
        (subst (CanRead (state.connections fd)) (omega arith) can_read) sent in
    (handled ∙ administered option, unread)
  where
    administered :
        (choice : Moderation)
        → handle_request env (line_taken state fd) slot fd client (moderation_request choice text)
          ≡ moderate env (line_taken state fd) slot fd choice text
    administered kicking = rw admin refl
    administered blocking = rw admin refl
    administered unblocking = rw admin refl
