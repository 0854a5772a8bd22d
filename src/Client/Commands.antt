-- ===== src/Client/Commands.antt =====
-- Each line that the client sends is read by src/server/protocol.c as the command it means.
use pcd.Prelude.{
  ℕ, ◌+◌, ◌^◌, ◌-◌, ◌≤◌, ◌<◌, ◌≡◌, refl, sym, ap, ◌∙◌, arith, none, some, [], ◌∷◌, ◌++◌, append-nil,
  Bytes, bytes_eq, codes, decimal, length, length-append, length-decimal, take, take_all,
}
use pcd.Protocol.{
  ProtocolCommand, ProtocolRequest, Argument, a_job, one_size, two_sizes, three_sizes, request_of,
  buffer_size, trim_newline, starts_with, plain_commands, find_plain, prefixed_commands,
  find_prefixed, parse_sizes, parse_three_sizes, parse_argument, parse_copy, protocol_parse_line,
  ping, quit, status, result, meta, download, encode_text, encode_file, decode, capacity, validate,
}
use pcd.Protocol.Number.{
  Converted, is_digit, strtoull, parse_u64, skip_ws, strtoull-decimal, parse_u64-decimal,
  skip_ws-decimal,
}
use pcd.Client.{
  ClientLine, ping_line, quit_line, status_line, result_line, meta_line, download_line,
  encode_text_line, encode_file_line, decode_line, capacity_line, validate_line, line_text,
  sent_line,
}

-- The request that a line means.
unfoldable pub meant : ClientLine → ProtocolRequest
meant ping_line = request_of ping
meant quit_line = request_of quit
meant (status_line job_id) = record (request_of status) { job_id = job_id }
meant (result_line job_id) = record (request_of result) { job_id = job_id }
meant (meta_line job_id) = record (request_of meta) { job_id = job_id }
meant (download_line job_id) = record (request_of download) { job_id = job_id }
meant (encode_text_line png_size text_len) = record (request_of encode_text) {
  size1 = png_size;
  size2 = text_len;
}
meant (encode_file_line png_size name_len file_size) = record (request_of encode_file) {
  size1 = png_size;
  size2 = name_len;
  size3 = file_size;
}
meant (decode_line png_size) = record (request_of decode) { size1 = png_size }
meant (capacity_line png_size) = record (request_of capacity) { size1 = png_size }
meant (validate_line png_size) = record (request_of validate) { size1 = png_size }

-- The numbers of a line are 64-bit words.
abbrev pub InRange : ClientLine → Type 0
InRange ping_line = Unit
InRange quit_line = Unit
InRange (status_line a) = a < 2 ^ 64
InRange (result_line a) = a < 2 ^ 64
InRange (meta_line a) = a < 2 ^ 64
InRange (download_line a) = a < 2 ^ 64
InRange (encode_text_line a b) = (a < 2 ^ 64) × (b < 2 ^ 64)
InRange (encode_file_line a b c) = (a < 2 ^ 64) × (b < 2 ^ 64) × (c < 2 ^ 64)
InRange (decode_line a) = a < 2 ^ 64
InRange (capacity_line a) = a < 2 ^ 64
InRange (validate_line a) = a < 2 ^ 64

pub trim_newline-append : (text : Bytes) → trim_newline (text ++ (b'\n' ∷ [])) ≡ text
unfolding trim_newline
trim_newline-append [] = refl
trim_newline-append (ch ∷ []) = refl
trim_newline-append (ch ∷ next ∷ rest) = ap (◌∷◌ ch) (trim_newline-append (next ∷ rest))

-- A line short enough is parsed by the text before its newline.
copied_line :
    (text : Bytes)
    → length text + 1 < buffer_size
    → trim_newline (take (buffer_size - 1) (text ++ (b'\n' ∷ []))) ≡ text
copied_line text short =
    ap trim_newline (
      take_all (buffer_size - 1) (text ++ (b'\n' ∷ []))
        (omega (arith, length-append text (b'\n' ∷ []))))
    ∙ trim_newline-append text

parse_line_lem :
    (text : Bytes)
    → length text + 1 < buffer_size
    → protocol_parse_line (text ++ (b'\n' ∷ [])) ≡ parse_copy text
unfolding protocol_parse_line
parse_line_lem text short = ap parse_copy (copied_line text short)

parse_plain :
    (text : Bytes) (command : ProtocolCommand)
    → length text + 1 < buffer_size
    → find_plain plain_commands text ≡ some command
    → protocol_parse_line (text ++ (b'\n' ∷ [])) ≡ request_of command
unfolding parse_copy
parse_plain text command short found = parse_line_lem text short ∙ rw (parse_copy, found) refl

pub parse_prefixed :
    (text p : Bytes) (command : ProtocolCommand) (argument : Argument)
    → length text + 1 < buffer_size
    → find_plain plain_commands text ≡ none
    → find_prefixed prefixed_commands text ≡ some (command, (argument, p))
    → protocol_parse_line (text ++ (b'\n' ∷ [])) ≡ parse_argument command argument p
unfolding parse_copy
parse_prefixed text p command argument short other found =
    parse_line_lem text short ∙ rw (parse_copy, other, found) refl

-- A number that ends the line.
strtoull-last : (n : ℕ) → n < 2 ^ 64 → (strtoull (decimal n)).value ≡ n
strtoull-last n small =
    ap (λ (s : Bytes). (strtoull s).value) (sym (append-nil (decimal n)))
    ∙ ap (λ (r : Converted). r.value) (strtoull-decimal n [] small tt)

parse_u64-last : (n : ℕ) → n < 2 ^ 64 → parse_u64 (decimal n) ≡ some (n, [])
parse_u64-last n small =
    ap parse_u64 (sym (append-nil (decimal n))) ∙ parse_u64-decimal n [] small tt

skip_ws-last : (n : ℕ) → skip_ws (b' ' ∷ decimal n) ≡ decimal n
skip_ws-last n =
    ap (λ (s : Bytes). skip_ws (b' ' ∷ s)) (sym (append-nil (decimal n)))
    ∙ skip_ws-decimal n []
    ∙ append-nil (decimal n)

job_argument :
    (command : ProtocolCommand) (n : ℕ)
    → n < 2 ^ 64
    → parse_argument command a_job (decimal n) ≡ record (request_of command) { job_id = n }
unfolding parse_argument
job_argument command n small =
    ap (λ (v : ℕ). record (request_of command) { job_id = v }) (strtoull-last n small)

size_argument :
    (command : ProtocolCommand) (n : ℕ)
    → n < 2 ^ 64
    → parse_argument command one_size (decimal n) ≡ record (request_of command) { size1 = n }
unfolding parse_argument
size_argument command n small =
    ap (λ (v : ℕ). record (request_of command) { size1 = v }) (strtoull-last n small)

sizes_argument :
    (command : ProtocolCommand) (a b : ℕ)
    → a < 2 ^ 64
    → b < 2 ^ 64
    → parse_argument command two_sizes (decimal a ++ (b' ' ∷ decimal b))
      ≡ record (request_of command) { size1 = a; size2 = b }
unfolding parse_argument is_digit
sizes_argument command a b ha hb =
    rw
      (
        parse_sizes,
        parse_u64-decimal a (b' ' ∷ decimal b) ha refl,
        skip_ws-last b,
        parse_u64-last b hb,
      )
      refl

three_sizes_argument :
    (command : ProtocolCommand) (a b c : ℕ)
    → a < 2 ^ 64
    → b < 2 ^ 64
    → c < 2 ^ 64
    → parse_argument command three_sizes (decimal a ++ (b' ' ∷ (decimal b ++ (b' ' ∷ decimal c))))
      ≡ record (request_of command) { size1 = a; size2 = b; size3 = c }
unfolding parse_argument is_digit
three_sizes_argument command a b c ha hb hc =
    rw
      (
        parse_three_sizes,
        parse_u64-decimal a (b' ' ∷ (decimal b ++ (b' ' ∷ decimal c))) ha refl,
        skip_ws-decimal b (b' ' ∷ decimal c),
        parse_u64-decimal b (b' ' ∷ decimal c) hb refl,
        skip_ws-last c,
        parse_u64-last c hc,
      )
      refl

pub length-line_text : (line : ClientLine) → length (line_text line) ≤ 80
unfolding line_text
length-line_text ping_line = omega arith
length-line_text quit_line = omega arith
length-line_text (status_line a) = omega (arith, length-decimal a)
length-line_text (result_line a) = omega (arith, length-decimal a)
length-line_text (meta_line a) = omega (arith, length-decimal a)
length-line_text (download_line a) = omega (arith, length-decimal a)
length-line_text (encode_text_line a b) =
    omega (arith, length-append (decimal a) (b' ' ∷ decimal b), length-decimal a, length-decimal b)
length-line_text (encode_file_line a b c) = omega (
  arith,
  length-append (decimal a) (b' ' ∷ (decimal b ++ (b' ' ∷ decimal c))),
  length-append (decimal b) (b' ' ∷ decimal c),
  length-decimal a,
  length-decimal b,
  length-decimal c,
)
length-line_text (decode_line a) = omega (arith, length-decimal a)
length-line_text (capacity_line a) = omega (arith, length-decimal a)
length-line_text (validate_line a) = omega (arith, length-decimal a)

-- Every line the client sends, with 64-bit numbers, is parsed as the request it means: command,
-- job number and sizes.
pub protocol_parse_line-sent_line :
    (line : ClientLine) → InRange line → protocol_parse_line (sent_line line) ≡ meant line
unfolding sent_line line_text meant find_plain plain_commands find_prefixed prefixed_commands
    starts_with bytes_eq
protocol_parse_line-sent_line ping_line h = parse_plain (codes "PING") ping (omega arith) refl
protocol_parse_line-sent_line quit_line h = parse_plain (codes "QUIT") quit (omega arith) refl
protocol_parse_line-sent_line (status_line a) h =
    parse_prefixed (line_text (status_line a)) (decimal a) status a_job
      (omega (arith, length-line_text (status_line a))) refl refl
    ∙ job_argument status a h
protocol_parse_line-sent_line (result_line a) h =
    parse_prefixed (line_text (result_line a)) (decimal a) result a_job
      (omega (arith, length-line_text (result_line a))) refl refl
    ∙ job_argument result a h
protocol_parse_line-sent_line (meta_line a) h =
    parse_prefixed (line_text (meta_line a)) (decimal a) meta a_job
      (omega (arith, length-line_text (meta_line a))) refl refl
    ∙ job_argument meta a h
protocol_parse_line-sent_line (download_line a) h =
    parse_prefixed (line_text (download_line a)) (decimal a) download a_job
      (omega (arith, length-line_text (download_line a))) refl refl
    ∙ job_argument download a h
protocol_parse_line-sent_line (encode_text_line a b) (ha, hb) =
    parse_prefixed (line_text (encode_text_line a b)) (decimal a ++ (b' ' ∷ decimal b)) encode_text
      two_sizes (omega (arith, length-line_text (encode_text_line a b))) refl refl
    ∙ sizes_argument encode_text a b ha hb
protocol_parse_line-sent_line (encode_file_line a b c) (ha, hb, hc) =
    parse_prefixed (line_text (encode_file_line a b c))
      (decimal a ++ (b' ' ∷ (decimal b ++ (b' ' ∷ decimal c)))) encode_file three_sizes
      (omega (arith, length-line_text (encode_file_line a b c))) refl refl
    ∙ three_sizes_argument encode_file a b c ha hb hc
protocol_parse_line-sent_line (decode_line a) h =
    parse_prefixed (line_text (decode_line a)) (decimal a) decode one_size
      (omega (arith, length-line_text (decode_line a))) refl refl
    ∙ size_argument decode a h
protocol_parse_line-sent_line (capacity_line a) h =
    parse_prefixed (line_text (capacity_line a)) (decimal a) capacity one_size
      (omega (arith, length-line_text (capacity_line a))) refl refl
    ∙ size_argument capacity a h
protocol_parse_line-sent_line (validate_line a) h =
    parse_prefixed (line_text (validate_line a)) (decimal a) validate one_size
      (omega (arith, length-line_text (validate_line a))) refl refl
    ∙ size_argument validate a h
