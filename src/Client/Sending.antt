-- ===== src/Client/Sending.antt =====
-- The requests of src/client/main.c: the line with the sizes of what follows it, and the bytes.
use pcd.Prelude.{
  base_name, ℕ, ◌+◌, ◌-◌, ◌≤◌, ◌≡◌, refl, sym, ap, ◌∙◌, arith, true, Option, some, [], ◌∷◌, ◌++◌,
  Bytes, length, length-append, take_all, subst,
}
use pcd.Net.Left.{CanWrite}
use pcd.Storage.{get_file_size_bytes}
use pcd.Client.{ClientLine, encode_text_line, encode_file_line, line_text, sent_line}
use pcd.Client.Commands.{length-line_text}
use pcd.Client.Session.{
  ClientState, ◌>>◌, LocalDisk, send_bytes, send_line, send_file_bytes, line_buffer,
  send_text_request,
}
use pcd.Client.Main.{send_png_request, send_file_request}
use pcd.Client.Requests.{
  Wrote, Wrote-append, send_bytes-Wrote, send_line-Wrote, send_file_bytes-Wrote,
}

-- A file of the client that can be measured and read.
pub record Readable (disk : LocalDisk) (s : ClientState) (path contents : Bytes) : Type 0 where
  pub found : s.files path ≡ some contents
  pub seeks : disk.can_seek path ≡ true
  pub reads : disk.can_read path ≡ true

pub Readable-kept :
    (disk : LocalDisk) (s after : ClientState) (path contents : Bytes)
    → after.files ≡ s.files
    → Readable disk s path contents
    → Readable disk after path contents
Readable-kept disk s after path contents same file = record {
  found = ap (λ (f : Bytes → Option Bytes). f path) same ∙ file.found;
  seeks = file.seeks;
  reads = file.reads;
}

measured_lem :
    (disk : LocalDisk) (s : ClientState) (path contents : Bytes)
    → Readable disk s path contents
    → get_file_size_bytes s.files path ≡ some (length contents)
unfolding get_file_size_bytes
measured_lem disk s path contents file = rw (get_file_size_bytes, file.found) refl

pub length-sent_line : (line : ClientLine) → length (sent_line line) ≡ length (line_text line) + 1
unfolding sent_line
length-sent_line line = length-append (line_text line) (b'\n' ∷ [])

pub line_buffer_lem :
    (size : ℕ) (line : ClientLine) → 82 ≤ size → line_buffer size line ≡ sent_line line
line_buffer_lem size line large =
    take_all (size - 1) (sent_line line)
      (omega (arith, length-sent_line line, length-line_text line))

pub send_png_request-Wrote :
    (disk : LocalDisk) (s : ClientState) (line : ℕ → ClientLine) (png_in png : Bytes) (more : ℕ)
    → Readable disk s png_in png
    → CanWrite s.connection (length (sent_line (line (length png))) + (length png + more))
    → Wrote s (send_png_request disk line png_in s) (sent_line (line (length png)) ++ png) more
unfolding send_png_request
send_png_request-Wrote disk s line png_in png more file can =
    let text = sent_line (line (length png)) in
    let measured : get_file_size_bytes s.files png_in ≡ some (length png) =
      measured_lem disk s png_in png file in
    let buffer = line_buffer_lem 128 (line (length png)) (omega arith) in
    let line_sent = send_line-Wrote s text (length png + more) can in
    let after = (send_line text s).1 in
    let kept = Readable-kept disk s after png_in png line_sent.files file in
    let whole =
      Wrote-append s (send_line text) (send_file_bytes disk png_in) text png more line_sent (
        send_file_bytes-Wrote disk after png_in png more kept.found kept.seeks kept.reads
          line_sent.sent.ready) in
    let steps : send_png_request disk line png_in s
        ≡ (send_line text >> send_file_bytes disk png_in) s =
      rw (send_png_request, measured, buffer) refl in
    rw steps whole

pub send_text_request-Wrote :
    (disk : LocalDisk) (s : ClientState) (png_in png text : Bytes) (more : ℕ)
    → Readable disk s png_in png
    → CanWrite s.connection (
        length (sent_line (encode_text_line (length png) (length text)))
        + (length png + (length text + more)))
    → Wrote s
        (send_text_request disk png_in text s)
        (sent_line (encode_text_line (length png) (length text)) ++ (png ++ text))
        more
unfolding send_text_request
send_text_request-Wrote disk s png_in png text more file can =
    let command = sent_line (encode_text_line (length png) (length text)) in
    let measured : get_file_size_bytes s.files png_in ≡ some (length png) =
      measured_lem disk s png_in png file in
    let buffer = line_buffer_lem 256 (encode_text_line (length png) (length text)) (omega arith) in
    let both : length png + (length text + more) ≡ length (png ++ text) + more =
      omega (arith, length-append png text) in
    let line_sent =
      send_line-Wrote s command (length (png ++ text) + more)
        (subst (λ (k : ℕ). CanWrite s.connection (length command + k)) both can) in
    let after = (send_line command s).1 in
    let kept = Readable-kept disk s after png_in png line_sent.files file in
    let file_sent =
      send_file_bytes-Wrote disk after png_in png (length text + more) kept.found kept.seeks
        kept.reads (subst (CanWrite after.connection) (sym both) line_sent.sent.ready) in
    let files_sent =
      Wrote-append after (send_file_bytes disk png_in) (send_bytes text) png text more file_sent
        (send_bytes-Wrote (send_file_bytes disk png_in after).1 text more file_sent.sent.ready) in
    let whole =
      Wrote-append s (send_line command) (send_file_bytes disk png_in >> send_bytes text) command
        (png ++ text) more line_sent files_sent in
    let steps : send_text_request disk png_in text s
        ≡ (send_line command >> (send_file_bytes disk png_in >> send_bytes text)) s =
      rw (send_text_request, measured, buffer) refl in
    rw steps whole

pub send_file_request-Wrote :
    (disk : LocalDisk) (s : ClientState) (png_in file_in png file : Bytes) (more : ℕ)
    → Readable disk s png_in png
    → Readable disk s file_in file
    → let name = base_name file_in in
      CanWrite s.connection (
        length (sent_line (encode_file_line (length png) (length name) (length file)))
        + (length png + (length name + (length file + more))))
      → let name = base_name file_in in
        Wrote s
          (send_file_request disk png_in file_in s)
          (sent_line (encode_file_line (length png) (length name) (length file))
            ++ (png ++ (name ++ file)))
          more
unfolding send_file_request
send_file_request-Wrote disk s png_in file_in png file more carrier payload can =
    let name = base_name file_in in
    let command = encode_file_line (length png) (length name) (length file) in
    let first = measured_lem disk s png_in png carrier in
    let second = measured_lem disk s file_in file payload in
    let buffer = line_buffer_lem 256 command (omega arith) in
    let last_two : length name + (length file + more) ≡ length (name ++ file) + more =
      omega (arith, length-append name file) in
    let all_three : length png + (length name + (length file + more))
        ≡ length (png ++ (name ++ file)) + more =
      omega (arith, length-append name file, length-append png (name ++ file)) in
    let line_sent =
      send_line-Wrote s (sent_line command) (length (png ++ (name ++ file)) + more)
        (subst (λ (k : ℕ). CanWrite s.connection (length (sent_line command) + k)) all_three can) in
    let after = (send_line (sent_line command) s).1 in
    let kept = Readable-kept disk s after png_in png line_sent.files carrier in
    let png_sent =
      send_file_bytes-Wrote disk after png_in png (length (name ++ file) + more) kept.found
        kept.seeks kept.reads
        (subst (CanWrite after.connection) (sym all_three ∙ ap (◌+◌ (length png)) last_two)
          line_sent.sent.ready) in
    let then_png = (send_file_bytes disk png_in after).1 in
    let name_sent =
      send_bytes-Wrote then_png name (length file + more)
        (subst (CanWrite then_png.connection) (sym last_two) png_sent.sent.ready) in
    let then_name = (send_bytes name then_png).1 in
    let kept' =
      Readable-kept disk s then_name file_in file
        (name_sent.files ∙ png_sent.files ∙ line_sent.files) payload in
    let file_sent =
      send_file_bytes-Wrote disk then_name file_in file more kept'.found kept'.seeks kept'.reads
        name_sent.sent.ready in
    let name_file =
      Wrote-append then_png (send_bytes name) (send_file_bytes disk file_in) name file more
        name_sent file_sent in
    let files_sent =
      Wrote-append after (send_file_bytes disk png_in)
        (send_bytes name >> send_file_bytes disk file_in) png (name ++ file) more png_sent
        name_file in
    let whole =
      Wrote-append s (send_line (sent_line command))
        (send_file_bytes disk png_in >> (send_bytes name >> send_file_bytes disk file_in))
        (sent_line command) (png ++ (name ++ file)) more line_sent files_sent in
    let steps : send_file_request disk png_in file_in s
        ≡ (send_line (sent_line command)
              >> (send_file_bytes disk png_in >> (send_bytes name >> send_file_bytes disk file_in)))
            s =
      rw (send_file_request, first, second, buffer) refl in
    rw steps whole
