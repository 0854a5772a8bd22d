-- ===== src/Client/Downloads.antt =====
-- The answer of src/server/server.c to DOWNLOAD, as src/client/main.c takes it.
use pcd.Prelude.{
  ℕ, zero, suc, ◌+◌, ◌-◌, ◌^◌, ◌≤◌, ◌<◌, ◌≡◌, refl, sym, ap, ◌∙◌, arith, true, false, some, [], ◌∷◌,
  ◌++◌, append_assoc, append-nil, Bytes, bytes_eq_refl, codes, decimal, length, length-append,
  length-drop, length-take, take, drop, take-append, drop-append, ◌==◌, subst, All, All-append,
  IsDigit, decimal-cons, digits-decimal, spelled, spelled-decimal, length-decimal, leb,
}
use pcd.Net.{Descriptor, chunk_size, at_most, read_exact}
use pcd.Net.Reading.{read_exact-take, take-split, drop-split, at_most_cases}
use pcd.Net.Writing.{rounds-le-supply}
use pcd.Net.Left.{CanRead, CanRead-Spent, CanRead-le, CanWrite, CanWrite-le, read_exact-Spent}
use pcd.Storage.{put_file}
use pcd.Protocol.{starts_with, buffer_size}
use pcd.Protocol.Number.{is_digit, read_digits, read_digits-append, skip_space-digit}
use pcd.Client.Lines.{Plain, is_plain, is_plain-Plain, number-Plain}
use pcd.Client.Replies.{about_download, query_line, query-Answered, then_lem}
use pcd.Client.Session.{
  ClientState, ◌>>=◌, ◌>>◌, LocalDisk, send_line, expect_line, job_line, strtol, parse_data_size,
  need, download_loop, save_data, download_result,
}

module _ (disk : LocalDisk) (out_path : Bytes) where
  -- One round: a chunk of `suc w` bytes, of which all come.
  download_step :
      (fuel n w : ℕ) (fd : Descriptor) (stored got : Bytes)
      → at_most chunk_size (suc n) ≡ suc w
      → (read_exact fd (suc w)).0 ≡ some got
      → length got ≡ suc w
      → disk.can_store out_path (suc w) ≡ true
      → download_loop disk (suc fuel) out_path (suc n) fd stored
        ≡ download_loop disk fuel out_path (n - w) (read_exact fd (suc w)).1 (stored ++ got)
  unfolding download_loop
  download_step fuel n w fd stored got want found whole ok =
      let found' : (read_exact fd (at_most chunk_size (suc n))).0 ≡ some got =
        ap (λ (k : ℕ). (read_exact fd k).0) want ∙ found in
      rw (download_loop, found', whole, ok)
        (ap
          (λ (k : ℕ). download_loop disk fuel out_path (n - w) (read_exact fd k).1 (stored ++ got))
          want)

  download_loop-take :
      (fuel n more : ℕ) (fd : Descriptor) (stored : Bytes)
      → n ≤ fuel
      → ((k : ℕ) → disk.can_store out_path k ≡ true)
      → CanRead fd (n + more)
      → n ≤ length fd.input
      → ((download_loop disk fuel out_path n fd stored).0 ≡ true)
        × ((download_loop disk fuel out_path n fd stored).1.0 ≡ stored ++ take n fd.input)
        × ((download_loop disk fuel out_path n fd stored).1.1.input ≡ drop n fd.input)
        × CanRead (download_loop disk fuel out_path n fd stored).1.1 more
  unfolding download_loop
  download_loop-take zero zero more fd stored fuel_ok stores can enough =
      (refl, sym (append-nil stored), refl, CanRead-le fd more (0 + more) can (omega arith))
  download_loop-take zero (suc n) more fd stored fuel_ok stores can enough = absurd (omega arith)
  download_loop-take (suc fuel) zero more fd stored fuel_ok stores can enough =
      (refl, sym (append-nil stored), refl, CanRead-le fd more (0 + more) can (omega arith))
  download_loop-take (suc fuel) (suc n) more fd stored fuel_ok stores can enough =
      let (w, want, below) = at_most_cases n in
      let few = CanRead-le fd (suc w) (suc n + more) can (omega (arith, below)) in
      let (found, left) =
        read_exact-take fd (suc w) can.steady
          (omega (arith, few.enough, rounds-le-supply fd.reads can.steady))
          (omega (arith, below)) in
      let got = take (suc w) fd.input in
      let whole : length got ≡ suc w = omega (arith, length-take (suc w) fd.input, below) in
      let after = (read_exact fd (suc w)).1 in
      let split : suc n + more ≡ suc w + (n - w + more) = omega (arith, below) in
      let ready =
        CanRead-Spent fd after (suc w) (n - w + more) (subst (CanRead fd) split can)
          (read_exact-Spent fd (suc w) few (omega (arith, below))) in
      let (done, stored', rest, last) =
        download_loop-take fuel (n - w) more after (stored ++ got) (omega (arith, fuel_ok)) stores
          ready (omega (arith, ap (length {A = ℕ}) left, length-drop (suc w) fd.input)) in
      let all_of : suc w + (n - w) ≡ suc n = omega (arith, below) in
      rw (download_step fuel n w fd stored got want found whole (stores (suc w))) (
        done,
        stored'
            ∙ append_assoc stored got (take (n - w) after.input)
            ∙ ap (λ (i : Bytes). stored ++ (got ++ take (n - w) i)) left
            ∙ ap (◌++◌ stored) (
                sym (take-split (suc w) (n - w) fd.input) ∙ ap (λ (k : ℕ). take k fd.input) all_of),
        rest
            ∙ ap (drop (n - w)) left
            ∙ sym (drop-split (suc w) (n - w) fd.input)
            ∙ ap (λ (k : ℕ). drop k fd.input) all_of,
        last,
      )

  -- The bytes announced are saved, and what follows them stays unread.
  pub save_data-Saved :
      (s : ClientState) (contents rest : Bytes) (more : ℕ)
      → disk.can_create out_path ≡ true
      → ((k : ℕ) → disk.can_store out_path k ≡ true)
      → CanRead s.connection (length contents + more)
      → s.connection.input ≡ contents ++ rest
      → ((save_data disk (length contents) out_path s).0 ≡ some tt)
        × ((save_data disk (length contents) out_path s).1.files out_path ≡ some contents)
        × ((save_data disk (length contents) out_path s).1.connection.input ≡ rest)
        × CanRead (save_data disk (length contents) out_path s).1.connection more
  unfolding save_data put_file
  save_data-Saved s contents rest more creates stores can sent =
      let size = length contents in
      let (done, stored, left, ready) =
        download_loop-take size size more s.connection [] (omega arith) stores can
          (omega (arith, ap (length {A = ℕ}) sent, length-append contents rest)) in
      rw (save_data, creates, done, bytes_eq_refl out_path)
        (
          refl,
          ap some (stored ∙ ap (take size) sent ∙ take-append contents rest),
          left ∙ ap (drop size) sent ∙ drop-append contents rest,
          ready,
        )

-- The first line of the answer.
abbrev pub data_text : ℕ → Bytes
data_text size = codes "DATA " ++ decimal size

strtol-decimal : (n : ℕ) → n < 2 ^ 63 → strtol (decimal n ++ (b'\n' ∷ [])) ≡ some n
unfolding strtol is_digit
strtol-decimal n small =
    let (c, digits, text) = decimal-cons n in
    let ((lo, hi), others) = subst (All IsDigit) text (digits-decimal n) in
    let rest : Bytes = b'\n' ∷ [] in
    let scan : (read_digits 0 (c ∷ (digits ++ rest))).0 ≡ n =
      ap (λ (r : ℕ × Bytes). r.0) (read_digits-append 0 (c ∷ digits) rest ((lo, hi), others) refl)
      ∙ ap (spelled 0) (sym text)
      ∙ spelled-decimal n (omega (arith, small)) in
    let no_space = skip_space-digit c (digits ++ rest) lo hi in
    let minus : (c == b'-') ≡ false = ground arith in
    let plus : (c == b'+') ≡ false = ground arith in
    let not_large : leb (2 ^ 63) n ≡ false = ground arith in
    rw text (rw (strtol, no_space, minus, plus, scan, not_large) refl)

parse_data_size-data_text :
    (n : ℕ) → n < 2 ^ 63 → parse_data_size (data_text n ++ (b'\n' ∷ [])) ≡ some n
unfolding parse_data_size starts_with
parse_data_size-data_text n small = strtol-decimal n small

data_text-Plain : (n : ℕ) → All Plain (data_text n)
unfolding is_plain
data_text-Plain n =
    All-append Plain (codes "DATA ") (decimal n) (is_plain-Plain (codes "DATA ") refl)
      (number-Plain n)

-- `DOWNLOAD` on an answer with a file.
pub download_result-Saved :
    (disk : LocalDisk) (s : ClientState) (job_id more : ℕ) (out_path contents rest : Bytes)
    → length contents < 2 ^ 63
    → disk.can_create out_path ≡ true
    → ((k : ℕ) → disk.can_store out_path k ≡ true)
    → CanRead s.connection (length (data_text (length contents)) + 1 + (length contents + more))
    → CanWrite s.connection 30
    → s.connection.input ≡ data_text (length contents) ++ (b'\n' ∷ (contents ++ rest))
    → ((download_result disk job_id out_path s).0 ≡ some tt)
      × ((download_result disk job_id out_path s).1.files out_path ≡ some contents)
      × ((download_result disk job_id out_path s).1.connection.input ≡ rest)
unfolding download_result query_line
download_result-Saved disk s job_id more out_path contents rest small creates stores can_read
      can_write sent =
    let size = length contents in
    let short : length (data_text size) + 1 < buffer_size = omega (arith, length-decimal size) in
    let (found, left, written, ready, writes, files) =
      query-Answered about_download s job_id 0 (size + more) (data_text size) (contents ++ rest)
        (data_text-Plain size) short sent can_read
        (CanWrite-le s.connection (30 + 0) 30 can_write (omega arith)) in
    let asked = (do send_line (job_line (query_line about_download job_id)); expect_line) s in
    let (done, saved, last, still) =
      save_data-Saved disk out_path asked.1 contents rest more creates stores ready left in
    let steps : download_result disk job_id out_path s ≡ save_data disk size out_path asked.1 =
      then_lem (send_line (job_line (query_line about_download job_id))) expect_line
        (λ buf. need (parse_data_size buf) >>= λ n. save_data disk n out_path) s
      ∙ rw (found, parse_data_size-data_text size small) refl in
    rw steps (done, saved, last)
