-- ===== src/Client/Replies.antt =====
-- How src/client/main.c sends a command about a job and reads the answer.
use pcd.Prelude.{
  ℕ, ◌+◌, ◌≤◌, ◌<◌, ◌≡◌, refl, sym, ap, ◌∙◌, arith, Option, none, some, List, [], ◌∷◌, ◌++◌, Bytes,
  All, length, length-append, length-decimal, decimal, take_all, subst, c_string,
}
use pcd.Net.{IoCall, read_line}
use pcd.Net.Reading.{IsSteady, rounds, read_line_lem}
use pcd.Net.Left.{CanRead, CanWrite, CanRead-Spent, read_line-Spent}
use pcd.Protocol.{buffer_size}
use pcd.Client.{
  ClientLine, status_line, result_line, meta_line, download_line, line_text, sent_line,
}
use pcd.Client.Lines.{Plain, Plain-newline, c_string-line}
use pcd.Client.Session.{
  ClientState, Client, continue_with, ◌>>=◌, ◌>>◌, send_line, expect_line, some_line, job_line,
}
use pcd.Client.Requests.{send_line-Wrote}

-- The client has read a line and nothing else; `rest` is still to be read, with calls for `more`
-- bytes.
pub record Answered (s : ClientState) (result : Option Bytes × ClientState) (line rest : Bytes)
    (more : ℕ) : Type 0 where
  pub found : result.0 ≡ some line
  pub input : result.1.connection.input ≡ rest
  pub output : result.1.connection.output ≡ s.connection.output
  pub writes : result.1.connection.writes ≡ s.connection.writes
  pub ready : CanRead result.1.connection more
  pub files : result.1.files ≡ s.files

some_line-newline :
    (text : Bytes)
    → some_line (some (text ++ (b'\n' ∷ []))) ≡ some (c_string (text ++ (b'\n' ∷ [])))
some_line-newline [] = refl
some_line-newline (ch ∷ text) = refl

pub expect_line-Answered :
    (s : ClientState) (text rest : Bytes) (more : ℕ)
    → All Plain text
    → length text + 1 < buffer_size
    → s.connection.input ≡ text ++ (b'\n' ∷ rest)
    → CanRead s.connection (length text + 1 + more)
    → Answered s (expect_line s) (text ++ (b'\n' ∷ [])) rest more
unfolding expect_line read_line
expect_line-Answered s text rest more plain short sent can =
    let no_newline = Plain-newline text plain in
    let (found, left) =
      read_line_lem s.connection buffer_size text rest can.steady (omega (arith, can.enough)) short
        no_newline sent in
    let spent =
      read_line-Spent s.connection buffer_size text rest can.steady (omega (arith, can.enough))
        short no_newline sent in
    record {
      found = ap some_line found ∙ some_line-newline text ∙ ap some (c_string-line text plain);
      input = left;
      output = refl;
      writes = refl;
      ready =
          CanRead-Spent s.connection (read_line s.connection buffer_size).1 (length text + 1) more
            can spent;
      files = refl;
    }

then_after :
    {A B C : Type 0} (second : Client B) (next : B → Client C) (o : Option A) (s : ClientState)
    → continue_with (λ (a : A). second >>= next) o s
      ≡ continue_with next
          (continue_with (λ (a : A). second) o s).0
          (continue_with (λ (a : A). second) o s).1
then_after second next none s = refl
then_after second next (some a) s = refl

-- Two steps and what follows them.
pub then_lem :
    {A B C : Type 0} (first : Client A) (second : Client B) (next : B → Client C) (s : ClientState)
    → (first >> (second >>= next)) s
      ≡ continue_with next ((first >> second) s).0 ((first >> second) s).1
then_lem first second next s = then_after second next (first s).0 (first s).1

-- A command about one job.
pub data JobQuery : Type 0 where
  about_status about_result about_meta about_download : JobQuery

unfoldable pub query_line : JobQuery → ℕ → ClientLine
query_line about_status job_id = status_line job_id
query_line about_result job_id = result_line job_id
query_line about_meta job_id = meta_line job_id
query_line about_download job_id = download_line job_id

length-query_line :
    (query : JobQuery) (job_id : ℕ) → length (sent_line (query_line query job_id)) ≤ 30
unfolding query_line sent_line line_text
length-query_line about_status n =
    omega (arith, length-append (decimal n) (b'\n' ∷ []), length-decimal n)
length-query_line about_result n =
    omega (arith, length-append (decimal n) (b'\n' ∷ []), length-decimal n)
length-query_line about_meta n =
    omega (arith, length-append (decimal n) (b'\n' ∷ []), length-decimal n)
length-query_line about_download n =
    omega (arith, length-append (decimal n) (b'\n' ∷ []), length-decimal n)

-- A command about a job fits its buffer.
pub job_line_lem :
    (query : JobQuery) (job_id : ℕ)
    → job_line (query_line query job_id) ≡ sent_line (query_line query job_id)
job_line_lem query job_id =
    take_all 63 (sent_line (query_line query job_id))
      (omega (arith, length-query_line query job_id))

-- The command is written in full, and its answer read.
pub query-Answered :
    (query : JobQuery) (s : ClientState) (job_id more_writes more_reads : ℕ) (text rest : Bytes)
    → All Plain text
    → length text + 1 < buffer_size
    → s.connection.input ≡ text ++ (b'\n' ∷ rest)
    → CanRead s.connection (length text + 1 + more_reads)
    → CanWrite s.connection (30 + more_writes)
    → let after = (do send_line (job_line (query_line query job_id)); expect_line) s in
      (after.0 ≡ some (text ++ (b'\n' ∷ [])))
      × (after.1.connection.input ≡ rest)
      × (after.1.connection.output ≡ s.connection.output ++ sent_line (query_line query job_id))
      × CanRead after.1.connection more_reads
      × CanWrite after.1.connection more_writes
      × (after.1.files ≡ s.files)
query-Answered query s job_id more_writes more_reads text rest plain short sent can_read can_write =
    let line = sent_line (query_line query job_id) in
    let small = length-query_line query job_id in
    let wrote =
      send_line-Wrote s line more_writes
        (record { steady = can_write.steady; enough = omega (arith, can_write.enough, small) }) in
    let asked = (send_line line s).1 in
    let ready : CanRead asked.connection (length text + 1 + more_reads) = record {
      steady = subst IsSteady (sym wrote.sent.reads) can_read.steady;
      enough =
          subst (λ (calls : List IoCall). length text + 1 + more_reads ≤ rounds calls)
            (sym wrote.sent.reads) can_read.enough;
    } in
    let answered =
      expect_line-Answered asked text rest more_reads plain short (wrote.sent.input ∙ sent) ready in
    let last : CanWrite (expect_line asked).1.connection more_writes = record {
      steady = subst IsSteady (sym answered.writes) wrote.sent.ready.steady;
      enough =
          subst (λ (calls : List IoCall). more_writes ≤ rounds calls) (sym answered.writes)
            wrote.sent.ready.enough;
    } in
    let steps : (do send_line line; expect_line) s ≡ expect_line asked = rw wrote.done refl in
    rw (job_line_lem query job_id, steps)
      (
        answered.found,
        answered.input,
        answered.output ∙ wrote.sent.output,
        answered.ready,
        last,
        answered.files ∙ wrote.files,
      )
