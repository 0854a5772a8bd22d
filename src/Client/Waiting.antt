-- ===== src/Client/Waiting.antt =====
-- How `wait_for_done` of src/client/main.c reads the answers of src/server/server.c to STATUS.
use pcd.Prelude.{
  ℕ, zero, suc, ◌+◌, ◌*◌, ◌<◌, ◌≡◌, refl, ◌∙◌, arith, true, false, Option, none, some, List, [],
  ◌∷◌, ◌++◌, append_assoc, Bytes, All, length,
}
use pcd.Net.Left.{CanRead, CanRead-le, CanWrite, CanWrite-le}
use pcd.Job.{Job, JobState, queued, running, done, failed, canceled, is_active}
use pcd.Server.User.{status_text}
use pcd.Client.{status_line}
use pcd.Client.Replies.{about_status, query_line, query-Answered}
use pcd.Client.Session.{
  ClientState, ◌>>◌, send_line, expect_line, job_line, pending, verdict, wait_rounds, wait_for_done,
}
use pcd.Client.Verdicts.{
  verdict_of, answer_text, answer_text-verdict, answer_text-Plain, length-answer_text,
}

-- The end of the wait, by the state that ends it.
unfoldable pub waited : JobState → Option (Unit {0})
waited done = some tt
waited _ = none

abbrev IsPending : JobState → Type 0
IsPending state = is_active state ≡ true

pending_verdict : (state : JobState) → IsPending state → verdict_of state ≡ pending
unfolding verdict_of is_active
pending_verdict queued e = refl
pending_verdict running e = refl
pending_verdict done e = absurd (ground (arith, e))
pending_verdict failed e = absurd (ground (arith, e))
pending_verdict canceled e = absurd (ground (arith, e))

asked : ℕ → ClientState → Option Bytes × ClientState
asked job_id s = (do send_line (job_line (status_line job_id)); expect_line) s

ask_again :
    (rounds job_id : ℕ) (s : ClientState) (buf : Bytes)
    → (asked job_id s).0 ≡ some buf
    → verdict buf ≡ pending
    → wait_rounds (suc rounds) job_id s ≡ wait_rounds rounds job_id (asked job_id s).1
unfolding wait_rounds asked
ask_again rounds job_id s buf found going = rw (wait_rounds, found, going) refl

last_answer :
    (rounds job_id : ℕ) (s : ClientState) (buf : Bytes) (state : JobState)
    → (asked job_id s).0 ≡ some buf
    → is_active state ≡ false
    → verdict buf ≡ verdict_of state
    → wait_rounds (suc rounds) job_id s ≡ (waited state, (asked job_id s).1)
unfolding wait_rounds asked verdict_of waited is_active
last_answer rounds job_id s buf queued found ended going = absurd (ground (arith, ended))
last_answer rounds job_id s buf running found ended going = absurd (ground (arith, ended))
last_answer rounds job_id s buf done found ended going = rw (wait_rounds, found, going) refl
last_answer rounds job_id s buf failed found ended going = rw (wait_rounds, found, going) refl
last_answer rounds job_id s buf canceled found ended going = rw (wait_rounds, found, going) refl

-- The answers to STATUS for a job as it is at those times.
unfoldable pub status_texts : ℕ → List Job → Bytes → Bytes
status_texts job_id [] rest = rest
status_texts job_id (job ∷ jobs) rest = status_text job_id job ++ status_texts job_id jobs rest

status_text-answer :
    (job_id : ℕ) (job : Job) (rest : Bytes)
    → status_text job_id job ++ rest ≡ answer_text job_id job.state ++ (b'\n' ∷ rest)
unfolding status_text
status_text-answer job_id job rest = simp append_assoc

status-Answered :
    (s : ClientState) (job_id more_writes more_reads : ℕ) (job : Job) (rest : Bytes)
    → s.connection.input ≡ status_text job_id job ++ rest
    → CanRead s.connection (41 + more_reads)
    → CanWrite s.connection (30 + more_writes)
    → ((asked job_id s).0 ≡ some (answer_text job_id job.state ++ (b'\n' ∷ [])))
      × ((asked job_id s).1.connection.input ≡ rest)
      × CanRead (asked job_id s).1.connection more_reads
      × CanWrite (asked job_id s).1.connection more_writes
unfolding asked query_line
status-Answered s job_id more_writes more_reads job rest sent can_read can_write =
    let state = job.state in
    let small = length-answer_text job_id state in
    let (found, left, written, reads, writes, files) =
      query-Answered about_status s job_id more_writes more_reads (answer_text job_id state) rest
        (answer_text-Plain job_id state) (omega (arith, small))
        (sent ∙ status_text-answer job_id job rest)
        (CanRead-le s.connection (length (answer_text job_id state) + 1 + more_reads)
          (41 + more_reads) can_read (omega (arith, small)))
        can_write in
    (found, left, reads, writes)

wait_rounds-waited :
    (jobs : List Job) (rounds job_id : ℕ) (s : ClientState) (last : Job) (rest : Bytes)
    → length jobs < rounds
    → All (λ job. is_active (Job.state job) ≡ true) jobs
    → is_active last.state ≡ false
    → CanRead s.connection (41 * suc (length jobs))
    → CanWrite s.connection (30 * suc (length jobs))
    → s.connection.input ≡ status_texts job_id jobs (status_text job_id last ++ rest)
    → ((wait_rounds rounds job_id s).0 ≡ waited last.state)
      × ((wait_rounds rounds job_id s).1.connection.input ≡ rest)
unfolding status_texts
wait_rounds-waited jobs zero job_id s last rest fuel_ok going ended can_read can_write sent =
    absurd (omega arith)
wait_rounds-waited [] (suc rounds) job_id s last rest fuel_ok going ended can_read can_write sent =
    let (found, left, reads, writes) =
      status-Answered s job_id 0 0 last rest sent
        (CanRead-le s.connection (41 + 0) (41 * suc 0) can_read (omega arith))
        (CanWrite-le s.connection (30 + 0) (30 * suc 0) can_write (omega arith)) in
    rw
      (last_answer rounds job_id s (answer_text job_id last.state ++ (b'\n' ∷ [])) last.state found
        ended (answer_text-verdict job_id last.state))
      (refl, left)
wait_rounds-waited (job ∷ jobs) (suc rounds) job_id s last rest fuel_ok (one, going) ended can_read
      can_write sent =
    let n = length jobs in
    let (found, left, reads, writes) =
      status-Answered s job_id (30 * suc n) (41 * suc n) job
        (status_texts job_id jobs (status_text job_id last ++ rest)) sent
        (CanRead-le s.connection (41 + 41 * suc n) (41 * suc (suc n)) can_read (omega arith))
        (CanWrite-le s.connection (30 + 30 * suc n) (30 * suc (suc n)) can_write (omega arith)) in
    rw
      (ask_again rounds job_id s (answer_text job_id job.state ++ (b'\n' ∷ [])) found
        (answer_text-verdict job_id job.state ∙ pending_verdict job.state one))
      (wait_rounds-waited jobs rounds job_id (asked job_id s).1 last rest (omega (arith, fuel_ok))
        going ended reads writes left)

-- When the job is still queued or running in up to 119 answers to STATUS and has ended in the next
-- one, `wait_for_done` stops there, with success exactly when the job is done, and leaves what
-- follows unread, for calls of read and write that do not fail, one for each byte at most.
pub wait_for_done-waited :
    (jobs : List Job) (job_id : ℕ) (s : ClientState) (last : Job) (rest : Bytes)
    → length jobs < 120
    → All (λ job. is_active (Job.state job) ≡ true) jobs
    → is_active last.state ≡ false
    → CanRead s.connection (41 * suc (length jobs))
    → CanWrite s.connection (30 * suc (length jobs))
    → s.connection.input ≡ status_texts job_id jobs (status_text job_id last ++ rest)
    → ((wait_for_done job_id s).0 ≡ waited last.state)
      × ((wait_for_done job_id s).1.connection.input ≡ rest)
unfolding wait_for_done
wait_for_done-waited jobs job_id s last rest few going ended can_read can_write sent =
    wait_rounds-waited jobs 120 job_id s last rest few going ended can_read can_write sent
