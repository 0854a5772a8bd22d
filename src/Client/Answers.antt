-- ===== src/Client/Answers.antt =====
-- The answer of src/server/server.c to a new job, as src/client/main.c reads it.
use pcd.Prelude.{
  ℕ, ◌^◌, ◌≤◌, ◌<◌, ◌≡◌, refl, ap, ◌∙◌, arith, true, false, [], ◌++◌, Bytes, codes, decimal, length,
  length-append, length-decimal, leb, ◌==◌,
}
use pcd.Net.Reading.{IsSteady, supply}
use pcd.Net.Writing.{write_all_lem}
use pcd.Protocol.{starts_with}
use pcd.Protocol.Number.{is_digit, Converted, strtoull-decimal}
use pcd.Queue.{job_queue_push}
use pcd.Server.State.{
  ServerState, Surroundings, buffer_size, send_responsef, respond, id_at, push_job,
}
use pcd.Client.{behind_first, parse_job_id}

abbrev answer : ℕ → Bytes
answer job_id = codes "JOB " ++ (decimal job_id ++ codes "\n")

parse_job_id-answer : (job_id : ℕ) → job_id < 2 ^ 64 → parse_job_id (answer job_id) ≡ job_id
unfolding parse_job_id behind_first starts_with is_digit
parse_job_id-answer job_id small =
    ap (λ (r : Converted). r.value) (strtoull-decimal job_id (codes "\n") small refl)

length-answer : (job_id : ℕ) → length (answer job_id) ≤ 25
length-answer job_id =
    omega (arith, length-append (decimal job_id) (codes "\n"), length-decimal job_id)

respond-output :
    (state : ServerState) (fd : ℕ) (text : Bytes)
    → length text < buffer_size
    → IsSteady (state.connections fd).writes
    → length text ≤ supply (state.connections fd).writes
    → ((respond state fd text).connections fd).output ≡ (state.connections fd).output ++ text
unfolding send_responsef
respond-output state fd text short steady enough =
    let fits : leb buffer_size (length text) ≡ false = ground (arith, short) in
    let itself : (fd == fd) ≡ true = ground arith in
    rw (respond, send_responsef, fits, itself)
      (write_all_lem (state.connections fd) text steady enough).1

-- When the server has queued a new job with a 64-bit number, and the calls of write do not fail and
-- move the answer, a client that had read everything before reads the number of that job in it.
pub push_job-parse_job_id :
    (env : Surroundings) (state : ServerState) (fd p : ℕ)
    → id_at state.jobs p < 2 ^ 64
    → (job_queue_push env.node p state.queue).0 ≡ true
    → (state.connections fd).output ≡ []
    → IsSteady (state.connections fd).writes
    → 25 ≤ supply (state.connections fd).writes
    → parse_job_id ((push_job env state fd p).connections fd).output ≡ id_at state.jobs p
unfolding push_job
push_job-parse_job_id env state fd p small pushed unread steady enough =
    let job_id = id_at state.jobs p in
    let queued = record state { queue = (job_queue_push env.node p state.queue).1 } in
    let sent : ((push_job env state fd p).connections fd).output ≡ answer job_id =
      rw (push_job, pushed)
        (respond-output queued fd (answer job_id) (omega (arith, length-answer job_id)) steady
            (omega (arith, length-answer job_id, enough))
          ∙ ap (λ (o : Bytes). o ++ answer job_id) unread) in
    ap parse_job_id sent ∙ parse_job_id-answer job_id small
