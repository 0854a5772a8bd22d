-- ===== src/Server/PipeExamples.antt =====
-- The theorem on the pipe between workers and server at a concrete input.
use pcd.Prelude.{
  ℕ, ◌≡◌, refl, ap, arith, true, List, [], ◌∷◌, Bytes, codes, get_or, ◌==◌, if◌then◌else◌,
}
use pcd.Net.{IoCall, interrupted, moves}
use pcd.Net.Reading.{IsSteady, rounds}
use pcd.Job.{JobState, queued, running, done, failed, canceled, job_state_to_string}
use pcd.Worker.{WorkerEvent}
use pcd.Server.Pipe.{
  Layout, IsLayout, again, would_block, gives, job_event, message_text, handle_worker_pipe,
  write_events, Whole, handle_worker_pipe-write_events,
}

unfoldable state_number : JobState → ℕ
state_number queued = 0
state_number running = 1
state_number done = 2
state_number failed = 3
state_number canceled = 4

abbrev number_state : ℕ → JobState
number_state n =
    if n == 0
    then queued
    else if n == 1
    then running
    else if n == 2
    then done
    else if n == 3
    then failed
    else canceled

-- The number of the job, and that of the state.
abbrev layout : Layout
layout = record {
  size = 2;
  image = λ event. event.job_id ∷ state_number event.state ∷ [];
  event_of = λ bytes. record { job_id = get_or bytes 0 0; state = number_state (get_or bytes 1 0) };
}

number_state-state_number : (state : JobState) → number_state (state_number state) ≡ state
unfolding state_number
number_state-state_number queued = refl
number_state-state_number running = refl
number_state-state_number done = refl
number_state-state_number failed = refl
number_state-state_number canceled = refl

abbrev with_state : WorkerEvent → JobState → WorkerEvent
with_state event state = record event { state = state }

layout-IsLayout : IsLayout layout
layout-IsLayout = record {
  positive = omega arith;
  sized = λ event. refl;
  read_back = λ event. ap (with_state event) (number_state-state_number event.state);
}

abbrev one_done : WorkerEvent
one_done = record { job_id = 7; state = done }

abbrev one_failed : WorkerEvent
one_failed = record { job_id = 8; state = failed }

abbrev jobs : List (WorkerEvent × List IoCall)
jobs =
    (one_done, (moves 1 ∷ interrupted ∷ moves 9 ∷ [])) ∷ (one_failed, (moves 2 ∷ moves 1 ∷ [])) ∷ []

handle_worker_pipe-write_events_example :
    handle_worker_pipe layout
      (gives 2 ∷ again ∷ gives 2 ∷ would_block ∷ [])
      (write_events layout jobs [])
    ≡ (job_event one_done ∷ job_event one_failed ∷ [], [])
unfolding IsSteady rounds Whole
handle_worker_pipe-write_events_example =
    handle_worker_pipe-write_events layout (gives 2 ∷ again ∷ gives 2 ∷ would_block ∷ []) jobs
      layout-IsLayout
      (
        ((omega arith), (omega arith, tt)),
        (omega arith, ((omega arith, (omega arith, tt)), (omega arith, tt))),
      )
      (omega arith, (omega arith, tt))

a_message : message_text (job_event one_done) ≡ codes "Event job_id=7 state=DONE"
unfolding message_text job_state_to_string pcd.Prelude.decimal pcd.Prelude.decimal_before
a_message = refl
