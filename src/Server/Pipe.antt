-- ===== src/Server/Pipe.antt =====
-- The pipe between src/server/worker.c and src/server/server.c: `write_event` and
-- `handle_worker_pipe`. How an event lies in memory is the parameter Layout.
use Prim.Native.Nat.{min}
use pcd.Prelude.{
  ℕ, zero, suc, ◌≤◌, ◌<◌, ◌≡◌, refl, sym, ap, ◌∙◌, arith, Bool, true, false, not, List, [], ◌∷◌,
  ◌++◌, append_assoc, append-nil, Bytes, codes, decimal, length, take, drop, take-append,
  drop-append, take-append-drop, length-drop, length-take, ◌==◌, if◌then◌else◌,
}
use pcd.Net.{IoCall, interrupted, failed, moves, chunk}
use pcd.Net.Reading.{IsSteady, rounds, take-take}
use pcd.Job.{job_state_to_string}
use pcd.Worker.{WorkerEvent}

-- The size of an event, its bytes, and the event of such bytes.
pub record Layout : Type 0 where
  pub size : ℕ
  pub image : WorkerEvent → Bytes
  pub event_of : Bytes → WorkerEvent

-- The loop of `write_event`: whether it ends with 0, and the output.
unfoldable pub write_event_loop : List IoCall → Bytes → Bytes → Bool × Bytes
write_event_loop calls [] output = (true, output)
write_event_loop [] (b ∷ rest) output = (false, output)
write_event_loop (interrupted ∷ calls) (b ∷ rest) output = write_event_loop calls (b ∷ rest) output
write_event_loop (failed ∷ calls) (b ∷ rest) output = (false, output)
write_event_loop (moves zero ∷ calls) (b ∷ rest) output = (false, output)
write_event_loop (moves (suc more) ∷ calls) (b ∷ rest) output =
    write_event_loop calls (drop (suc more) (b ∷ rest)) (output ++ take (suc more) (b ∷ rest))

-- One call of `read` of the server: EINTR, EAGAIN, another error, or so many bytes at most.
pub data PipeRead : Type 0 where
  again would_block broken : PipeRead
  gives : ℕ → PipeRead

-- What is logged, without the number of an error.
pub data PipeMessage : Type 0 where
  read_error partial_event : PipeMessage
  job_event : WorkerEvent → PipeMessage

unfoldable pub message_text : PipeMessage → Bytes
message_text read_error = codes "Failed to read from worker pipe"
message_text partial_event = codes "Partial event read from worker pipe"
message_text (job_event event) =
    codes "Event job_id="
    ++ (decimal event.job_id ++ (codes " state=" ++ job_state_to_string event.state))

module _ (layout : Layout) where
  unfoldable pub write_event : List IoCall → WorkerEvent → Bytes → Bool × Bytes
  unfolding write_event_loop
  write_event calls event output = write_event_loop calls (layout.image event) output

  -- The messages in order, and what is left in the pipe. With no call left the pipe is looked at as
  -- empty.
  unfoldable pub handle_worker_pipe : List PipeRead → Bytes → List PipeMessage × Bytes
  handle_worker_pipe [] content = ([], content)
  handle_worker_pipe (again ∷ calls) content = handle_worker_pipe calls content
  handle_worker_pipe (would_block ∷ calls) content = ([], content)
  handle_worker_pipe (broken ∷ calls) content = (read_error ∷ [], content)
  handle_worker_pipe (gives available ∷ calls) content =
      let got = chunk available layout.size content in
      let (messages, left) = handle_worker_pipe calls (drop (length got) content) in
      if length got == 0
      then ([], content)
      else if not (length got == layout.size)
      then (partial_event ∷ messages, left)
      else (job_event (layout.event_of got) ∷ messages, left)

  -- What the workers have written for the events.
  unfoldable pub written_events : List WorkerEvent → Bytes
  written_events [] = []
  written_events (event ∷ events) = layout.image event ++ written_events events

  -- Bytes are read back as the event that was written.
  pub record IsLayout : Type 0 where
    pub positive : 0 < layout.size
    pub sized : (event : WorkerEvent) → length (layout.image event) ≡ layout.size
    pub read_back : (event : WorkerEvent) → layout.event_of (layout.image event) ≡ event

  -- Calls that give whole events, one for each of so many, and then none.
  unfoldable pub Whole : ℕ → List PipeRead → Type 0
  Whole n [] = n ≡ 0
  Whole n (again ∷ calls) = Whole n calls
  Whole zero (would_block ∷ calls) = Unit
  Whole (suc n) (would_block ∷ calls) = ⊥
  Whole n (broken ∷ calls) = ⊥
  Whole zero (gives available ∷ calls) = Unit
  Whole (suc n) (gives available ∷ calls) = (layout.size ≤ available) × Whole n calls

write_event_loop-output :
    (calls : List IoCall) (buffer output : Bytes)
    → IsSteady calls
    → length buffer ≤ rounds calls
    → write_event_loop calls buffer output ≡ (true, output ++ buffer)
unfolding write_event_loop IsSteady rounds
write_event_loop-output calls [] output steady enough =
    ap (λ (o : Bytes). (true, o)) (sym (append-nil output))
write_event_loop-output [] (b ∷ rest) output steady enough = absurd (omega arith)
write_event_loop-output (interrupted ∷ calls) (b ∷ rest) output steady enough =
    write_event_loop-output calls (b ∷ rest) output steady enough
write_event_loop-output (failed ∷ calls) (b ∷ rest) output steady enough = absurd steady
write_event_loop-output (moves zero ∷ calls) (b ∷ rest) output (positive, steady) enough =
    absurd (omega arith)
write_event_loop-output (moves (suc more) ∷ calls) (b ∷ rest) output (positive, steady) enough =
    let written = take (suc more) (b ∷ rest) in
    let left = drop (suc more) (b ∷ rest) in
    write_event_loop-output calls left (output ++ written) steady
      (omega (arith, enough, length-drop (suc more) (b ∷ rest)))
    ∙ ap (λ (o : Bytes). (true, o))
        (append_assoc output written left
          ∙ ap (◌++◌ output) (take-append-drop (suc more) (b ∷ rest)))

module _ (layout : Layout) where
  -- Events that the workers write one after another, each with its own calls of `write`.
  unfoldable pub write_events : List (WorkerEvent × List IoCall) → Bytes → Bytes
  write_events [] output = output
  write_events ((event, calls) ∷ more) output =
      write_events more (write_event layout calls event output).1

  -- The calls are steady, one for each byte at most.
  abbrev pub Writable : List (WorkerEvent × List IoCall) → Type 0
  Writable [] = Unit
  Writable ((event, calls) ∷ more) =
      (IsSteady calls) × ((layout.size ≤ rounds calls) × Writable more)

  abbrev pub events_of : List (WorkerEvent × List IoCall) → List WorkerEvent
  events_of [] = []
  events_of ((event, calls) ∷ more) = event ∷ events_of more

  abbrev pub messages_of : List (WorkerEvent × List IoCall) → List PipeMessage
  messages_of [] = []
  messages_of ((event, calls) ∷ more) = job_event event ∷ messages_of more

  write_events-written :
      (jobs : List (WorkerEvent × List IoCall)) (output : Bytes)
      → IsLayout layout
      → Writable jobs
      → write_events jobs output ≡ output ++ written_events layout (events_of jobs)
  unfolding write_events written_events write_event
  write_events-written [] output good writable = sym (append-nil output)
  write_events-written ((event, calls) ∷ more) output good (steady, (enough, writable)) =
      let image = layout.image event in
      let wrote =
        write_event_loop-output calls image output steady
          (omega (arith, good.sized event, enough)) in
      rw wrote (
        write_events-written more (output ++ image) good writable
        ∙ append_assoc output image (written_events layout (events_of more)))

  abbrev no_bytes : Bytes
  no_bytes = []

  chunk-image :
      (available : ℕ) (event : WorkerEvent) (rest : Bytes)
      → IsLayout layout
      → layout.size ≤ available
      → chunk available layout.size (layout.image event ++ rest) ≡ layout.image event
  chunk-image available event rest good large =
      let image = layout.image event in
      let least : ◌≡◌ {A = ℕ} (min layout.size available) (length image) =
        omega (arith, large, good.sized event) in
      take-take layout.size available (image ++ rest)
      ∙ ap (λ (n : ℕ). take n (image ++ rest)) least
      ∙ take-append image rest

  handle_worker_pipe-events :
      (calls : List PipeRead) (jobs : List (WorkerEvent × List IoCall))
      → IsLayout layout
      → Whole layout (length jobs) calls
      → handle_worker_pipe layout calls (written_events layout (events_of jobs))
        ≡ (messages_of jobs, [])
  unfolding handle_worker_pipe written_events Whole
  handle_worker_pipe-events [] [] good whole = refl
  handle_worker_pipe-events [] (job ∷ jobs) good whole = absurd (omega arith)
  handle_worker_pipe-events (again ∷ calls) jobs good whole =
      handle_worker_pipe-events calls jobs good whole
  handle_worker_pipe-events (would_block ∷ calls) [] good whole = refl
  handle_worker_pipe-events (would_block ∷ calls) (job ∷ jobs) good whole = absurd whole
  handle_worker_pipe-events (broken ∷ calls) jobs good whole = absurd whole
  handle_worker_pipe-events (gives available ∷ calls) [] good whole =
      let sizes = length-take layout.size (take available no_bytes) in
      let inner = length-take available no_bytes in
      let nothing : (length (chunk available layout.size no_bytes) == 0) ≡ true =
        ground (arith, sizes, inner) in
      rw (handle_worker_pipe, nothing) refl
  handle_worker_pipe-events (gives available ∷ calls) ((event, io) ∷ jobs) good (large, whole) =
      let image = layout.image event in
      let rest = written_events layout (events_of jobs) in
      let got = chunk-image available event rest good large in
      let some_bytes : (length image == 0) ≡ false =
        ground (arith, good.sized event, good.positive) in
      let full : (length image == layout.size) ≡ true = ground (arith, good.sized event) in
      let next = handle_worker_pipe-events calls jobs good whole in
      let left = drop-append image rest in
      rw (handle_worker_pipe, got, some_bytes, full, left, next, good.read_back event) refl

  -- The events that the workers write through the pipe are what the server logs, each once and in
  -- order, and nothing is left in the pipe: the bytes of an event are read back as that event, no
  -- call fails, a write moves a byte at least, and a read gives a whole event.
  pub handle_worker_pipe-write_events :
      (calls : List PipeRead) (jobs : List (WorkerEvent × List IoCall))
      → IsLayout layout
      → Writable jobs
      → Whole layout (length jobs) calls
      → handle_worker_pipe layout calls (write_events jobs []) ≡ (messages_of jobs, [])
  handle_worker_pipe-write_events calls jobs good writable whole =
      ap (handle_worker_pipe layout calls) (write_events-written jobs [] good writable)
      ∙ handle_worker_pipe-events calls jobs good whole
