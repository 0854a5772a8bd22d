-- ===== src/Queue/Refinement.antt =====
-- The linked list of src/server/queue.c implements a first-in first-out queue.
use pcd.Prelude.{
  ℕ, ◌≡◌, refl, ap, ◌∙◌, Bool, true, false, Option, none, some, List, [], ◌∷◌, ◌++◌, map,
  if◌then◌else◌,
}
use pcd.Queue.{
  JobQueue, Popped, blocked, null, job_at, store, set_next, job_queue_push, job_queue_pop,
}
use pcd.Queue.Cells.{Cell, Chain, last_address}
use pcd.Queue.Represents.{
  Represents, new_heap, last_address-cons, Represents-halted, Represents-first, Represents-behind,
  Represents-rest,
}

-- What the operations promise: a first-in first-out queue of jobs, with a flag.
pub record Fifo : Type 0 where
  pub jobs : List ℕ
  pub stopped : Bool

unfoldable pub fifo_push : ℕ → Fifo → Bool × Fifo
fifo_push job f = if f.stopped then (false, f) else (true, record f { jobs = f.jobs ++ (job ∷ []) })

unfoldable pub fifo_pop : Fifo → Popped × Fifo
fifo_pop f =
    if f.stopped
    then (null, f)
    else elim f.jobs [ [] ↦ (blocked, f) | j ∷ js ↦ (job_at j, record f { jobs = js }) ]

-- The refinement relation.
unfoldable pub Implements : JobQueue → Fifo → Type 0
Implements q f =
    (cells : List Cell) × Represents q cells
    × (map (λ (c : Cell). c.1) cells ≡ f.jobs)
    × (q.stopped ≡ f.stopped)

push_halted :
    (q : JobQueue) (a job : ℕ)
    → q.stopped ≡ true
    → job_queue_push (some a) job q
      ≡ (false, record q { heap = store (new_heap q.heap a job) a none })
unfolding job_queue_push
push_halted q a job halted = rw halted refl

push_empty :
    (q : JobQueue) (a job : ℕ)
    → q.stopped ≡ false
    → q.tail ≡ none
    → job_queue_push (some a) job q
      ≡ (true, record q { heap = new_heap q.heap a job; head = some a; tail = some a })
unfolding job_queue_push
push_empty q a job live empty = simp (live, empty)

push_behind :
    (q : JobQueue) (a job last : ℕ)
    → q.stopped ≡ false
    → q.tail ≡ some last
    → job_queue_push (some a) job q
      ≡ (true, record q { heap = set_next (new_heap q.heap a job) last (some a); tail = some a })
unfolding job_queue_push
push_behind q a job last live end = simp (live, end)

map-push :
    (cells : List Cell) (c : Cell)
    → map (λ (d : Cell). d.1) (cells ++ (c ∷ [])) ≡ map (λ (d : Cell). d.1) cells ++ (c.1 ∷ [])
map-push [] c = refl
map-push (d ∷ cells) c = ap (◌∷◌ d.1) (map-push cells c)

Implements-live_push :
    (q : JobQueue) (js : List ℕ) (a job : ℕ) (cells : List Cell)
    → q.heap a ≡ none
    → Represents q cells
    → map (λ (c : Cell). c.1) cells ≡ js
    → q.stopped ≡ false
    → ((job_queue_push (some a) job q).0 ≡ true)
      × Implements
          (job_queue_push (some a) job q).1
          (record { jobs = js ++ (job ∷ []); stopped = false })
unfolding Implements last_address
Implements-live_push q js a job [] free r jobs live = rw (push_empty q a job live r.tail) (
  refl,
  (((a, job) ∷ []), Represents-first q a job, ap (λ (l : List ℕ). l ++ (job ∷ [])) jobs, live),
)
Implements-live_push q js a job (c ∷ cells) free r jobs live =
    let (last, end) = last_address-cons c cells in
    rw (push_behind q a job last live (r.tail ∙ end)) (
      refl,
      (
        ((c ∷ cells) ++ ((a, job) ∷ [])),
        Represents-behind q c cells a job last r free end,
        map-push (c ∷ cells) (a, job) ∙ ap (λ (l : List ℕ). l ++ (job ∷ [])) jobs,
        live,
      ),
    )

Implements-push_cases :
    (q : JobQueue) (js : List ℕ) (stopped : Bool) (a job : ℕ)
    → q.heap a ≡ none
    → Implements q (record { jobs = js; stopped = stopped })
    → ((job_queue_push (some a) job q).0
        ≡ (fifo_push job (record { jobs = js; stopped = stopped })).0)
      × Implements
          (job_queue_push (some a) job q).1
          (fifo_push job (record { jobs = js; stopped = stopped })).1
unfolding fifo_push Implements
Implements-push_cases q js true a job free (cells, r, jobs, same) =
    rw (push_halted q a job same)
      (refl, (cells, Represents-halted q cells a job r free, jobs, same))
Implements-push_cases q js false a job free (cells, r, jobs, same) =
    Implements-live_push q js a job cells free r jobs same

-- A push of a new node does what the first-in first-out queue does: it adds the job at the end,
-- or refuses it when the queue is stopped, with the same answer.
pub Implements-job_queue_push :
    (q : JobQueue) (f : Fifo) (a job : ℕ)
    → q.heap a ≡ none
    → Implements q f
    → ((job_queue_push (some a) job q).0 ≡ (fifo_push job f).0)
      × Implements (job_queue_push (some a) job q).1 (fifo_push job f).1
Implements-job_queue_push q f a job free i = Implements-push_cases q f.jobs f.stopped a job free i

pop_first :
    (q : JobQueue) (a job : ℕ) (next : Option ℕ)
    → q.stopped ≡ false
    → q.head ≡ some a
    → q.heap a ≡ some (record { job = job; next = next })
    → job_queue_pop q ≡ (
      job_at job,
      record q {
        heap = store q.heap a none;
        head = next;
        tail = elim next [ none ↦ none | some b ↦ q.tail ];
      },
    )
unfolding job_queue_pop
pop_first q a job next live first node = simp (live, first, node)

pop_blocked : (q : JobQueue) → q.stopped ≡ false → q.head ≡ none → job_queue_pop q ≡ (blocked, q)
unfolding job_queue_pop
pop_blocked q live empty = simp (live, empty)

pop_stopped : (q : JobQueue) → q.stopped ≡ true → job_queue_pop q ≡ (null, q)
unfolding job_queue_pop
pop_stopped q halted = simp halted

Implements-pop_cases :
    (q : JobQueue) (js : List ℕ) (stopped : Bool) (cells : List Cell)
    → Represents q cells
    → map (λ (c : Cell). c.1) cells ≡ js
    → q.stopped ≡ stopped
    → ((job_queue_pop q).0 ≡ (fifo_pop (record { jobs = js; stopped = stopped })).0)
      × Implements (job_queue_pop q).1 (fifo_pop (record { jobs = js; stopped = stopped })).1
unfolding Implements fifo_pop Chain
Implements-pop_cases q js true cells r jobs same =
    rw (pop_stopped q same) (refl, (cells, r, jobs, same))
Implements-pop_cases q js false [] r jobs same =
    rw (← jobs, pop_blocked q same r.chain) (refl, ([], r, jobs, same))
Implements-pop_cases q js false ((a, j) ∷ cells) r jobs same =
    let (first, next, node, rest) = r.chain in
    rw (← jobs, pop_first q a j next same first node)
      (refl, (cells, Represents-rest q a j next cells r rest, refl, same))

-- A pop does what the first-in first-out queue does: it takes the oldest job, blocks on an empty
-- queue, and gives the null pointer when the queue is stopped.
pub Implements-job_queue_pop :
    (q : JobQueue) (f : Fifo)
    → Implements q f
    → ((job_queue_pop q).0 ≡ (fifo_pop f).0) × Implements (job_queue_pop q).1 (fifo_pop f).1
unfolding Implements
Implements-job_queue_pop q f (cells, r, jobs, same) =
    Implements-pop_cases q f.jobs f.stopped cells r jobs same
