-- ===== src/Queue/Examples.antt =====
-- Tests of the model of src/server/queue.c, and its theorems at concrete inputs.
use pcd.Prelude.{◌≡◌, refl, arith, false, none, some, [], ◌∷◌, All}
use pcd.Queue.{
  JobQueue, job_queue_init, job_queue_push, job_queue_pop, job_queue_stop, job_queue_destroy,
  job_at, blocked, null, store, set_next,
}
use pcd.Queue.Cells.{Cell, Chain, Distinct, last_address}
use pcd.Queue.Refinement.{
  Implements, Fifo, fifo_push, fifo_pop, Implements-job_queue_push, Implements-job_queue_pop,
}
use pcd.Queue.Represents.{Represents}
use pcd.Queue.Destroy.{job_queue_destroy_lem}

abbrev two_jobs : JobQueue
two_jobs =
    (job_queue_push (some 20) 8 (job_queue_push (some 10) 7 (job_queue_init (λ a. none))).1).1

abbrev two_jobs_fifo : Fifo
two_jobs_fifo = record { jobs = 7 ∷ 8 ∷ []; stopped = false }

two_jobs-Represents : Represents two_jobs ((10, 7) ∷ (20, 8) ∷ [])
unfolding job_queue_push job_queue_init store set_next Chain Distinct last_address
two_jobs-Represents = record {
  chain = (refl, some 20, refl, (refl, none, refl, refl));
  tail = refl;
  distinct = ((omega arith, tt), (tt, tt));
}

two_jobs-Implements : Implements two_jobs two_jobs_fifo
unfolding Implements job_queue_push job_queue_init
two_jobs-Implements = ((10, 7) ∷ (20, 8) ∷ [], two_jobs-Represents, refl, refl)

two_jobs_free : two_jobs.heap 30 ≡ none
unfolding job_queue_push job_queue_init store set_next
two_jobs_free = refl

Implements-job_queue_push_example :
    ((job_queue_push (some 30) 9 two_jobs).0 ≡ (fifo_push 9 two_jobs_fifo).0)
    × Implements (job_queue_push (some 30) 9 two_jobs).1 (fifo_push 9 two_jobs_fifo).1
Implements-job_queue_push_example =
    Implements-job_queue_push two_jobs two_jobs_fifo 30 9 two_jobs_free two_jobs-Implements

Implements-job_queue_pop_example :
    ((job_queue_pop two_jobs).0 ≡ (fifo_pop two_jobs_fifo).0)
    × Implements (job_queue_pop two_jobs).1 (fifo_pop two_jobs_fifo).1
Implements-job_queue_pop_example =
    Implements-job_queue_pop two_jobs two_jobs_fifo two_jobs-Implements

job_queue_destroy_lem_example :
    All (λ (c : Cell). (job_queue_destroy 2 two_jobs).heap c.0 ≡ none) ((10, 7) ∷ (20, 8) ∷ [])
    × ((job_queue_destroy 2 two_jobs).heap 30 ≡ two_jobs.heap 30)
    × ((job_queue_destroy 2 two_jobs).head ≡ none)
    × ((job_queue_destroy 2 two_jobs).tail ≡ none)
job_queue_destroy_lem_example =
    job_queue_destroy_lem two_jobs ((10, 7) ∷ (20, 8) ∷ []) 2 30 two_jobs-Represents (omega arith)
      (omega arith)

-- The first job in is the first out; a stopped queue gives the null pointer.
pops_oldest : (job_queue_pop two_jobs).0 ≡ job_at 7
unfolding job_queue_pop job_queue_push job_queue_init store set_next
pops_oldest = refl

stopped_pops_null : (job_queue_pop (job_queue_stop two_jobs)).0 ≡ null
unfolding job_queue_pop job_queue_stop
stopped_pops_null = refl

empty_blocks : (job_queue_pop (job_queue_init (λ a. none))).0 ≡ blocked
unfolding job_queue_pop job_queue_init
empty_blocks = refl
