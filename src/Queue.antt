-- ===== src/Queue.antt =====
-- src/server/queue.c: the queue of jobs between the poll loop and the workers, a linked list with a
-- head and a tail pointer. Each operation runs under the queue's mutex, so it is one step here; a
-- job pointer is its address, and `pop` on an empty queue that is not stopped blocks.
pub mod Cells
pub mod Represents
pub mod Refinement
pub mod Destroy
mod Examples
use pcd.Prelude.{ℕ, zero, suc, Bool, true, false, Option, none, some, ◌==◌, if◌then◌else◌}

-- `job_node_t`.
pub record JobNode : Type 0 where
  pub job : ℕ
  pub next : Option ℕ

-- The nodes that are allocated, by address.
abbrev pub Heap : Type 0
Heap = ℕ → Option JobNode

unfoldable pub store : Heap → ℕ → Option JobNode → Heap
store heap a cell p = if p == a then cell else heap p

-- `job_queue_t` with the heap its nodes live in.
pub record JobQueue : Type 0 where
  pub heap : Heap
  pub head : Option ℕ
  pub tail : Option ℕ
  pub stopped : Bool

unfoldable pub job_queue_init : Heap → JobQueue
job_queue_init heap = record { heap = heap; head = none; tail = none; stopped = false }

-- `node->next = next`, for an allocated node.
unfoldable pub set_next : Heap → ℕ → Option ℕ → Heap
unfolding store
set_next heap a next = elim (heap a) [
  | none ↦ heap
  | some node ↦ store heap a (some (record node { next = next }))
]

-- `calloc` gives the address of the new node or nothing; the result is true for 0 and false for -1.
unfoldable pub job_queue_push : Option ℕ → ℕ → JobQueue → Bool × JobQueue
unfolding store set_next
job_queue_push none job q = (false, q)
job_queue_push (some node) job q =
    let heap = store q.heap node (some (record { job = job; next = none })) in
    if q.stopped then (false, record q { heap = store heap node none }) else elim q.tail [
      | none ↦ (true, record q { heap = heap; head = some node; tail = some node })
      | some last ↦ (true, record q { heap = set_next heap last (some node); tail = some node })
    ]

pub data Popped : Type 0 where
  blocked null : Popped
  job_at : ℕ → Popped

-- A node that is not allocated is never reached from the head.
unfoldable pub job_queue_pop : JobQueue → Popped × JobQueue
unfolding store
job_queue_pop q = if q.stopped then (null, q) else elim q.head [
  | none ↦ (blocked, q)
  | some a ↦ elim (q.heap a) [
    | none ↦ (null, q)
    | some node ↦
        let tail : Option ℕ = elim node.next [ none ↦ none | some b ↦ q.tail ] in
        (job_at node.job, record q { heap = store q.heap a none; head = node.next; tail = tail })
  ]
]

unfoldable pub job_queue_stop : JobQueue → JobQueue
job_queue_stop q = record q { stopped = true }

-- The loop of `job_queue_destroy`, on fuel: one for each node.
unfoldable pub free_nodes : ℕ → Heap → Option ℕ → Heap
unfolding store
free_nodes zero heap p = heap
free_nodes (suc fuel) heap none = heap
free_nodes (suc fuel) heap (some a) = elim (heap a) [
  | none ↦ heap
  | some node ↦ free_nodes fuel (store heap a none) node.next
]

unfoldable pub job_queue_destroy : ℕ → JobQueue → JobQueue
job_queue_destroy fuel q = record q {
  heap = free_nodes fuel q.heap q.head;
  head = none;
  tail = none;
}
