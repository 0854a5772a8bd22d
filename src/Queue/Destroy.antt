-- ===== src/Queue/Destroy.antt =====
-- Destroying a queue of src/server/queue.c.
use pcd.Prelude.{
  ℕ, zero, suc, ◌≡◌, ◌≢◌, ◌≤◌, refl, sym, ◌∙◌, subst, arith, Option, none, some, List, [], ◌∷◌, All,
  length,
}
use pcd.Queue.{Heap, JobQueue, store, free_nodes, job_queue_destroy}
use pcd.Queue.Cells.{Cell, Chain, Distinct, Chain-store, store_same, store_other}
use pcd.Queue.Represents.{Represents}

-- A loop step at an allocated node.
free_step :
    (fuel : ℕ) (heap : Heap) (p next : Option ℕ) (a j : ℕ)
    → p ≡ some a
    → heap a ≡ some (record { job = j; next = next })
    → free_nodes (suc fuel) heap p ≡ free_nodes fuel (store heap a none) next
unfolding free_nodes
free_step fuel heap p next a j at node = rw (at, free_nodes, node) refl

free_done : (fuel : ℕ) (heap : Heap) (p : Option ℕ) → p ≡ none → free_nodes fuel heap p ≡ heap
unfolding free_nodes
free_done zero heap p e = refl
free_done (suc fuel) heap p e = rw e refl

free_others :
    (fuel : ℕ) (heap : Heap) (p : Option ℕ) (cells : List Cell) (b : ℕ)
    → Chain heap p cells
    → Distinct cells
    → All (λ c. c.0 ≢ b) cells
    → length cells ≤ fuel
    → free_nodes fuel heap p b ≡ heap b
unfolding Chain Distinct
free_others fuel heap p [] b chain distinct apart enough = rw (free_done fuel heap p chain) refl
free_others zero heap p (c ∷ cells) b chain distinct apart enough = absurd (omega arith)
free_others (suc fuel) heap p ((a, j) ∷ cells) b (at, next, node, rest) (away, distinct) (ne, apart)
      enough =
    rw (free_step fuel heap p next a j at node) (
      free_others fuel (store heap a none) next cells b
        (Chain-store heap next cells a none away rest) distinct apart (omega arith)
      ∙ store_other heap a b none (λ e. ne (sym e)))

free_cells :
    (fuel : ℕ) (heap : Heap) (p : Option ℕ) (cells : List Cell)
    → Chain heap p cells
    → Distinct cells
    → length cells ≤ fuel
    → All (λ c. free_nodes fuel heap p c.0 ≡ none) cells
unfolding Chain Distinct
free_cells fuel heap p [] chain distinct enough = tt
free_cells zero heap p (c ∷ cells) chain distinct enough = absurd (omega arith)
free_cells (suc fuel) heap p ((a, j) ∷ cells) (at, next, node, rest) (away, distinct) enough =
    let kept = Chain-store heap next cells a none away rest in
    subst (λ (h : Heap). All (λ (c : Cell). h c.0 ≡ none) ((a, j) ∷ cells))
      (sym (free_step fuel heap p next a j at node))
      (
        free_others fuel (store heap a none) next cells a kept distinct away (omega arith)
            ∙ store_same heap a none,
        free_cells fuel (store heap a none) next cells kept distinct (omega arith),
      )

-- With a unit of fuel for each node, destroying a queue ends with each of its nodes freed, every
-- other node left as it was, and no pointer to a node kept.
pub job_queue_destroy_lem :
    (q : JobQueue) (cells : List Cell) (fuel other : ℕ)
    → Represents q cells
    → length cells ≤ fuel
    → All (λ c. c.0 ≢ other) cells
    → All (λ c. (job_queue_destroy fuel q).heap c.0 ≡ none) cells
      × ((job_queue_destroy fuel q).heap other ≡ q.heap other)
      × ((job_queue_destroy fuel q).head ≡ none)
      × ((job_queue_destroy fuel q).tail ≡ none)
unfolding job_queue_destroy
job_queue_destroy_lem q cells fuel other r enough apart = (
  free_cells fuel q.heap q.head cells r.chain r.distinct enough,
  free_others fuel q.heap q.head cells other r.chain r.distinct apart enough,
  refl,
  refl,
)
