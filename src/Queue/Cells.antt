-- ===== src/Queue/Cells.antt =====
-- The linked list of src/server/queue.c as a list of cells, each an address and a job.
use pcd.Prelude.{
  ℕ, ◌≡◌, ◌≢◌, refl, sym, ◌∙◌, arith, Option, none, some, List, [], ◌∷◌, ◌++◌, All, subst,
  Option-cases, inl, inr,
}
use pcd.Queue.{Heap, JobNode, store, set_next}

abbrev pub Cell : Type 0
Cell = ℕ × ℕ

some-inj : (a b : ℕ) → Path (Option ℕ) (some a) (some b) → a ≡ b
some-inj a b e = ground arith

-- The pointer leads through the cells, in order, to the null pointer.
unfoldable pub Chain : Heap → Option ℕ → List Cell → Type 0
Chain heap p [] = p ≡ none
Chain heap p ((a, j) ∷ cells) =
    (p ≡ some a)
    × (next : Option ℕ) × (heap a ≡ some (record { job = j; next = next }))
    × Chain heap next cells

unfoldable pub Distinct : List Cell → Type 0
Distinct [] = Unit
Distinct ((a, j) ∷ cells) = All (λ c. c.0 ≢ a) cells × Distinct cells

unfoldable pub last_address : List Cell → Option ℕ
last_address [] = none
last_address ((a, j) ∷ []) = some a
last_address (c ∷ d ∷ cells) = last_address (d ∷ cells)

pub store_same : (heap : Heap) (a : ℕ) (cell : Option JobNode) → store heap a cell a ≡ cell
unfolding store
store_same heap a cell = ground arith

pub store_other :
    (heap : Heap) (a b : ℕ) (cell : Option JobNode) → b ≢ a → store heap a cell b ≡ heap b
unfolding store
store_other heap a b cell ne = ground arith

-- A write to another address keeps the chain.
pub Chain-store :
    (heap : Heap) (p : Option ℕ) (cells : List Cell) (a : ℕ) (cell : Option JobNode)
    → All (λ c. c.0 ≢ a) cells
    → Chain heap p cells
    → Chain (store heap a cell) p cells
unfolding Chain
Chain-store heap p [] a cell apart chain = chain
Chain-store heap p ((b, j) ∷ cells) a cell (ne, apart) (at, next, node, rest) =
    (at, next, store_other heap a b cell ne ∙ node, Chain-store heap next cells a cell apart rest)

set_next_same :
    (heap : Heap) (a : ℕ) (node : JobNode) (next : Option ℕ)
    → heap a ≡ some node
    → set_next heap a next a ≡ some (record node { next = next })
unfolding set_next
set_next_same heap a node next found =
    rw (set_next, found) (store_same heap a (some (record node { next = next })))

set_next_other : (heap : Heap) (a b : ℕ) (next : Option ℕ) → b ≢ a → set_next heap a next b ≡ heap b
unfolding set_next
set_next_other heap a b next ne = elim (Option-cases (heap a)) [
  | inl missing ↦ rw (set_next, missing)
  | inr (node, found) ↦
      rw (set_next, found) (store_other heap a b (some (record node { next = next })) ne)
]

-- The last cell is one of the cells.
last_among :
    (P : ℕ → Type 0) (cells : List Cell) (last : ℕ)
    → All (λ c. P c.0) cells
    → last_address cells ≡ some last
    → P last
unfolding last_address
last_among P [] last all end = absurd (ground arith)
last_among P ((a, j) ∷ []) last (here, all) end = subst P (some-inj a last end) here
last_among P (c ∷ d ∷ cells) last (here, all) end = last_among P (d ∷ cells) last all end

-- Linking a new node behind the last cell.
pub Chain-link :
    (heap : Heap) (p : Option ℕ) (c : Cell) (cells : List Cell) (last a j : ℕ)
    → Distinct (c ∷ cells)
    → last_address (c ∷ cells) ≡ some last
    → heap a ≡ some (record { job = j; next = none })
    → All (λ d. d.0 ≢ a) (c ∷ cells)
    → Chain heap p (c ∷ cells)
    → Chain (set_next heap last (some a)) p ((c ∷ cells) ++ ((a, j) ∷ []))
unfolding Chain Distinct last_address
Chain-link heap p (b, i) [] last a j distinct end new (ne, apart) (at, next, node, done) =
    let same = some-inj b last end in
    let other : a ≢ last = ground arith in
    (
      at,
      some a,
      subst (λ (x : ℕ). set_next heap x (some a) b ≡ some (record { job = i; next = some a })) same
          (set_next_same heap b (record { job = i; next = next }) (some a) node),
      (refl, none, set_next_other heap last a (some a) other ∙ new, refl),
    )
Chain-link heap p (b, i) (d ∷ cells) last a j (away, distinct) end new (ne, apart)
      (at, next, node, rest) =
    let other : b ≢ last = λ e. last_among (λ (x : ℕ). x ≢ b) (d ∷ cells) last away end (sym e) in
    (
      at,
      next,
      set_next_other heap last b (some a) other ∙ node,
      Chain-link heap next d cells last a j distinct end new apart rest,
    )
