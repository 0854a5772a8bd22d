-- ===== src/Queue/Represents.antt =====
-- The nodes of a queue of src/server/queue.c, and what a push and a pop do to them.
use pcd.Prelude.{ℕ, ◌≡◌, ◌≢◌, refl, sym, ap, arith, Option, none, some, List, [], ◌∷◌, ◌++◌, All}
use pcd.Queue.{Heap, JobQueue, store, set_next}
use pcd.Queue.Cells.{Cell, Chain, Distinct, last_address, Chain-store, Chain-link, store_same}

-- The queue's nodes are the cells, in order.
pub record Represents (q : JobQueue) (cells : List Cell) : Type 0 where
  pub chain : Chain q.heap q.head cells
  pub tail : q.tail ≡ last_address cells
  pub distinct : Distinct cells

last_address-push : (cells : List Cell) (a j : ℕ) → last_address (cells ++ ((a, j) ∷ [])) ≡ some a
unfolding last_address
last_address-push [] a j = refl
last_address-push (c ∷ []) a j = refl
last_address-push (c ∷ d ∷ cells) a j = last_address-push (d ∷ cells) a j

All-push :
    (P : Cell → Type 0) (cells : List Cell) (c : Cell)
    → All P cells
    → P c
    → All P (cells ++ (c ∷ []))
All-push P [] c all here = (here, tt)
All-push P (d ∷ cells) c (there, all) here = (there, All-push P cells c all here)

Distinct-push :
    (cells : List Cell) (a j : ℕ)
    → Distinct cells
    → All (λ c. c.0 ≢ a) cells
    → Distinct (cells ++ ((a, j) ∷ []))
unfolding Distinct
Distinct-push [] a j distinct apart = (tt, tt)
Distinct-push ((b, i) ∷ cells) a j (away, distinct) (ne, apart) = (
  All-push (λ c. c.0 ≢ b) cells (a, j) away (λ e. ne (sym e)),
  Distinct-push cells a j distinct apart,
)

-- A free address is not the address of a cell.
fresh_apart :
    (heap : Heap) (p : Option ℕ) (cells : List Cell) (a : ℕ)
    → heap a ≡ none
    → Chain heap p cells
    → All (λ c. c.0 ≢ a) cells
unfolding Chain
fresh_apart heap p [] a free chain = tt
fresh_apart heap p ((b, j) ∷ cells) a free (at, next, node, rest) =
    (λ e. ground (arith, ap heap e), fresh_apart heap next cells a free rest)

-- A list that is not empty has a last address.
pub last_address-cons :
    (c : Cell) (cells : List Cell) → (a : ℕ) × (last_address (c ∷ cells) ≡ some a)
unfolding last_address
last_address-cons (a, j) [] = (a, refl)
last_address-cons c (d ∷ cells) = last_address-cons d cells

abbrev pub new_heap : Heap → ℕ → ℕ → Heap
new_heap heap a job = store heap a (some (record { job = job; next = none }))

pub Represents-halted :
    (q : JobQueue) (cells : List Cell) (a job : ℕ)
    → Represents q cells
    → q.heap a ≡ none
    → Represents (record q { heap = store (new_heap q.heap a job) a none }) cells
Represents-halted q cells a job r free =
    let apart = fresh_apart q.heap q.head cells a free r.chain in
    record {
      chain = Chain-store (new_heap q.heap a job) q.head cells a none apart (
          Chain-store q.heap q.head cells a (some (record { job = job; next = none })) apart
            r.chain);
      tail = r.tail;
      distinct = r.distinct;
    }

pub Represents-first :
    (q : JobQueue) (a job : ℕ)
    → Represents
        (record q { heap = new_heap q.heap a job; head = some a; tail = some a })
        ((a, job) ∷ [])
unfolding Chain last_address Distinct
Represents-first q a job = record {
  chain = (refl, none, store_same q.heap a (some (record { job = job; next = none })), refl);
  tail = refl;
  distinct = (tt, tt);
}

pub Represents-behind :
    (q : JobQueue) (c : Cell) (cells : List Cell) (a job last : ℕ)
    → Represents q (c ∷ cells)
    → q.heap a ≡ none
    → last_address (c ∷ cells) ≡ some last
    → Represents
        (record q { heap = set_next (new_heap q.heap a job) last (some a); tail = some a })
        ((c ∷ cells) ++ ((a, job) ∷ []))
Represents-behind q c cells a job last r free end =
    let apart = fresh_apart q.heap q.head (c ∷ cells) a free r.chain in
    record {
      chain =
          Chain-link (new_heap q.heap a job) q.head c cells last a job r.distinct end
            (store_same q.heap a (some (record { job = job; next = none }))) apart
            (Chain-store q.heap q.head (c ∷ cells) a (some (record { job = job; next = none }))
              apart r.chain);
      tail = sym (last_address-push (c ∷ cells) a job);
      distinct = Distinct-push (c ∷ cells) a job r.distinct apart;
    }

pub Represents-rest :
    (q : JobQueue) (a j : ℕ) (next : Option ℕ) (cells : List Cell)
    → Represents q ((a, j) ∷ cells)
    → Chain q.heap next cells
    → Represents
        (record q {
          heap = store q.heap a none;
          head = next;
          tail = elim next [ none ↦ none | some b ↦ q.tail ];
        })
        cells
unfolding Chain last_address Distinct
Represents-rest q a j next [] r rest = record { chain = rest; tail = rw rest refl; distinct = tt }
Represents-rest q a j next (c ∷ cells) r rest = record {
  chain = Chain-store q.heap next (c ∷ cells) a none r.distinct.0 rest;
  tail = rw rest.0 r.tail;
  distinct = r.distinct.1;
}
