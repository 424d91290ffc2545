-- ===== src/Queue.antt =====
-- Common/queue.c and queue.h on an explicit heap of nodes. A pointer is a number and `null` is 0;
-- the payloads are `void*`, so pointers too. A read through a pointer that holds no node is a
-- fault: the operations return `none` there.
pub mod Segment
pub mod Fifo
pub mod Script
use ikp_data_propagator.Prelude.{
  ℕ, zero, suc, ◌+◌, ◌-◌, ◌%◌, Bool, true, false, ◌&&◌, not, Option, none, some, List, [], ◌∷◌,
  ◌==◌, if◌then◌else◌, size_mod, Status, done, failed,
}

abbrev pub Ptr : Type 0
Ptr = ℕ

abbrev pub null : Ptr
null = 0

-- `struct QueueNode`
pub record QueueNode : Type 0 where
  pub payload : Ptr
  pub next : Ptr

abbrev pub node : Ptr → Ptr → QueueNode
node d n = record { payload = d; next = n }

-- The nodes that are allocated, by address.
abbrev pub Heap : Type 0
Heap = Ptr → Option QueueNode

abbrev pub write : Heap → Ptr → Option QueueNode → Heap
write h p c a = if a == p then c else h a

-- `struct Queue`; `frees` says whether `freeFunc` was given.
pub record Queue : Type 0 where
  pub front : Ptr
  pub rear : Ptr
  pub size : ℕ
  pub frees : Bool

-- `block` is what `malloc` returns for the queue's own struct.
unfoldable pub queue_create : (block : Ptr) → Bool → Option Queue
queue_create block frees =
    if block == null
    then none
    else some (record { front = null; rear = null; size = 0; frees = frees })

-- `fresh` is what `malloc` returns for the new node; a queue `none` is a NULL pointer.
unfoldable pub queue_enqueue :
    (fresh : Ptr) → Heap → Option Queue → Ptr → Option (Status × Heap × Option Queue)
queue_enqueue fresh h none d = some (failed, h, none)
queue_enqueue fresh h (some q) d =
    let h₁ = write h fresh (some (node d null)) in
    let size' = (q.size + 1) % size_mod in
    if fresh == null
    then some (failed, h, some q)
    else if q.rear == null
    then some (done, h₁, some (record q { front = fresh; rear = fresh; size = size' }))
    else elim (h₁ q.rear) [
      | none ↦ none
      | some last ↦ some (
        done,
        write h₁ q.rear (some (node last.payload fresh)),
        some (record q { rear = fresh; size = size' }),
      )
    ]

unfoldable pub queue_dequeue : Heap → Option Queue → Option (Ptr × Heap × Option Queue)
queue_dequeue h none = some (null, h, none)
queue_dequeue h (some q) = if q.front == null then some (null, h, some q) else elim (h q.front) [
  | none ↦ none
  | some n ↦ some (
    n.payload,
    write h q.front none,
    some (record q {
      front = n.next;
      rear = if n.next == null then null else q.rear;
      size = (q.size + size_mod - 1) % size_mod;
    }),
  )
]

unfoldable pub queue_peek : Heap → Option Queue → Option Ptr
queue_peek h none = some null
queue_peek h (some q) =
    if q.front == null
    then some null
    else elim (h q.front) [ none ↦ none | some n ↦ some n.payload ]

unfoldable pub queue_is_empty : Option Queue → Bool
queue_is_empty none = true
queue_is_empty (some q) = q.size == 0

unfoldable pub queue_size : Option Queue → ℕ
queue_size none = 0
queue_size (some q) = q.size

-- The loop of `queue_destroy` on fuel. `dropped` collects the payloads given to `freeFunc`, the
-- latest first; running out of fuel counts as a fault.
unfoldable pub destroy_loop : ℕ → Bool → Heap → Ptr → List Ptr → Option (List Ptr × Heap)
destroy_loop zero frees h cur dropped = none
destroy_loop (suc fuel) frees h cur dropped = elim (cur == null) [
  | true ↦ some (dropped, h)
  | false ↦ elim (h cur) [
    | none ↦ none
    | some n ↦
        destroy_loop fuel frees (write h cur none) n.next
          (if frees && not (n.payload == null) then n.payload ∷ dropped else dropped)
  ]
]

-- The fuel is a bound on the number of nodes, one more than `size`.
unfoldable pub queue_destroy : Heap → Option Queue → Option (List Ptr × Heap)
unfolding destroy_loop
queue_destroy h none = some ([], h)
queue_destroy h (some q) = destroy_loop (q.size + 1) q.frees h q.front []
