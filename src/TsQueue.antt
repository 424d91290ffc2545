-- ===== src/TsQueue.antt =====
-- Common/tsqueue.c: the queue of Common/queue.c behind a lock. A turn is what a thread does while
-- it holds the lock: it finds that it has to sleep, and changes nothing, or it does its call. Each
-- `while` around a sleep tests again with the lock held, so that a thread that wakes takes another
-- turn; a call is the last of its turns.
pub mod History
pub mod Progress
use ikp_data_propagator.Prelude.{
  ℕ, ◌+◌, Bool, true, false, ◌&&◌, Option, none, some, List, [], ◌∷◌, ◌++◌, ltb, leb, ◌==◌,
  if◌then◌else◌, Status, done, failed,
}
use ikp_data_propagator.Queue.{
  Ptr, null, Heap, Queue, queue_create, queue_enqueue, queue_dequeue, queue_is_empty, queue_size,
  queue_destroy,
}

-- `struct TSQueue`, without its lock and its condition variables.
pub record TsQueue : Type 0 where
  pub inner : Queue
  pub capacity : ℕ

pub data Turn (A : Type 0) : Type 0 where
  sleeps : Turn A
  returns : A → Turn A

-- `block` is what `malloc` gives for the struct, `inner_block` what it gives for the inner queue.
unfoldable pub tsqueue_create : (block inner_block : Ptr) → ℕ → Bool → Option TsQueue
tsqueue_create block inner_block capacity frees =
    if block == null then none else elim (queue_create inner_block frees) [
      | none ↦ none
      | some q ↦ some (record { inner = q; capacity = capacity })
    ]

abbrev pub is_full : TsQueue → Bool
is_full q = ltb 0 q.capacity && leb q.capacity (queue_size (some q.inner))

-- The call behind the lock, with the inner queue put back.
abbrev pub put_back :
    {A : Type 0} → TsQueue → Option (A × Heap × Option Queue) → Option (Turn (A × Heap × TsQueue))
put_back q (some (a, h, some inner)) = some (returns (a, h, record q { inner = inner }))
put_back q (some (a, h, none)) = none
put_back q none = none

unfoldable pub tsqueue_enqueue :
    (fresh : Ptr) → Heap → TsQueue → Ptr → Option (Turn (Status × Heap × TsQueue))
tsqueue_enqueue fresh h q d =
    if is_full q then some sleeps else put_back q (queue_enqueue fresh h (some q.inner) d)

unfoldable pub tsqueue_dequeue : Heap → TsQueue → Option (Turn (Ptr × Heap × TsQueue))
tsqueue_dequeue h q =
    if queue_is_empty (some q.inner)
    then some sleeps
    else put_back q (queue_dequeue h (some q.inner))

unfoldable pub tsqueue_try_dequeue : Heap → TsQueue → Option (Turn (Ptr × Heap × TsQueue))
tsqueue_try_dequeue h q =
    if queue_is_empty (some q.inner)
    then some (returns (null, h, q))
    else put_back q (queue_dequeue h (some q.inner))

-- The inner queue is destroyed with the lock held.
unfoldable pub tsqueue_destroy : Heap → Option TsQueue → Option (List Ptr × Heap)
tsqueue_destroy h none = some ([], h)
tsqueue_destroy h (some q) = queue_destroy h (some q.inner)

-- A turn of some thread, in the order in which the threads get the lock.
pub data Try : Type 0 where
  put : Ptr → Try
  take : Try

-- The queue, with what was put into it and taken out of it so far, in order.
pub record World : Type 0 where
  pub heap : Heap
  pub queue : TsQueue
  pub puts : List Ptr
  pub takes : List Ptr

abbrev pub after_enqueue : World → Ptr → Option (Turn (Status × Heap × TsQueue)) → Option World
after_enqueue w d none = none
after_enqueue w d (some sleeps) = some w
after_enqueue w d (some (returns (done, h, q))) =
    some (record w { heap = h; queue = q; puts = w.puts ++ d ∷ [] })
after_enqueue w d (some (returns (failed, h, q))) = some (record w { heap = h; queue = q })

abbrev pub after_dequeue : World → Option (Turn (Ptr × Heap × TsQueue)) → Option World
after_dequeue w none = none
after_dequeue w (some sleeps) = some w
after_dequeue w (some (returns (d, h, q))) =
    some (record w { heap = h; queue = q; takes = w.takes ++ d ∷ [] })

unfoldable pub turn : (Heap → Ptr) → Try → World → Option World
unfolding tsqueue_enqueue tsqueue_dequeue
turn malloc (put d) w = after_enqueue w d (tsqueue_enqueue (malloc w.heap) w.heap w.queue d)
turn malloc take w = after_dequeue w (tsqueue_dequeue w.heap w.queue)

abbrev pub and_turns : (World → Option World) → Option World → Option World
and_turns again none = none
and_turns again (some w) = again w

unfoldable pub turns : (Heap → Ptr) → List Try → World → Option World
turns malloc [] w = some w
turns malloc (t ∷ ts) w = and_turns (turns malloc ts) (turn malloc t w)
