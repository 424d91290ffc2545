-- ===== src/Queue/Script.antt =====
-- Any sequence of calls of Common/queue.c against a plain list: the refinement of the queue.
use ikp_data_propagator.Prelude.{
  ℕ, ◌+◌, ◌<◌, ◌≡◌, ◌≢◌, ◌⊎◌, inl, inr, refl, Bool, Option, none, some, List, [], ◌∷◌, ◌++◌, arith,
  ◌==◌, length, length-append, size_mod, Status, done, failed, map-snoc,
}
use ikp_data_propagator.Queue.{
  Ptr, null, Heap, Queue, queue_enqueue, queue_dequeue, queue_peek, queue_is_empty, queue_size,
}
use ikp_data_propagator.Queue.Segment.{Cells, payloads, IsQueue}
use ikp_data_propagator.Queue.Fifo.{
  enqueue_null, enqueue-IsQueue, dequeue-nil, dequeue-IsQueue, peek_lem, is_empty_lem,
}

pub data Op : Type 0 where
  enqueue : Ptr → Op
  dequeue peek is_empty size_of : Op

pub data Answer : Type 0 where
  status : Status → Answer
  pointer : Ptr → Answer
  flag : Bool → Answer
  number : ℕ → Answer

abbrev pub answer : Answer → Option (List Answer) → Option (List Answer)
answer a none = none
answer a (some as') = some (a ∷ as')

-- The calls on the heap, one after the other; `malloc` gives the block of a new node.
unfoldable pub run : (Heap → Ptr) → List Op → Heap → Option Queue → Option (List Answer)
run malloc [] h q = some []
run malloc (enqueue d ∷ ops) h q = elim (queue_enqueue (malloc h) h q d) [
  | none ↦ none
  | some (s, h', q') ↦ answer (status s) (run malloc ops h' q')
]
run malloc (dequeue ∷ ops) h q = elim (queue_dequeue h q) [
  | none ↦ none
  | some (d, h', q') ↦ answer (pointer d) (run malloc ops h' q')
]
run malloc (peek ∷ ops) h q = elim (queue_peek h q) [
  | none ↦ none
  | some d ↦ answer (pointer d) (run malloc ops h q)
]
run malloc (is_empty ∷ ops) h q = answer (flag (queue_is_empty q)) (run malloc ops h q)
run malloc (size_of ∷ ops) h q = answer (number (queue_size q)) (run malloc ops h q)

-- What the same calls may answer on the list of the payloads: an enqueue succeeds, and puts its
-- payload at the back, or fails and changes nothing; all else is determined.
pub data Conforms : List Op → List Ptr → List Answer → Type 0 where
  nothing : (ds : List Ptr) → Conforms [] ds []
  enqueued :
      {ops : List Op} {ds : List Ptr} {as' : List Answer} (d : Ptr)
      → Conforms ops (ds ++ d ∷ []) as'
      → Conforms (enqueue d ∷ ops) ds (status done ∷ as')
  no_memory :
      {ops : List Op} {ds : List Ptr} {as' : List Answer} (d : Ptr)
      → Conforms ops ds as'
      → Conforms (enqueue d ∷ ops) ds (status failed ∷ as')
  dequeued :
      {ops : List Op} {ds : List Ptr} {as' : List Answer} (d : Ptr)
      → Conforms ops ds as'
      → Conforms (dequeue ∷ ops) (d ∷ ds) (pointer d ∷ as')
  none_left :
      {ops : List Op} {as' : List Answer}
      → Conforms ops [] as'
      → Conforms (dequeue ∷ ops) [] (pointer null ∷ as')
  peeked :
      {ops : List Op} {ds : List Ptr} {as' : List Answer} (d : Ptr)
      → Conforms ops (d ∷ ds) as'
      → Conforms (peek ∷ ops) (d ∷ ds) (pointer d ∷ as')
  none_seen :
      {ops : List Op} {as' : List Answer}
      → Conforms ops [] as'
      → Conforms (peek ∷ ops) [] (pointer null ∷ as')
  tested :
      {ops : List Op} {ds : List Ptr} {as' : List Answer}
      → Conforms ops ds as'
      → Conforms (is_empty ∷ ops) ds (flag (length ds == 0) ∷ as')
  counted :
      {ops : List Op} {ds : List Ptr} {as' : List Answer}
      → Conforms ops ds as'
      → Conforms (size_of ∷ ops) ds (number (length ds) ∷ as')

-- What the C library says of `malloc`: it gives NULL or a block that is not in use.
abbrev pub Allocates : (Heap → Ptr) → Type 0
Allocates malloc = (h : Heap) → (malloc h ≡ null) ⊎ ((malloc h ≢ null) × (h (malloc h) ≡ none))

-- The run ends without a fault in answers that conform.
abbrev pub Runs : List Op → List Ptr → Option (List Answer) → Type 0
Runs ops ds r = (as' : List Answer) × (r ≡ some as') × Conforms ops ds as'

answered :
    {ops ops' : List Op} {ds ds' : List Ptr} (a : Answer) (r : Option (List Answer))
    → Runs ops ds r
    → ((as' : List Answer) → Conforms ops ds as' → Conforms ops' ds' (a ∷ as'))
    → Runs ops' ds' (answer a r)
answered a r (as', e, c) step = (a ∷ as', rw e, step as' c)

module _ (malloc : Heap → Ptr) (lawful : Allocates malloc) where
  -- Every sequence of calls on a well-formed queue runs without a fault and answers as the same
  -- calls on the list of its payloads may, as long as the number of nodes fits a `size_t`.
  pub run-Conforms :
      (ops : List Op) (h : Heap) (q : Queue) (xs : Cells)
      → IsQueue h q xs
      → length xs + length ops < size_mod
      → Runs ops (payloads xs) (run malloc ops h (some q))
  unfolding run
  run-Conforms [] h q xs v room = ([], refl, nothing _)
  run-Conforms (enqueue d ∷ ops) h q xs v room = elim (lawful h) [
    | inl refused ↦
        rw (refused, enqueue_null h q d, run)
          (answered (status failed) _ (run-Conforms ops h q xs v (omega arith))
            (λ as' c. no_memory d c))
    | inr (ne, unused) ↦
        let (h', q', e, v', _, _) = enqueue-IsQueue h q (malloc h) d ne unused xs v (omega arith) in
        rw (e, run)
          (answered (status done) _
            (rw (map-snoc (λ (c : Ptr × Ptr). c.1) xs (malloc h, d)) at (
              run-Conforms ops h' q' (xs ++ (malloc h, d) ∷ []) v'
                (omega (arith, length-append xs ((malloc h, d) ∷ [])))))
            (λ as' c. enqueued d c))
  ]
  run-Conforms (dequeue ∷ ops) h q [] v room =
      rw (dequeue-nil h q v, run)
        (answered (pointer null) _ (run-Conforms ops h q [] v (omega arith)) (λ as' c. none_left c))
  run-Conforms (dequeue ∷ ops) h q (x ∷ xs) v room =
      let (h', q', e, v', _, _) = dequeue-IsQueue h q x xs v in
      rw (e, run)
        (answered (pointer x.1) _ (run-Conforms ops h' q' xs v' (omega arith))
          (λ as' c. dequeued x.1 c))
  run-Conforms (peek ∷ ops) h q [] v room =
      rw (peek_lem h q [] v, run)
        (answered (pointer null) _ (run-Conforms ops h q [] v (omega arith)) (λ as' c. none_seen c))
  run-Conforms (peek ∷ ops) h q (x ∷ xs) v room =
      rw (peek_lem h q (x ∷ xs) v, run)
        (answered (pointer x.1) _ (run-Conforms ops h q (x ∷ xs) v (omega arith))
          (λ as' c. peeked x.1 c))
  run-Conforms (is_empty ∷ ops) h q xs v room =
      rw ((is_empty_lem h q xs v).0)
        (answered _ _ (run-Conforms ops h q xs v (omega arith)) (λ as' c. tested c))
  run-Conforms (size_of ∷ ops) h q xs v room =
      rw ((is_empty_lem h q xs v).1)
        (answered _ _ (run-Conforms ops h q xs v (omega arith)) (λ as' c. counted c))
