-- ===== src/Queue/Fifo.antt =====
-- The operations of Common/queue.c on a well-formed queue: no fault, first in first out.
use ikp_data_propagator.Prelude.{
  ℕ, zero, suc, ◌+◌, ◌-◌, ◌%◌, ◌<◌, ◌≡◌, ◌≢◌, refl, Bool, true, false, ◌&&◌, not, none, some, List,
  [], ◌∷◌, ◌++◌, ◌∙◌, sym, ap, ◌||◌, ==_false_of_ne, Bool-cases, inl, inr, arith, ◌==◌, length,
  length-append, length-map, size_mod, done, failed, if◌then◌else◌,
}
use ikp_data_propagator.Queue.{
  Ptr, null, node, Heap, write, Queue, queue_enqueue, queue_dequeue, queue_peek, queue_is_empty,
  queue_size, queue_destroy, destroy_loop,
}
use ikp_data_propagator.Queue.Segment.{
  Cells, occurs, first, last, payloads, Seg, IsQueue, Seg-write, not-occurs_of_none, occurs-append,
  last-append, last-ne-null, occurs-last, last-holds, last_payload, Seg-snoc, write_self, write_ne,
  ne_of_occurs, out_tail, ne_head,
}

-- `h'` differs from `h` at most at the nodes of `xs`.
abbrev pub SameOutside : Cells → Heap → Heap → Type 0
SameOutside xs h h' = (a : Ptr) → occurs a xs ≡ false → h' a ≡ h a

-- An enqueue on a well-formed queue ends well, in a queue with the payload at the back.
abbrev pub Enqueued : Heap → Queue → Cells → Ptr → Ptr → Type 0
Enqueued h q xs fresh d =
    (h' : Heap) × (q' : Queue) × (queue_enqueue fresh h (some q) d ≡ some (done, h', some q'))
    × IsQueue h' q' (xs ++ (fresh, d) ∷ [])
    × (q'.frees ≡ q.frees)
    × SameOutside (xs ++ (fresh, d) ∷ []) h h'

or_parts : {p r : Bool} → (p || (r || false)) ≡ false → (p ≡ false) × (r ≡ false)
or_parts {p} {r} e = ground arith

ne_of_test : (a b : ℕ) → (a == b) ≡ false → a ≢ b
ne_of_test a b e = ground arith

module _ (h : Heap) (q : Queue) (fresh d : Ptr) (ne : fresh ≢ null) (unused : h fresh ≡ none) where
  enqueue-nil : IsQueue h q [] → Enqueued h q [] fresh d
  unfolding queue_enqueue
  enqueue-nil v = (
    write h fresh (some (node d null)),
    record q { front = fresh; rear = fresh; size = 1 },
    ground (arith, v.rear_last, v.counted),
    record {
      chain = (ne, ground arith, refl, tt);
      front_first = refl;
      rear_last = refl;
      counted = refl;
      small = omega arith;
    },
    refl,
    λ a out. ground arith,
  )

  enqueue-cons :
      (x : Ptr × Ptr) (xs : Cells)
      → IsQueue h q (x ∷ xs)
      → length (x ∷ xs) + 1 < size_mod
      → Enqueued h q (x ∷ xs) fresh d
  unfolding queue_enqueue
  enqueue-cons x xs v room =
      let h₁ = write h fresh (some (node d null)) in
      let out = not-occurs_of_none h fresh (x ∷ xs) unused v.chain in
      let chain₁ = Seg-write h fresh (some (node d null)) (x ∷ xs) out v.chain in
      let holds = last-holds h₁ x xs chain₁ in
      let grown : (q.size + 1) % size_mod ≡ q.size + 1 = omega (arith, v.counted) in
      let ne_rear = last-ne-null h₁ x xs chain₁ in
      (
        write h₁ (last (x ∷ xs)) (some (node (last_payload x xs) fresh)),
        record q { rear = fresh; size = q.size + 1 },
        rw
            (
              ==_false_of_ne fresh null ne,
              v.rear_last,
              ==_false_of_ne _ null ne_rear,
              holds,
              v.rear_last,
            )
            (ap
              (λ n. some (
                done,
                write h₁ (last (x ∷ xs)) (some (node (last_payload x xs) fresh)),
                some (record q { rear = fresh; size = n }),
              ))
              grown),
        record {
          chain = Seg-snoc h₁ x xs fresh d chain₁ ne out (write_self h fresh _);
          front_first = v.front_first;
          rear_last = sym (last-append (x ∷ xs) fresh d);
          counted = omega (arith, v.counted, length-append xs ((fresh, d) ∷ []));
          small = omega (arith, length-append xs ((fresh, d) ∷ []));
        },
        refl,
        λ a o.
            let parts = or_parts (sym (occurs-append a (x ∷ xs) ((fresh, d) ∷ [])) ∙ o) in
            write_ne h₁ _ a _
              (ne_of_occurs (last (x ∷ xs)) a (x ∷ xs) (occurs-last h₁ x xs chain₁) parts.0)
            ∙ write_ne h fresh a _ (ne_of_test a fresh parts.1),
      )

  -- An enqueue never faults: it puts the payload at the back, and touches no node but the fresh
  -- one and the old last one.
  pub enqueue-IsQueue :
      (xs : Cells) → IsQueue h q xs → length xs + 1 < size_mod → Enqueued h q xs fresh d
  enqueue-IsQueue [] v room = enqueue-nil v
  enqueue-IsQueue (x ∷ xs) v room = enqueue-cons x xs v room

-- Where `malloc` gives NULL, an enqueue fails and changes nothing.
pub enqueue_null :
    (h : Heap) (q : Queue) (d : Ptr) → queue_enqueue null h (some q) d ≡ some (failed, h, some q)
unfolding queue_enqueue
enqueue_null h q d = refl

-- A dequeue takes the payload from the front and frees its node.
abbrev pub Dequeued : Heap → Queue → Ptr × Ptr → Cells → Type 0
Dequeued h q x xs =
    (h' : Heap) × (q' : Queue) × (queue_dequeue h (some q) ≡ some (x.1, h', some q'))
    × IsQueue h' q' xs
    × (h' x.0 ≡ none)
    × SameOutside (x ∷ []) h h'

module _ (h : Heap) (q : Queue) where
  pub dequeue-nil : IsQueue h q [] → queue_dequeue h (some q) ≡ some (null, h, some q)
  unfolding queue_dequeue
  dequeue-nil v = rw v.front_first

  rear_after :
      (x : Ptr × Ptr) (xs : Cells)
      → Seg h (x ∷ xs)
      → (if first xs == null then null else last (x ∷ xs)) ≡ last xs
  rear_after x [] s = refl
  rear_after x (y ∷ xs) s = rw (==_false_of_ne y.0 null s.3.0)

  -- A dequeue of a queue that is not empty never faults: it gives the oldest payload, frees that
  -- node and leaves a well-formed queue of the others, their nodes as they were.
  pub dequeue-IsQueue : (x : Ptr × Ptr) (xs : Cells) → IsQueue h q (x ∷ xs) → Dequeued h q x xs
  unfolding queue_dequeue
  dequeue-IsQueue x xs v =
      let s = v.chain in
      let shrunk : (q.size + size_mod - 1) % size_mod ≡ length xs =
        omega (arith, v.counted, v.small) in
      (
        write h x.0 none,
        record q { front = first xs; rear = last xs; size = length xs },
        rw (
          v.front_first,
          ==_false_of_ne x.0 null s.0,
          s.1,
          v.rear_last,
          rear_after x xs s,
          shrunk,
          v.front_first,
        ),
        record {
          chain = Seg-write h x.0 none xs s.2 s.3;
          front_first = refl;
          rear_last = refl;
          counted = refl;
          small = omega (arith, v.small);
        },
        write_self h x.0 none,
        λ a out. write_ne h x.0 a none (ne_of_test a x.0 (ground arith)),
      )

  -- The queries read the front and the length.
  pub peek_lem :
      (xs : Cells)
      → IsQueue h q xs
      → queue_peek h (some q) ≡ some (elim xs [ [] ↦ null | x ∷ _ ↦ x.1 ])
  unfolding queue_peek
  peek_lem [] v = rw v.front_first
  peek_lem (x ∷ xs) v = rw (v.front_first, ==_false_of_ne x.0 null v.chain.0, v.chain.1)

  pub is_empty_lem :
      (xs : Cells)
      → IsQueue h q xs
      → (queue_is_empty (some q) ≡ (length (payloads xs) == 0))
        × (queue_size (some q) ≡ length (payloads xs))
  unfolding queue_is_empty queue_size
  is_empty_lem xs v = rw (length-map xs (λ c. c.1), v.counted) (refl, refl)

-- What `freeFunc` is called on: the payloads that are not NULL.
abbrev pub non_null : List Ptr → List Ptr
non_null [] = []
non_null (d ∷ ds) = if not (d == null) then d ∷ non_null ds else non_null ds

unfoldable pub freed : Bool → Cells → List Ptr
freed true xs = non_null (payloads xs)
freed false xs = []

-- `dropped` grows at its head, so it holds the calls in reverse order.
abbrev pub reverse_onto : List Ptr → List Ptr → List Ptr
reverse_onto [] out = out
reverse_onto (d ∷ ds) out = reverse_onto ds (d ∷ out)

freed-nil : (b : Bool) → freed b [] ≡ []
unfolding freed
freed-nil true = refl
freed-nil false = refl

freed-cons :
    (b : Bool) (a d : Ptr) (xs : Cells) (out : List Ptr)
    → reverse_onto (freed b xs) (if b && not (d == null) then d ∷ out else out)
      ≡ reverse_onto (freed b ((a, d) ∷ xs)) out
unfolding freed
freed-cons true a d xs out = ground arith
freed-cons false a d xs out = refl

-- The loop frees every node, whatever the list before it gave to `freeFunc`.
destroy_loop_lem :
    (fuel : ℕ) (b : Bool) (h : Heap) (xs : Cells) (out : List Ptr)
    → Seg h xs
    → length xs < fuel
    → (h' : Heap) × (destroy_loop fuel b h (first xs) out
        ≡ some (reverse_onto (freed b xs) out, h'))
      × ((a : Ptr) → occurs a xs ≡ true → h' a ≡ none)
      × SameOutside xs h h'
unfolding destroy_loop
destroy_loop_lem zero b h xs out s lt = absurd (omega arith)
destroy_loop_lem (suc fuel) b h [] out s lt =
    (h, ground (arith, freed-nil b), λ a e. cc, λ a e. refl)
destroy_loop_lem (suc fuel) b h ((p, d) ∷ xs) out s lt =
    let out' = if b && not (d == null) then d ∷ out else out in
    let (h', run, gone, same) =
      destroy_loop_lem fuel b (write h p none) xs out' (Seg-write h p none xs s.2 s.3)
        (omega arith) in
    (
      h',
      rw (==_false_of_ne p null s.0, s.1, destroy_loop)
          (run ∙ ap (λ l. some (l, h')) (freed-cons b p d xs out)),
      λ a i. elim (Bool-cases (occurs a xs)) [
        | inl old ↦ gone a old
        | inr new ↦ same a new ∙ freed_here (ground arith)
      ],
      λ a o. same a (out_tail (p, d) xs a o) ∙ write_ne h p a none (ne_head (p, d) xs a o),
    )
  where
    freed_here : {a : Ptr} → a ≡ p → write h p none a ≡ none
    freed_here {a} e = rw e (write_self h p none)

-- `queue_destroy` ends within its fuel, frees every node of the queue and nothing else, and gives
-- each payload that is not NULL to `freeFunc`, if there is one, front first.
pub destroy_lem :
    (h : Heap) (q : Queue) (xs : Cells)
    → IsQueue h q xs
    → (h' : Heap) × (queue_destroy h (some q) ≡ some (reverse_onto (freed q.frees xs) [], h'))
      × ((a : Ptr) → occurs a xs ≡ true → h' a ≡ none)
      × SameOutside xs h h'
unfolding queue_destroy
destroy_lem h q xs v =
    rw v.front_first
      (destroy_loop_lem (q.size + 1) q.frees h xs [] v.chain (omega (arith, v.counted)))
