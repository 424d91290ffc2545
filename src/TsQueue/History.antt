-- ===== src/TsQueue/History.antt =====
-- What any interleaving of threads sees of the queue of Common/tsqueue.c.
use mathlib.Core.List.{append_assoc}
use ikp_data_propagator.Prelude.{
  ℕ, ◌+◌, ◌<◌, ◌≤◌, ◌≡◌, refl, ap, sym, ◌∙◌, inl, inr, false, ◌&&◌, Option, some, List, [], ◌∷◌,
  ◌++◌, arith, length, length-append, length-map, ltb, leb, Bool-cases, ==_false_of_ne, size_mod,
  map-snoc,
}
use ikp_data_propagator.Queue.{Ptr, Heap}
use ikp_data_propagator.Queue.Segment.{Cells, payloads, IsQueue}
use ikp_data_propagator.Queue.Fifo.{enqueue_null, enqueue-IsQueue, dequeue-IsQueue, is_empty_lem}
use ikp_data_propagator.Queue.Script.{Allocates}
use ikp_data_propagator.TsQueue.{
  is_full, tsqueue_enqueue, tsqueue_dequeue, Try, put, take, World, turn, and_turns, turns,
}

-- The queue holds what was put and not taken yet, in order, and no more than its capacity.
pub record IsConsistent (w : World) (xs : Cells) : Type 0 where
  pub holds : IsQueue w.heap w.queue.inner xs
  pub in_order : w.puts ≡ w.takes ++ payloads xs
  pub bounded : 0 < w.queue.capacity → length xs ≤ w.queue.capacity

-- A result that is consistent, with at most one node more, and with the same capacity.
abbrev pub Continues : World → Cells → Option World → Type 0
Continues w xs r =
    (w' : World) × (xs' : Cells) × (r ≡ some w')
    × IsConsistent w' xs'
    × (length xs' ≤ length xs + 1)
    × (w'.queue.capacity ≡ w.queue.capacity)

not_full : (cap n : ℕ) → 0 < cap → (ltb 0 cap && leb cap n) ≡ false → n + 1 ≤ cap
not_full cap n pos free = ground arith

module _ (malloc : Heap → Ptr) (lawful : Allocates malloc) where
  put-IsConsistent :
      (w : World) (xs : Cells) (d : Ptr)
      → IsConsistent w xs
      → length xs + 1 < size_mod
      → Continues w xs (turn malloc (put d) w)
  unfolding turn tsqueue_enqueue
  put-IsConsistent w xs d c room = elim (Bool-cases (is_full w.queue)) [
    | inl full ↦ rw full (w, xs, refl, c, omega arith, refl)
    | inr free ↦ elim (lawful w.heap) [
      | inl refused ↦
          rw (free, refused, enqueue_null w.heap w.queue.inner d)
            (w, xs, refl, c, omega arith, refl)
      | inr (ne, unused) ↦
          let (h', q', e, v', _, _) =
            enqueue-IsQueue w.heap w.queue.inner (malloc w.heap) d ne unused xs c.holds room in
          let below = rw ((is_empty_lem w.heap w.queue.inner xs c.holds).1) at free in
          let longer = length-append xs ((malloc w.heap, d) ∷ []) in
          rw (free, e)
            (
              record {
                heap = h';
                queue = record w.queue { inner = q' };
                puts = w.puts ++ d ∷ [];
                takes = w.takes;
              },
              xs ++ (malloc w.heap, d) ∷ [],
              refl,
              record {
                holds = v';
                in_order =
                    rw (map-snoc (λ (c : Ptr × Ptr). c.1) xs (malloc w.heap, d), c.in_order)
                      (append_assoc w.takes (payloads xs) (d ∷ []));
                bounded = λ pos.
                    omega (
                      arith,
                      longer,
                      not_full _ _ pos below,
                      length-map xs (λ (c : Ptr × Ptr). c.1),
                    );
              },
              omega (arith, longer),
              refl,
            )
    ]
  ]

  take-IsConsistent :
      (w : World) (xs : Cells) → IsConsistent w xs → Continues w xs (turn malloc take w)
  unfolding turn tsqueue_dequeue
  take-IsConsistent w [] c =
      rw ((is_empty_lem w.heap w.queue.inner [] c.holds).0) (w, [], refl, c, omega arith, refl)
  take-IsConsistent w (x ∷ xs) c =
      let (h', q', e, v', _, _) = dequeue-IsQueue w.heap w.queue.inner x xs c.holds in
      let waiting =
        (is_empty_lem w.heap w.queue.inner (x ∷ xs) c.holds).0
        ∙ ==_false_of_ne (length (payloads (x ∷ xs))) 0 (omega arith) in
      rw (waiting, e)
        (
          record {
            heap = h';
            queue = record w.queue { inner = q' };
            puts = w.puts;
            takes = w.takes ++ x.1 ∷ [];
          },
          xs,
          refl,
          record {
            holds = v';
            in_order = c.in_order ∙ sym (append_assoc w.takes (x.1 ∷ []) (payloads xs));
            bounded = λ pos. omega (arith, c.bounded pos);
          },
          omega arith,
          refl,
        )

  turn-IsConsistent :
      (t : Try) (w : World) (xs : Cells)
      → IsConsistent w xs
      → length xs + 1 < size_mod
      → Continues w xs (turn malloc t w)
  turn-IsConsistent (put d) w xs c room = put-IsConsistent w xs d c room
  turn-IsConsistent take w xs c room = take-IsConsistent w xs c

  -- However the threads' turns interleave, none faults: what was taken so far, followed by what the
  -- queue holds, is what was put, in the order in which it was put, and a queue with a capacity
  -- never holds more, as long as the number of nodes fits a `size_t`.
  pub turns-IsConsistent :
      (ts : List Try) (w : World) (xs : Cells)
      → IsConsistent w xs
      → length xs + length ts < size_mod
      → (w' : World) × (xs' : Cells) × (turns malloc ts w ≡ some w') × IsConsistent w' xs'
  unfolding turns
  turns-IsConsistent [] w xs c room = (w, xs, refl, c)
  turns-IsConsistent (t ∷ ts) w xs c room =
      let (w₁, xs₁, e, c₁, more, _) = turn-IsConsistent t w xs c (omega arith) in
      let (w', xs', e', c') = turns-IsConsistent ts w₁ xs₁ c₁ (omega arith) in
      (w', xs', ap (and_turns (turns malloc ts)) e ∙ e', c')
