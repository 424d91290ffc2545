-- ===== src/TsQueue/Progress.antt =====
-- When a turn of Common/tsqueue.c does its call, and when its thread sleeps.
use ikp_data_propagator.Prelude.{
  ◌+◌, ◌<◌, ◌≡◌, ◌≢◌, refl, ap, sym, ◌∙◌, inl, inr, ◌&&◌, some, List, [], ◌∷◌, ◌++◌, arith, length,
  length-map, ltb, leb, ==_false_of_ne, if◌then◌else◌, Bool-cases, size_mod,
}
use mathlib.Core.List.{append-nil}
use ikp_data_propagator.Queue.{Ptr, null, Heap}
use ikp_data_propagator.Queue.Segment.{Cells, payloads}
use ikp_data_propagator.Queue.Fifo.{enqueue-IsQueue, dequeue-IsQueue, is_empty_lem}
use ikp_data_propagator.Queue.Script.{Allocates}
use ikp_data_propagator.TsQueue.{is_full, tsqueue_enqueue, tsqueue_dequeue, put, take, World, turn}
use ikp_data_propagator.TsQueue.History.{IsConsistent}

-- The oldest payload, where there is one.
abbrev pub oldest : Cells → List Ptr
oldest [] = []
oldest (x ∷ xs) = x.1 ∷ []

is_full_lem :
    (w : World) (xs : Cells)
    → IsConsistent w xs
    → is_full w.queue ≡ (ltb 0 w.queue.capacity && leb w.queue.capacity (length xs))
is_full_lem w xs c =
    ap (λ n. ltb 0 w.queue.capacity && leb w.queue.capacity n)
      ((is_empty_lem w.heap w.queue.inner xs c.holds).1 ∙ length-map xs (λ (c : Ptr × Ptr). c.1))

module _ (malloc : Heap → Ptr) (lawful : Allocates malloc) where
  -- Where `malloc` gives a node, a turn of an enqueue puts its payload at the back exactly if the
  -- queue has no capacity or is below it; else the thread sleeps and nothing changes.
  pub put_turn_lem :
      (w : World) (xs : Cells) (d : Ptr)
      → IsConsistent w xs
      → length xs + 1 < size_mod
      → malloc w.heap ≢ null
      → (w' : World) × (turn malloc (put d) w ≡ some w')
        × (w'.puts ≡ (
            if ltb 0 w.queue.capacity && leb w.queue.capacity (length xs)
            then w.puts
            else w.puts ++ d ∷ []))
        × (w'.takes ≡ w.takes)
  unfolding turn tsqueue_enqueue
  put_turn_lem w xs d c room given = elim (Bool-cases (is_full w.queue)) [
    | inl full ↦ rw (sym (is_full_lem w xs c), full) (w, refl, refl, refl)
    | inr free ↦ elim (lawful w.heap) [
      | inl refused ↦ absurd (given refused)
      | inr (ne, unused) ↦
          let (h', q', e, _, _, _) =
            enqueue-IsQueue w.heap w.queue.inner (malloc w.heap) d ne unused xs c.holds room in
          rw (sym (is_full_lem w xs c), free, e)
            (
              record {
                heap = h';
                queue = record w.queue { inner = q' };
                puts = w.puts ++ d ∷ [];
                takes = w.takes;
              },
              refl,
              refl,
              refl,
            )
    ]
  ]

  -- A turn of a dequeue takes the oldest payload exactly if there is one; else the thread sleeps and
  -- nothing changes.
  pub take_turn_lem :
      (w : World) (xs : Cells)
      → IsConsistent w xs
      → (w' : World) × (turn malloc take w ≡ some w')
        × (w'.takes ≡ w.takes ++ oldest xs)
        × (w'.puts ≡ w.puts)
  unfolding turn tsqueue_dequeue
  take_turn_lem w [] c =
      rw ((is_empty_lem w.heap w.queue.inner [] c.holds).0)
        (w, refl, sym (append-nil w.takes), refl)
  take_turn_lem w (x ∷ xs) c =
      let (h', q', e, _, _, _) = dequeue-IsQueue w.heap w.queue.inner x xs c.holds in
      let waiting =
        (is_empty_lem w.heap w.queue.inner (x ∷ xs) c.holds).0
        ∙ ==_false_of_ne (length (payloads (x ∷ xs))) 0 (omega arith) in
      rw (waiting, e)
        (
          record {
            heap = h';
            queue = record w.queue { inner = q' };
            puts = w.puts;
            takes = w.takes ++ x.1 ∷ [];
          },
          refl,
          refl,
          refl,
        )
