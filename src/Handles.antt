-- ===== src/Handles.antt =====
-- The handles that a process holds: how often each is open. A call of Windows that gives a handle
-- gives the next number; `CloseHandle` of a handle that is not open is undefined, here `none`.
use ikp_data_propagator.Prelude.{
  ℕ, ◌+◌, ◌-◌, ◌<◌, ◌≡◌, refl, Option, none, some, ◌==◌, ltb, if◌then◌else◌, arith, lt→ltb,
}

pub record Handles : Type 0 where
  pub next : ℕ
  pub opened : ℕ → ℕ

abbrev pub open_handle : Handles → Handles
open_handle w = record {
  next = w.next + 1;
  opened = λ h. (if h == w.next then 1 else 0) + w.opened h;
}

abbrev pub close_handle : ℕ → Handles → Option Handles
close_handle k w =
    if ltb 0 (w.opened k)
    then some (record w { opened = λ h. w.opened h - (if h == k then 1 else 0) })
    else none

-- A handle that is open can be closed, which takes one off its count and no other.
pub close_handle_lem :
    (k : ℕ) (w : Handles)
    → 0 < w.opened k
    → (w' : Handles) × (close_handle k w ≡ some w')
      × ((h : ℕ) → w.opened h ≡ (if h == k then 1 else 0) + w'.opened h)
close_handle_lem k w pos = (
  record w { opened = λ h. w.opened h - (if h == k then 1 else 0) },
  rw (lt→ltb 0 (w.opened k) pos) refl,
  λ h. ground arith,
)
