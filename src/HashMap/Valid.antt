-- ===== src/HashMap/Valid.antt =====
-- When a table of Common/hashmap.c is well formed, and that `resize_if_needed` keeps it so.
use ikp_data_propagator.Prelude.{
  ℕ, ◌+◌, ◌*◌, ◌%◌, ◌≤◌, ◌<◌, ◌≡◌, refl, ◌∙◌, inl, inr, Bool, true, Option, arith, Bool-cases,
  length, flatten, size_mod,
}
use ikp_data_propagator.HashMap.{KeyOps, HashMap, Alloc, has_room, resize_if_needed}
use ikp_data_propagator.HashMap.Buckets.{IsPlaced, view}
use ikp_data_propagator.HashMap.Resize.{move_all-Holds}

-- A bucket array of that many pointers was allocated only if its size fits a `size_t`.
abbrev pub IsHonest : Alloc → Type 0
IsHonest alloc = (n : ℕ) → alloc.calloc n ≡ true → n * 8 < size_mod

module _ {ℓ} {K V : Type ℓ} ⦃ops : KeyOps K⦄ where
  -- The table is well formed, and at most three quarters full.
  pub record IsValid (m : HashMap K V) : Type ℓ where
    pub pos : 0 < m.capacity
    pub fits : m.capacity * 8 < size_mod
    pub width : length m.buckets ≡ m.capacity
    pub counted : length (flatten m.buckets) ≡ m.size
    pub placed : IsPlaced m.buckets
    pub sparse : m.size * 4 ≤ m.capacity * 3

  -- The value of a key in the table.
  abbrev pub value_of : HashMap K V → K → Option V
  value_of m q = view m.buckets q

  -- What `resize_if_needed` promises, with its result `r`.
  pub record Resized (alloc : Alloc) (m : HashMap K V) (r : Bool × HashMap K V) : Type ℓ where
    pub valid : IsValid r.1
    pub reads : (q : K) → value_of r.1 q ≡ value_of m q
    pub size : r.1.size ≡ m.size
    pub flags : (r.1.frees_key ≡ m.frees_key) × (r.1.frees_value ≡ m.frees_value)
    pub room : r.0 ≡ true → (m.size + 1) * 4 ≤ r.1.capacity * 3
    pub succeeds : alloc.calloc (m.capacity * 2) ≡ true → r.0 ≡ true

  -- `resize_if_needed` keeps the table well formed and every key's value, whatever the allocation
  -- does; it succeeds where the doubled array is given, and a success leaves room for a node.
  pub resize_if_needed-Resized :
      (alloc : Alloc) (m : HashMap K V)
      → IsHonest alloc
      → IsValid m
      → Resized alloc m (resize_if_needed alloc m)
  unfolding resize_if_needed
  resize_if_needed-Resized alloc m honest v = elim (Bool-cases (has_room m.size m.capacity)) [
    | inl roomy ↦ rw roomy (record {
      valid = v;
      reads = λ q. refl;
      size = refl;
      flags = (refl, refl);
      room = λ _. ground arith;
      succeeds = λ _. refl;
    })
    | inr full ↦
        let wrap : (m.capacity * 2) % size_mod ≡ m.capacity * 2 = omega (arith, v.fits) in
        elim (Bool-cases (alloc.calloc (m.capacity * 2))) [
          | inl given ↦
              let t = move_all-Holds (m.capacity * 2) m.buckets (omega (arith, v.pos)) v.placed in
              rw (full, wrap, given)
                (record {
                  valid = record {
                    pos = omega (arith, v.pos);
                    fits = honest (m.capacity * 2) given;
                    width = t.breadth;
                    counted = t.nodes ∙ v.counted;
                    placed = t.placed;
                    sparse = omega (arith, v.sparse);
                  };
                  reads = t.reads;
                  size = refl;
                  flags = (refl, refl);
                  room = λ _. omega (arith, v.sparse, v.pos);
                  succeeds = λ _. refl;
                })
          | inr refused ↦
              rw (full, wrap, refused)
                (record {
                  valid = v;
                  reads = λ q. refl;
                  size = refl;
                  flags = (refl, refl);
                  room = λ e. cc;
                  succeeds = λ e. cc;
                })
        ]
  ]
