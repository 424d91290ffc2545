-- ===== src/HashMap/Remove.antt =====
-- `hashmap_remove` of Common/hashmap.c.
use ikp_data_propagator.Prelude.{
  ◌+◌, ◌-◌, ◌%◌, ◌<◌, ◌≡◌, refl, ◌∙◌, inl, inr, Bool, Option, none, some, List, [], ◌∷◌, ◌++◌,
  arith, if◌then◌else◌, is_some, Option-cases, length, length-flatten-set, size_mod,
}
use ikp_data_propagator.HashMap.{
  KeyOps, HashMap, Freed, freed_key, freed_value, find, find_key, unlink, freed_node, remove_at,
  hashmap_remove,
}
use ikp_data_propagator.HashMap.Chain.{
  find-unlink, count-unlink-le, length-unlink, find_key-find, find_congr,
}
use ikp_data_propagator.HashMap.Buckets.{chain_of, view, set-Holds, slot-lt, slot_congr}
use ikp_data_propagator.HashMap.Valid.{IsValid, value_of}

module _ {ℓ} {K V : Type ℓ} ⦃ops : KeyOps K⦄ where
  chain_value : (m : HashMap K V) (q : K) → find q (chain_of m.buckets q) ≡ value_of m q
  unfolding view
  chain_value m q = refl

  -- The key that the node of `k` holds, if there is one.
  abbrev pub stored_key : HashMap K V → K → Option K
  stored_key m k = find_key k (chain_of m.buckets k)

  abbrev pub freed_by_remove : HashMap K V → Option V → Option K → List (Freed K V)
  freed_by_remove m none j = []
  freed_by_remove m (some v) none = []
  freed_by_remove m (some v) (some j) =
      (if m.frees_key then freed_key j ∷ [] else [])
      ++ (if m.frees_value then freed_value v ∷ [] else [])

  -- What a removal does: it answers whether the key was there, and if so forgets it, counts one
  -- node less, and frees the node's own key and value.
  pub record Removes (m : HashMap K V) (k : K) (r : Bool × HashMap K V × List (Freed K V))
      : Type ℓ where
    pub answers : r.0 ≡ is_some (value_of m k)
    pub valid : IsValid r.1
    pub reads : (q : K) → value_of r.1 q ≡ (if ops.key_eq k q then none else value_of m q)
    pub size : r.1.size + (if r.0 then 1 else 0) ≡ m.size
    pub frees : r.2 ≡ freed_by_remove m (value_of m k) (stored_key m k)
    pub flags : (r.1.frees_key ≡ m.frees_key) × (r.1.frees_value ≡ m.frees_value)

  module _ (m : HashMap K V) (k : K) (v : IsValid m) where
    absent_reads :
        value_of m k ≡ none
        → (q : K) → value_of m q ≡ (if ops.key_eq k q then none else value_of m q)
    unfolding view
    absent_reads e q =
        ground (arith, slot_congr k q (length m.buckets), find_congr k q (chain_of m.buckets k))

    missing : value_of m k ≡ none → (j : Option K) → Removes m k (remove_at m k j none)
    unfolding remove_at
    missing e none = record {
      answers = rw e;
      valid = v;
      reads = absent_reads e;
      size = omega arith;
      frees = rw e;
      flags = (refl, refl);
    }
    missing e (some j) = record {
      answers = rw e;
      valid = v;
      reads = absent_reads e;
      size = omega arith;
      frees = rw e;
      flags = (refl, refl);
    }

    present :
        (j : K) (old : V)
        → stored_key m k ≡ some j
        → value_of m k ≡ some old
        → Removes m k (remove_at m k (some j) (some old))
    unfolding remove_at freed_node
    present j old ej e =
        let c = chain_of m.buckets k in
        let found = chain_value m k ∙ e in
        let shorter = length-unlink k c old found in
        let filled =
          length-flatten-set m.buckets _ []
            (slot-lt k (length m.buckets) (omega (arith, v.pos, v.width))) in
        let some_left : 0 < m.size = omega (arith, v.counted, filled, shorter) in
        let shrunk : (m.size + size_mod - 1) % size_mod ≡ m.size - 1 =
          omega (arith, v.sparse, v.fits) in
        let t = rw v.width at (
          set-Holds m.buckets (omega (arith, v.pos, v.width)) v.placed k (m.size - 1) (unlink k c)
            none (omega (arith, v.counted, shorter)) (λ q. find-unlink k q c (v.placed q _).once)
            (λ q. omega (arith, count-unlink-le k q c))) in
        rw shrunk (record {
          answers = rw e;
          valid = record {
            pos = v.pos;
            fits = v.fits;
            width = t.breadth;
            counted = t.nodes;
            placed = t.placed;
            sparse = omega (arith, v.sparse);
          };
          reads = t.reads;
          size = omega arith;
          frees = rw (e, ej);
          flags = (refl, refl);
        })

    remove_at-Removes : Removes m k (remove_at m k (stored_key m k) (value_of m k))
    unfolding remove_at
    remove_at-Removes = elim (Option-cases (value_of m k)) [
      | inl e ↦ rw (e, remove_at) (missing e (stored_key m k))
      | inr (old, e) ↦
          let (j, ej, _) = find_key-find k (chain_of m.buckets k) old (chain_value m k ∙ e) in
          rw (ej, e, remove_at) (present j old ej e)
    ]

    remove_run :
        let r = remove_at m k (stored_key m k) (value_of m k) in
        hashmap_remove (some m) (some k) ≡ (r.0, some r.1, r.2)
    unfolding hashmap_remove view
    remove_run = rw v.width

    -- On a well-formed table `hashmap_remove` answers whether the key was there; it keeps the
    -- table well formed, forgets the key and no other, counts one node less exactly if it was
    -- there, and then frees the key and the value that its node held.
    pub hashmap_remove-Removes :
        let r = hashmap_remove (some m) (some k) in
        (m' : HashMap K V) × (r.1 ≡ some m') × Removes m k (r.0, m', r.2)
    hashmap_remove-Removes =
        let r = remove_at m k (stored_key m k) (value_of m k) in
        rw remove_run (r.1, refl, remove_at-Removes)
