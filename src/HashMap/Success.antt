-- ===== src/HashMap/Success.antt =====
-- When `hashmap_put` in Common/hashmap.c succeeds.
use ikp_data_propagator.Prelude.{
  ◌*◌, ◌≡◌, refl, ap, ◌∙◌, Bool, true, some, [], if◌then◌else◌, Option-cases, inl, inr, get_or,
  done, failed,
}
use ikp_data_propagator.HashMap.{
  KeyOps, HashMap, Alloc, slot, find, resize_if_needed, insert, put_at, put_checked, replace,
  hashmap_put,
}
use ikp_data_propagator.HashMap.Valid.{IsHonest, IsValid, resize_if_needed-Resized}

module _ {ℓ} {K V : Type ℓ} ⦃ops : KeyOps K⦄ (alloc : Alloc) (given : alloc.malloc ≡ true) where
  insert_done : (m : HashMap K V) (k : K) (x : V) → (insert alloc m k x).0 ≡ done
  unfolding insert
  insert_done m k x = rw given refl

  put_at_done : (m : HashMap K V) (k : K) (x : V) → (put_at alloc m k x).0 ≡ done
  unfolding put_at replace
  put_at_done m k x = elim (Option-cases (find k (get_or m.buckets (slot k m.capacity) []))) [
    | inl e ↦ rw (e, put_at) (insert_done m k x)
    | inr (old, e) ↦ rw (e, put_at) refl
  ]

  -- On a well-formed table a put succeeds where `malloc` gives the node and `calloc` would give an
  -- array of twice the capacity.
  pub hashmap_put_done :
      (m : HashMap K V) (k : K) (x : V)
      → IsHonest alloc
      → IsValid m
      → alloc.calloc (m.capacity * 2) ≡ true
      → (hashmap_put alloc (some m) (some k) x).0 ≡ done
  unfolding hashmap_put put_checked
  hashmap_put_done m k x honest v array =
      let r = resize_if_needed alloc m in
      ap (λ (b : Bool). (if b then put_at alloc r.1 k x else (failed, r.1, [])).0)
        ((resize_if_needed-Resized alloc m honest v).succeeds array)
      ∙ put_at_done r.1 k x
