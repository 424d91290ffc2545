-- ===== src/Routing/Search.antt =====
-- `node_find_by_id` in Common/utils.c against the map of ids.
use ikp_data_propagator.Prelude.{
  ℕ, zero, suc, ◌+◌, ◌<◌, ◌≤◌, ◌≡◌, refl, ap, sym, ◌∙◌, true, false, none, some, arith, Bool-cases,
  Option-cases, inl, inr, ℕ_discrete,
}
use ikp_data_propagator.Text.{Text, eq_string, eq_string_symm, eq_string_trans, string_key}
use ikp_data_propagator.HashMap.{Alloc, hashmap_get}
use ikp_data_propagator.HashMap.Valid.{IsHonest}
use ikp_data_propagator.Node.Link.{Nodes, IdMap, put_ids}
use ikp_data_propagator.Node.Ids.{
  IsEmptyTable, IsDistinct, last_with, last_with-lt, last_with-none, put_ids_lem,
}
use ikp_data_propagator.Routing.{find_from, node_find_by_id}

module _ (nodes : Nodes) (q : Text) where
  find_from_absent :
      (left i : ℕ)
      → ((j : ℕ) → j < i + left → eq_string (nodes j).id q ≡ false)
      → find_from nodes q left i ≡ none
  unfolding find_from
  find_from_absent zero i none_has = refl
  find_from_absent (suc left) i none_has =
      rw (none_has i (omega arith))
        (find_from_absent left (suc i) (λ j lt. none_has j (omega arith)))

  find_from_first :
      (left i k : ℕ)
      → i ≤ k
      → k < i + left
      → eq_string (nodes k).id q ≡ true
      → ((j : ℕ) → i ≤ j → j < k → eq_string (nodes j).id q ≡ false)
      → find_from nodes q left i ≡ some k
  unfolding find_from
  find_from_first zero i k le lt same others = absurd (omega arith)
  find_from_first (suc left) i k le lt same others = elim (ℕ_discrete i k) [
    | yes e ↦ rw (ap (λ j. eq_string (nodes j).id q) e ∙ same) (ap some e)
    | no ne ↦ rw (others i (omega arith) (omega arith)) (
        find_from_first left (suc i) k (omega arith) (omega arith) same
          (λ j a b. others j (omega arith) b))
  ]

  earlier_differ :
      (n k : ℕ)
      → IsDistinct nodes n
      → k < n
      → eq_string (nodes k).id q ≡ true
      → (j : ℕ) → 0 ≤ j
      → j < k
      → eq_string (nodes j).id q ≡ false
  earlier_differ n k distinct lt same j _ before = elim (Bool-cases (eq_string (nodes j).id q)) [
    | inr other ↦ other
    | inl also ↦
        let both =
          eq_string_trans (nodes j).id q (nodes k).id also (eq_string_symm q (nodes k).id ∙ same) in
        absurd (let e = distinct j k (omega arith) lt both in omega arith)
  ]

  pub node_find_by_id_last :
      (n : ℕ) → IsDistinct nodes n → node_find_by_id nodes n q ≡ last_with nodes n q
  unfolding node_find_by_id
  node_find_by_id_last n distinct = elim (Option-cases (last_with nodes n q)) [
    | inl e ↦ find_from_absent n 0 (λ j lt. last_with-none nodes n q e j (omega arith)) ∙ sym e
    | inr (k, e) ↦
        let (lt, same) = last_with-lt nodes n q k e in
        find_from_first n 0 k (omega arith) (omega arith) same (earlier_differ n k distinct lt same)
        ∙ sym e
  ]

  -- Where no two nodes share an id and every put succeeds, the search of the sender's side and the
  -- lookup in the map of all ids give the same node for every id, or both none.
  pub search_lookup_lem :
      (allocs : ℕ → Alloc)
      → ((n : ℕ) → IsHonest (allocs n))
      → (n : ℕ) (m : IdMap) → IsDistinct nodes n
      → IsEmptyTable m
      → (put_ids allocs nodes n m).1 ≡ true
      → node_find_by_id nodes n q ≡ hashmap_get (put_ids allocs nodes n m).0 (some q)
  search_lookup_lem allocs honest n m distinct e ok =
      node_find_by_id_last n distinct ∙ sym (put_ids_lem allocs honest nodes n m q e ok)
