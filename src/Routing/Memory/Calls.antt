-- ===== src/Routing/Memory/Calls.antt =====
-- The calls of `collect_subtree` (CentralPropagator/cp_context.c) on its map: what becomes of the copies
-- of ids that they put into it, and that they come to an end.
use ikp_data_propagator.Prelude.{
  ℕ, zero, suc, ◌+◌, ◌<◌, ◌≡◌, refl, sym, ap, ◌∙◌, Bool, true, false, some, List, [], ◌∷◌, ◌++◌,
  arith, take, inl, inr,
}
use ikp_data_propagator.Text.{Text, string_key}
use ikp_data_propagator.HashMap.{Alloc, hashmap_create, hashmap_destroy}
use ikp_data_propagator.HashMap.Valid.{IsHonest}
use ikp_data_propagator.HashMap.Weight.{weight, freed_weight}
use ikp_data_propagator.HashMap.Lives.{
  Call, put, Life, after_call, after_calls, after_calls-append, start, AllHonest, AllHonest-append,
  life_lem,
}
use ikp_data_propagator.Node.Link.{Nodes, IdMap}
use ikp_data_propagator.Node.Children.{IsIn, kids}
use ikp_data_propagator.Routing.Paths.{IsBelow, self, under, IsForest}
use ikp_data_propagator.Routing.Context.{collect_subtree, put_node, for_all}
use ikp_data_propagator.Routing.Memory.{all_calls, subtree_calls, all_return, returns}

module _ (allocs : ℕ → Alloc) (nodes : Nodes) where
  for_all_life :
      (c : ℕ → List (Call Text ℕ)) (f : ℕ → IdMap × Bool → IdMap × Bool)
      → ((n : ℕ) (l : Life Text ℕ) (ok : Bool)
          → (after_calls l (c n)).table ≡ (f n (l.table, ok)).0)
      → (cs : List ℕ) (l : Life Text ℕ) (ok : Bool)
      → (after_calls l (all_calls c cs)).table ≡ (for_all f cs (l.table, ok)).0
  unfolding after_calls
  for_all_life c f same [] l ok = refl
  for_all_life c f same (n ∷ cs) l ok =
      let step = same n l ok in
      let l' = after_calls l (c n) in
      ap (λ x. x.table) (after_calls-append l (c n) (all_calls c cs))
      ∙ for_all_life c f same cs l' (f n (l.table, ok)).1
      ∙ ap (λ t. (for_all f cs (t, (f n (l.table, ok)).1)).0) step

  subtree_life :
      (fuel n : ℕ) (l : Life Text ℕ) (ok : Bool)
      → (after_calls l (subtree_calls fuel allocs nodes n)).table
        ≡ (collect_subtree fuel allocs nodes n (l.table, ok)).0
  unfolding after_calls subtree_calls collect_subtree
  subtree_life zero n l ok = refl
  subtree_life (suc fuel) n l ok =
      let c = put (allocs n) (nodes n).id n in
      for_all_life (subtree_calls fuel allocs nodes) (collect_subtree fuel allocs nodes)
        (subtree_life fuel) (take (nodes n).child_count (nodes n).children) (after_call l c)
        (put_node (allocs n) nodes n (l.table, ok)).1

  all_calls-AllHonest :
      (c : ℕ → List (Call Text ℕ))
      → ((n : ℕ) → AllHonest (c n))
      → (cs : List ℕ) → AllHonest (all_calls c cs)
  all_calls-AllHonest c h [] = tt
  all_calls-AllHonest c h (n ∷ cs) =
      AllHonest-append (c n) (all_calls c cs) (h n) (all_calls-AllHonest c h cs)

  module _ (honest : (n : ℕ) → IsHonest (allocs n)) where
    subtree_calls-AllHonest : (fuel n : ℕ) → AllHonest (subtree_calls fuel allocs nodes n)
    unfolding subtree_calls
    subtree_calls-AllHonest zero n = tt
    subtree_calls-AllHonest (suc fuel) n = (
      honest n,
      all_calls-AllHonest (subtree_calls fuel allocs nodes) (subtree_calls-AllHonest fuel)
          (take (nodes n).child_count (nodes n).children),
    )

    -- The copies of the ids that `collect_subtree` puts into the map of a context: those whose put
    -- succeeds are all freed, each as often as it was made, by the replacements and by the
    -- `hashmap_destroy` of the map in `cp_context_destroy`.
    pub subtree_keys_lem :
        (f : Text → ℕ) (fuel me : ℕ) (alloc : Alloc) (total : ℕ)
        → IsHonest alloc
        → let m : IdMap = hashmap_create alloc total true true false in
          let l = after_calls (start m) (subtree_calls fuel allocs nodes me) in
          freed_weight f
            (λ _. 0)
            (l.freed ++ hashmap_destroy (collect_subtree fuel allocs nodes me (m, true)).0)
          ≡ weight f (λ _. 0) l.given
    subtree_keys_lem f fuel me alloc total ok =
        let m : IdMap = hashmap_create alloc total true true false in
        let l = after_calls (start m) (subtree_calls fuel allocs nodes me) in
        ap (λ t. freed_weight f (λ _. 0) (l.freed ++ hashmap_destroy t))
          (sym (subtree_life fuel me (start m) true))
        ∙ life_lem f (λ _. 0) alloc total true false (subtree_calls fuel allocs nodes me)
            ((λ e. cc), λ _ _. refl) ok (subtree_calls-AllHonest fuel me)

-- The recursion of `collect_subtree` ends on a forest, with fuel for the depth below the node.
module _ (nodes : Nodes) (rank : ℕ → ℕ) (forest : IsForest nodes rank)
    (up : (n c : ℕ) → IsIn c (kids nodes n) → (nodes c).parent ≡ some n) where
  IsBelow-child : (n c x : ℕ) → (nodes c).parent ≡ some n → IsBelow nodes c x → IsBelow nodes n x
  IsBelow-child n c x e self = under e self
  IsBelow-child n c x e (under {p = p} e' b) = under e' (IsBelow-child n c p e b)

  all_return_lem :
      (f : ℕ → Bool) (cs : List ℕ) → ((c : ℕ) → IsIn c cs → f c ≡ true) → all_return f cs ≡ true
  all_return_lem f [] h = refl
  all_return_lem f (c ∷ cs) h =
      rw (h c (inl refl)) (all_return_lem f cs (λ d there. h d (inr there)))

  pub returns_lem :
      (fuel n : ℕ)
      → ((x : ℕ) → IsBelow nodes n x → rank x < rank n + fuel)
      → returns fuel nodes n ≡ true
  unfolding returns
  returns_lem zero n deep = absurd (let d = deep n self in omega arith)
  returns_lem (suc fuel) n deep = all_return_lem (returns fuel nodes) (kids nodes n) (λ c there.
      let e = up n c there in
      let lower = forest c n e in
      returns_lem fuel c
        (λ x b. let d = deep x (IsBelow-child n c x e b) in omega (arith, lower, d)))
