-- ===== src/HashMap/Resize.antt =====
-- `resize_if_needed` of Common/hashmap.c keeps every node and every lookup.
use ikp_data_propagator.Prelude.{
  some, ◌<◌, ◌≤◌, ℕ, zero, suc, ◌+◌, ◌≤◌, ◌<◌, ◌≡◌, refl, ◌∙◌, sym, ap, none, List, [], ◌∷◌, ◌++◌,
  arith, length, get_or, set, replicate, flatten, length-replicate, get_or-replicate,
}
use ikp_data_propagator.HashMap.{KeyOps, HashNodes, slot, find, move_chain, move_all}
use ikp_data_propagator.HashMap.Chain.{or_else, or_else-none, count}
use ikp_data_propagator.HashMap.Buckets.{IsPlaced, view, changed, Holds, flatten-view, cons-Holds}

flatten-replicate {ℓ} : {A : Type ℓ} (n : ℕ) → flatten {A = A} (replicate n []) ≡ []
flatten-replicate zero = refl
flatten-replicate (suc n) = flatten-replicate n

module _ {ℓ} {K V : Type ℓ} ⦃ops : KeyOps K⦄ where
  pub replicate-Holds : (width : ℕ) → Holds {K = K} {V = V} width 0 (λ q. none) (replicate width [])
  unfolding view count find
  replicate-Holds n = record {
    breadth = length-replicate n [];
    nodes = ap length (flatten-replicate n);
    placed = λ q i. record {
      once = rw (get_or-replicate {A = HashNodes K V} n i []) (omega arith);
      elsewhere = λ _. rw (get_or-replicate {A = HashNodes K V} n i []);
    };
    reads = λ q. rw (
        get_or-replicate {A = HashNodes K V} n
          (slot q (length (replicate {A = HashNodes K V} n []))) []);
  }

  move_chain-append :
      (n : ℕ) (a b : HashNodes K V) (fresh : List (HashNodes K V))
      → move_chain n (a ++ b) fresh ≡ move_chain n b (move_chain n a fresh)
  unfolding move_chain
  move_chain-append n [] b fresh = refl
  move_chain-append n ((k, v) ∷ a) b fresh = move_chain-append n a b _

  -- The two nested loops are one loop over all the nodes.
  pub move_all-flatten :
      (n : ℕ) (bs fresh : List (HashNodes K V))
      → move_all n bs fresh ≡ move_chain n (flatten bs) fresh
  unfolding move_all
  move_all-flatten n [] fresh = refl
  move_all-flatten n (c ∷ cs) fresh =
      move_all-flatten n cs (move_chain n c fresh) ∙ sym (move_chain-append n c (flatten cs) fresh)

  -- The nodes `es` may be moved into `fresh`: their keys differ from one another and from those
  -- that are there.
  record IsMovable (n : ℕ) (es : HashNodes K V) (fresh : List (HashNodes K V)) : Type ℓ where
    positive : 0 < n
    breadth : length fresh ≡ n
    placed : IsPlaced fresh
    distinct : (q : K) → count q es ≤ 1
    apart : (q : K) → 0 < count q es → view fresh q ≡ none

  -- The table after the first of the nodes has been moved.
  after_first : (n : ℕ) → K → V → List (HashNodes K V) → List (HashNodes K V)
  after_first n k v fresh = set fresh (slot k n) ((k, v) ∷ get_or fresh (slot k n) [])

  first-Holds :
      (n : ℕ) (k : K) (v : V) (es : HashNodes K V) (fresh : List (HashNodes K V))
      → IsMovable n ((k, v) ∷ es) fresh
      → Holds n
          (length (flatten fresh) + 1)
          (changed k (some v) (view fresh))
          (after_first n k v fresh)
  unfolding count after_first
  first-Holds n k v es fresh m = rw m.breadth at (
      cons-Holds fresh (omega (arith, m.positive, m.breadth)) m.placed k v
        (m.apart k (rw (ops.key_eq_refl k) (omega arith))))

  rest-IsMovable :
      (n : ℕ) (k : K) (v : V) (es : HashNodes K V) (fresh : List (HashNodes K V))
      → IsMovable n ((k, v) ∷ es) fresh
      → IsMovable n es (after_first n k v fresh)
  unfolding count
  rest-IsMovable n k v es fresh m =
      let t = first-Holds n k v es fresh m in
      record {
        positive = m.positive;
        breadth = t.breadth;
        placed = t.placed;
        distinct = λ q. omega (arith, m.distinct q);
        apart = λ q some_left. t.reads q ∙ ground (arith, m.distinct q, m.apart q);
      }

  -- After all the moves a key is looked up among the nodes that were there, then among the moved.
  move_chain-Holds :
      (n : ℕ) (es : HashNodes K V) (fresh : List (HashNodes K V))
      → IsMovable n es fresh
      → Holds n
          (length es + length (flatten fresh))
          (λ q. or_else (view fresh q) (find q es))
          (move_chain n es fresh)
  unfolding move_chain find count after_first
  move_chain-Holds n [] fresh m = record {
    breadth = m.breadth;
    nodes = omega arith;
    placed = m.placed;
    reads = λ q. sym (or_else-none (view fresh q));
  }
  move_chain-Holds n ((k, v) ∷ es) fresh m =
      let step = first-Holds n k v es fresh m in
      let t = move_chain-Holds n es (after_first n k v fresh) (rest-IsMovable n k v es fresh m) in
      record {
        breadth = t.breadth;
        nodes = omega (arith, step.nodes, t.nodes);
        placed = t.placed;
        reads = λ q. t.reads q ∙ ground (arith, step.reads q, m.apart q);
      }

  -- Rehashing into any positive number of buckets.
  pub move_all-Holds :
      (n : ℕ) (bs : List (HashNodes K V))
      → 0 < n
      → IsPlaced bs
      → Holds n (length (flatten bs)) (view bs) (move_all n bs (replicate n []))
  move_all-Holds n bs positive placed =
      let empty = replicate-Holds n in
      let t = move_chain-Holds n (flatten bs) (replicate n []) (record {
        positive = positive;
        breadth = empty.breadth;
        placed = empty.placed;
        distinct = λ q. (flatten-view bs q placed).0;
        apart = λ q _. empty.reads q;
      }) in
      rw (move_all-flatten n bs (replicate n [])) (record {
        breadth = t.breadth;
        nodes = omega (arith, empty.nodes, t.nodes);
        placed = t.placed;
        reads = λ q.
            t.reads q
            ∙ ap (λ o. or_else o (find q (flatten bs))) (empty.reads q)
            ∙ (flatten-view bs q placed).1;
      })
