-- ===== src/HashMap/Buckets.antt =====
-- Where the nodes of a table stand, and what the table means: Common/hashmap.c's bucket array.
use Prim.Native.Nat.{max}
use ikp_data_propagator.Prelude.{
  ◌++◌, ◌==◌, ℕ, zero, suc, ◌+◌, ◌≤◌, ◌<◌, ◌≡◌, ◌≢◌, refl, sym, true, Option, none, some, List, [],
  ◌∷◌, arith, if◌then◌else◌, length, get_or, set, flatten, get_or-set, length-set,
  length-flatten-set,
}
use ikp_data_propagator.HashMap.{KeyOps, HashNodes, slot, find}
use ikp_data_propagator.HashMap.Chain.{
  to_nat, or_else-none, count, count-append, find-append, find_of_count, count_of_find, find_congr,
}

module _ {ℓ} {K : Type ℓ} ⦃ops : KeyOps K⦄ where
  pub slot-lt : (k : K) (n : ℕ) → 0 < n → slot k n < n
  unfolding slot
  slot-lt k n h = omega arith

  pub slot_congr : (a b : K) (n : ℕ) → ops.key_eq a b ≡ true → slot a n ≡ slot b n
  unfolding slot
  slot_congr a b n e = rw (ops.hash_func-key_eq a b e)

module _ {ℓ} {K V : Type ℓ} ⦃ops : KeyOps K⦄ where
  abbrev pub chain_of : List (HashNodes K V) → K → HashNodes K V
  chain_of bs k = get_or bs (slot k (length bs)) []

  abbrev pub bucket : List (HashNodes K V) → ℕ → HashNodes K V
  bucket bs i = get_or bs i []

  -- Bucket `i` holds at most one node for keys equal to `q`, and none if it is not their slot.
  pub record InPlace (bs : List (HashNodes K V)) (q : K) (i : ℕ) : Type 0 where
    pub once : count q (bucket bs i) ≤ 1
    pub elsewhere : slot q (length bs) ≢ i → count q (bucket bs i) ≡ 0

  abbrev pub IsPlaced : List (HashNodes K V) → Type ℓ
  IsPlaced bs = (q : K) (i : ℕ) → InPlace bs q i

  -- The map from keys to values that the table stands for.
  unfoldable pub view : List (HashNodes K V) → K → Option V
  view bs q = find q (chain_of bs q)

  -- `f` with another value, or none, for the keys equal to `k`.
  abbrev pub changed : K → Option V → (K → Option V) → K → Option V
  changed k v f q = if ops.key_eq k q then v else f q

  -- Two lists of nodes that answer alike about `q`.
  abbrev pub Agrees : K → HashNodes K V → HashNodes K V → Type ℓ
  Agrees q a b = (find q a ≡ find q b) × (count q a ≡ count q b)

  Agrees-right :
      (q : K) (a b c : HashNodes K V) → count q a ≡ 0 → Agrees q b c → Agrees q (a ++ b) c
  Agrees-right q a b c none_here (f, n) =
      rw (find-append q a b, count-append q a b, find_of_count q a none_here) (f, omega arith)

  Agrees-left : (q : K) (a b : HashNodes K V) → count q b ≡ 0 → Agrees q (a ++ b) a
  Agrees-left q a b none_there =
      rw (find-append q a b, count-append q a b, find_of_count q b none_there)
        (or_else-none (find q a), omega arith)

  absent_everywhere :
      (q : K) (bs : List (HashNodes K V))
      → ((i : ℕ) → count q (bucket bs i) ≡ 0)
      → count q (flatten bs) ≡ 0
  unfolding count
  absent_everywhere q [] h = refl
  absent_everywhere q (c ∷ cs) h =
      omega (arith, count-append q c (flatten cs), absent_everywhere q cs (λ i. h (suc i)), h zero)

  -- What only bucket `j` holds is all that the table holds.
  Agrees-bucket :
      (q : K) (j : ℕ) (bs : List (HashNodes K V))
      → ((i : ℕ) → i ≢ j → count q (bucket bs i) ≡ 0)
      → Agrees q (flatten bs) (bucket bs j)
  Agrees-bucket q j [] h = (refl, refl)
  Agrees-bucket q zero (c ∷ cs) h =
      Agrees-left q c (flatten cs) (absent_everywhere q cs (λ i. h (suc i) (omega arith)))
  Agrees-bucket q (suc j) (c ∷ cs) h =
      Agrees-right q c (flatten cs) (bucket cs j) (h zero (omega arith))
        (Agrees-bucket q j cs (λ i n. h (suc i) (omega arith)))

  -- A lookup among all the nodes is a lookup in the table.
  pub flatten-view :
      (bs : List (HashNodes K V)) (q : K)
      → IsPlaced bs
      → (count q (flatten bs) ≤ 1) × (find q (flatten bs) ≡ view bs q)
  unfolding view
  flatten-view bs q placed =
      let home = slot q (length bs) in
      let (f, n) = Agrees-bucket q home bs (λ i ne. (placed q i).elsewhere (λ e. ne (sym e))) in
      (rw n (placed q home).once, f)

  -- `bs` has `n` buckets and `total` nodes, all in place, and stands for `f`.
  pub record Holds (n total : ℕ) (f : K → Option V) (bs : List (HashNodes K V)) : Type ℓ where
    pub breadth : length bs ≡ n
    pub nodes : length (flatten bs) ≡ total
    pub placed : IsPlaced bs
    pub reads : (q : K) → view bs q ≡ f q

  module _ (bs : List (HashNodes K V)) (pos : 0 < length bs) (placed : IsPlaced bs) (k : K) where
    -- What one bucket reads as once the chain of `k` is replaced.
    bucket-set :
        (c : HashNodes K V) (j : ℕ)
        → bucket (set bs (slot k (length bs)) c) j
          ≡ (if slot k (length bs) == j then c else bucket bs j)
    bucket-set c j = get_or-set bs (slot k (length bs)) j c [] (slot-lt k (length bs) pos)

    -- Every write of the code replaces the chain of its key.
    pub set-Holds :
        (total : ℕ) (c : HashNodes K V) (v : Option V)
        → length c + length (flatten bs) ≡ length (chain_of bs k) + total
        → ((q : K) → find q c ≡ (if ops.key_eq k q then v else find q (chain_of bs k)))
        → ((q : K) → count q c ≤ max (count q (chain_of bs k)) (to_nat (ops.key_eq k q)))
        → Holds (length bs) total (changed k v (view bs)) (set bs (slot k (length bs)) c)
    unfolding view
    set-Holds total c v size finds few =
        let at_slot = slot-lt k (length bs) pos in
        let same_length = length-set bs (slot k (length bs)) c in
        record {
          breadth = same_length;
          nodes = omega (arith, length-flatten-set bs _ c at_slot);
          placed = λ q j. record {
            once = rw (bucket-set c j) (ground (arith, (placed q j).once, few q));
            elsewhere = λ ne. rw (bucket-set c j) (
                ground (
                  arith,
                  few q,
                  rw same_length at ne,
                  (placed q j).elsewhere,
                  slot_congr k q (length bs),
                ));
          };
          reads = λ q.
              rw (same_length, bucket-set c (slot q (length bs)))
                (ground (arith, finds q, slot_congr k q (length bs)));
        }

    -- A new node at the head of its chain.
    pub cons-Holds :
        (v : V)
        → view bs k ≡ none
        → Holds
            (length bs)
            (length (flatten bs) + 1)
            (changed k (some v) (view bs))
            (set bs (slot k (length bs)) ((k, v) ∷ chain_of bs k))
    unfolding view count find
    cons-Holds v absent =
        let old = chain_of bs k in
        set-Holds _ _ (some v) (omega arith) (λ q. ground arith)
          (λ q. ground (arith, count_of_find q old, find_congr k q old))
