-- ===== src/HashMap/Weight.antt =====
-- What the bucket array of Common/hashmap.c holds, weighed: a weight for keys and one for values,
-- added up over the nodes. With the weight that is 1 at one pointer it counts that pointer.
use ikp_data_propagator.Prelude.{
  ℕ, zero, suc, ◌+◌, ◌<◌, ◌≡◌, refl, ◌∙◌, some, List, [], ◌∷◌, ◌++◌, arith, length, get_or, set,
  replicate, flatten, length-set,
}
use ikp_data_propagator.HashMap.{
  KeyOps, HashNodes, Freed, freed_key, freed_value, slot, find, find_key, assign, unlink,
  move_chain,
}
use ikp_data_propagator.HashMap.Buckets.{slot-lt}

module _ {ℓ} {K V : Type ℓ} (f : K → ℕ) (g : V → ℕ) where
  unfoldable pub weight : HashNodes K V → ℕ
  weight [] = 0
  weight ((k, v) ∷ c) = f k + g v + weight c

  -- The weight of a whole bucket array.
  abbrev pub stock : List (HashNodes K V) → ℕ
  stock bs = weight (flatten bs)

  -- The weight of what the free functions are called on.
  unfoldable pub freed_weight : List (Freed K V) → ℕ
  freed_weight [] = 0
  freed_weight (freed_key k ∷ fs) = f k + freed_weight fs
  freed_weight (freed_value v ∷ fs) = g v + freed_weight fs

  pub weight-append : (a b : HashNodes K V) → weight (a ++ b) ≡ weight a + weight b
  unfolding weight
  weight-append [] b = omega arith
  weight-append ((k, v) ∷ a) b = omega (arith, weight-append a b)

  pub freed_weight-append :
      (a b : List (Freed K V)) → freed_weight (a ++ b) ≡ freed_weight a + freed_weight b
  unfolding freed_weight
  freed_weight-append [] b = omega arith
  freed_weight-append (freed_key k ∷ a) b = omega (arith, freed_weight-append a b)
  freed_weight-append (freed_value v ∷ a) b = omega (arith, freed_weight-append a b)

  -- Another chain in one bucket.
  pub stock-set :
      (bs : List (HashNodes K V)) (i : ℕ) (c : HashNodes K V)
      → i < length bs
      → stock (set bs i c) + weight (get_or bs i []) ≡ stock bs + weight c
  stock-set [] i c h = absurd (omega arith)
  stock-set (x ∷ bs) zero c h =
      omega (arith, weight-append x (flatten bs), weight-append c (flatten bs))
  stock-set (x ∷ bs) (suc i) c h = omega (
    arith,
    weight-append x (flatten bs),
    weight-append x (flatten (set bs i c)),
    stock-set bs i c (omega arith),
  )

  pub stock-replicate : (n : ℕ) → stock (replicate n []) ≡ 0
  unfolding weight
  stock-replicate zero = refl
  stock-replicate (suc n) = stock-replicate n

module _ {ℓ} {K V : Type ℓ} ⦃ops : KeyOps K⦄ (f : K → ℕ) (g : V → ℕ) where
  pub weight-assign :
      (k : K) (v : V) (c : HashNodes K V) (old : V)
      → find k c ≡ some old
      → weight f g (assign k v c) + g old ≡ weight f g c + g v
  unfolding find assign weight
  weight-assign k v [] old e = cc
  weight-assign k v ((j, w) ∷ c) old e = grind (arith, weight-assign k v c old)

  pub weight-unlink :
      (k : K) (c : HashNodes K V) (j : K) (old : V)
      → find_key k c ≡ some j
      → find k c ≡ some old
      → weight f g (unlink k c) + (f j + g old) ≡ weight f g c
  unfolding find find_key unlink weight
  weight-unlink k [] j old ej e = cc
  weight-unlink k ((i, w) ∷ c) j old ej e = grind (arith, weight-unlink k c j old)

  -- Moving nodes into an array adds their weight to it.
  pub stock-move_chain :
      (n : ℕ) (es : HashNodes K V) (fresh : List (HashNodes K V))
      → 0 < n
      → length fresh ≡ n
      → stock f g (move_chain n es fresh) ≡ weight f g es + stock f g fresh
  unfolding move_chain weight
  stock-move_chain n [] fresh pos width = omega arith
  stock-move_chain n ((k, v) ∷ es) fresh pos width =
      let i = slot k n in
      let c = get_or fresh i [] in
      omega (
        arith,
        stock-move_chain n es (set fresh i ((k, v) ∷ c)) pos
            (length-set fresh i ((k, v) ∷ c) ∙ width),
        stock-set f g fresh i ((k, v) ∷ c) (omega (arith, slot-lt k n pos, width)),
      )
