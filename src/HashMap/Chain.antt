-- ===== src/HashMap/Chain.antt =====
-- The loops over one chain of Common/hashmap.c.
use ikp_data_propagator.Prelude.{
  ℕ, ◌+◌, ◌≤◌, ◌≡◌, refl, inl, inr, Bool-cases, Bool, true, false, Option, none, some, [], ◌∷◌,
  ◌++◌, arith, if◌then◌else◌, length,
}
use ikp_data_propagator.HashMap.{KeyOps, HashNodes, find, find_key, assign, unlink}

abbrev pub to_nat : Bool → ℕ
to_nat true = 1
to_nat false = 0

-- The first of two lookups that finds something.
abbrev pub or_else {ℓ} : {V : Type ℓ} → Option V → Option V → Option V
or_else none b = b
or_else (some a) b = some a

pub or_else-none {ℓ} : {V : Type ℓ} (a : Option V) → or_else a none ≡ a
or_else-none none = refl
or_else-none (some v) = refl

module _ {ℓ} {K : Type ℓ} ⦃ops : KeyOps K⦄ where
  pub key_eq_left : (a b c : K) → ops.key_eq a b ≡ true → ops.key_eq c a ≡ ops.key_eq c b
  key_eq_left a b c e =
      ground (arith, ops.key_eq_trans c a b, ops.key_eq_trans c b a, ops.key_eq_symm a b)

module _ {ℓ} {K V : Type ℓ} ⦃ops : KeyOps K⦄ where
  -- How many nodes of a chain have a key equal to `q`.
  unfoldable pub count : K → HashNodes K V → ℕ
  count q [] = 0
  count q ((j, v) ∷ c) = to_nat (ops.key_eq j q) + count q c

  pub count-append : (q : K) (a b : HashNodes K V) → count q (a ++ b) ≡ count q a + count q b
  unfolding count
  count-append q [] b = omega arith
  count-append q (x ∷ a) b = omega (arith, count-append q a b)

  pub find-append : (q : K) (a b : HashNodes K V) → find q (a ++ b) ≡ or_else (find q a) (find q b)
  unfolding find
  find-append q [] b = refl
  find-append q ((j, v) ∷ a) b = ground (arith, find-append q a b)

  pub find_of_count : (q : K) (c : HashNodes K V) → count q c ≡ 0 → find q c ≡ none
  unfolding count find
  find_of_count q [] h = refl
  find_of_count q ((j, v) ∷ c) h = ground (arith, find_of_count q c)

  pub count_of_find : (q : K) (c : HashNodes K V) → find q c ≡ none → count q c ≡ 0
  unfolding count find
  count_of_find q [] h = refl
  count_of_find q ((j, v) ∷ c) h = ground (arith, count_of_find q c)

  pub find_congr : (k q : K) (c : HashNodes K V) → ops.key_eq k q ≡ true → find k c ≡ find q c
  unfolding find
  find_congr k q [] e = refl
  find_congr k q ((j, v) ∷ c) e = ground (arith, find_congr k q c e, key_eq_left k q j e)

  pub find_key-find :
      (k : K) (c : HashNodes K V) (v : V)
      → find k c ≡ some v
      → (j : K) × (find_key k c ≡ some j) × (ops.key_eq j k ≡ true)
  unfolding find find_key
  find_key-find k [] v e = cc
  find_key-find k ((j, w) ∷ c) v e = elim (Bool-cases (ops.key_eq j k)) [
    | inl hit ↦ (j, rw hit, hit)
    | inr miss ↦ let (i, p, q) = find_key-find k c v (rw miss at e) in (i, rw miss p, q)
  ]

  pub find-assign :
      (k q : K) (v : V) (c : HashNodes K V) (old : V)
      → find k c ≡ some old
      → find q (assign k v c) ≡ (if ops.key_eq k q then some v else find q c)
  unfolding find assign
  find-assign k q v [] old e = cc
  find-assign k q v ((j, w) ∷ c) old e = ground (
    arith,
    find-assign k q v c old,
    key_eq_left k q j,
    ops.key_eq_trans k j q,
    ops.key_eq_trans j k q,
    ops.key_eq_symm j k,
  )

  pub count-assign : (k q : K) (v : V) (c : HashNodes K V) → count q (assign k v c) ≡ count q c
  unfolding count assign
  count-assign k q v [] = refl
  count-assign k q v ((j, w) ∷ c) = ground (arith, count-assign k q v c)

  pub length-assign : (k : K) (v : V) (c : HashNodes K V) → length (assign k v c) ≡ length c
  unfolding assign
  length-assign k v [] = refl
  length-assign k v ((j, w) ∷ c) = ground (arith, length-assign k v c)

  pub find-unlink :
      (k q : K) (c : HashNodes K V)
      → count q c ≤ 1
      → find q (unlink k c) ≡ (if ops.key_eq k q then none else find q c)
  unfolding find unlink count
  find-unlink k q [] h = ground arith
  find-unlink k q ((j, w) ∷ c) h = ground (
    arith,
    find-unlink k q c,
    find_of_count q c,
    key_eq_left k q j,
    ops.key_eq_trans k j q,
    ops.key_eq_trans j k q,
    ops.key_eq_symm j k,
  )

  pub count-unlink-le : (k q : K) (c : HashNodes K V) → count q (unlink k c) ≤ count q c
  unfolding count unlink
  count-unlink-le k q [] = omega arith
  count-unlink-le k q ((j, w) ∷ c) = ground (arith, count-unlink-le k q c)

  pub length-unlink :
      (k : K) (c : HashNodes K V) (old : V)
      → find k c ≡ some old
      → length (unlink k c) + 1 ≡ length c
  unfolding unlink find
  length-unlink k [] old e = cc
  length-unlink k ((j, w) ∷ c) old e = ground (arith, length-unlink k c old)
