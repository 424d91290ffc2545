-- ===== src/HashMap/Create.antt =====
-- `hashmap_create` and `hashmap_destroy` of Common/hashmap.c.
use ikp_data_propagator.Prelude.{
  ℕ, zero, suc, ◌+◌, ◌*◌, ◌<◌, ◌≡◌, refl, ◌∙◌, map, drop, drop_all, drop_step, ◌⊎◌, sym, inl, inr,
  Bool, true, false, Option, none, some, List, [], ◌∷◌, ◌++◌, arith, ==_false_of_ne, if◌then◌else◌,
  Bool-cases, length, get_or, replicate, flatten, size_mod,
}
use ikp_data_propagator.HashMap.{
  KeyOps, HashNodes, HashMap, Freed, freed_key, freed_value, Alloc, hashmap_create, hashmap_get,
  freed_node, hashmap_size, destroy_chain, destroy_buckets, hashmap_destroy,
}
use ikp_data_propagator.HashMap.Buckets.{Holds}
use ikp_data_propagator.HashMap.Resize.{replicate-Holds}
use ikp_data_propagator.HashMap.Valid.{IsHonest, IsValid}
use mathlib.Core.List.{map-append, append_assoc}
use ikp_data_propagator.HashMap.Put.{hashmap_get_lem}

module _ {K V : Type 0} ⦃ops : KeyOps K⦄ where
  -- A map that is created holds nothing, and is well formed.
  pub record IsEmpty (m : HashMap K V) : Type 0 where
    pub valid : IsValid m
    pub reads : (q : K) → hashmap_get (some m) (some q) ≡ none
    pub size : hashmap_size (some m) ≡ 0

  empty :
      (n : ℕ) (fk fv : Bool)
      → Holds {K = K} {V = V} n 0 (λ _. none) (replicate n [])
      → 0 < n
      → n * 8 < size_mod
      → IsEmpty (record {
        buckets = replicate n [];
        capacity = n;
        size = 0;
        frees_key = fk;
        frees_value = fv;
      })
  unfolding hashmap_size
  empty n fk fv t pos fits =
      let valid : IsValid (record {
        buckets = replicate n [];
        capacity = n;
        size = 0;
        frees_key = fk;
        frees_value = fv;
      }) =
        record {
          pos = pos;
          fits = fits;
          width = t.breadth;
          counted = t.nodes;
          placed = t.placed;
          sparse = omega arith;
        } in
      record { valid = valid; reads = λ q. hashmap_get_lem _ q valid ∙ t.reads q; size = refl }

  -- The outcome of `hashmap_create`.
  abbrev pub Created : Alloc → ℕ → Bool → Option (HashMap K V) → Type 0
  Created alloc capacity functions none =
      (capacity ≡ 0)
      ⊎ (functions ≡ false)
      ⊎ (alloc.malloc ≡ false)
      ⊎ (alloc.calloc capacity ≡ false)
  Created alloc capacity functions (some m) =
      IsEmpty m × (m.capacity ≡ capacity) × (0 < capacity) × (functions ≡ true)

  -- What the free functions are called on for one node.
  abbrev pub freed_entry : HashMap K V → K × V → List (Freed K V)
  freed_entry m (k, v) =
      (if m.frees_key then freed_key k ∷ [] else [])
      ++ (if m.frees_value then freed_value v ∷ [] else [])

  destroy_chain_lem :
      (m : HashMap K V) (c : HashNodes K V) → destroy_chain m c ≡ flatten (map (freed_entry m) c)
  unfolding destroy_chain freed_node
  destroy_chain_lem m [] = refl
  destroy_chain_lem m ((k, v) ∷ c) = rw (destroy_chain_lem m c)

  flatten-append : (a b : List (List (Freed K V))) → flatten (a ++ b) ≡ flatten a ++ flatten b
  flatten-append [] b = refl
  flatten-append (x ∷ a) b = rw (flatten-append a b) (sym (append_assoc x (flatten a) (flatten b)))

  destroy_buckets_lem :
      (m : HashMap K V) (i n : ℕ)
      → i + n ≡ length m.buckets
      → destroy_buckets m i n ≡ flatten (map (freed_entry m) (flatten (drop i m.buckets)))
  unfolding destroy_buckets
  destroy_buckets_lem m i zero e = rw (drop_all m.buckets i (omega (arith, e)))
  destroy_buckets_lem m i (suc n) e = rw (
    drop_step m.buckets i [] (omega (arith, e)),
    destroy_chain_lem m (get_or m.buckets i []),
    destroy_buckets_lem m (i + 1) n (omega (arith, e)),
    map-append (freed_entry m) (get_or m.buckets i []),
    flatten-append (map (freed_entry m) (get_or m.buckets i [])),
  )

  -- `hashmap_destroy` on a well-formed table gives the key and the value of every node to the free
  -- functions that are there, once for each node, bucket by bucket.
  pub hashmap_destroy_lem :
      (m : HashMap K V)
      → IsValid m
      → hashmap_destroy (some m) ≡ flatten (map (freed_entry m) (flatten m.buckets))
  unfolding hashmap_destroy
  hashmap_destroy_lem m v = destroy_buckets_lem m 0 m.capacity (omega (arith, v.width))

-- `hashmap_create` gives NULL for no buckets, for a missing hash or equality function and when
-- an allocation fails, and otherwise a well-formed map of the capacity that holds nothing.
pub hashmap_create-Created :
    (K V : Type 0) ⦃ops : KeyOps K⦄ (alloc : Alloc) (capacity : ℕ)
    (functions frees_key frees_value : Bool)
    → IsHonest alloc
    → Created alloc capacity functions
        (hashmap_create {K = K} {V = V} alloc capacity functions frees_key frees_value)
unfolding hashmap_create
hashmap_create-Created K V alloc zero functions fk fv honest = inl refl
hashmap_create-Created K V alloc (suc n) false fk fv honest =
    rw (==_false_of_ne (suc n) 0 (omega arith)) (inr (inl refl))
hashmap_create-Created K V alloc (suc n) true fk fv honest = elim (Bool-cases alloc.malloc) [
  | inr refused ↦ rw (==_false_of_ne (suc n) 0 (omega arith), refused) (inr (inr (inl refl)))
  | inl given ↦ elim (Bool-cases (alloc.calloc (suc n))) [
    | inr refused ↦
        rw (==_false_of_ne (suc n) 0 (omega arith), given, refused) (inr (inr (inr refused)))
    | inl array ↦
        let t : Holds {K = K} {V = V} (suc n) 0 (λ _. none) (replicate (suc n) []) =
          replicate-Holds (suc n) in
        rw (==_false_of_ne (suc n) 0 (omega arith), given, array)
          (empty (suc n) fk fv t (omega arith) (honest (suc n) array), refl, omega arith, refl)
  ]
]
