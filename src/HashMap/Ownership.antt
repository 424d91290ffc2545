-- ===== src/HashMap/Ownership.antt =====
-- Who owns a key and a value of Common/hashmap.c: a map owns what a put stores and
-- its free functions would free, until it hands it to a free function.
use ikp_data_propagator.Prelude.{
  ℕ, ◌+◌, ◌*◌, ◌%◌, ◌<◌, ◌≡◌, refl, sym, ◌∙◌, ap, inl, inr, true, false, Option, none, some, List,
  [], ◌∷◌, map, arith, if◌then◌else◌, Bool-cases, Option-cases, length, get_or, replicate, flatten,
  length-replicate, size_mod, Status, succeeded,
}
use mathlib.Core.Option.{some-injective}
use ikp_data_propagator.HashMap.{
  KeyOps, HashNodes, HashMap, Freed, freed_key, freed_value, Alloc, has_room, slot, find, assign,
  resize_if_needed, replace, insert, put_at, put_checked, hashmap_put, freed_node, remove_at,
  hashmap_remove, find_key, unlink, hashmap_destroy,
}
use ikp_data_propagator.HashMap.Chain.{find_key-find}
use ikp_data_propagator.HashMap.Buckets.{slot-lt}
use ikp_data_propagator.HashMap.Resize.{move_all-flatten}
use ikp_data_propagator.HashMap.Valid.{IsHonest, IsValid, resize_if_needed-Resized}
use ikp_data_propagator.HashMap.Create.{freed_entry, hashmap_destroy_lem}
use ikp_data_propagator.HashMap.Weight.{
  weight, stock, freed_weight, freed_weight-append, stock-set, stock-replicate, weight-assign,
  weight-unlink, stock-move_chain,
}

module _ {K V : Type 0} ⦃ops : KeyOps K⦄ (f : K → ℕ) (g : V → ℕ) where
  -- Where a free function was not given to `hashmap_create`, what it would free weighs nothing.
  pub record IsOwner (m : HashMap K V) : Type 0 where
    pub keys : m.frees_key ≡ false → (k : K) → f k ≡ 0
    pub values : m.frees_value ≡ false → (x : V) → g x ≡ 0

  -- With both free functions any weights do.
  pub both_owned : (m : HashMap K V) → m.frees_key ≡ true → m.frees_value ≡ true → IsOwner m
  both_owned m fk fv = record { keys = λ e. cc; values = λ e. cc }

  pub IsOwner-flags :
      (m m' : HashMap K V)
      → IsOwner m
      → (m'.frees_key ≡ m.frees_key) × (m'.frees_value ≡ m.frees_value)
      → IsOwner m'
  IsOwner-flags m m' o (fk, fv) = record {
    keys = λ e. o.keys (sym fk ∙ e);
    values = λ e. o.values (sym fv ∙ e);
  }

  freed_key_weight :
      (m : HashMap K V) (k : K)
      → IsOwner m
      → freed_weight f g (if m.frees_key then freed_key k ∷ [] else []) ≡ f k
  unfolding freed_weight
  freed_key_weight m k o = elim (Bool-cases m.frees_key) [
    | inl e ↦ rw e (omega arith)
    | inr e ↦ rw (e, o.keys e k) refl
  ]

  freed_value_weight :
      (m : HashMap K V) (x : V)
      → IsOwner m
      → freed_weight f g (if m.frees_value then freed_value x ∷ [] else []) ≡ g x
  unfolding freed_weight
  freed_value_weight m x o = elim (Bool-cases m.frees_value) [
    | inl e ↦ rw e (omega arith)
    | inr e ↦ rw (e, o.values e x) refl
  ]

  freed_entry_weight :
      (m : HashMap K V) (k : K) (x : V)
      → IsOwner m
      → freed_weight f g (freed_entry m (k, x)) ≡ f k + g x
  freed_entry_weight m k x o = omega (
    arith,
    freed_weight-append f g (if m.frees_key then freed_key k ∷ [] else [])
        (if m.frees_value then freed_value x ∷ [] else []),
    freed_key_weight m k o,
    freed_value_weight m x o,
  )

  -- The weight of what the map holds.
  abbrev pub held : HashMap K V → ℕ
  held m = stock f g m.buckets

  resize_held :
      (alloc : Alloc) (m : HashMap K V) → IsValid m → held (resize_if_needed alloc m).1 ≡ held m
  unfolding resize_if_needed
  resize_held alloc m v = elim (Bool-cases (has_room m.size m.capacity)) [
    | inl roomy ↦ rw roomy
    | inr full ↦
        let n = m.capacity * 2 in
        let wrap : n % size_mod ≡ n = omega (arith, v.fits) in
        elim (Bool-cases (alloc.calloc n)) [
          | inl given ↦
              rw
                (
                  full,
                  wrap,
                  given,
                  move_all-flatten n m.buckets (replicate n []),
                  stock-move_chain f g n (flatten m.buckets) (replicate n []) (omega (arith, v.pos))
                      (length-replicate n []),
                  stock-replicate f g n,
                )
                (omega arith)
          | inr refused ↦ rw (full, wrap, refused)
        ]
  ]

  module _ (m : HashMap K V) (k : K) (v : IsValid m) (o : IsOwner m) where
    in_range : slot k m.capacity < length m.buckets
    in_range = omega (arith, slot-lt k m.capacity v.pos, v.width)

    -- What a call with status, map and freed pointers `r` owes for a key and a value it was given.
    abbrev Balances : V → Status × HashMap K V × List (Freed K V) → Type 0
    Balances x r =
        held r.1 + freed_weight f g r.2 ≡ held m + (if succeeded r.0 then f k + g x else 0)

    replace_balance :
        (x old : V)
        → find k (get_or m.buckets (slot k m.capacity) []) ≡ some old
        → Balances x (replace m k x old)
    unfolding replace freed_weight
    replace_balance x old e =
        let c = get_or m.buckets (slot k m.capacity) [] in
        omega (
          arith,
          stock-set f g m.buckets (slot k m.capacity) (assign k x c) in_range,
          weight-assign f g k x c old e,
          freed_weight-append f g (if m.frees_value then freed_value old ∷ [] else [])
              (if m.frees_key then freed_key k ∷ [] else []),
          freed_value_weight m old o,
          freed_key_weight m k o,
        )

    insert_balance : (alloc : Alloc) (x : V) → Balances x (insert alloc m k x)
    unfolding insert freed_weight weight
    insert_balance alloc x = elim (Bool-cases alloc.malloc) [
      | inl given ↦
          let c = get_or m.buckets (slot k m.capacity) [] in
          rw given
            (omega (arith, stock-set f g m.buckets (slot k m.capacity) ((k, x) ∷ c) in_range))
      | inr refused ↦ rw refused (omega arith)
    ]

    put_at_balance : (alloc : Alloc) (x : V) → Balances x (put_at alloc m k x)
    unfolding put_at
    put_at_balance alloc x =
        elim (Option-cases (find k (get_or m.buckets (slot k m.capacity) []))) [
          | inl e ↦ rw (e, put_at) (insert_balance alloc x)
          | inr (old, e) ↦ rw (e, put_at) (replace_balance x old e)
        ]

  put_checked_balance :
      (alloc : Alloc) (m : HashMap K V) (k : K) (x : V)
      → IsHonest alloc
      → IsValid m
      → IsOwner m
      → let r = put_checked alloc m k x in
        held r.1 + freed_weight f g r.2 ≡ held m + (if succeeded r.0 then f k + g x else 0)
  unfolding put_checked freed_weight
  put_checked_balance alloc m k x honest v o =
      let r = resize_if_needed alloc m in
      let t = resize_if_needed-Resized alloc m honest v in
      let same = resize_held alloc m v in
      let owner = IsOwner-flags m r.1 o t.flags in
      elim (Bool-cases r.0) [
        | inl fits ↦ rw fits (
            put_at_balance r.1 k t.valid owner alloc x
            ∙ ap (λ n. n + (if succeeded (put_at alloc r.1 k x).0 then f k + g x else 0)) same)
        | inr refused ↦ rw refused (omega (arith, same))
      ]

  -- On a well-formed map with its free functions, `hashmap_put` that succeeds takes over the key
  -- and the value, and frees what it does not keep; a put that fails takes and frees nothing.
  pub hashmap_put_balance :
      (alloc : Alloc) (m : HashMap K V) (k : K) (x : V) (m' : HashMap K V)
      → IsHonest alloc
      → IsValid m
      → IsOwner m
      → let r = hashmap_put alloc (some m) (some k) x in
        r.1 ≡ some m'
        → held m' + freed_weight f g r.2 ≡ held m + (if succeeded r.0 then f k + g x else 0)
  unfolding hashmap_put
  hashmap_put_balance alloc m k x m' honest v o e =
      let same : (put_checked alloc m k x).1 ≡ m' = some-injective _ _ e in
      rw (← same) (put_checked_balance alloc m k x honest v o)

  remove_at_balance :
      (m : HashMap K V) (k : K)
      → IsValid m
      → IsOwner m
      → (j : Option K) (x : Option V) → find_key k (get_or m.buckets (slot k m.capacity) []) ≡ j
      → find k (get_or m.buckets (slot k m.capacity) []) ≡ x
      → let r = remove_at m k j x in held r.1 + freed_weight f g r.2 ≡ held m
  unfolding remove_at freed_node freed_weight
  remove_at_balance m k v o none none ej e = omega arith
  remove_at_balance m k v o (some j) none ej e = omega arith
  remove_at_balance m k v o none (some x) ej e =
      let (j, found, _) = find_key-find k (get_or m.buckets (slot k m.capacity) []) x e in cc
  remove_at_balance m k v o (some j) (some x) ej e =
      let c = get_or m.buckets (slot k m.capacity) [] in
      omega (
        arith,
        stock-set f g m.buckets (slot k m.capacity) (unlink k c) (in_range m k v o),
        weight-unlink f g k c j x ej e,
        freed_entry_weight m j x o,
      )

  destroy_weight :
      (m : HashMap K V) (es : HashNodes K V)
      → IsOwner m
      → freed_weight f g (flatten (map (freed_entry m) es)) ≡ weight f g es
  unfolding freed_weight weight
  destroy_weight m [] o = refl
  destroy_weight m ((k, x) ∷ es) o = omega (
    arith,
    destroy_weight m es o,
    freed_entry_weight m k x o,
    freed_weight-append f g (freed_entry m (k, x)) (flatten (map (freed_entry m) es)),
  )

  -- A removal hands over exactly what it takes out of the map.
  pub hashmap_remove_balance :
      (m : HashMap K V) (k : K) (m' : HashMap K V)
      → IsValid m
      → IsOwner m
      → let r = hashmap_remove (some m) (some k) in
        r.1 ≡ some m' → held m' + freed_weight f g r.2 ≡ held m
  unfolding hashmap_remove
  hashmap_remove_balance m k m' v o e =
      let c = get_or m.buckets (slot k m.capacity) [] in
      let same : (remove_at m k (find_key k c) (find k c)).1 ≡ m' = some-injective _ _ e in
      rw (← same) (remove_at_balance m k v o _ _ refl refl)

  -- `hashmap_destroy` hands over everything that a well-formed map holds.
  pub hashmap_destroy_balance :
      (m : HashMap K V)
      → IsValid m
      → IsOwner m
      → freed_weight f g (hashmap_destroy (some m)) ≡ held m
  hashmap_destroy_balance m v o =
      ap (freed_weight f g) (hashmap_destroy_lem m v) ∙ destroy_weight m (flatten m.buckets) o
