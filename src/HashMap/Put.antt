-- ===== src/HashMap/Put.antt =====
-- `hashmap_put`, `hashmap_get`, `hashmap_contains` and `hashmap_size` of Common/hashmap.c.
use ikp_data_propagator.Prelude.{
  ℕ, ◌+◌, ◌*◌, ◌%◌, ◌≤◌, ◌≡◌, refl, ◌∙◌, ap, ap₂, inl, inr, Bool, true, false, ◌&&◌, Option, none,
  some, List, [], ◌∷◌, ◌++◌, arith, if◌then◌else◌, Bool-cases, Option-cases, get_or, set, size_mod,
  Status, failed, succeeded,
}
use ikp_data_propagator.HashMap.{
  KeyOps, HashNodes, HashMap, Freed, freed_key, freed_value, Alloc, slot, find, assign,
  resize_if_needed, replace, insert, put_at, put_checked, hashmap_put, hashmap_get,
}
use ikp_data_propagator.HashMap.Chain.{find-assign, count-assign, length-assign}
use ikp_data_propagator.HashMap.Buckets.{chain_of, view, changed, Holds, set-Holds, cons-Holds}
use ikp_data_propagator.HashMap.Valid.{
  IsHonest, IsValid, value_of, Resized, resize_if_needed-Resized,
}

-- What is freed when a value is stored under a key that had the value `old`, or none.
abbrev pub freed_by_put {ℓ} : {K V : Type ℓ} → Bool → Bool → K → Option V → List (Freed K V)
freed_by_put frees_key frees_value k none = []
freed_by_put frees_key frees_value k (some old) =
    (if frees_value then freed_value old ∷ [] else [])
    ++ (if frees_key then freed_key k ∷ [] else [])

and_if {ℓ} :
    {A : Type ℓ} (a b : Bool) (x y : A)
    → (if a then (if b then x else y) else y) ≡ (if a && b then x else y)
and_if true b x y = refl
and_if false b x y = refl

abbrev pub grown {ℓ} : {V : Type ℓ} → Option V → ℕ → ℕ
grown none n = n + 1
grown (some old) n = n

module _ {ℓ} {K V : Type ℓ} ⦃ops : KeyOps K⦄ where
  -- The lookup that the code makes is the one of the map that the table stands for.
  pub chain_view :
      (m : HashMap K V) (q : K)
      → IsValid m
      → find q (get_or m.buckets (slot q m.capacity) []) ≡ value_of m q
  unfolding view
  chain_view m q v = rw v.width

  chain_find :
      (m : HashMap K V) (q : K) (x : V)
      → value_of m q ≡ some x
      → find q (chain_of m.buckets q) ≡ some x
  unfolding view
  chain_find m q x e = e

  -- What a put does, with its status, table and freed pointers in `r`: where it succeeds, it
  -- stores the value, and frees the old value and the spare key where the key was there; where
  -- it fails, it changes no value and frees nothing.
  pub record Puts (alloc : Alloc) (m : HashMap K V) (k : K) (x : V)
      (r : Status × HashMap K V × List (Freed K V)) : Type ℓ where
    pub valid : IsValid r.1
    pub reads :
        (q : K)
        → value_of r.1 q
          ≡ (if succeeded r.0 then changed k (some x) (value_of m) q else value_of m q)
    pub size : r.1.size ≡ (if succeeded r.0 then grown (value_of m k) m.size else m.size)
    pub frees :
        r.2
        ≡ (if succeeded r.0 then freed_by_put m.frees_key m.frees_value k (value_of m k) else [])
    pub flags : (r.1.frees_key ≡ m.frees_key) × (r.1.frees_value ≡ m.frees_value)

  module _ (alloc : Alloc) (m : HashMap K V) (k : K) (x : V) (v : IsValid m) where
    set-IsValid :
        (f : K → Option V) (c : HashNodes K V) (n : ℕ)
        → Holds m.capacity n f (set m.buckets (slot k m.capacity) c)
        → n * 4 ≤ m.capacity * 3
        → IsValid (record m { buckets = set m.buckets (slot k m.capacity) c; size = n })
    set-IsValid f c n t sparse = record {
      pos = v.pos;
      fits = v.fits;
      width = t.breadth;
      counted = t.nodes;
      placed = t.placed;
      sparse = sparse;
    }

    pub replace-Puts : (old : V) → value_of m k ≡ some old → Puts alloc m k x (replace m k x old)
    unfolding replace
    replace-Puts old e =
        let c = chain_of m.buckets k in
        let t = rw v.width at (
          set-Holds m.buckets (omega (arith, v.pos, v.width)) v.placed k m.size (assign k x c)
            (some x) (omega (arith, v.counted, length-assign k x c))
            (λ q. find-assign k q x c old (chain_find m k old e))
            (λ q. omega (arith, count-assign k q x c))) in
        record {
          valid = set-IsValid _ _ m.size t v.sparse;
          reads = t.reads;
          size = rw e;
          frees = rw e;
          flags = (refl, refl);
        }

    pub insert-Puts :
        value_of m k ≡ none
        → (m.size + 1) * 4 ≤ m.capacity * 3
        → Puts alloc m k x (insert alloc m k x)
    unfolding insert
    insert-Puts e room = elim (Bool-cases alloc.malloc) [
      | inr refused ↦
          rw refused (record {
            valid = v;
            reads = λ q. refl;
            size = refl;
            frees = refl;
            flags = (refl, refl);
          })
      | inl given ↦
          let wrap : (m.size + 1) % size_mod ≡ m.size + 1 = omega (arith, room, v.fits) in
          let t =
            rw (v.width, v.counted) at
              (cons-Holds m.buckets (omega (arith, v.pos, v.width)) v.placed k x e) in
          rw (given, wrap)
            (record {
              valid = set-IsValid _ _ (m.size + 1) t room;
              reads = t.reads;
              size = rw e;
              frees = rw e;
              flags = (refl, refl);
            })
    ]

    put_at-Puts : (m.size + 1) * 4 ≤ m.capacity * 3 → Puts alloc m k x (put_at alloc m k x)
    unfolding put_at
    put_at-Puts room = elim (Option-cases (value_of m k)) [
      | inl e ↦ rw (chain_view m k v, e, put_at) (insert-Puts e room)
      | inr (old, e) ↦ rw (chain_view m k v, e, put_at) (replace-Puts old e)
    ]

module _ {ℓ} {K V : Type ℓ} ⦃ops : KeyOps K⦄ where
  -- A put through a table that reads as another one is a put into that one.
  Puts-through :
      (alloc : Alloc) (m m' : HashMap K V) (k : K) (x : V)
      → (b : Bool) → Resized alloc m (b, m')
      → (r : Status × HashMap K V × List (Freed K V)) → Puts alloc m' k x r
      → Puts alloc m k x r
  Puts-through alloc m m' k x b t r p = record {
    valid = p.valid;
    reads = λ q.
        p.reads q
        ∙ ap (λ o. if succeeded r.0 then (if ops.key_eq k q then some x else o) else o) (t.reads q);
    size = p.size ∙ ap₂ (λ n o. if succeeded r.0 then grown o n else n) t.size (t.reads k);
    frees = rw (← t.flags.0, ← t.flags.1, ← t.reads k) p.frees;
    flags = (p.flags.0 ∙ t.flags.0, p.flags.1 ∙ t.flags.1);
  }

  -- A put that is refused the larger bucket array leaves the table as it was.
  refused_Puts :
      (alloc : Alloc) (m : HashMap K V) (k : K) (x : V) (m' : HashMap K V)
      → Resized alloc m (false, m')
      → Puts alloc m k x (failed, m', [])
  refused_Puts alloc m k x m' t = record {
    valid = t.valid;
    reads = t.reads;
    size = t.size;
    frees = refl;
    flags = t.flags;
  }

  put-Puts :
      (alloc : Alloc) (m : HashMap K V) (k : K) (x : V) (b : Bool) (m' : HashMap K V)
      → Resized alloc m (b, m')
      → Puts alloc m k x (if b then put_at alloc m' k x else (failed, m', []))
  put-Puts alloc m k x true m' t =
      Puts-through alloc m m' k x true t (put_at alloc m' k x)
        (put_at-Puts alloc m' k x t.valid (rw t.size (t.room refl)))
  put-Puts alloc m k x false m' t = refused_Puts alloc m k x m' t

  -- On a well-formed table and a key that is not NULL, `hashmap_put` keeps the table well formed,
  -- whatever its allocations do. With status 0 it stores the value, counts a new key, and frees the
  -- old value and the spare key of a known one; with status -1 it changes no value and frees
  -- nothing.
  pub hashmap_put-Puts :
      (alloc : Alloc) (m : HashMap K V) (k : K) (x : V)
      → IsHonest alloc
      → IsValid m
      → (m' : HashMap K V) × ((hashmap_put alloc (some m) (some k) x).1 ≡ some m')
        × Puts alloc m k x (
          (hashmap_put alloc (some m) (some k) x).0,
          m',
          (hashmap_put alloc (some m) (some k) x).2,
        )
  unfolding hashmap_put put_checked
  hashmap_put-Puts alloc m k x honest v =
      let r = resize_if_needed alloc m in
      (
        (put_checked alloc m k x).1,
        refl,
        put-Puts alloc m k x r.0 r.1 (resize_if_needed-Resized alloc m honest v),
      )

  -- On a well-formed table the lookup finds the value of the key that the table stands for.
  pub hashmap_get_lem :
      (m : HashMap K V) (q : K) → IsValid m → hashmap_get (some m) (some q) ≡ value_of m q
  unfolding hashmap_get
  hashmap_get_lem m q v = chain_view m q v

  -- A lookup after a put, through the public functions alone.
  pub get-put :
      (alloc : Alloc) (m : HashMap K V) (k q : K) (x : V)
      → IsHonest alloc
      → IsValid m
      → hashmap_get (hashmap_put alloc (some m) (some k) x).1 (some q) ≡ (
          if succeeded (hashmap_put alloc (some m) (some k) x).0 && ops.key_eq k q
          then some x
          else hashmap_get (some m) (some q))
  get-put alloc m k q x honest v =
      let (m', e, p) = hashmap_put-Puts alloc m k x honest v in
      rw (e, hashmap_get_lem m' q p.valid, hashmap_get_lem m q v, p.reads q)
        (and_if (succeeded (hashmap_put alloc (some m) (some k) x).0) (ops.key_eq k q) (some x)
          (value_of m q))
