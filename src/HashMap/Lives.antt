-- ===== src/HashMap/Lives.antt =====
-- The life of a map of Common/hashmap.c: any puts and removals, then its destruction.
use ikp_data_propagator.Prelude.{
  ℕ, ◌+◌, ◌≡◌, refl, sym, ◌∙◌, Bool, true, false, Option, none, some, List, [], ◌∷◌, ◌++◌, arith,
  if◌then◌else◌, Bool-cases, Option-cases, inl, inr, ◌==◌, ◌&&◌, succeeded,
}
use ikp_data_propagator.HashMap.{
  KeyOps, HashNodes, HashMap, Freed, Alloc, hashmap_create, hashmap_put, hashmap_remove,
  hashmap_destroy,
}
use ikp_data_propagator.HashMap.Valid.{IsHonest, IsValid}
use ikp_data_propagator.HashMap.Put.{hashmap_put-Puts}
use ikp_data_propagator.HashMap.Create.{hashmap_create-Created}
use ikp_data_propagator.HashMap.Remove.{hashmap_remove-Removes}
use mathlib.Core.Option.{some-injective}
use ikp_data_propagator.HashMap.Weight.{stock-replicate, weight, freed_weight, freed_weight-append}
use ikp_data_propagator.HashMap.Ownership.{
  IsOwner, IsOwner-flags, held, hashmap_put_balance, hashmap_remove_balance,
  hashmap_destroy_balance,
}

-- A call on a map, with what its allocations do.
pub data Call (K V : Type 0) : Type 0 where
  put : Alloc → K → V → Call K V
  remove : K → Call K V

-- The map so far, the keys and values of the puts that succeeded, and what was freed.
pub record Life (K V : Type 0) : Type 0 where
  pub table : Option (HashMap K V)
  pub given : HashNodes K V
  pub freed : List (Freed K V)

module _ {K V : Type 0} ⦃ops : KeyOps K⦄ where
  abbrev pub after_call : Life K V → Call K V → Life K V
  after_call l (put alloc k x) =
      let r = hashmap_put alloc l.table (some k) x in
      record {
        table = r.1;
        given = (if succeeded r.0 then (k, x) ∷ [] else []) ++ l.given;
        freed = l.freed ++ r.2;
      }
  after_call l (remove k) =
      let r = hashmap_remove l.table (some k) in
      record { table = r.1; given = l.given; freed = l.freed ++ r.2 }

  unfoldable pub after_calls : Life K V → List (Call K V) → Life K V
  after_calls l [] = l
  after_calls l (c ∷ cs) = after_calls (after_call l c) cs

  abbrev pub start : Option (HashMap K V) → Life K V
  start m = record { table = m; given = []; freed = [] }

  -- Everything that was freed, `hashmap_destroy` at the end included.
  abbrev pub all_freed : Life K V → List (Freed K V)
  all_freed l = l.freed ++ hashmap_destroy l.table

  -- The allocations of the calls are honest.
  abbrev pub AllHonest : List (Call K V) → Type 0
  AllHonest [] = Unit
  AllHonest (put alloc k x ∷ cs) = IsHonest alloc × AllHonest cs
  AllHonest (remove k ∷ cs) = AllHonest cs

  pub after_calls-append :
      (l : Life K V) (a b : List (Call K V))
      → after_calls l (a ++ b) ≡ after_calls (after_calls l a) b
  unfolding after_calls
  after_calls-append l [] b = refl
  after_calls-append l (c ∷ a) b = after_calls-append (after_call l c) a b

  pub AllHonest-append : (a b : List (Call K V)) → AllHonest a → AllHonest b → AllHonest (a ++ b)
  AllHonest-append [] b ha hb = hb
  AllHonest-append (put alloc k x ∷ a) b ha hb = (ha.0, AllHonest-append a b ha.1 hb)
  AllHonest-append (remove k ∷ a) b ha hb = AllHonest-append a b ha hb

  module _ (f : K → ℕ) (g : V → ℕ) where
    pub weight-given :
        (b : Bool) (k : K) (x : V) (c : HashNodes K V)
        → weight f g ((if b then (k, x) ∷ [] else []) ++ c)
          ≡ (if b then f k + g x else 0) + weight f g c
    unfolding weight
    weight-given true k x c = omega arith
    weight-given false k x c = omega arith

    -- What was given is in the map or was freed.
    record IsKept (l : Life K V) : Type 0 where
      map : HashMap K V
      alive : l.table ≡ some map
      valid : IsValid map
      owner : IsOwner f g map
      balance : held f g map + freed_weight f g l.freed ≡ weight f g l.given

    put-IsKept :
        (l : Life K V) (alloc : Alloc) (k : K) (x : V)
        → IsHonest alloc
        → IsKept l
        → IsKept (after_call l (put alloc k x))
    put-IsKept l alloc k x honest h =
        let (m', e, p) = hashmap_put-Puts alloc h.map k x honest h.valid in
        let b = hashmap_put_balance f g alloc h.map k x m' honest h.valid h.owner e in
        let r = hashmap_put alloc (some h.map) (some k) x in
        rw h.alive (record {
          map = m';
          alive = e;
          valid = p.valid;
          owner = IsOwner-flags f g h.map m' h.owner p.flags;
          balance = omega (
            arith,
            b,
            h.balance,
            weight-given (succeeded r.0) k x l.given,
            freed_weight-append f g l.freed r.2,
          );
        })

    remove-IsKept : (l : Life K V) (k : K) → IsKept l → IsKept (after_call l (remove k))
    remove-IsKept l k h =
        let (m', e, p) = hashmap_remove-Removes h.map k h.valid in
        let b = hashmap_remove_balance f g h.map k m' h.valid h.owner e in
        let r = hashmap_remove (some h.map) (some k) in
        rw h.alive (record {
          map = m';
          alive = e;
          valid = p.valid;
          owner = IsOwner-flags f g h.map m' h.owner p.flags;
          balance = omega (arith, b, h.balance, freed_weight-append f g l.freed r.2);
        })

    calls-IsKept :
        (l : Life K V) (cs : List (Call K V)) → AllHonest cs → IsKept l → IsKept (after_calls l cs)
    unfolding after_calls
    calls-IsKept l [] honest h = h
    calls-IsKept l (put alloc k x ∷ cs) honest h =
        calls-IsKept (after_call l (put alloc k x)) cs honest.1 (put-IsKept l alloc k x honest.0 h)
    calls-IsKept l (remove k ∷ cs) honest h =
        calls-IsKept (after_call l (remove k)) cs honest (remove-IsKept l k h)

    made_empty :
        (alloc : Alloc) (n : ℕ) (fk fv : Bool) (m : HashMap K V)
        → hashmap_create alloc n true fk fv ≡ some m
        → (m.frees_key ≡ fk) × (m.frees_value ≡ fv) × (held f g m ≡ 0)
    unfolding hashmap_create
    made_empty alloc n fk fv m e = elim (Bool-cases (n == 0)) [
      | inl zero ↦ let no : none ≡ some m = rw zero at e in cc
      | inr more ↦ elim (Bool-cases (alloc.malloc && alloc.calloc n)) [
        | inl given ↦
            let same = some-injective _ _ (rw (more, given) at e) in
            rw (← same) (refl, refl, stock-replicate {K = K} {V = V} f g n)
        | inr denied ↦ let no : none ≡ some m = rw (more, denied) at e in cc
      ]
    ]

    life_balance :
        (m : HashMap K V) (cs : List (Call K V))
        → IsValid m
        → IsOwner f g m
        → held f g m ≡ 0
        → AllHonest cs
        → let l = after_calls (start (some m)) cs in
          freed_weight f g (all_freed l) ≡ weight f g l.given
    unfolding weight freed_weight
    life_balance m cs v o fresh honest =
        let l = after_calls (start (some m)) cs in
        let h = calls-IsKept (start (some m)) cs honest (record {
          map = m;
          alive = refl;
          valid = v;
          owner = o;
          balance = omega (arith, fresh);
        }) in
        rw h.alive (
          omega (
            arith,
            h.balance,
            freed_weight-append f g l.freed (hashmap_destroy (some h.map)),
            hashmap_destroy_balance f g h.map h.valid h.owner,
          ))

  -- Calls on no map store and free nothing.
  no_map : (cs : List (Call K V)) → after_calls (start none) cs ≡ start none
  unfolding after_calls hashmap_put hashmap_remove
  no_map [] = refl
  no_map (put alloc k x ∷ cs) = no_map cs
  no_map (remove k ∷ cs) = no_map cs

  -- What a free function that is not given would free weighs nothing.
  abbrev pub AllOwned : (K → ℕ) → (V → ℕ) → Bool → Bool → Type 0
  AllOwned f g fk fv = (fk ≡ false → (k : K) → f k ≡ 0) × (fv ≡ false → (x : V) → g x ≡ 0)

  -- A map that `hashmap_create` makes, under any puts and removals whatever their allocations do,
  -- and then `hashmap_destroy`: by any weights of keys and values that are nothing where the free
  -- function is missing, so for each pointer, what was freed is what the puts that succeeded had
  -- stored.
  pub life_lem :
      (f : K → ℕ) (g : V → ℕ) (alloc : Alloc) (capacity : ℕ) (fk fv : Bool) (cs : List (Call K V))
      → AllOwned f g fk fv
      → IsHonest alloc
      → AllHonest cs
      → let l = after_calls (start (hashmap_create alloc capacity true fk fv)) cs in
        freed_weight f g (all_freed l) ≡ weight f g l.given
  unfolding freed_weight weight hashmap_destroy
  life_lem f g alloc capacity fk fv cs owned honest all =
      let made = hashmap_create-Created K V alloc capacity true fk fv honest in
      elim (Option-cases (hashmap_create {K = K} {V = V} alloc capacity true fk fv)) [
        | inl e ↦ rw (e, no_map cs) refl
        | inr (m, e) ↦
            let (key_flag, value_flag, fresh) = made_empty f g alloc capacity fk fv m e in
            let owner : IsOwner f g m = record {
              keys = λ off. owned.0 (sym key_flag ∙ off);
              values = λ off. owned.1 (sym value_flag ∙ off);
            } in
            rw e (life_balance f g m cs (rw e at made).0.valid owner fresh all)
      ]
