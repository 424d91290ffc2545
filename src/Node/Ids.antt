-- ===== src/Node/Ids.antt =====
-- The map from ids to nodes that `node_load_all` in Common/node.c and `cp_context_create` in
-- CentralPropagator/cp_context.c fill, against the loop of `node_find_by_id` in Common/utils.c.
use mathlib.Core.Option.{some-injective}
use ikp_data_propagator.Prelude.{
  ℕ, zero, suc, ◌<◌, ◌≡◌, ◌≢◌, refl, ap, sym, ◌∙◌, Bool, true, false, ◌&&◌, Option, none, some,
  List, arith, if◌then◌else◌, succeeded, Bool-cases, inl, inr, done, failed, Status, ℕ_discrete,
}
use ikp_data_propagator.Text.{Text, eq_string, eq_string_refl, string_key}
use ikp_data_propagator.HashMap.{HashMap, Alloc, Freed, hashmap_create, hashmap_get}
use ikp_data_propagator.HashMap.Valid.{IsHonest, IsValid, value_of}
use ikp_data_propagator.HashMap.Put.{Puts, hashmap_put-Puts, hashmap_get_lem}
use ikp_data_propagator.HashMap.Create.{Created, hashmap_create-Created}
use ikp_data_propagator.Node.Link.{Nodes, IdMap, put_ids}

-- The last of the first `k` nodes with an id, where there is one.
unfoldable pub last_with : Nodes → ℕ → Text → Option ℕ
last_with nodes zero q = none
last_with nodes (suc i) q =
    let rest = last_with nodes i q in if eq_string (nodes i).id q then some i else rest

-- A well-formed table that has nothing yet.
pub record IsEmptyTable (m : IdMap) : Type 0 where
  pub table : HashMap Text ℕ
  pub is_table : m ≡ some table
  pub valid : IsValid table
  pub empty : (q : Text) → value_of table q ≡ none

and-true : (a : Bool) → a && true ≡ true → a ≡ true
and-true a e = ground arith

and-false : (a : Bool) → a && false ≡ true → ⊥
and-false a e = ground arith

-- A table that is well formed and, where every put succeeded, has the last node for each id.
abbrev HasLast : Nodes → ℕ → IdMap × Bool → Type 0
HasLast nodes k r =
    (t : HashMap Text ℕ) × (r.0 ≡ some t)
    × IsValid t
    × (r.1 ≡ true → (q : Text) → value_of t q ≡ last_with nodes k q)

put_HasLast :
    (alloc : Alloc) (nodes : Nodes) (k : ℕ) (t t' : HashMap Text ℕ) (ok : Bool) (r : Status)
    (freed : List (Freed Text ℕ))
    → (ok ≡ true → (q : Text) → value_of t q ≡ last_with nodes k q)
    → Puts alloc t (nodes k).id k (r, t', freed)
    → HasLast nodes (suc k) (some t', ok && succeeded r)
unfolding last_with
put_HasLast alloc nodes k t t' ok failed freed h p =
    (t', refl, p.valid, λ e. absurd (and-false ok e))
put_HasLast alloc nodes k t t' ok done freed h p = (
  t',
  refl,
  p.valid,
  λ e q. p.reads q ∙ ap (λ o. if eq_string (nodes k).id q then some k else o) (h (and-true ok e) q),
)

module _ (allocs : ℕ → Alloc) (honest : (n : ℕ) → IsHonest (allocs n)) (nodes : Nodes) where
  put_ids-HasLast :
      (k : ℕ) (m : IdMap) → IsEmptyTable m → HasLast nodes k (put_ids allocs nodes k m)
  unfolding put_ids last_with
  put_ids-HasLast zero m e = (e.table, e.is_table, e.valid, λ _ q. e.empty q)
  put_ids-HasLast (suc k) m e =
      let r = put_ids allocs nodes k m in
      let (t, is_t, v, last) = put_ids-HasLast k m e in
      let (t', is_t', p) = hashmap_put-Puts (allocs k) t (nodes k).id k (honest k) v in
      rw (is_t, is_t') (put_HasLast (allocs k) nodes k t t' r.1 _ _ last p)

  -- Where every put succeeds, the map of all ids answers each lookup with the last node that has
  -- the id, and with NULL where none has it.
  pub put_ids_lem :
      (k : ℕ) (m : IdMap) (q : Text)
      → IsEmptyTable m
      → (put_ids allocs nodes k m).1 ≡ true
      → hashmap_get (put_ids allocs nodes k m).0 (some q) ≡ last_with nodes k q
  put_ids_lem k m q e ok =
      let (t, is_t, v, last) = put_ids-HasLast k m e in rw is_t (hashmap_get_lem t q v ∙ last ok q)

-- What `last_with` finds is a node with the id.
pub last_with-lt :
    (nodes : Nodes) (k : ℕ) (q : Text) (i : ℕ)
    → last_with nodes k q ≡ some i
    → (i < k) × (eq_string (nodes i).id q ≡ true)
unfolding last_with
last_with-lt nodes zero q i e = cc
last_with-lt nodes (suc k) q i e = elim (Bool-cases (eq_string (nodes k).id q)) [
  | inl same ↦ let is_k = some-injective k i (rw same at e) in (omega arith, rw is_k at same)
  | inr other ↦ let (lt, found) = last_with-lt nodes k q i (rw other at e) in (omega arith, found)
]

-- No two of the first `n` nodes have the same id.
abbrev pub IsDistinct : Nodes → ℕ → Type 0
IsDistinct nodes n = (i j : ℕ) → i < n → j < n → eq_string (nodes i).id (nodes j).id ≡ true → i ≡ j

-- A node with an id is found by it.
pub last_with_self :
    (nodes : Nodes) (k i : ℕ)
    → ((j : ℕ) → j < k → eq_string (nodes j).id (nodes i).id ≡ true → j ≡ i)
    → i < k
    → last_with nodes k (nodes i).id ≡ some i
unfolding last_with
last_with_self nodes zero i only lt = absurd (omega arith)
last_with_self nodes (suc k) i only lt = elim (Bool-cases (eq_string (nodes k).id (nodes i).id)) [
  | inl same ↦ rw same (ap some (only k (omega arith) same))
  | inr other ↦
      let ne : i ≢ k = λ e.
        cc (ap (λ j. eq_string (nodes j).id (nodes i).id) e, eq_string_refl (nodes i).id, other) in
      rw other (last_with_self nodes k i (λ j h e. only j (omega arith) e) (omega arith))
]

-- Where no node has the id, nothing is found.
pub last_with-none :
    (nodes : Nodes) (k : ℕ) (q : Text)
    → last_with nodes k q ≡ none
    → (i : ℕ) → i < k
    → eq_string (nodes i).id q ≡ false
unfolding last_with
last_with-none nodes zero q e i lt = absurd (omega arith)
last_with-none nodes (suc k) q e i lt = elim (Bool-cases (eq_string (nodes k).id q)) [
  | inl same ↦ cc (rw same at e)
  | inr other ↦ elim (ℕ_discrete i k) [
    | yes is_k ↦ rw is_k other
    | no ne ↦ last_with-none nodes k q (rw other at e) i (omega arith)
  ]
]

-- A map that was just created, where its allocations succeed.
pub created-IsEmptyTable :
    (alloc : Alloc) (capacity : ℕ)
    → IsHonest alloc
    → 0 < capacity
    → alloc.malloc ≡ true
    → alloc.calloc capacity ≡ true
    → IsEmptyTable (hashmap_create alloc capacity true true false)
unfolding hashmap_create
created-IsEmptyTable alloc zero honest pos given array = absurd (omega arith)
created-IsEmptyTable alloc (suc n) honest pos given array =
    go (hashmap_create alloc (suc n) true true false)
      (hashmap_create-Created Text ℕ alloc (suc n) true true false honest)
  where
    go : (m : IdMap) → Created alloc (suc n) true m → IsEmptyTable m
    go none (inl e) = absurd (omega arith)
    go none (inr (inl e)) = cc
    go none (inr (inr (inl e))) = cc
    go none (inr (inr (inr e))) = cc
    go (some t) (e, _, _, _) = record {
      table = t;
      is_table = refl;
      valid = e.valid;
      empty = λ q. sym (hashmap_get_lem t q e.valid) ∙ e.reads q;
    }
