-- ===== src/Routing/Subtree.antt =====
-- The map that `collect_subtree` in CentralPropagator/cp_context.c makes.
use ikp_data_propagator.Prelude.{
  ℕ, zero, suc, ◌+◌, ◌<◌, ◌≡◌, refl, ap, ◌∙◌, ◌⊎◌, inl, inr, Bool, true, false, ◌&&◌, some, List,
  [], ◌∷◌, arith, succeeded, Bool-cases, Status, done, failed,
}
use mathlib.Core.Option.{some-injective}
use ikp_data_propagator.Text.{Text, eq_string, eq_string_refl, string_key}
use ikp_data_propagator.HashMap.{HashMap, Alloc, Freed, hashmap_get}
use ikp_data_propagator.HashMap.Valid.{IsHonest, IsValid, value_of}
use ikp_data_propagator.HashMap.Put.{Puts, hashmap_put-Puts, hashmap_get_lem}
use ikp_data_propagator.Node.Link.{Nodes, IdMap}
use ikp_data_propagator.Node.Children.{IsIn, kids}
use ikp_data_propagator.Routing.Context.{put_node, for_all, collect_subtree}
use ikp_data_propagator.Routing.Paths.{IsBelow, self, under, IsForest}

and-true : (a : Bool) → a && true ≡ true → a ≡ true
and-true a e = ground arith

and-false : (a : Bool) → a && false ≡ true → ⊥
and-false a e = ground arith

-- The children of the nodes in a subtree are those that have the node as their parent, and no two
-- nodes of it share an id.
pub record IsTree (nodes : Nodes) (me : ℕ) : Type 0 where
  pub up : (n c : ℕ) → IsIn c (kids nodes n) → (nodes c).parent ≡ some n
  pub down : (n c : ℕ) → IsBelow nodes me n → (nodes c).parent ≡ some n → IsIn c (kids nodes n)
  pub distinct :
      (a b : ℕ)
      → IsBelow nodes me a
      → IsBelow nodes me b
      → eq_string (nodes a).id (nodes b).id ≡ true
      → a ≡ b

abbrev pub IsTable : IdMap → Type 0
IsTable m = (t : HashMap Text ℕ) × (m ≡ some t) × IsValid t

-- Where every put so far succeeded, the map has the node at its id.
abbrev Has : Nodes → IdMap × Bool → ℕ → Type 0
Has nodes s x =
    s.1 ≡ true
    → (t : HashMap Text ℕ) × (s.0 ≡ some t) × IsValid t × (value_of t (nodes x).id ≡ some x)

-- The root of a path that goes down, or its first step.
first_step :
    (nodes : Nodes) (n x : ℕ)
    → IsBelow nodes n x
    → (x ≡ n) ⊎ ((c : ℕ) × ((nodes c).parent ≡ some n) × IsBelow nodes c x)
first_step nodes n x self = inl refl
first_step nodes n x (under {p = p} e b) = elim (first_step nodes n p b) [
  | inl same ↦ inr (x, e ∙ ap some same, self)
  | inr (c, f, below) ↦ inr (c, f, under e below)
]

IsBelow-trans :
    (nodes : Nodes) (a b x : ℕ) → IsBelow nodes a b → IsBelow nodes b x → IsBelow nodes a x
IsBelow-trans nodes a b x top self = top
IsBelow-trans nodes a b x top (under {p = p} e below) =
    under e (IsBelow-trans nodes a b p top below)

module _ (nodes : Nodes) (me : ℕ) (tree : IsTree nodes me) (allocs : ℕ → Alloc)
    (honest : (n : ℕ) → IsHonest (allocs n)) where
  -- A later state: what the map had it has, and the flag is not set again.
  abbrev Grows : IdMap × Bool → IdMap × Bool → Type 0
  Grows s s' =
      (s'.1 ≡ true → s.1 ≡ true) × ((x : ℕ) → IsBelow nodes me x → Has nodes s x → Has nodes s' x)

  abbrev Collects : IdMap × Bool → IdMap × Bool → ℕ → Type 0
  Collects s s' n = IsTable s'.0 × Grows s s' × ((x : ℕ) → IsBelow nodes n x → Has nodes s' x)

  put_lem :
      (n : ℕ) (ok : Bool) (t t' : HashMap Text ℕ) (r : Status) (freed : List (Freed Text ℕ))
      → IsBelow nodes me n
      → Puts (allocs n) t (nodes n).id n (r, t', freed)
      → Grows (some t, ok) (some t', ok && succeeded r) × Has nodes (some t', ok && succeeded r) n
  put_lem n ok t t' failed freed b p = (
    (λ e. absurd (and-false ok e), λ x bx h e. absurd (and-false ok e)),
    λ e. absurd (and-false ok e),
  )
  put_lem n ok t t' done freed b p = (
    (
      and-true ok,
      λ x bx h e.
          let (t₀, same_table, _, known) = h (and-true ok e) in
          (
            t',
            refl,
            p.valid,
            p.reads (nodes x).id ∙ (elim (Bool-cases (eq_string (nodes n).id (nodes x).id)) [
              | inl same ↦ rw same (ap some (tree.distinct n x b bx same))
              | inr differs ↦
                  rw differs
                    (ap (λ u. value_of u (nodes x).id) (some-injective t t₀ same_table) ∙ known)
            ]),
          ),
    ),
    λ e. (t', refl, p.valid, p.reads (nodes n).id ∙ rw (eq_string_refl (nodes n).id) refl),
  )

  put_node_lem :
      (n : ℕ) (s : IdMap × Bool)
      → IsTable s.0
      → IsBelow nodes me n
      → IsTable (put_node (allocs n) nodes n s).0
        × Grows s (put_node (allocs n) nodes n s)
        × Has nodes (put_node (allocs n) nodes n s) n
  put_node_lem n (m, ok) (t, e, v) b =
      let (t', e', p) = hashmap_put-Puts (allocs n) t (nodes n).id n (honest n) v in
      let l = put_lem n ok t t' _ _ b p in rw (e, e') ((t', refl, p.valid), l.0, l.1)

  Grows-trans : (s₁ s₂ s₃ : IdMap × Bool) → Grows s₁ s₂ → Grows s₂ s₃ → Grows s₁ s₃
  Grows-trans s₁ s₂ s₃ f g = (λ e. f.0 (g.0 e), λ x b h. g.1 x b (f.1 x b h))

  -- The loop over some children, where the call on each collects its subtree.
  for_all_lem :
      (f : ℕ → IdMap × Bool → IdMap × Bool) (cs : List ℕ)
      → ((c : ℕ) (s : IdMap × Bool) → IsIn c cs → IsTable s.0 → Collects s (f c s) c)
      → ((c : ℕ) → IsIn c cs → IsBelow nodes me c)
      → (s : IdMap × Bool) → IsTable s.0
      → IsTable (for_all f cs s).0
        × Grows s (for_all f cs s)
        × ((c : ℕ) → IsIn c cs → (x : ℕ) → IsBelow nodes c x → Has nodes (for_all f cs s) x)
  for_all_lem f [] each below s ok = (ok, (λ e. e, λ x b h. h), λ c m. absurd m)
  for_all_lem f (c ∷ cs) each below s ok =
      let one = each c s (inl refl) ok in
      let rest =
        for_all_lem f cs (λ d u m. each d u (inr m)) (λ d m. below d (inr m)) (f c s) one.0 in
      (
        rest.0,
        Grows-trans s (f c s) (for_all f cs (f c s)) one.1 rest.1,
        λ d m x bx. elim m [
          | inl e ↦
              let bc = rw e at bx in
              rest.1.1 x (IsBelow-trans nodes me c x (below c (inl refl)) bc) (one.2 x bc)
          | inr m' ↦ rest.2 d m' x bx
        ],
      )

  module _ (rank : ℕ → ℕ) (forest : IsForest nodes rank) where
    collect_lem :
        (fuel n : ℕ) (s : IdMap × Bool)
        → IsTable s.0
        → IsBelow nodes me n
        → ((x : ℕ) → IsBelow nodes n x → rank x < rank n + fuel)
        → Collects s (collect_subtree fuel allocs nodes n s) n
    unfolding collect_subtree
    collect_lem zero n s ok b deep = absurd (let d = deep n self in omega arith)
    collect_lem (suc fuel) n s ok b deep =
        let here = put_node_lem n s ok b in
        let s₁ = put_node (allocs n) nodes n s in
        let f = collect_subtree fuel allocs nodes in
        let child : (c : ℕ) → IsIn c (kids nodes n) → IsBelow nodes me c =
          λ c m. under (tree.up n c m) b in
        let each : (c : ℕ) (s : IdMap × Bool)
            → IsIn c (kids nodes n)
            → IsTable s.0
            → Collects s (f c s) c =
          λ c s m t. collect_lem fuel c s t (child c m) (λ x bx.
            let d = deep x (IsBelow-trans nodes n c x (under (tree.up n c m) self) bx) in
            let lower = forest c n (tree.up n c m) in omega arith) in
        let rest = for_all_lem f (kids nodes n) each child s₁ here.0 in
        (
          rest.0,
          Grows-trans s s₁ (for_all f (kids nodes n) s₁) here.1 rest.1,
          λ x bx. elim (first_step nodes n x bx) [
            | inl same ↦ rw same (rest.1.1 n b here.2)
            | inr (c, parent, below) ↦ rest.2 c (tree.down n c b parent) x below
          ],
        )

    -- On a tree whose ids are distinct, from a well-formed map and with fuel for the depth: where
    -- every put of `collect_subtree` succeeds, the map that it leaves gives each node of the
    -- subtree for its id.
    pub collect_subtree_lem :
        (fuel : ℕ) (m : IdMap)
        → IsTable m
        → ((x : ℕ) → IsBelow nodes me x → rank x < rank me + fuel)
        → (collect_subtree fuel allocs nodes me (m, true)).1 ≡ true
        → (x : ℕ) → IsBelow nodes me x
        → hashmap_get (collect_subtree fuel allocs nodes me (m, true)).0 (some (nodes x).id)
          ≡ some x
    collect_subtree_lem fuel m ok deep stored x b =
        let (t, e, v, known) = (collect_lem fuel me (m, true) ok self deep).2 x b stored in
        rw e (hashmap_get_lem t (nodes x).id v ∙ known)
