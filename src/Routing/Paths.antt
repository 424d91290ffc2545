-- ===== src/Routing/Paths.antt =====
-- The routes of warnings: the sender of DataSource/network_sender.c gives one to the root above its
-- destination, and each propagator hands it to a child, until the destination has it.
use ikp_data_propagator.Prelude.{
  ℕ, zero, suc, ◌-◌, ◌<◌, ◌≤◌, ◌≡◌, ◌≢◌, refl, ap, sym, ◌∙◌, Option, none, some, arith, ◌==◌,
  if◌then◌else◌, ==_false_of_ne, ℕ_discrete, Bool-cases, Option-cases, inl, inr,
}
use ikp_data_propagator.Text.{Text, string_key}
use ikp_data_propagator.Node.Link.{Nodes, IdMap}
use ikp_data_propagator.HashMap.{hashmap_get}
use ikp_data_propagator.Routing.{find_root, up_from, climb, climb_from, hop_of}

-- A node is in the subtree of another: it is that node, or its parent is in that subtree.
pub data IsBelow (nodes : Nodes) (top : ℕ) : ℕ → Type 0 where
  self : IsBelow nodes top top
  under : {x p : ℕ} → (nodes x).parent ≡ some p → IsBelow nodes top p → IsBelow nodes top x

-- No node is its own ancestor: a rank falls from each node to its parent.
abbrev pub IsForest : Nodes → (ℕ → ℕ) → Type 0
IsForest nodes rank = (x p : ℕ) → (nodes x).parent ≡ some p → rank p < rank x

-- A root above `x`, found by the loop.
abbrev pub FindsRoot : ℕ → Nodes → ℕ → Option ℕ → Type 0
FindsRoot fuel nodes x found =
    (r : ℕ) × (found ≡ some r) × ((nodes r).parent ≡ none) × IsBelow nodes r x

-- A child of `me` above `x`.
abbrev pub FindsHop : Nodes → ℕ → ℕ → Option ℕ → Type 0
FindsHop nodes me x found =
    (h : ℕ) × (found ≡ some h) × ((nodes h).parent ≡ some me) × IsBelow nodes h x

module _ (nodes : Nodes) (rank : ℕ → ℕ) (forest : IsForest nodes rank) where
  -- On a forest the sender's loop ends, with fuel for the rank of the node, at a node that has no
  -- parent and has the node in its subtree.
  pub find_root_lem : (fuel x : ℕ) → rank x < fuel → FindsRoot fuel nodes x (find_root fuel nodes x)
  unfolding find_root
  find_root_lem zero x lt = absurd (omega arith)
  find_root_lem (suc fuel) x lt = elim (Option-cases (nodes x).parent) [
    | inl e ↦ (x, ap (up_from (find_root fuel nodes) x) e, e, self)
    | inr (p, e) ↦
        let down = forest x p e in
        let (r, found, top, below) = find_root_lem fuel p (omega arith) in
        (r, ap (up_from (find_root fuel nodes) x) e ∙ found, top, under e below)
  ]

  rank_below : (top x : ℕ) → IsBelow nodes top x → rank top ≤ rank x
  rank_below top x self = omega arith
  rank_below top x (under {p = p} e b) =
      let down = forest x p e in let ih = rank_below top p b in omega arith

  climb_lem :
      (fuel me x : ℕ)
      → rank x < fuel
      → IsBelow nodes me x
      → x ≢ me
      → FindsHop nodes me x (climb fuel nodes me x)
  unfolding climb
  climb_lem zero me x lt b ne = absurd (omega arith)
  climb_lem (suc fuel) me x lt self ne = absurd (ne refl)
  climb_lem (suc fuel) me x lt (under {p = p} e b) ne = elim (Bool-cases (p == me)) [
    | inl same ↦
        let is_me : p ≡ me = ground arith in
        (
          x,
          ap (climb_from (climb fuel nodes me) me x) e
              ∙ ap (λ t. if t then some x else climb fuel nodes me p) same,
          e ∙ ap some is_me,
          self,
        )
    | inr other ↦
        let down = forest x p e in
        let differs : p ≢ me = λ q. ground arith in
        let (h, found, child, below) = climb_lem fuel me p (omega arith) b differs in
        (
          h,
          ap (climb_from (climb fuel nodes me) me x) e
              ∙ ap (λ t. if t then some x else climb fuel nodes me p) other
              ∙ found,
          child,
          under e below,
        )
  ]

  -- On a forest, with fuel for the rank of the destination: where the destination is below a
  -- propagator and is another node, the hop of the job is one of the propagator's own children,
  -- and the destination is in that child's subtree.
  pub hop_of_lem :
      (fuel me dest : ℕ)
      → rank dest < fuel
      → IsBelow nodes me dest
      → dest ≢ me
      → FindsHop nodes me dest (hop_of fuel nodes me (some dest))
  unfolding hop_of
  hop_of_lem fuel me dest lt b ne = rw (==_false_of_ne dest me ne) (climb_lem fuel me dest lt b ne)

-- The propagators that a warning for `dest` passes from `me` on, each handing it to the hop of its
-- own job by its own map, until it is at `dest`.
pub data Arrives (fuel : ℕ) (nodes : Nodes) (maps : ℕ → IdMap) (id : Text) (dest : ℕ)
    : ℕ → Type 0 where
  arrived : Arrives fuel nodes maps id dest dest
  forwarded :
      {me hop : ℕ}
      → dest ≢ me
      → hop_of fuel nodes me (hashmap_get (maps me) (some id)) ≡ some hop
      → Arrives fuel nodes maps id dest hop
      → Arrives fuel nodes maps id dest me

-- Every propagator above the destination has its id in its map.
abbrev pub KnowsBelow : Nodes → (ℕ → IdMap) → Text → ℕ → Type 0
KnowsBelow nodes maps id dest =
    (me : ℕ) → IsBelow nodes me dest → hashmap_get (maps me) (some id) ≡ some dest

module _ (nodes : Nodes) (rank : ℕ → ℕ) (forest : IsForest nodes rank) (maps : ℕ → IdMap)
    (id : Text) (dest fuel : ℕ) (enough : rank dest < fuel)
    (knows : KnowsBelow nodes maps id dest) where
  -- By the ranks that are left from the propagator to the destination.
  Arrives-from :
      (left me : ℕ)
      → rank dest - rank me < left
      → IsBelow nodes me dest
      → Arrives fuel nodes maps id dest me
  Arrives-from zero me lt b = absurd (omega arith)
  Arrives-from (suc left) me lt b = elim (ℕ_discrete dest me) [
    | yes same ↦ rw (sym same) arrived
    | no ne ↦
        let (h, found, child, below) = hop_of_lem nodes rank forest fuel me dest enough b ne in
        let down = forest h me child in
        let bounded = rank_below nodes rank forest h dest below in
        forwarded ne (ap (hop_of fuel nodes me) (knows me b) ∙ found)
          (Arrives-from left h (omega arith) below)
  ]

  -- On a forest, where every propagator above the destination has the destination in its map at
  -- the id, and with fuel for the rank of the destination: the sender finds a root above it, and
  -- from there the hops of the propagators, each chosen by its own map, bring the warning to the
  -- destination.
  pub delivery_lem :
      (r : ℕ) × (find_root fuel nodes dest ≡ some r)
      × ((nodes r).parent ≡ none)
      × Arrives fuel nodes maps id dest r
  delivery_lem =
      let (r, found, top, below) = find_root_lem nodes rank forest fuel dest enough in
      (r, found, top, Arrives-from (suc (rank dest)) r (omega arith) below)
