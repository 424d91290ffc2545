-- ===== src/Routing/File.antt =====
-- From the rows of nodes.csv to the hypotheses of the routes: the nodes that `node_load_all` in
-- Common/node.c links are a forest, and a tree below each node.
use ikp_data_propagator.Prelude.{
  ℕ, ◌<◌, ◌≡◌, refl, ap, sym, ◌∙◌, true, Option, none, some, List, arith, if◌then◌else◌, ltb,
  ltb→lt, lt→ltb, length, Bool-cases, inl, inr, dec_lt,
}
use ikp_data_propagator.Text.{Text, eq_string, string_key}
use ikp_data_propagator.HashMap.{hashmap_get}
use ikp_data_propagator.Node.{Row}
use ikp_data_propagator.Node.Link.{row_at, first_nodes, IdMap, lookup_parent, link}
use ikp_data_propagator.Node.Linked.{parent_in, linked, link_lem}
use ikp_data_propagator.Node.Ids.{last_with, last_with-lt, IsDistinct}
use ikp_data_propagator.Node.Children.{IsIn, kids, IsIn-children_below, children_below-IsIn}
use ikp_data_propagator.Node.Forest.{parent_lem, kids_beyond, kids_lem}
use ikp_data_propagator.Routing.Paths.{IsBelow, self, under, IsForest}
use ikp_data_propagator.Routing.Subtree.{IsTree}

-- No two rows share an id, and no row is its own ancestor: a rank falls from a row to its parent's.
pub record IsFileTree (rows : List Row) (rank : ℕ → ℕ) : Type 0 where
  pub distinct : IsDistinct (first_nodes rows) (length rows)
  pub falls :
      (i j : ℕ) (pid : Text)
      → i < length rows
      → j < length rows
      → (row_at rows i).parent_id ≡ some pid
      → eq_string (first_nodes rows j).id pid ≡ true
      → rank j < rank i

-- The map answers as the rows do.
abbrev pub Answers : IdMap → List Row → Type 0
Answers m rows = (q : Text) → hashmap_get m (some q) ≡ last_with (first_nodes rows) (length rows) q

module _ (m : IdMap) (rows : List Row) (rank : ℕ → ℕ) (file : IsFileTree rows rank)
    (answers : Answers m rows) where
  -- Where a node has a parent, both are nodes of the file, and the row names the parent's id.
  abbrev Child : ℕ → ℕ → Type 0
  Child x p =
      (x < length rows) × (p < length rows) × (parent_in m rows x ≡ some p) × (rank p < rank x)

  named :
      (x p : ℕ) (o : Option Text)
      → x < length rows
      → (row_at rows x).parent_id ≡ o
      → lookup_parent m o ≡ some p
      → (p < length rows) × (rank p < rank x)
  named x p none lt e found = cc
  named x p (some pid) lt e found =
      let (below, same) =
        last_with-lt (first_nodes rows) (length rows) pid p (sym (answers pid) ∙ found) in
      (below, file.falls x p pid lt below e same)

  parent_Child : (x p : ℕ) → (link m rows x).parent ≡ some p → Child x p
  parent_Child x p e = elim (Bool-cases (ltb x (length rows))) [
    | inr beyond ↦ cc (sym (parent_lem m rows x) ∙ e, beyond)
    | inl inside ↦
        let lt = ltb→lt x (length rows) inside in
        let found : parent_in m rows x ≡ some p =
          ap (λ b. if b then parent_in m rows x else none) (sym inside)
          ∙ sym (parent_lem m rows x)
          ∙ e in
        let (below, falls) = named x p (row_at rows x).parent_id lt refl found in
        (lt, below, found, falls)
  ]

  child_parent :
      (x p : ℕ) → x < length rows → parent_in m rows x ≡ some p → (link m rows x).parent ≡ some p
  child_parent x p lt e =
      parent_lem m rows x
      ∙ ap (λ b. if b then parent_in m rows x else none) (lt→ltb x (length rows) lt)
      ∙ e

  pub link-IsForest : IsForest (link m rows) rank
  link-IsForest x p e = (parent_Child x p e).3

  pub IsBelow-lt : (me x : ℕ) → me < length rows → IsBelow (link m rows) me x → x < length rows
  IsBelow-lt me x lt self = lt
  IsBelow-lt me x lt (under {p = p} e b) = (parent_Child x p e).0

  pub above-lt : (me x : ℕ) → x < length rows → IsBelow (link m rows) me x → me < length rows
  above-lt me x lt self = lt
  above-lt me x lt (under {p = p} e b) = above-lt me p (parent_Child x p e).1 b

  pub same_id : (j : ℕ) → j < length rows → (link m rows j).id ≡ (first_nodes rows j).id
  unfolding linked
  same_id j lt = ap (λ n. n.id) (link_lem m rows j lt)

  kids_up : (n c : ℕ) → IsIn c (kids (link m rows) n) → (link m rows c).parent ≡ some n
  kids_up n c h = elim (dec_lt n (length rows)) [
    | yes lt ↦
        let (below, e) =
          IsIn-children_below (parent_in m rows) (length rows) n c
            (rw (kids_lem m rows n lt) at h) in
        child_parent c n below e
    | no ge ↦ absurd (rw (kids_beyond m rows n (omega arith)) at h)
  ]

  kids_down : (n c : ℕ) → (link m rows c).parent ≡ some n → IsIn c (kids (link m rows) n)
  kids_down n c e =
      let (lt, below, found, _) = parent_Child c n e in
      rw (kids_lem m rows n below)
        (children_below-IsIn (parent_in m rows) (length rows) n c lt found)

  pub link-IsTree : (me : ℕ) → me < length rows → IsTree (link m rows) me
  link-IsTree me lt = record {
    up = kids_up;
    down = λ n c _ e. kids_down n c e;
    distinct = λ a b ba bb same.
        let la = IsBelow-lt me a lt ba in
        let lb = IsBelow-lt me b lt bb in
        file.distinct a b la lb (rw (same_id a la, same_id b lb) at same);
  }
