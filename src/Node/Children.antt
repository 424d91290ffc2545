-- ===== src/Node/Children.antt =====
-- Which nodes stand in the arrays of children that `node_load_all` in Common/node.c fills.
use ikp_data_propagator.Prelude.{
  ℕ, zero, suc, ◌<◌, ◌≡◌, ◌⊎◌, refl, ap, sym, ◌∙◌, true, Option, none, some, List, [], ◌∷◌, ◌++◌,
  arith, ◌==◌, length, take, Bool-cases, inl, inr, ℕ_discrete,
}
use ikp_data_propagator.Text.{string_key}
use ikp_data_propagator.Node.Link.{Nodes}
use ikp_data_propagator.Node.Linked.{children_below, child_if}

-- A number is in a list.
abbrev pub IsIn : ℕ → List ℕ → Type 0
IsIn c [] = ⊥
IsIn c (x ∷ xs) = (c ≡ x) ⊎ IsIn c xs

-- The children that a node counts.
abbrev pub kids : Nodes → ℕ → List ℕ
kids nodes n = take (nodes n).child_count (nodes n).children

IsIn-append : (c : ℕ) (xs ys : List ℕ) → IsIn c (xs ++ ys) → IsIn c xs ⊎ IsIn c ys
IsIn-append c [] ys h = inr h
IsIn-append c (x ∷ xs) ys (inl e) = inl (inl e)
IsIn-append c (x ∷ xs) ys (inr h) = elim (IsIn-append c xs ys h) [
  | inl a ↦ inl (inr a)
  | inr b ↦ inr b
]

append-IsIn : (c : ℕ) (xs ys : List ℕ) → IsIn c xs ⊎ IsIn c ys → IsIn c (xs ++ ys)
append-IsIn c [] ys (inl h) = absurd h
append-IsIn c [] ys (inr h) = h
append-IsIn c (x ∷ xs) ys (inl (inl e)) = inl e
append-IsIn c (x ∷ xs) ys (inl (inr h)) = inr (append-IsIn c xs ys (inl h))
append-IsIn c (x ∷ xs) ys (inr h) = inr (append-IsIn c xs ys (inr h))

child_if-IsIn : (c k j : ℕ) (o : Option ℕ) → IsIn c (child_if k o j) → (c ≡ k) × (o ≡ some j)
child_if-IsIn c k j none h = absurd h
child_if-IsIn c k j (some p) h = elim (Bool-cases (j == p)) [
  | inl same ↦ (elim (rw same at h) [ inl e ↦ e | inr a ↦ absurd a ], ap some (ground arith))
  | inr other ↦ absurd (rw other at h)
]

self_child : (k j : ℕ) → IsIn k (child_if k (some j) j)
self_child k j = let e : (j == j) ≡ true = ground arith in rw e (inl refl)

module _ (par : ℕ → Option ℕ) where
  -- The children that are collected are the nodes with that parent.
  pub IsIn-children_below :
      (k j c : ℕ) → IsIn c (children_below par k j) → (c < k) × (par c ≡ some j)
  unfolding children_below
  IsIn-children_below zero j c h = absurd h
  IsIn-children_below (suc k) j c h =
      elim (IsIn-append c (children_below par k j) (child_if k (par k) j) h) [
        | inl early ↦ let (lt, e) = IsIn-children_below k j c early in (omega arith, e)
        | inr last ↦
            let (is_k, e) = child_if-IsIn c k j (par k) last in (omega arith, ap par is_k ∙ e)
      ]

  pub children_below-IsIn : (k j c : ℕ) → c < k → par c ≡ some j → IsIn c (children_below par k j)
  unfolding children_below
  children_below-IsIn zero j c lt e = absurd (omega arith)
  children_below-IsIn (suc k) j c lt e =
      append-IsIn c (children_below par k j) (child_if k (par k) j) (elim (ℕ_discrete c k) [
        | yes same ↦ inr (rw (sym (ap par same) ∙ e, same) (self_child k j))
        | no ne ↦ inl (children_below-IsIn k j c (omega arith) e)
      ])

pub take-length : (xs : List ℕ) → take (length xs) xs ≡ xs
take-length [] = refl
take-length (x ∷ xs) = ap (λ l. x ∷ l) (take-length xs)

pub take_nil : (n : ℕ) → take {A = ℕ} n [] ≡ []
take_nil zero = refl
take_nil (suc n) = refl
