-- ===== src/Launcher/Chosen.antt =====
-- The nodes that a launch of DataSource/cp_launcher.c is about.
use mathlib.Core.List.{append-nil, append_assoc}
use ikp_data_propagator.Prelude.{
  ℕ, zero, suc, ◌+◌, ◌≡◌, refl, ap, sym, ◌∙◌, Bool, true, false, List, [], ◌∷◌, ◌++◌, map,
  if◌then◌else◌, arith, Bool-cases, inl, inr, length, length-append,
}
use ikp_data_propagator.Text.{Text}
use ikp_data_propagator.Node.{NodeType}
use ikp_data_propagator.Node.Link.{Nodes}
use ikp_data_propagator.Endpoints.{is_destination, destinations}
use ikp_data_propagator.Handles.{Handles, open_handle}
use ikp_data_propagator.Launcher.{eligible, command_line, launch_from}

module _ (wanted : NodeType → Bool) (nodes : Nodes) where
  abbrev this : ℕ → List ℕ
  this j = if wanted (nodes j).kind then j ∷ [] else []

  -- The wanted nodes among the first `n`, in their order.
  unfoldable pub chosen : ℕ → List ℕ
  chosen zero = []
  chosen (suc i) = chosen i ++ this i

  unfoldable pub chosen_from : ℕ → ℕ → List ℕ
  chosen_from zero i = []
  chosen_from (suc left) i = this i ++ chosen_from left (suc i)

  chosen_from-snoc : (left i : ℕ) → chosen_from (suc left) i ≡ chosen_from left i ++ this (i + left)
  unfolding chosen_from
  chosen_from-snoc zero i = append-nil (this i) ∙ ap this {x = i} {y = i + 0} (omega arith)
  chosen_from-snoc (suc left) i =
      ap (λ js. this i ++ js) (chosen_from-snoc left (suc i))
      ∙ sym (append_assoc (this i) (chosen_from left (suc i)) (this (suc i + left)))
      ∙ ap (λ j. this i ++ chosen_from left (suc i) ++ this j) {x = suc i + left} {y = i + suc left}
          (omega arith)

  pub chosen_from-chosen : (n : ℕ) → chosen_from n 0 ≡ chosen n
  unfolding chosen chosen_from
  chosen_from-chosen zero = refl
  chosen_from-chosen (suc n) =
      chosen_from-snoc n 0
      ∙ ap (λ js. js ++ this (0 + n)) (chosen_from-chosen n)
      ∙ ap (λ j. chosen n ++ this j) {x = 0 + n} {y = n} (omega arith)

  pub length-chosen : (n : ℕ) → eligible wanted nodes n ≡ length (chosen n)
  unfolding chosen eligible
  length-chosen zero = refl
  length-chosen (suc n) = elim (Bool-cases (wanted (nodes n).kind)) [
    | inl e ↦ rw e (omega (arith, length-chosen n, length-append (chosen n) (n ∷ [])))
    | inr e ↦ rw (e, append-nil) (length-chosen n)
  ]

  module _ (started : ℕ → Bool) (exe : Text) where
    pub launch_from-chosen :
        (left i : ℕ) (w : Handles)
        → (launch_from started wanted exe nodes left i w).2 ≡ true
        → map (λ p. p.command) (launch_from started wanted exe nodes left i w).0
          ≡ map (λ j. command_line exe (nodes j)) (chosen_from left i)
    unfolding launch_from chosen_from
    launch_from-chosen zero i w ok = refl
    launch_from-chosen (suc left) i w ok = elim (Bool-cases (wanted (nodes i).kind)) [
      | inr e ↦ rw e (launch_from-chosen left (suc i) w (rw e at ok))
      | inl e ↦ elim (Bool-cases (started i)) [
        | inr s ↦ let no : false ≡ true = rw (e, s) at ok in cc
        | inl s ↦
            rw (e, s)
              (ap (λ ts. command_line exe (nodes i) ∷ ts)
                (launch_from-chosen left (suc i) (open_handle (open_handle w)) (rw (e, s) at ok)))
      ]
    ]

    pub launch_from-all :
        (left i : ℕ) (w : Handles)
        → ((j : ℕ) → started j ≡ true)
        → (launch_from started wanted exe nodes left i w).2 ≡ true
    unfolding launch_from
    launch_from-all zero i w all = refl
    launch_from-all (suc left) i w all = elim (Bool-cases (wanted (nodes i).kind)) [
      | inr e ↦ rw e (launch_from-all left (suc i) w all)
      | inl e ↦ rw (e, all i) (launch_from-all left (suc i) (open_handle (open_handle w)) all)
    ]

pub chosen-destinations :
    (nodes : Nodes) (n : ℕ) → chosen is_destination nodes n ≡ destinations nodes n
unfolding chosen destinations
chosen-destinations nodes zero = refl
chosen-destinations nodes (suc i) = elim (Bool-cases (is_destination (nodes i).kind)) [
  | inl e ↦ rw e (ap (λ js. js ++ i ∷ []) (chosen-destinations nodes i))
  | inr e ↦ rw (e, append-nil) (chosen-destinations nodes i)
]
