-- ===== src/Endpoints/Generated.antt =====
-- What the generator of DataSource/data_generator.c puts into the queue.
use ikp_data_propagator.Prelude.{
  ℕ, zero, suc, ◌%◌, ◌<◌, ◌≡◌, refl, true, Option, none, some, List, [], ◌∷◌, ◌++◌, arith, length,
  ltb, get_or, Bool, false, Bool-cases, inl, inr,
}
use ikp_data_propagator.Text.{until_nul}
use ikp_data_propagator.Warning.{Warning, WarningAlloc, warning_create}
use ikp_data_propagator.Node.Link.{Nodes}
use ikp_data_propagator.Endpoints.{
  is_destination, destinations, Draw, number_of_warnings, drawn_node, draw_warning, generate,
  data_generator_thread, entry_if,
}

-- A node of the file that is a destination.
abbrev pub IsDestination : Nodes → ℕ → ℕ → Type 0
IsDestination nodes total i = (i < total) × (is_destination (nodes i).kind ≡ true)

abbrev All : (ℕ → Type 0) → List ℕ → Type 0
All P [] = Unit {0}
All P (x ∷ xs) = P x × All P xs

All-snoc :
    (P Q : ℕ → Type 0) (xs : List ℕ) (x : ℕ)
    → ((i : ℕ) → P i → Q i)
    → All P xs
    → Q x
    → All Q (xs ++ x ∷ [])
All-snoc P Q [] x f a q = (q, tt)
All-snoc P Q (y ∷ ys) x f a q = (f y a.0, All-snoc P Q ys x f a.1 q)

All-map : (P Q : ℕ → Type 0) (xs : List ℕ) → ((i : ℕ) → P i → Q i) → All P xs → All Q xs
All-map P Q [] f a = tt
All-map P Q (x ∷ xs) f a = (f x a.0, All-map P Q xs f a.1)

All-get_or : (P : ℕ → Type 0) (xs : List ℕ) (k : ℕ) → All P xs → k < length xs → P (get_or xs k 0)
All-get_or P [] k a lt = absurd (omega arith)
All-get_or P (x ∷ xs) zero a lt = a.0
All-get_or P (x ∷ xs) (suc k) a lt = All-get_or P xs k a.1 (omega arith)

destinations_lem : (nodes : Nodes) (n : ℕ) → All (IsDestination nodes n) (destinations nodes n)
unfolding destinations
destinations_lem nodes zero = tt
destinations_lem nodes (suc i) =
    let ih = destinations_lem nodes i in
    let wider : (k : ℕ) → IsDestination nodes i k → IsDestination nodes (suc i) k =
      λ k d. (omega (arith, d.0), d.1) in
    elim (Bool-cases (is_destination (nodes i).kind)) [
      | inl yes_ ↦ rw yes_ (All-snoc _ _ (destinations nodes i) i wider ih (omega arith, yes_))
      | inr no_ ↦ rw no_ (All-map _ _ (destinations nodes i) wider ih)
    ]

-- A warning that is for a destination, in the city of that name, with one of the four kinds.
abbrev pub IsFor : Nodes → ℕ → Option Warning → Type 0
IsFor nodes total none = Unit {0}
IsFor nodes total (some w) =
    (i : ℕ) × IsDestination nodes total i
    × (w.dest_node ≡ until_nul (nodes i).id)
    × (w.city ≡ until_nul (nodes i).id)
    × (w.kind < 4)

abbrev pub AllFor : Nodes → ℕ → List (Option Warning) → Type 0
AllFor nodes total [] = Unit {0}
AllFor nodes total (w ∷ ws) = IsFor nodes total w × AllFor nodes total ws

module _ (double_bits : ℕ → ℕ) (closes : Bool) (nodes : Nodes) (total : ℕ) where
  created-IsFor :
      (alloc : WarningAlloc) (i k v t : ℕ)
      → IsDestination nodes total i
      → k < 4
      → IsFor nodes total (warning_create alloc (nodes i).id k v t (nodes i).id)
  unfolding warning_create
  created-IsFor alloc i k v t d lt = elim (Bool-cases alloc.struct_block) [
    | inr a ↦ rw a tt
    | inl a ↦ elim (Bool-cases alloc.city_copy) [
      | inr b ↦ rw (a, b) tt
      | inl b ↦ elim (Bool-cases alloc.dest_copy) [
        | inr c ↦ rw (a, b, c) tt
        | inl c ↦ rw (a, b, c) (i, d, refl, refl, lt)
      ]
    ]
  ]

  entry_if-AllFor :
      (node : Bool) (w : Option Warning) (ws : List (Option Warning))
      → IsFor nodes total w
      → AllFor nodes total ws
      → AllFor nodes total (entry_if node w ws)
  entry_if-AllFor true w ws h all = (h, all)
  entry_if-AllFor false w ws h all = all

  generate-AllFor :
      (dests : List ℕ)
      → All (IsDestination nodes total) dests
      → 0 < length dests
      → (draws : List Draw) (counter : ℕ)
      → AllFor nodes total (generate double_bits closes nodes dests draws counter)
  unfolding generate draw_warning
  generate-AllFor dests ok pos [] counter = entry_if-AllFor closes none [] tt tt
  generate-AllFor dests ok pos (d ∷ ds) counter =
      elim (Bool-cases (ltb counter number_of_warnings)) [
        | inr over ↦ rw over (entry_if-AllFor closes none [] tt tt)
        | inl more ↦
            let k = d.node % length dests in
            let in_range : k < length dests = omega arith in
            rw more (
              entry_if-AllFor d.enqueued _ _
                (created-IsFor d.alloc (drawn_node double_bits closes nodes dests d) (d.kind % 4) _
                  _ (All-get_or (IsDestination nodes total) dests k ok in_range) (omega arith))
                (generate-AllFor dests ok pos ds _))
      ]

  -- Every warning that the generator puts into the queue is for a destination of the file, by that
  -- node's id, with a kind that the enumeration has, whatever is drawn and allocated, and whichever enqueues
  -- fail.
  pub data_generator-AllFor :
      (draws : List Draw)
      → AllFor nodes total (data_generator_thread double_bits closes nodes total draws)
  unfolding data_generator_thread
  data_generator-AllFor draws = go (destinations nodes total) (destinations_lem nodes total)
    where
      go :
          (dests : List ℕ)
          → All (IsDestination nodes total) dests
          → AllFor nodes total
              (elim dests [ [] ↦ [] | d ∷ ds ↦ generate double_bits closes nodes (d ∷ ds) draws 0 ])
      go [] a = tt
      go (d ∷ ds) a = generate-AllFor (d ∷ ds) a (omega arith) draws 0
