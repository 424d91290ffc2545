-- ===== src/Source/Signals.antt =====
-- The signals at the end of DataSource/main.c.
use ikp_data_propagator.Prelude.{
  ℕ, zero, suc, ◌+◌, ◌<◌, ◌≤◌, ◌≡◌, ◌≢◌, refl, ap, sym, ◌∙◌, Bool, true, false, ◌&&◌, not, some,
  List, [], ◌∷◌, take, drop, get_or, if◌then◌else◌, is_some, arith, Bool-cases, inl, inr,
  ℕ_discrete, length, length-take,
}
use ikp_data_propagator.Text.{Text, eq_string, eq_string_refl, eq_of_eq_string, eq_string-false}
use ikp_data_propagator.Node.{NodeType, NodeInfo}
use ikp_data_propagator.Node.Link.{Nodes}
use ikp_data_propagator.Endpoints.{is_destination}
use ikp_data_propagator.Launcher.{is_propagator}
use ikp_data_propagator.Source.{
  Events, dd_event_name, cp_event_name, signal_event, signal_from, signal_all,
}

signal_event-is_some :
    (name x : Text) (events : Events) → is_some (signal_event name events x) ≡ is_some (events x)
signal_event-is_some name x events = elim (Bool-cases (eq_string x name)) [
  | inl e ↦ elim (Bool-cases (is_some (events name))) [
    | inl s ↦ rw (e, s) (sym s ∙ ap (λ n. is_some (events n)) (sym (eq_of_eq_string x name e)))
    | inr s ↦ rw (e, s) refl
  ]
  | inr e ↦ rw e refl
]

signal_event-set :
    (name x : Text) (events : Events)
    → events x ≡ some true
    → signal_event name events x ≡ some true
signal_event-set name x events set = elim (Bool-cases (eq_string x name && is_some (events name))) [
  | inl e ↦ rw e refl
  | inr e ↦ rw e set
]

signal_event_self :
    (x : Text) (events : Events) → is_some (events x) ≡ true → signal_event x events x ≡ some true
signal_event_self x events s = rw (eq_string_refl x, s) refl

signal_event-other :
    (name x : Text) (events : Events) → x ≢ name → signal_event name events x ≡ events x
signal_event-other name x events ne = rw (eq_string-false x name ne) refl

module _ (wanted : NodeType → Bool) (name : Text → Text) (nodes : Nodes) where
  -- What one round makes of the events.
  abbrev round : ℕ → Events → Events
  round i events = if wanted (nodes i).kind then signal_event (name (nodes i).id) events else events

  round-is_some :
      (i : ℕ) (x : Text) (events : Events) → is_some (round i events x) ≡ is_some (events x)
  round-is_some i x events = elim (Bool-cases (wanted (nodes i).kind)) [
    | inl e ↦ rw e (signal_event-is_some (name (nodes i).id) x events)
    | inr e ↦ rw e refl
  ]

  round-set :
      (i : ℕ) (x : Text) (events : Events) → events x ≡ some true → round i events x ≡ some true
  round-set i x events set = elim (Bool-cases (wanted (nodes i).kind)) [
    | inl e ↦ rw e (signal_event-set (name (nodes i).id) x events set)
    | inr e ↦ rw e set
  ]

  signal_from-is_some :
      (left i : ℕ) (x : Text) (events : Events)
      → is_some (signal_from wanted name nodes left i events x) ≡ is_some (events x)
  unfolding signal_from
  signal_from-is_some zero i x events = refl
  signal_from-is_some (suc left) i x events =
      signal_from-is_some left (suc i) x (round i events) ∙ round-is_some i x events

  signal_from-set :
      (left i : ℕ) (x : Text) (events : Events)
      → events x ≡ some true
      → signal_from wanted name nodes left i events x ≡ some true
  unfolding signal_from
  signal_from-set zero i x events set = set
  signal_from-set (suc left) i x events set =
      signal_from-set left (suc i) x (round i events) (round-set i x events set)

  signal_from-other :
      (left i : ℕ) (x : Text) (events : Events)
      → ((j : ℕ) → j < i + left → wanted (nodes j).kind ≡ true → x ≢ name (nodes j).id)
      → signal_from wanted name nodes left i events x ≡ events x
  unfolding signal_from
  signal_from-other zero i x events others = refl
  signal_from-other (suc left) i x events others =
      signal_from-other left (suc i) x (round i events) (λ j lt. others j (omega arith))
      ∙ elim (Bool-cases (wanted (nodes i).kind)) [
        | inl e ↦ rw e (signal_event-other (name (nodes i).id) x events (others i (omega arith) e))
        | inr e ↦ rw e refl
      ]

  signal_from-reaches :
      (left i k : ℕ) (events : Events)
      → i ≤ k
      → k < i + left
      → wanted (nodes k).kind ≡ true
      → is_some (events (name (nodes k).id)) ≡ true
      → signal_from wanted name nodes left i events (name (nodes k).id) ≡ some true
  unfolding signal_from
  signal_from-reaches zero i k events le lt w there = absurd (omega arith)
  signal_from-reaches (suc left) i k events le lt w there = elim (ℕ_discrete i k) [
    | yes e ↦ signal_from-set left (suc i) (name (nodes k).id) (round i events) (
        ap (λ j. round j events (name (nodes k).id)) e
        ∙ rw w (signal_event_self (name (nodes k).id) events there))
    | no ne ↦
        signal_from-reaches left (suc i) k (round i events) (omega arith) (omega arith) w
          (round-is_some i (name (nodes k).id) events ∙ there)
  ]

false_of_not : (b : Bool) → not b ≡ true → b ≡ false
false_of_not true e = cc
false_of_not false e = refl

-- The event that the process of a node waits for.
abbrev pub exit_name : NodeInfo → Text
exit_name n = if is_destination n.kind then dd_event_name n.id else cp_event_name n.id

exit_name-dd : (n : NodeInfo) → is_destination n.kind ≡ true → exit_name n ≡ dd_event_name n.id
exit_name-dd n e = rw e refl

exit_name-cp : (n : NodeInfo) → is_destination n.kind ≡ false → exit_name n ≡ cp_event_name n.id
exit_name-cp n e = rw e refl

module _ (nodes : Nodes) (n : ℕ) (events : Events) where
  abbrev by_dd : Events
  by_dd = signal_from is_destination dd_event_name nodes n 0 events

  signals_reach :
      (i : ℕ)
      → i < n
      → is_some (events (exit_name (nodes i))) ≡ true
      → signal_all nodes n events (exit_name (nodes i)) ≡ some true
  unfolding signal_all
  signals_reach i lt there = elim (Bool-cases (is_destination (nodes i).kind)) [
    | inl e ↦
        let x = dd_event_name (nodes i).id in
        let name = exit_name-dd (nodes i) e in
        let reached =
          signal_from-reaches is_destination dd_event_name nodes n 0 i events (omega arith)
            (omega arith) e (ap (λ x. is_some (events x)) (sym name) ∙ there) in
        ap (signal_all nodes n events) name
        ∙ signal_from-set is_propagator cp_event_name nodes n 0 x by_dd reached
    | inr e ↦
        let x = cp_event_name (nodes i).id in
        let name = exit_name-cp (nodes i) e in
        let here =
          signal_from-is_some is_destination dd_event_name nodes n 0 x events
          ∙ ap (λ x. is_some (events x)) (sym name)
          ∙ there in
        ap (signal_all nodes n events) name
        ∙ signal_from-reaches is_propagator cp_event_name nodes n 0 i by_dd (omega arith)
            (omega arith) (rw e refl) here
  ]

  -- The two loops set the event of every node's process that has created it, and they change no
  -- event but those of the nodes.
  pub signal_all_lem :
      ((i : ℕ)
        → i < n
        → is_some (events (exit_name (nodes i))) ≡ true
        → signal_all nodes n events (exit_name (nodes i)) ≡ some true)
      × ((x : Text)
          → ((i : ℕ) → i < n → x ≢ exit_name (nodes i))
          → signal_all nodes n events x ≡ events x)
  unfolding signal_all
  signal_all_lem = (
    signals_reach,
    λ x others.
        signal_from-other is_propagator cp_event_name nodes n 0 x by_dd (λ j lt w e.
          others j (omega arith)
            (e ∙ sym (exit_name-cp (nodes j) (false_of_not (is_destination (nodes j).kind) w))))
        ∙ signal_from-other is_destination dd_event_name nodes n 0 x events
            (λ j lt w e. others j (omega arith) (e ∙ sym (exit_name-dd (nodes j) w))),
  )

module _ {ℓ} {A : Type ℓ} where
  take_whole : (k : ℕ) (xs : List A) → length xs ≤ k → take k xs ≡ xs
  take_whole zero [] le = refl
  take_whole zero (x ∷ xs) le = absurd (omega arith)
  take_whole (suc k) [] le = refl
  take_whole (suc k) (x ∷ xs) le = ap (λ l. x ∷ l) (take_whole k xs (omega arith))

abbrev name_of : Bool → Text → Text
name_of b id = if b then dd_event_name id else cp_event_name id

ids_equal : (s t : Text) → length s ≤ 112 → length t ≤ 112 → take 112 s ≡ take 112 t → s ≡ t
ids_equal s t ls lt e = sym (take_whole 112 s ls) ∙ e ∙ take_whole 112 t lt

name_of-injective :
    (b c : Bool) (s t : Text)
    → length s ≤ 112
    → length t ≤ 112
    → name_of b s ≡ name_of c t
    → (s ≡ t) × (b ≡ c)
name_of-injective true true s t ls lt e = (ids_equal s t ls lt (ap (drop 15) e), refl)
name_of-injective false false s t ls lt e = (ids_equal s t ls lt (ap (drop 15) e), refl)
name_of-injective true false s t ls lt e =
    let apart : ◌≡◌ {A = ℕ} 68 67 = ap (λ l. get_or l 7 0) e in absurd (omega arith)
name_of-injective false true s t ls lt e =
    let apart : ◌≡◌ {A = ℕ} 67 68 = ap (λ l. get_or l 7 0) e in absurd (omega arith)

length-name_of : (b : Bool) (s : Text) → length (name_of b s) ≤ 127
length-name_of true s = omega (arith, length-take 112 s)
length-name_of false s = omega (arith, length-take 112 s)

-- The name of an event has 127 bytes at most, and nodes whose ids have 112 bytes at most have
-- the same event only where their ids are equal and both or none of them are destinations.
pub exit_name_lem :
    (m k : NodeInfo)
    → length m.id ≤ 112
    → length k.id ≤ 112
    → (length (exit_name m) ≤ 127)
      × (exit_name m ≡ exit_name k
          → (m.id ≡ k.id) × (is_destination m.kind ≡ is_destination k.kind))
exit_name_lem m k lm lk = (
  length-name_of (is_destination m.kind) m.id,
  name_of-injective (is_destination m.kind) (is_destination k.kind) m.id k.id lm lk,
)
