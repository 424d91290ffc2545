-- ===== src/Source/Closing.antt =====
-- `gracefully_close_all` in DataSource/main.c.
use mathlib.Core.Option.{bind}
use ikp_data_propagator.Prelude.{
  ℕ, zero, suc, ◌+◌, ◌≡◌, refl, ◌∙◌, Bool, true, false, not, Option, none, some, List, [], ◌∷◌,
  ◌++◌, if◌then◌else◌, is_some, arith, Bool-cases, inl, inr, length, ◌==◌, get_elem?, drop, count,
  count-append, Option-cases,
}
use ikp_data_propagator.Launcher.{Process}
use ikp_data_propagator.Source.{Window, send_wm_close, EnumWindows, close_process, gracefully_close}

-- What `EnumWindows` is documented to do: it calls its argument on the windows in turn until it
-- gives FALSE, and gives FALSE itself where it did.
unfoldable pub enumerate : List Window → EnumWindows
enumerate [] call st = (true, st)
enumerate (v ∷ ws) call st =
    let (go_on, st') = call v st in
    let rest = enumerate ws call st' in if go_on then rest else (false, st')

abbrev pub IsEnumeration : List Window → EnumWindows → Type 0
IsEnumeration ws enum =
    (call : Window → List ℕ → Bool × List ℕ) (st : List ℕ) → enum call st ≡ enumerate ws call st

-- The first window of a process.
unfoldable pub first_window : ℕ → List Window → Option ℕ
first_window pid [] = none
first_window pid (v ∷ ws) =
    let rest = first_window pid ws in if v.owner == pid then some v.handle else rest

abbrev pub consed : Option ℕ → List ℕ → List ℕ
consed none xs = xs
consed (some x) xs = x ∷ xs

enumerate-first :
    (pid : ℕ) (ws : List Window) (posted : List ℕ)
    → enumerate ws (send_wm_close pid) posted
      ≡ (not (is_some (first_window pid ws)), consed (first_window pid ws) posted)
unfolding enumerate first_window
enumerate-first pid [] posted = refl
enumerate-first pid (v ∷ ws) posted = elim (Bool-cases (v.owner == pid)) [
  | inl e ↦ rw e refl
  | inr e ↦ rw e (enumerate-first pid ws posted)
]

-- An entry of an array, and the entries behind it.
pub array_step :
    (all ps : List Process) (p : Process) (i : ℕ)
    → drop i all ≡ p ∷ ps
    → (get_elem? all i ≡ some p) × (drop (suc i) all ≡ ps)
array_step [] ps p zero e = cc
array_step [] ps p (suc i) e = cc
array_step (x ∷ xs) ps p zero e = (cc, cc)
array_step (x ∷ xs) ps p (suc i) e = array_step xs ps p i e

module _ (pid_of : Process → ℕ) (ws : List Window) where
  -- The processes that have a window, and the first window of each.
  unfoldable pub with_windows : List Process → List ℕ
  with_windows [] = []
  with_windows (p ∷ ps) =
      (if is_some (first_window (pid_of p) ws) then p.process ∷ [] else []) ++ with_windows ps

  unfoldable pub first_windows : List Process → List ℕ
  first_windows [] = []
  first_windows (p ∷ ps) = consed (first_window (pid_of p) ws) [] ++ first_windows ps

  module _ (enum : EnumWindows) (is : IsEnumeration ws enum) where
    -- What is posted, or terminated, is what was before and what a list has.
    abbrev Adds : List ℕ → List ℕ → List ℕ → Type 0
    Adds xs before after = (h : ℕ) → count h after ≡ count h before + count h xs

    close_process-Adds :
        (p : Process) (posted terminated : List ℕ)
        → Adds
            (consed (first_window (pid_of p) ws) [])
            posted
            (close_process enum pid_of p (posted, terminated)).0
          × Adds
              (if is_some (first_window (pid_of p) ws) then p.process ∷ [] else [])
              terminated
              (close_process enum pid_of p (posted, terminated)).1
    unfolding count
    close_process-Adds p posted terminated =
        let e = is (send_wm_close (pid_of p)) posted ∙ enumerate-first (pid_of p) ws posted in
        elim (Option-cases (first_window (pid_of p) ws)) [
          | inl none_has ↦ rw (e, none_has) (λ h. omega arith, λ h. omega arith)
          | inr (v, has) ↦ rw (e, has) (λ h. omega arith, λ h. omega arith)
        ]

    gracefully_close-Adds :
        (all ps : List Process) (i : ℕ) (posted terminated : List ℕ)
        → drop i all ≡ ps
        → (sent : List ℕ × List ℕ) × (gracefully_close enum pid_of
              (some all)
              (length ps)
              i
              (posted, terminated)
            ≡ some sent)
          × Adds (first_windows ps) posted sent.0
          × Adds (with_windows ps) terminated sent.1
    unfolding gracefully_close count first_windows with_windows bind
    gracefully_close-Adds all [] i posted terminated e =
        ((posted, terminated), refl, λ h. omega arith, λ h. omega arith)
    gracefully_close-Adds all (p ∷ ps) i posted terminated e =
        let (here, behind) = array_step all ps p i e in
        let one = close_process enum pid_of p (posted, terminated) in
        let (posts, ends) = close_process-Adds p posted terminated in
        let (sent, e', posted', terminated') =
          gracefully_close-Adds all ps (suc i) one.0 one.1 behind in
        (
          sent,
          rw here e',
          λ h. omega (
            arith,
            posts h,
            posted' h,
            count-append h (consed (first_window (pid_of p) ws) []) (first_windows ps),
          ),
          λ h. omega (
            arith,
            ends h,
            terminated' h,
            count-append h (if is_some (first_window (pid_of p) ws) then p.process ∷ [] else [])
                (with_windows ps),
          ),
        )

    -- Where `EnumWindows` is as documented, the loop posts `WM_CLOSE` to the first window of every
    -- process that has one, once, and terminates just these processes: one that has no window is
    -- neither told to close nor terminated.
    pub gracefully_close_lem :
        (ps : List Process) (posted terminated : List ℕ)
        → (sent : List ℕ × List ℕ) × (gracefully_close enum pid_of
              (some ps)
              (length ps)
              0
              (posted, terminated)
            ≡ some sent)
          × ((h : ℕ) → count h sent.0 ≡ count h posted + count h (first_windows ps))
          × ((h : ℕ) → count h sent.1 ≡ count h terminated + count h (with_windows ps))
    gracefully_close_lem ps posted terminated = gracefully_close-Adds ps ps 0 posted terminated refl
