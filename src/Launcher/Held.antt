-- ===== src/Launcher/Held.antt =====
-- The handles of DataSource/cp_launcher.c.
use mathlib.Core.Option.{bind, get_or}
use mathlib.Core.Path.{subst}
use mathlib.Core.List.{append-nil}
use ikp_data_propagator.Prelude.{
  ℕ, zero, suc, ◌+◌, ◌≡◌, refl, sym, Bool, Option, none, some, List, [], ◌∷◌, ◌++◌, map, ◌==◌,
  count, count-append, arith, Bool-cases, inl, inr, ==_self,
}
use ikp_data_propagator.Text.{Text}
use ikp_data_propagator.Node.{NodeType}
use ikp_data_propagator.Node.Link.{Nodes}
use ikp_data_propagator.Handles.{Handles, open_handle, close_handle, close_handle_lem}
use ikp_data_propagator.Launcher.{
  Process, Launcher, Windows, Launched, eligible, command_line, create_process, launch_from,
  close_all, close_job, undo, launch_all, cp_terminate_all,
}

-- The handles that are open are `rest` and those of a list.
abbrev pub Holds : (ℕ → ℕ) → List ℕ → Handles → Type 0
Holds rest hs w = (h : ℕ) → w.opened h ≡ rest h + count h hs

abbrev pub handles_of : List Process → List ℕ
handles_of [] = []
handles_of (p ∷ ps) = p.thread ∷ p.process ∷ handles_of ps

abbrev pub job_handles : Option ℕ → List ℕ
job_handles none = []
job_handles (some j) = j ∷ []

-- The handles in the globals.
abbrev pub held : Launcher → List ℕ
held s =
    job_handles s.job ++ (handles_of (get_or s.cp_procs []) ++ handles_of (get_or s.dd_procs []))

pub close_handle-Holds :
    (rest : ℕ → ℕ) (k : ℕ) (hs : List ℕ) (w : Handles)
    → Holds rest (k ∷ hs) w
    → (w' : Handles) × (close_handle k w ≡ some w') × Holds rest hs w'
unfolding count
close_handle-Holds rest k hs w holds =
    let (w', e, closes) = close_handle_lem k w (let at_k = holds k in ground (arith, ==_self k)) in
    (w', e, λ h. omega (arith, holds h, closes h))

close_all-Holds :
    (rest : ℕ → ℕ) (ps : List Process) (hs : List ℕ) (w : Handles)
    → Holds rest (handles_of ps ++ hs) w
    → (w' : Handles) × (close_all ps w ≡ some w') × Holds rest hs w'
unfolding close_all bind
close_all-Holds rest [] hs w holds = (w, refl, holds)
close_all-Holds rest (p ∷ ps) hs w holds =
    let (w₁, e₁, holds₁) =
      close_handle-Holds rest p.thread (p.process ∷ handles_of ps ++ hs) w holds in
    let (w₂, e₂, holds₂) = close_handle-Holds rest p.process (handles_of ps ++ hs) w₁ holds₁ in
    let (w₃, e₃, holds₃) = close_all-Holds rest ps hs w₂ holds₂ in (w₃, rw (e₁, e₂) e₃, holds₃)

close_job-Holds :
    (rest : ℕ → ℕ) (j : Option ℕ) (hs : List ℕ) (w : Handles)
    → Holds rest (job_handles j ++ hs) w
    → (w' : Handles) × (close_job j w ≡ some w') × Holds rest hs w'
close_job-Holds rest none hs w holds = (w, refl, holds)
close_job-Holds rest (some j) hs w holds = close_handle-Holds rest j hs w holds

launch_from-Holds :
    (started : ℕ → Bool) (wanted : NodeType → Bool) (exe : Text) (nodes : Nodes) (left i : ℕ)
    (w : Handles) (rest : ℕ → ℕ) (hs : List ℕ)
    → Holds rest hs w
    → Holds rest
        (handles_of (launch_from started wanted exe nodes left i w).0 ++ hs)
        (launch_from started wanted exe nodes left i w).1
unfolding launch_from count
launch_from-Holds started wanted exe nodes zero i w rest hs holds = holds
launch_from-Holds started wanted exe nodes (suc left) i w rest hs holds =
    elim (Bool-cases (wanted (nodes i).kind)) [
      | inl e ↦ elim (Bool-cases (started i)) [
        | inl s ↦
            let p = (create_process (command_line exe (nodes i)) w).0 in
            let w' = open_handle (open_handle w) in
            let opened : Holds rest (p.thread ∷ p.process ∷ hs) w' = λ h. omega (arith, holds h) in
            let ps = handles_of (launch_from started wanted exe nodes left (suc i) w').0 in
            let after =
              launch_from-Holds started wanted exe nodes left (suc i) w' rest
                (p.thread ∷ p.process ∷ hs) opened in
            rw (e, s)
              (λ h. omega (
                arith,
                after h,
                count-append h ps (p.thread ∷ p.process ∷ hs),
                count-append h ps hs,
              ))
        | inr s ↦ rw (e, s) holds
      ]
      | inr e ↦ rw e (launch_from-Holds started wanted exe nodes left (suc i) w rest hs holds)
    ]

-- `cp_terminate_all` closes every handle in the globals, each once.
pub terminate-Holds :
    (rest : ℕ → ℕ) (s : Launcher)
    → Holds rest (held s) s.handles
    → (s' : Launcher) × (cp_terminate_all s ≡ some s') × Holds rest [] s'.handles × (held s' ≡ [])
unfolding cp_terminate_all bind
terminate-Holds rest s holds =
    let cps = handles_of (get_or s.cp_procs []) in
    let dds = handles_of (get_or s.dd_procs []) in
    let (w₁, e₁, holds₁) = close_job-Holds rest s.job (cps ++ dds) s.handles holds in
    let (w₂, e₂, holds₂) = close_all-Holds rest (get_or s.cp_procs []) dds w₁ holds₁ in
    let (w₃, e₃, holds₃) =
      close_all-Holds rest (get_or s.dd_procs []) [] w₂ (rw append-nil holds₂) in
    (
      record s { handles = w₃; job = none; cp_procs = none; dd_procs = none },
      rw (e₁, e₂, e₃) refl,
      holds₃,
      refl,
    )

undo-Holds :
    (rest : ℕ → ℕ) (ps : List Process) (s : Launcher)
    → Holds rest (handles_of ps ++ held s) s.handles
    → (s' : Launcher) × (undo ps s ≡ some s')
      × (w : Handles) × Holds rest
          (handles_of (get_or s.cp_procs []) ++ handles_of (get_or s.dd_procs []))
          w
      × (s' ≡ record s {
        handles = w;
        job = none;
        terminated = map (λ p. p.process) ps ++ s.terminated;
      })
unfolding undo bind
undo-Holds rest ps s holds =
    let others = handles_of (get_or s.cp_procs []) ++ handles_of (get_or s.dd_procs []) in
    let (w₁, e₁, holds₁) = close_all-Holds rest ps (held s) s.handles holds in
    let (w₂, e₂, holds₂) = close_job-Holds rest s.job others w₁ holds₁ in
    (
      record s { handles = w₂; job = none; terminated = map (λ p. p.process) ps ++ s.terminated },
      rw (e₁, e₂) refl,
      w₂,
      holds₂,
      refl,
    )

-- What holds of the globals before a launch and after each of its outcomes.
module _ (rest : ℕ → ℕ) (win : Windows) (wanted : NodeType → Bool) (exe : Text)
    (keep : List Process → Launcher → Launcher) (nodes : Nodes) (n : ℕ) (s : Launcher)
    (P : Launcher → Type 0) (stays : P s)
    (keeps : (ps : List Process) (w : Handles)
      → Holds rest (handles_of ps ++ held s) w
      → P (keep ps (record s { handles = w })))
    (undone : (w : Handles) (t : List ℕ)
      → Holds rest (handles_of (get_or s.cp_procs []) ++ handles_of (get_or s.dd_procs [])) w
      → P (record s { handles = w; job = none; terminated = t }))
    (holds : Holds rest (held s) s.handles) where
  pub launch_all-Holds :
      (l : Launched) × (launch_all win wanted exe keep nodes n s ≡ some l) × P l.state
  unfolding launch_all bind
  launch_all-Holds =
      let r = launch_from win.started wanted exe nodes n 0 s.handles in
      let total = eligible wanted nodes n in
      let all = launch_from-Holds win.started wanted exe nodes n 0 s.handles rest (held s) holds in
      let (s', e, w, after, is) = undo-Holds rest r.0 (record s { handles = r.1 }) all in
      elim (Bool-cases (total == 0)) [
        | inl z ↦ (record { procs = none; count = some 0; state = s }, rw z refl, stays)
        | inr z ↦ elim (Bool-cases win.array_given) [
          | inr g ↦ (record { procs = none; count = none; state = s }, rw (z, g) refl, stays)
          | inl g ↦ elim (Bool-cases r.2) [
            | inl ok ↦ (
              record {
                procs = some r.0;
                count = some total;
                state = keep r.0 (record s { handles = r.1 });
              },
              rw (z, g, ok) refl,
              keeps r.0 r.1 all,
            )
            | inr ok ↦ (
              record { procs = none; count = some 0; state = s' },
              rw (z, g, ok, e) refl,
              subst P (sym is) (undone w (map (λ p. p.process) r.0 ++ s.terminated) after),
            )
          ]
        ]
      ]
