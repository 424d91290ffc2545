-- ===== src/Launcher/Balance.antt =====
-- Both launches of DataSource/cp_launcher.c and its end close what they open.
use mathlib.Core.Option.{get_or}
use mathlib.Core.List.{append-nil}
use ikp_data_propagator.Prelude.{
  ℕ, ◌≡◌, refl, ◌∙◌, false, Option, none, some, List, [], ◌++◌, is_some, count, count-append, arith,
  Bool-cases, inl, inr,
}
use ikp_data_propagator.Text.{Text}
use ikp_data_propagator.Text.Format.{bytes}
use ikp_data_propagator.Node.Link.{Nodes}
use ikp_data_propagator.Endpoints.{is_destination}
use ikp_data_propagator.Handles.{Handles}
use ikp_data_propagator.Launcher.{
  Process, Launcher, Windows, Launched, create_job_object, ensure_job, is_propagator, exe_path,
  cp_launch_all, dd_launch_all, cp_terminate_all,
}
use ikp_data_propagator.Launcher.Held.{
  Holds, handles_of, job_handles, held, launch_all-Holds, terminate-Holds,
}

created-Holds :
    (rest : ℕ → ℕ) (win : Windows) (s : Launcher)
    → s.job ≡ none
    → Holds rest (held s) s.handles
    → Holds rest (held (create_job_object win s).1) (create_job_object win s).1.handles
unfolding count
created-Holds rest win s none_yet holds = elim (Bool-cases win.job_created) [
  | inl e ↦ rw e (let before = rw none_yet at holds in λ h. omega (arith, before h))
  | inr e ↦ rw e (rw none_yet at holds)
]

created_globals :
    (win : Windows) (s : Launcher)
    → ((create_job_object win s).1.cp_procs ≡ s.cp_procs)
      × ((create_job_object win s).1.dd_procs ≡ s.dd_procs)
created_globals win s = elim (Bool-cases win.job_created) [
  | inl e ↦ rw e (refl, refl)
  | inr e ↦ rw e (refl, refl)
]

-- A list of handles goes where the globals had none.
into_first :
    (rest : ℕ → ℕ) (new job dds : List ℕ) (cps : Option (List Process)) (w : Handles)
    → cps ≡ none
    → Holds rest (new ++ (job ++ (handles_of (get_or cps []) ++ dds))) w
    → Holds rest (job ++ (new ++ dds)) w
into_first rest new job dds cps w e holds =
    let before = rw e at holds in
    λ h. omega (
      arith,
      before h,
      count-append h new (job ++ dds),
      count-append h job dds,
      count-append h job (new ++ dds),
      count-append h new dds,
    )

into_second :
    (rest : ℕ → ℕ) (new job cps : List ℕ) (dds : Option (List Process)) (w : Handles)
    → dds ≡ none
    → Holds rest (new ++ (job ++ (cps ++ handles_of (get_or dds [])))) w
    → Holds rest (job ++ (cps ++ new)) w
into_second rest new job cps dds w e holds =
    let before : Holds rest (new ++ (job ++ cps)) w = rw (e, append-nil) at holds in
    λ h. omega (
      arith,
      before h,
      count-append h new (job ++ cps),
      count-append h job cps,
      count-append h job (cps ++ new),
      count-append h cps new,
    )

-- What is known of the globals at the start of `cp_launch_all`, and of `dd_launch_all`.
abbrev pub CpReady : (ℕ → ℕ) → Launcher → Type 0
CpReady rest s =
    (s.job ≡ none) × (s.cp_procs ≡ none) × (s.dd_procs ≡ none) × Holds rest (held s) s.handles

abbrev pub DdReady : (ℕ → ℕ) → Launcher → Type 0
DdReady rest s = (s.dd_procs ≡ none) × Holds rest (held s) s.handles

pub cp_launch_all-Holds :
    (rest : ℕ → ℕ) (win : Windows) (path : Text) (nodes : Nodes) (n : ℕ) (s : Launcher)
    → CpReady rest s
    → (l : Launched) × (cp_launch_all win path nodes n s ≡ some l) × DdReady rest l.state
unfolding cp_launch_all
cp_launch_all-Holds rest win path nodes n s (no_job, no_cps, no_dds, holds) =
    let s₁ = (create_job_object win s).1 in
    let made = created-Holds rest win s no_job holds in
    let (same_cps, same_dds) = created_globals win s in
    let dds = same_dds ∙ no_dds in
    elim (Bool-cases (create_job_object win s).0) [
      | inr e ↦ (record { procs = none; count = none; state = s₁ }, rw e refl, (dds, made))
      | inl e ↦ rw e (
          launch_all-Holds rest win is_propagator (exe_path path (bytes "CentralPropagator.exe"))
            (λ ps s. record s { cp_procs = some ps }) nodes n s₁ (DdReady rest) (dds, made)
            (λ ps w after. (
              dds,
              into_first rest (handles_of ps) (job_handles s₁.job)
                  (handles_of (get_or s₁.dd_procs [])) s₁.cp_procs w (same_cps ∙ no_cps) after,
            ))
            (λ w t after. (dds, after)) made)
    ]

is_some-none : (j : Option ℕ) → is_some j ≡ false → j ≡ none
is_some-none none e = refl
is_some-none (some j) e = cc

ensure_job-DdReady :
    (rest : ℕ → ℕ) (win : Windows) (s : Launcher)
    → DdReady rest s
    → DdReady rest (ensure_job win s).1
ensure_job-DdReady rest win s (no_dds, holds) = elim (Bool-cases (is_some s.job)) [
  | inl e ↦ rw e (no_dds, holds)
  | inr e ↦
      rw e
        ((created_globals win s).1 ∙ no_dds, created-Holds rest win s (is_some-none s.job e) holds)
]

pub dd_launch_all-Holds :
    (rest : ℕ → ℕ) (win : Windows) (path : Text) (nodes : Nodes) (n : ℕ) (s : Launcher)
    → DdReady rest s
    → (l : Launched) × (dd_launch_all win path nodes n s ≡ some l)
      × Holds rest (held l.state) l.state.handles
unfolding dd_launch_all
dd_launch_all-Holds rest win path nodes n s ready =
    let s₁ = (ensure_job win s).1 in
    let (no_dds, holds) = ensure_job-DdReady rest win s ready in
    elim (Bool-cases (ensure_job win s).0) [
      | inr e ↦ (record { procs = none; count = none; state = s₁ }, rw e refl, holds)
      | inl e ↦ rw e (
          launch_all-Holds rest win is_destination (exe_path path (bytes "DataDestination.exe"))
            (λ ps s. record s { dd_procs = some ps }) nodes n s₁
            (λ s. Holds rest (held s) s.handles) holds
            (λ ps w.
              into_second rest (handles_of ps) (job_handles s₁.job)
                (handles_of (get_or s₁.cp_procs [])) s₁.dd_procs w no_dds)
            (λ w t after. after) holds)
    ]

-- Whatever Windows does in the calls, both launches and the end run through without closing a
-- handle that is not open, and the same handles are open behind them as before, whatever was open.
pub launcher_lem :
    (cp_win dd_win : Windows) (path : Text) (nodes : Nodes) (n : ℕ) (w : Handles)
    (terminated : List ℕ)
    → (cps : Launched) × (dds : Launched) × (s : Launcher) × (cp_launch_all cp_win path nodes n
          (record {
            handles = w;
            job = none;
            cp_procs = none;
            dd_procs = none;
            terminated = terminated;
          })
        ≡ some cps)
      × (dd_launch_all dd_win path nodes n cps.state ≡ some dds)
      × (cp_terminate_all dds.state ≡ some s)
      × ((h : ℕ) → s.handles.opened h ≡ w.opened h)
unfolding count
launcher_lem cp_win dd_win path nodes n w terminated =
    let s₀ : Launcher = record {
      handles = w;
      job = none;
      cp_procs = none;
      dd_procs = none;
      terminated = terminated;
    } in
    let (cps, e₁, ready) =
      cp_launch_all-Holds w.opened cp_win path nodes n s₀ (refl, refl, refl, λ h. omega arith) in
    let (dds, e₂, holds) = dd_launch_all-Holds w.opened dd_win path nodes n cps.state ready in
    let (s, e₃, after, _) = terminate-Holds w.opened dds.state holds in
    (cps, dds, s, e₁, e₂, e₃, λ h. omega (arith, after h))
