-- ===== src/Launcher/Report.antt =====
-- What the launches of DataSource/cp_launcher.c start, and what they tell DataSource/main.c.
use mathlib.Core.Option.{bind, some-injective}
use mathlib.Core.Path.{subst}
use ikp_data_propagator.Prelude.{
  ℕ, ◌≡◌, refl, ap, sym, ◌∙◌, Bool, true, false, Option, none, some, List, [], ◌∷◌, map, ◌==◌,
  arith, Bool-cases, inl, inr, Option-cases, is_some, length,
}
use ikp_data_propagator.Text.{Text}
use ikp_data_propagator.Text.Format.{bytes}
use ikp_data_propagator.Node.{NodeType}
use ikp_data_propagator.Node.Link.{Nodes}
use ikp_data_propagator.Endpoints.{is_destination, destinations}
use ikp_data_propagator.Handles.{Handles}
use ikp_data_propagator.Launcher.{
  Process, Launcher, Windows, Launched, create_job_object, ensure_job, eligible, command_line,
  launch_from, undo, launch_all, is_propagator, exe_path, cp_launch_all, dd_launch_all,
}
use ikp_data_propagator.Launcher.Balance.{launcher_lem}
use ikp_data_propagator.Launcher.Chosen.{
  chosen, chosen_from-chosen, length-chosen, launch_from-chosen, launch_from-all,
  chosen-destinations,
}

-- Every call of a launch succeeds.
pub record AllSucceed (win : Windows) : Type 0 where
  pub created : win.job_created ≡ true
  pub limited : win.job_limited ≡ true
  pub given : win.array_given ≡ true
  pub started : (i : ℕ) → win.started i ≡ true

-- What a launch gives back, where the nodes `js` are to be started: a process for each of them, or
-- no array, and then never a positive count.
abbrev pub Reports : Windows → Text → Nodes → List ℕ → Option (List Process) → Option ℕ → Type 0
Reports win exe nodes js (some ps) c =
    (map (λ p. p.command) ps ≡ map (λ j. command_line exe (nodes j)) js) × (c ≡ some (length js))
Reports win exe nodes js none c =
    ((k : ℕ) → c ≡ some k → k ≡ 0) × (AllSucceed win → (js ≡ []) × (c ≡ some 0))

length-nil {ℓ} : {A : Type ℓ} (xs : List A) → length xs ≡ 0 → xs ≡ []
length-nil [] e = refl
length-nil (x ∷ xs) e = absurd (omega arith)

no_count : (k : ℕ) → none ≡ some k → k ≡ 0
no_count k e = cc

zero_count : (k : ℕ) → some 0 ≡ some k → k ≡ 0
zero_count k e = sym (some-injective 0 k e)

module _ (win : Windows) (wanted : NodeType → Bool) (exe : Text)
    (keep : List Process → Launcher → Launcher) (nodes : Nodes) (n : ℕ) (s : Launcher) where
  launch_all-Reports :
      (l : Launched)
      → launch_all win wanted exe keep nodes n s ≡ some l
      → Reports win exe nodes (chosen wanted nodes n) l.procs l.count
  unfolding launch_all bind
  launch_all-Reports l e =
      let r = launch_from win.started wanted exe nodes n 0 s.handles in
      let total = eligible wanted nodes n in
      let commands = launch_from-chosen wanted nodes win.started exe n 0 s.handles in
      let R : Launched → Type 0 =
        λ l. Reports win exe nodes (chosen wanted nodes n) l.procs l.count in
      elim (Bool-cases (total == 0)) [
        | inl z ↦
            let x : Launched = record { procs = none; count = some 0; state = s } in
            subst R (some-injective x l (rw z at e)) (
              zero_count,
              λ _. (
                length-nil (chosen wanted nodes n)
                    (sym (length-chosen wanted nodes n) ∙ ground arith),
                refl,
              ),
            )
        | inr z ↦ elim (Bool-cases win.array_given) [
          | inr g ↦
              let x : Launched = record { procs = none; count = none; state = s } in
              subst R (some-injective x l (rw (z, g) at e))
                (no_count, λ all. let no : false ≡ true = sym g ∙ all.given in cc)
          | inl g ↦ elim (Bool-cases r.2) [
            | inl ok ↦
                let x : Launched = record {
                  procs = some r.0;
                  count = some total;
                  state = keep r.0 (record s { handles = r.1 });
                } in
                subst R (some-injective x l (rw (z, g, ok) at e)) (
                  commands ok
                      ∙ ap (map (λ j. command_line exe (nodes j)))
                          (chosen_from-chosen wanted nodes n),
                  ap some (length-chosen wanted nodes n),
                )
            | inr ok ↦ elim (Option-cases (undo r.0 (record s { handles = r.1 }))) [
              | inl u ↦ let no : none ≡ some l = rw (z, g, ok, u) at e in cc
              | inr (s', u) ↦
                  let x : Launched = record { procs = none; count = some 0; state = s' } in
                  subst R (some-injective x l (rw (z, g, ok, u) at e)) (
                    zero_count,
                    λ all.
                        let yes' =
                          launch_from-all wanted nodes win.started exe n 0 s.handles all.started in
                        let no : false ≡ true = sym ok ∙ yes' in cc,
                  )
            ]
          ]
        ]
      ]

create_job_object-all :
    (win : Windows) (s : Launcher) → AllSucceed win → (create_job_object win s).0 ≡ true
create_job_object-all win s all = rw all.created all.limited

ensure_job-all : (win : Windows) (s : Launcher) → AllSucceed win → (ensure_job win s).0 ≡ true
ensure_job-all win s all = elim (Bool-cases (is_some s.job)) [
  | inl e ↦ rw e refl
  | inr e ↦ rw e (create_job_object-all win s all)
]

pub cp_launch_all-Reports :
    (win : Windows) (path : Text) (nodes : Nodes) (n : ℕ) (s : Launcher) (l : Launched)
    → cp_launch_all win path nodes n s ≡ some l
    → Reports win
        (exe_path path (bytes "CentralPropagator.exe"))
        nodes
        (chosen is_propagator nodes n)
        l.procs
        l.count
unfolding cp_launch_all
cp_launch_all-Reports win path nodes n s l e =
    let exe = exe_path path (bytes "CentralPropagator.exe") in
    elim (Bool-cases (create_job_object win s).0) [
      | inl ok ↦
          launch_all-Reports win is_propagator exe (λ ps s. record s { cp_procs = some ps }) nodes n
            (create_job_object win s).1 l (rw ok at e)
      | inr ok ↦
          let x : Launched = record {
            procs = none;
            count = none;
            state = (create_job_object win s).1;
          } in
          subst (λ l. Reports win exe nodes (chosen is_propagator nodes n) l.procs l.count)
            (some-injective x l (rw ok at e))
            (
              no_count,
              λ all. let no : false ≡ true = sym ok ∙ create_job_object-all win s all in cc,
            )
    ]

pub dd_launch_all-Reports :
    (win : Windows) (path : Text) (nodes : Nodes) (n : ℕ) (s : Launcher) (l : Launched)
    → dd_launch_all win path nodes n s ≡ some l
    → Reports win
        (exe_path path (bytes "DataDestination.exe"))
        nodes
        (chosen is_destination nodes n)
        l.procs
        l.count
unfolding dd_launch_all
dd_launch_all-Reports win path nodes n s l e =
    let exe = exe_path path (bytes "DataDestination.exe") in
    elim (Bool-cases (ensure_job win s).0) [
      | inl ok ↦
          launch_all-Reports win is_destination exe (λ ps s. record s { dd_procs = some ps }) nodes
            n (ensure_job win s).1 l (rw ok at e)
      | inr ok ↦
          let x : Launched = record { procs = none; count = none; state = (ensure_job win s).1 } in
          subst (λ l. Reports win exe nodes (chosen is_destination nodes n) l.procs l.count)
            (some-injective x l (rw ok at e))
            (no_count, λ all. let no : false ≡ true = sym ok ∙ ensure_job-all win s all in cc)
    ]

-- From globals without processes, whatever Windows does, both launches return. Each gives back
-- either one process for every node that is no destination, respectively for every destination of
-- the generator, in their order, with the command line of the node, and their number; or NULL, and
-- then it writes no positive number; NULL where all calls succeed means that there is no such node,
-- and then it writes 0.
pub report_lem :
    (cp_win dd_win : Windows) (path : Text) (nodes : Nodes) (n : ℕ) (w : Handles)
    (terminated : List ℕ)
    → (cps : Launched) × (dds : Launched) × (cp_launch_all cp_win path nodes n (record {
      handles = w;
      job = none;
      cp_procs = none;
      dd_procs = none;
      terminated = terminated;
    })
        ≡ some cps)
      × (dd_launch_all dd_win path nodes n cps.state ≡ some dds)
      × Reports cp_win
          (exe_path path (bytes "CentralPropagator.exe"))
          nodes
          (chosen is_propagator nodes n)
          cps.procs
          cps.count
      × Reports dd_win
          (exe_path path (bytes "DataDestination.exe"))
          nodes
          (destinations nodes n)
          dds.procs
          dds.count
report_lem cp_win dd_win path nodes n w terminated =
    let s : Launcher = record {
      handles = w;
      job = none;
      cp_procs = none;
      dd_procs = none;
      terminated = terminated;
    } in
    let (cps, dds, _, e₁, e₂, _, _) = launcher_lem cp_win dd_win path nodes n w terminated in
    let exe = exe_path path (bytes "DataDestination.exe") in
    (
      cps,
      dds,
      e₁,
      e₂,
      cp_launch_all-Reports cp_win path nodes n s cps e₁,
      subst (λ js. Reports dd_win exe nodes js dds.procs dds.count) (chosen-destinations nodes n)
          (dd_launch_all-Reports dd_win path nodes n cps.state dds e₂),
    )
