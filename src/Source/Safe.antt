-- ===== src/Source/Safe.antt =====
-- `main` of DataSource/main.c reads inside its arrays and closes what it opened.
use mathlib.Core.Option.{bind}
use ikp_data_propagator.Prelude.{
  ℕ, suc, ◌+◌, ◌≡◌, refl, ap, ◌∙◌, Bool, true, false, Option, none, some, List, [], ◌∷◌, arith,
  length, count, drop,
}
use ikp_data_propagator.Text.{Text}
use ikp_data_propagator.Node.Link.{Nodes}
use ikp_data_propagator.Handles.{Handles, open_handle}
use ikp_data_propagator.Launcher.{Process, Launcher, Launched}
use ikp_data_propagator.Launcher.Held.{Holds, held, close_handle-Holds, terminate-Holds}
use ikp_data_propagator.Launcher.Report.{AllSucceed}
use ikp_data_propagator.Source.{Events, signal_all, EnumWindows, close_process, gracefully_close}
use ikp_data_propagator.Source.Main.{Setup, Source, close_three, run_and_stop}
use ikp_data_propagator.Source.Closing.{array_step}

-- A count is the length of its array; it is 0 where there is none.
abbrev InBounds : Option (List Process) → ℕ → Type 0
InBounds none c = c ≡ 0
InBounds (some ps) c = c ≡ length ps

module _ (enum : EnumWindows) (pid_of : Process → ℕ) where
  close_from :
      (all ps : List Process) (i : ℕ) (st : List ℕ × List ℕ)
      → drop i all ≡ ps
      → (sent : List ℕ × List ℕ) × (gracefully_close enum pid_of (some all) (length ps) i st
          ≡ some sent)
  unfolding gracefully_close bind
  close_from all [] i st e = (st, refl)
  close_from all (p ∷ ps) i st e =
      let (here, behind) = array_step all ps p i e in
      let (sent, e') = close_from all ps (suc i) (close_process enum pid_of p st) behind in
      (sent, rw here e')

  gracefully_close-InBounds :
      (procs : Option (List Process)) (c : ℕ) (st : List ℕ × List ℕ)
      → InBounds procs c
      → (sent : List ℕ × List ℕ) × (gracefully_close enum pid_of procs c 0 st ≡ some sent)
  unfolding gracefully_close
  gracefully_close-InBounds none c st e = (st, ap (λ c. gracefully_close enum pid_of none c 0 st) e)
  gracefully_close-InBounds (some ps) c st e =
      let (sent, e') = close_from ps ps 0 st refl in
      (sent, ap (λ c. gracefully_close enum pid_of (some ps) c 0 st) e ∙ e')

close_three-Holds :
    (rest : ℕ → ℕ) (stop : ℕ) (w : Handles)
    → Holds rest ((stop + 1) ∷ (stop + 1 + 1) ∷ stop ∷ []) w
    → (w' : Handles) × (close_three true true stop w ≡ some w') × Holds rest [] w'
unfolding bind
close_three-Holds rest stop w holds =
    let (w₁, e₁, holds₁) =
      close_handle-Holds rest (stop + 1) ((stop + 1 + 1) ∷ stop ∷ []) w holds in
    let (w₂, e₂, holds₂) = close_handle-Holds rest (stop + 1 + 1) (stop ∷ []) w₁ holds₁ in
    let (w₃, e₃, holds₃) = close_handle-Holds rest stop [] w₂ holds₂ in (w₃, rw (e₁, e₂) e₃, holds₃)

-- What `main` leaves where it ends well: the handles that were open before, and every signal sent.
abbrev pub Ends : (ℕ → ℕ) → Nodes → ℕ → Events → Source → Type 0
Ends rest nodes n events st =
    ((h : ℕ) → st.launcher.handles.opened h ≡ rest h) × (st.events ≡ signal_all nodes n events)

module _ (env : Setup) (gen : env.gen_started ≡ true) (send : env.send_started ≡ true)
    (made : env.connections_made ≡ true) (no_log : env.log_opened ≡ false) (nodes : Nodes) (n : ℕ)
    (st : Source) (rest : ℕ → ℕ) where
  run_and_stop-Ends :
      (cps : Launched) (cp_count : ℕ) (dds : Launched) (dd_count : ℕ)
      → InBounds cps.procs cp_count
      → InBounds dds.procs dd_count
      → Holds rest (held dds.state) dds.state.handles
      → (st' : Source) × (run_and_stop env nodes n cps cp_count dds dd_count st ≡ some (true, st'))
        × Ends rest nodes n st.events st'
  unfolding run_and_stop bind count
  run_and_stop-Ends cps cp_count dds dd_count cp_in dd_in holds =
      let s = dds.state in
      let stop = s.handles.next in
      let three : ℕ → ℕ = λ h. rest h + count h ((stop + 1) ∷ (stop + 1 + 1) ∷ stop ∷ []) in
      let (sent₁, e₁) =
        gracefully_close-InBounds env.enum_windows env.pid_of cps.procs cp_count
          (st.posted, s.terminated) cp_in in
      let (sent, e₂) =
        gracefully_close-InBounds env.enum_windows env.pid_of dds.procs dd_count sent₁ dd_in in
      let before : Launcher = record s {
        handles = open_handle (open_handle (open_handle s.handles));
        terminated = sent.1;
      } in
      let (s', e₃, holds', _) = terminate-Holds three before (λ h. omega (arith, holds h)) in
      let (w, e₄, closed) = close_three-Holds rest stop s'.handles (λ h. omega (arith, holds' h)) in
      (
        record {
          launcher = record s' { handles = w };
          events = signal_all nodes n st.events;
          posted = sent.0;
        },
        rw (gen, send, e₁, e₂, e₃, e₄, made, no_log) refl,
        (λ h. omega (arith, closed h), refl),
      )

  -- The arguments of `main` with which it ends well.
  abbrev Good : Type 0
  Good = AllSucceed env.cp_windows × AllSucceed env.dd_windows × (env.stop_created ≡ true)

  -- A run ends, and where it ends well it leaves what it should; it ends well where the calls succeed.
  abbrev Runs : Option (Bool × Source) → Type 0
  Runs exit =
      (ok : Bool) × (st' : Source) × (exit ≡ some (ok, st'))
      × (ok ≡ true → Ends rest nodes n st.events st')
      × (Good → ok ≡ true)
