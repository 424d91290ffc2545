-- ===== src/Destination/Lifecycle.antt =====
-- What a destination holds.
use ikp_data_propagator.Prelude.{
  ℕ, ◌≡◌, refl, ap, ◌∙◌, Bool, true, false, not, ◌&&◌, Option, none, some, [], ◌∷◌, ◌++◌,
  if◌then◌else◌,
}
use mathlib.Core.Option.{bind}
use ikp_data_propagator.Resources.{
  wsa, context, critical_section, queue, listener, processor, log_file, Held, release, release_all,
  only_if,
}
use ikp_data_propagator.Destination.{DdCalls, dd_create, dd_destroy, DdRun, dd_main}

-- What a destination's context leaves where it could not be made.
abbrev pub unreleased : DdCalls → Held → Held
unreleased calls held = only_if calls.context_given critical_section ++ held

-- `dd_create` comes to the socket of a listener that has not stored it.
abbrev pub is_early : DdCalls → Bool
is_early calls =
    calls.context_given
    && (calls.queue_created
        && (calls.listener_started && (not calls.processor_started && not calls.stored_early)))

abbrev pub Balanced : DdCalls → Held → Option (Bool × Held) → Type 0
Balanced calls held none = is_early calls ≡ true
Balanced calls held (some (true, h)) =
    dd_destroy calls h ≡ (if calls.stored then some held else none)
Balanced calls held (some (false, h)) = h ≡ unreleased calls held

-- The exit code of a destination, and what it still holds then.
abbrev pub dd_exit : DdRun → Option (ℕ × Held)
dd_exit run =
    let calls = run.calls in
    if calls.context_given && (calls.queue_created && calls.listener_started)
    then if calls.processor_started
      then if calls.stored
        then if run.event_created
          then if run.log_opened then none else some (0, [])
          else some (1, only_if run.log_opened log_file)
        else none
      else if calls.stored_early
      then some (1, critical_section ∷ [])
      else none
    else some (1, only_if calls.context_given critical_section)

exits :
    (wsa context queue listener processor socket early stored event log : Bool)
    → let run : DdRun = record {
      argc = 3;
      log_opened = log;
      calls = record {
        wsa_started = wsa;
        context_given = context;
        queue_created = queue;
        listener_started = listener;
        processor_started = processor;
        socket_opened = socket;
        stored_early = early;
        stored = stored;
      };
      event_created = event;
    } in
      dd_main run ≡ dd_exit run
unfolding dd_main dd_create dd_destroy release_all release bind
exits false false q l p s e st ev false = refl
exits false true false l p s e st ev false = refl
exits false true true false p s e st ev false = refl
exits false false q l p s e st ev true = refl
exits false true false l p s e st ev true = refl
exits false true true false p s e st ev true = refl
exits false true true true false false false st ev false = refl
exits false true true true false false true st ev false = refl
exits false true true true true false e false false false = refl
exits false true true true true false e true false false = refl
exits false true true true true false e false true false = refl
exits false true true true true false e true true false = refl
exits false true true true false false false st ev true = refl
exits false true true true false false true st ev true = refl
exits false true true true true false e false false true = refl
exits false true true true true false e true false true = refl
exits false true true true true false e false true true = refl
exits false true true true true false e true true true = refl
exits false true true true false true false st ev false = refl
exits false true true true false true true st ev false = refl
exits false true true true true true e false false false = refl
exits false true true true true true e true false false = refl
exits false true true true true true e false true false = refl
exits false true true true true true e true true false = refl
exits false true true true false true false st ev true = refl
exits false true true true false true true st ev true = refl
exits false true true true true true e false false true = refl
exits false true true true true true e true false true = refl
exits false true true true true true e false true true = refl
exits false true true true true true e true true true = refl
exits true false q l p s e st ev false = refl
exits true true false l p s e st ev false = refl
exits true true true false p s e st ev false = refl
exits true false q l p s e st ev true = refl
exits true true false l p s e st ev true = refl
exits true true true false p s e st ev true = refl
exits true true true true false false false st ev false = refl
exits true true true true false false true st ev false = refl
exits true true true true true false e false false false = refl
exits true true true true true false e true false false = refl
exits true true true true true false e false true false = refl
exits true true true true true false e true true false = refl
exits true true true true false false false st ev true = refl
exits true true true true false false true st ev true = refl
exits true true true true true false e false false true = refl
exits true true true true true false e true false true = refl
exits true true true true true false e false true true = refl
exits true true true true true false e true true true = refl
exits true true true true false true false st ev false = refl
exits true true true true false true true st ev false = refl
exits true true true true true true e false false false = refl
exits true true true true true true e true false false = refl
exits true true true true true true e false true false = refl
exits true true true true true true e true true false = refl
exits true true true true false true false st ev true = refl
exits true true true true false true true st ev true = refl
exits true true true true true true e false false true = refl
exits true true true true true true e true false true = refl
exits true true true true true true e false true true = refl
exits true true true true true true e true true true = refl

pub dd_main_lem : (run : DdRun) → run.argc ≡ 3 → dd_main run ≡ dd_exit run
dd_main_lem run three =
    let calls = run.calls in
    ap (λ n. dd_main (record run { argc = n })) three
    ∙ exits calls.wsa_started calls.context_given calls.queue_created calls.listener_started
        calls.processor_started calls.socket_opened calls.stored_early calls.stored
        run.event_created run.log_opened
