-- ===== src/Listeners.antt =====
-- The loops over `accept`: `cp_listener_run` in CentralPropagator/cp_listener.c, and `listener_fn` in
-- DataDestination/data_destination.c, whose warnings go to the processor's loop there.
pub mod Clients
use mathlib.Core.Option
use mathlib.Core.Option.{bind}
use ikp_data_propagator.Prelude.{ℕ, Bool, true, false, Option, none, some, List, [], ◌∷◌, ◌++◌, map}
use ikp_data_propagator.Warning.{Warning}
use ikp_data_propagator.Wire.{ByteOrder}
use ikp_data_propagator.Wire.Receiver.{Transport, Memory, serve_client}
use ikp_data_propagator.Wire.Copy.{dd_serve_client}
use ikp_data_propagator.Endpoints.{processor_fn}

module _ (net : Transport) (order : ByteOrder) (memory : Memory) (fuel : ℕ) where
  -- What a client's loop gives, before what the further rounds give.
  abbrev pub with_client : net.Socket → Option (List Warning) → Option (List Warning)
  with_client s rest =
      bind (serve_client net order memory fuel s) (λ ws. bind rest (λ more. some (ws ++ more)))

  -- What the dispatcher is given, from what each round finds: whether the exit event is set, and
  -- what `accept` gives, none for INVALID_SOCKET.
  unfoldable pub cp_listener_run : List (Bool × Option net.Socket) → Option (List Warning)
  cp_listener_run [] = some []
  cp_listener_run ((true, client) ∷ rounds) = some []
  cp_listener_run ((false, none) ∷ rounds) = cp_listener_run rounds
  cp_listener_run ((false, some s) ∷ rounds) = with_client s (cp_listener_run rounds)

  -- The same with the destination's own loop.
  abbrev pub with_dd_client : net.Socket → Option (List Warning) → Option (List Warning)
  with_dd_client s rest =
      bind (dd_serve_client net order memory fuel s) (λ r. bind rest (λ more. some (r.0 ++ more)))

  -- What goes into the queue, from what `accept` gives in each round.
  unfoldable pub dd_listener_fn : List (Option net.Socket) → Option (List Warning)
  dd_listener_fn [] = some []
  dd_listener_fn (none ∷ rounds) = some []
  dd_listener_fn (some s ∷ rounds) = with_dd_client s (dd_listener_fn rounds)

  -- The counter of a destination behind the NULL that `dd_destroy` puts into the queue.
  unfoldable pub dd_count : List (Option net.Socket) → Option ℕ
  unfolding dd_listener_fn processor_fn
  dd_count rounds =
      bind (dd_listener_fn rounds) (λ ws. some (processor_fn (map some ws ++ none ∷ []) 0))
