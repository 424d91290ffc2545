-- ===== src/Endpoints/Received.antt =====
-- What a destination (DataDestination/data_destination.c) counts.
use mathlib.Core.Option
use ikp_data_propagator.Prelude.{
  ℕ, ◌+◌, ◌%◌, ◌^◌, ◌<◌, ◌≡◌, ap, ◌∙◌, none, some, List, [], ◌∷◌, ◌++◌, map, arith, length,
}
use ikp_data_propagator.Warning.{Warning}
use ikp_data_propagator.Wire.{ByteOrder}
use ikp_data_propagator.Wire.Receiver.{Transport, Memory}
use ikp_data_propagator.Wire.RoundTrip.{IsAmple, AllSendable, pack_all, serve_client_lem}
use ikp_data_propagator.Endpoints.{processor_fn, count_client}

pub processor_lem :
    (ws : List Warning) (count : ℕ)
    → count < 2 ^ 32
    → processor_fn (map some ws ++ none ∷ []) count ≡ (count + length ws) % 2 ^ 32
unfolding processor_fn
processor_lem [] count lt = omega arith
processor_lem (w ∷ ws) count lt =
    processor_lem ws ((count + 1) % 2 ^ 32) (omega arith) ∙ omega arith

-- With memory for the messages and fuel for their number: a destination counts each of the
-- sendable warnings that a propagator sends over one connection once, in the 32 bits of its
-- counter, whatever the pieces that the bytes come in.
pub count_client_lem :
    (net : Transport) (order : ByteOrder) (memory : Memory) (ws : List Warning) (fuel : ℕ)
    (s : net.Socket)
    → IsAmple memory
    → length ws < fuel
    → AllSendable ws
    → net.pending s ≡ pack_all order ws
    → count_client net order memory fuel s ≡ some (length ws % 2 ^ 32)
unfolding count_client
count_client_lem net order memory ws fuel s ample lt ok e =
    ap (Option.map (λ ws. processor_fn (map some ws ++ none ∷ []) 0))
      (serve_client_lem net order memory ample ws fuel s lt ok e)
    ∙ ap some (processor_lem ws 0 (omega arith) ∙ omega arith)
