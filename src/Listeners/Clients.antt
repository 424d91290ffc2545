-- ===== src/Listeners/Clients.antt =====
-- What a process receives over all of its connections.
use mathlib.Core.Option.{bind}
use ikp_data_propagator.Prelude.{
  ℕ, ◌%◌, ◌^◌, ◌<◌, ◌≡◌, refl, ap, ◌∙◌, Bool, true, false, Option, none, some, List, [], ◌∷◌, ◌++◌,
  arith, length, flatten,
}
use ikp_data_propagator.Warning.{Warning}
use ikp_data_propagator.Wire.{ByteOrder}
use ikp_data_propagator.Wire.Receiver.{Transport, Memory, serve_client}
use ikp_data_propagator.Wire.Copy.{Heap}
use ikp_data_propagator.Wire.Copy.Same.{serve_client_copy}
use ikp_data_propagator.Wire.RoundTrip.{IsAmple, AllSendable, pack_all, serve_client_lem}
use ikp_data_propagator.Endpoints.Received.{processor_lem}
use ikp_data_propagator.Listeners.{
  with_client, with_dd_client, cp_listener_run, dd_listener_fn, dd_count,
}

mapped :
    (o rest : Option (List Warning))
    → bind
        (mathlib.Core.Option.map {B = List Warning × Heap} (λ ws. (ws, some [])) o)
        (λ r. bind rest (λ more. some (r.0 ++ more)))
      ≡ bind o (λ ws. bind rest (λ more. some (ws ++ more)))
unfolding bind
mapped none rest = refl
mapped (some ws) rest = refl

module _ (net : Transport) (order : ByteOrder) (memory : Memory) (fuel : ℕ) where
  -- What is to arrive over a connection is the warnings of a peer, packed.
  abbrev pub IsPeer : net.Socket → List Warning → Type 0
  IsPeer s ws = (length ws < fuel) × AllSendable ws × (net.pending s ≡ pack_all order ws)

  -- The connections that a propagator accepts before its exit event is set are those of the peers.
  abbrev pub CpPeers : List (Bool × Option net.Socket) → List (List Warning) → Type 0
  CpPeers [] [] = Unit {0}
  CpPeers [] (ws ∷ peers) = ⊥
  CpPeers ((true, client) ∷ rounds) [] = Unit {0}
  CpPeers ((true, client) ∷ rounds) (ws ∷ peers) = ⊥
  CpPeers ((false, none) ∷ rounds) peers = CpPeers rounds peers
  CpPeers ((false, some s) ∷ rounds) [] = ⊥
  CpPeers ((false, some s) ∷ rounds) (ws ∷ peers) = IsPeer s ws × CpPeers rounds peers

  -- Those that a destination accepts before its socket is closed.
  abbrev pub DdPeers : List (Option net.Socket) → List (List Warning) → Type 0
  DdPeers [] [] = Unit {0}
  DdPeers [] (ws ∷ peers) = ⊥
  DdPeers (none ∷ rounds) [] = Unit {0}
  DdPeers (none ∷ rounds) (ws ∷ peers) = ⊥
  DdPeers (some s ∷ rounds) [] = ⊥
  DdPeers (some s ∷ rounds) (ws ∷ peers) = IsPeer s ws × DdPeers rounds peers

  module _ (ample : IsAmple memory) where
    with_client_lem :
        (s : net.Socket) (ws : List Warning) (rest : Option (List Warning)) (more : List Warning)
        → IsPeer s ws
        → rest ≡ some more
        → with_client net order memory fuel s rest ≡ some (ws ++ more)
    unfolding bind
    with_client_lem s ws rest more (short, sendable, e) e' =
        rw (serve_client_lem net order memory ample ws fuel s short sendable e, e') refl

    -- The destination's own loop gives the same.
    with_dd_client_lem :
        (s : net.Socket) (rest : Option (List Warning))
        → with_dd_client net order memory fuel s rest ≡ with_client net order memory fuel s rest
    unfolding bind
    with_dd_client_lem s rest =
        rw (serve_client_copy net order memory fuel s)
          (mapped (serve_client net order memory fuel s) rest)

    -- With memory for the messages and fuel for their number: a propagator's dispatcher is given
    -- all sendable warnings of all peers whose connections are accepted before the exit event is
    -- set, in the order of the connections and within each unchanged and in its order, also
    -- where `accept` fails in between.
    pub cp_listener_run_lem :
        (rounds : List (Bool × Option net.Socket)) (peers : List (List Warning))
        → CpPeers rounds peers
        → cp_listener_run net order memory fuel rounds ≡ some (flatten peers)
    unfolding cp_listener_run
    cp_listener_run_lem [] [] p = refl
    cp_listener_run_lem [] (ws ∷ peers) p = absurd p
    cp_listener_run_lem ((true, client) ∷ rounds) [] p = refl
    cp_listener_run_lem ((true, client) ∷ rounds) (ws ∷ peers) p = absurd p
    cp_listener_run_lem ((false, none) ∷ rounds) peers p = cp_listener_run_lem rounds peers p
    cp_listener_run_lem ((false, some s) ∷ rounds) [] p = absurd p
    cp_listener_run_lem ((false, some s) ∷ rounds) (ws ∷ peers) p =
        with_client_lem s ws (cp_listener_run net order memory fuel rounds) (flatten peers) p.0
          (cp_listener_run_lem rounds peers p.1)

    dd_listener_fn_lem :
        (rounds : List (Option net.Socket)) (peers : List (List Warning))
        → DdPeers rounds peers
        → dd_listener_fn net order memory fuel rounds ≡ some (flatten peers)
    unfolding dd_listener_fn
    dd_listener_fn_lem [] [] p = refl
    dd_listener_fn_lem [] (ws ∷ peers) p = absurd p
    dd_listener_fn_lem (none ∷ rounds) [] p = refl
    dd_listener_fn_lem (none ∷ rounds) (ws ∷ peers) p = absurd p
    dd_listener_fn_lem (some s ∷ rounds) [] p = absurd p
    dd_listener_fn_lem (some s ∷ rounds) (ws ∷ peers) p =
        with_dd_client_lem s (dd_listener_fn net order memory fuel rounds)
        ∙ with_client_lem s ws (dd_listener_fn net order memory fuel rounds) (flatten peers) p.0
            (dd_listener_fn_lem rounds peers p.1)

    -- With memory for the messages and fuel for their number: a destination counts, in the 32 bits
    -- of its counter, each sendable warning of each peer whose connection it accepts before its
    -- socket is closed, once, whatever the pieces that the bytes come in.
    pub dd_count_lem :
        (rounds : List (Option net.Socket)) (peers : List (List Warning))
        → DdPeers rounds peers
        → dd_count net order memory fuel rounds ≡ some (length (flatten peers) % 2 ^ 32)
    unfolding dd_count bind
    dd_count_lem rounds peers p =
        rw (dd_listener_fn_lem rounds peers p)
          (ap some (processor_lem (flatten peers) 0 (omega arith) ∙ omega arith))
