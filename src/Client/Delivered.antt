-- ===== src/Client/Delivered.antt =====
-- That a peer of a process that sends warnings (Common/propagator_client.c) is given just those that
-- were sent to it (CentralPropagator/cp_listener.c).
use ikp_data_propagator.Prelude.{
  ℕ, ◌<◌, ◌≡◌, refl, sym, ◌∙◌, true, none, some, List, [], ◌⊎◌, inl, inr, length,
}
use mathlib.Core.Path.{subst}
use ikp_data_propagator.Wire.{ByteOrder}
use ikp_data_propagator.HashMap.{HashMap}
use ikp_data_propagator.HashMap.Valid.{IsHonest, value_of}
use ikp_data_propagator.HashMap.Put.{hashmap_get_lem}
use ikp_data_propagator.Connections.{ConnectionKey, connection_key}
use ikp_data_propagator.Client.Session.{Sending}
use ikp_data_propagator.Client.Stream.{Wires, stream, sent_over, IsWhole, IsCut}
use ikp_data_propagator.Connections.{connections_init}
use ikp_data_propagator.HashMap.{Alloc}
use ikp_data_propagator.HashMap.Create.{Created, hashmap_create-Created}
use ikp_data_propagator.Wire.Receiver.{Transport, Memory, serve_client}
use ikp_data_propagator.Wire.RoundTrip.{IsAmple, serve_client_lem}
use ikp_data_propagator.Wire.Truncated.{serve_truncated}
use ikp_data_propagator.Client.Safe.{IsSafe, AllGood, after_sendings, sendings-IsSafe}

module _ (order : ByteOrder) where
  -- A process behind `connections_init`, to which no socket was given yet.
  abbrev pub started : Alloc → Wires
  started alloc = record { pool = connections_init alloc; log = []; sent = [] }

  abbrev pub wires_of : Alloc → List Sending → Wires
  wires_of alloc ss = after_sendings order (started alloc) ss

  started-IsSafe :
      (alloc : Alloc) (m : HashMap ConnectionKey ℕ)
      → IsHonest alloc
      → connections_init alloc ≡ some m
      → IsSafe order (started alloc)
  unfolding connections_init stream sent_over
  started-IsSafe alloc m honest made_it =
      let created : Created {K = ConnectionKey} {V = ℕ} alloc 16 true (some m) =
        subst (Created {K = ConnectionKey} {V = ℕ} alloc 16 true) made_it
          (hashmap_create-Created ConnectionKey ℕ alloc 16 true true true honest) in
      let valid = created.0.valid in
      let none_there : (q : ConnectionKey) → value_of m q ≡ none =
        λ q. sym (hashmap_get_lem m q valid) ∙ created.0.reads q in
      (
        m,
        made_it,
        record {
          valid = valid;
          live = λ q i e. let clash : none ≡ some i = sym (none_there q) ∙ e in absurd (cc);
          alone = λ p q i e e'. let clash : none ≡ some i = sym (none_there q) ∙ e' in absurd (cc);
          whole = λ q i e. record { sendable = tt; bytes = refl };
          every = λ i. inl (record { sendable = tt; bytes = refl });
        },
      )

  module _ (net : Transport) (memory : Memory) (ample : IsAmple memory) where
    submitted :
        (t : Wires) (j fuel : ℕ) (s : net.Socket)
        → length (sent_over j t.sent) < fuel
        → net.pending s ≡ stream j t.log
        → IsWhole order t.log t.sent j ⊎ IsCut order t.log t.sent j
        → serve_client net order memory fuel s ≡ some (sent_over j t.sent)
    submitted t j fuel s enough e (inl h) =
        serve_client_lem net order memory ample (sent_over j t.sent) fuel s enough h.sendable
          (e ∙ h.bytes)
    submitted t j fuel s enough e (inr h) =
        serve_truncated net order memory ample (sent_over j t.sent) h.last h.arrived fuel s enough
          h.sendable h.last_sendable h.part (e ∙ h.bytes)

    -- Where the pool was made, the allocations are honest about their size, the warnings are
    -- sendable, `send` takes at most what it is given, and no socket number that `connect` gives is
    -- in the pool or was written to before: after any calls of `send_warning_to`, at each of which
    -- allocations, the dialling or `send` may fail, the peer of each socket, which has memory for
    -- the messages and fuel for their number and reads the bytes that were put into the socket and
    -- then the connection's end, submits just the warnings for which `send_warning_to` returned
    -- true over that socket, in their order and unchanged, and its loop ends. A part of a message
    -- that a failed `send` left is not read as a warning.
    pub delivered_lem :
        (alloc : Alloc) (m : HashMap ConnectionKey ℕ) (ss : List Sending)
        → IsHonest alloc
        → connections_init alloc ≡ some m
        → AllGood order (started alloc) ss
        → (j fuel : ℕ) (s : net.Socket) → length (sent_over j (wires_of alloc ss).sent) < fuel
        → net.pending s ≡ stream j (wires_of alloc ss).log
        → serve_client net order memory fuel s ≡ some (sent_over j (wires_of alloc ss).sent)
    delivered_lem alloc m ss honest made_it good j fuel s enough e =
        let t = wires_of alloc ss in
        let (_, _, h) =
          sendings-IsSafe order (started alloc) ss good (started-IsSafe alloc m honest made_it) in
        submitted t j fuel s enough e (h.every j)
