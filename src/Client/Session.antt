-- ===== src/Client/Session.antt =====
-- A process that sends any warnings over its pool (Common/propagator_client.c and
-- propagator_connections.c), from `connections_init` to `connections_cleanup`.
use ikp_data_propagator.Prelude.{
  ℕ, ◌+◌, ◌≡◌, ◌≢◌, Option, none, some, List, [], ◌∷◌, ◌++◌, arith, ◌==◌, Bool-cases, inl, inr,
  count, count-append, take,
}
use ikp_data_propagator.Warning.{Warning}
use ikp_data_propagator.Wire.{ByteOrder, buffer_length, pack}
use ikp_data_propagator.HashMap.{Alloc}
use ikp_data_propagator.HashMap.Valid.{IsHonest}
use ikp_data_propagator.Connections.{
  ConnectionKey, connection_key, invalid_socket, Pool, get_or_create_connection, close_connection,
  connections_init,
}
use ikp_data_propagator.Connections.Ledger.{opened}
use ikp_data_propagator.Connections.Traffic.{
  Traffic, cleaned, in_pool, IsAccounted, get-IsAccounted, close-IsAccounted, init-IsAccounted,
  cleaned_count,
}
use ikp_data_propagator.Client.{Call, Outcome, give_up, after_send, send_warning_to}

-- A call of `send_warning_to`.
pub record Sending : Type 0 where
  pub call : Call
  pub key : ConnectionKey
  pub warning : Warning

module _ (order : ByteOrder) where
  abbrev pub after_sending : Traffic → Sending → Traffic
  after_sending t s =
      let o = send_warning_to order s.call t.pool s.key s.warning in
      record {
        pool = o.pool;
        given = opened s.call.connection s.call.dial t.pool s.key ++ t.given;
        closed = o.closed ++ t.closed;
      }

  unfoldable pub after_sendings : Traffic → List Sending → Traffic
  after_sendings t [] = t
  after_sendings t (s ∷ ss) = after_sendings (after_sending t s) ss

  -- The session of a process that has the pool `connections_init` makes.
  abbrev pub session : Alloc → List Sending → Traffic
  session alloc ss =
      after_sendings (record { pool = connections_init alloc; given = []; closed = [] }) ss

  abbrev pub AllHonest : List Sending → Type 0
  AllHonest [] = Unit
  AllHonest (s ∷ ss) = IsHonest s.call.connection.put × AllHonest ss

  module _ (j : ℕ) (live : j ≢ invalid_socket) where
    -- A call that has a connection, by whether it gives it up.
    abbrev with_outcome : Traffic → List ℕ → Outcome → Traffic
    with_outcome t new o = record {
      pool = o.pool;
      given = new ++ t.given;
      closed = o.closed ++ t.closed;
    }

    given_up :
        (t : Traffic) (new closed : List ℕ) (p : Pool) (key : ConnectionKey)
        (written : List (ℕ × List ℕ))
        → IsAccounted j live
            (record { pool = p; given = new ++ t.given; closed = closed ++ t.closed })
        → IsAccounted j live (with_outcome t new (give_up p key written closed))
    given_up t new closed p key written h =
        let (sound, e) = close-IsAccounted j live p (new ++ t.given) (closed ++ t.closed) key h in
        let more = (close_connection p key).1 in
        (
          sound,
          omega (
            arith,
            e,
            count-append j more (closed ++ t.closed),
            count-append j closed t.closed,
            count-append j (closed ++ more) t.closed,
            count-append j closed more,
          ),
        )

    sent_on :
        (t : Traffic) (new closed : List ℕ) (p : Pool) (key : ConnectionKey) (s : ℕ) (buf : List ℕ)
        (n : ℕ) (taken : Option ℕ)
        → IsAccounted j live
            (record { pool = p; given = new ++ t.given; closed = closed ++ t.closed })
        → IsAccounted j live (with_outcome t new (after_send buf n s p key closed taken))
    sent_on t new closed p key s buf n none h = given_up t new closed p key [] h
    sent_on t new closed p key s buf n (some k) h = elim (Bool-cases (k == n)) [
      | inl whole ↦ rw whole h
      | inr part ↦ rw part (given_up t new closed p key ((s, take k buf) ∷ []) h)
    ]

    sending-IsAccounted :
        (t : Traffic) (s : Sending)
        → IsHonest s.call.connection.put
        → IsAccounted j live t
        → IsAccounted j live (after_sending t s)
    unfolding send_warning_to
    sending-IsAccounted t s honest h =
        let h' =
          get-IsAccounted j live t.pool t.given t.closed s.call.connection s.call.dial s.key honest
            h in
        let r = get_or_create_connection s.call.connection s.call.dial t.pool s.key in
        elim (Bool-cases (r.0 == invalid_socket)) [
          | inl invalid ↦ rw invalid h'
          | inr valid ↦ elim (Bool-cases s.call.buffer) [
            | inr denied ↦ rw (valid, denied) h'
            | inl given ↦
                rw (valid, given)
                  (sent_on t (opened s.call.connection s.call.dial t.pool s.key) r.2 r.1 s.key r.0
                    (pack order s.warning) (buffer_length s.warning) s.call.taken h')
          ]
        ]

    sendings-IsAccounted :
        (t : Traffic) (ss : List Sending)
        → AllHonest ss
        → IsAccounted j live t
        → IsAccounted j live (after_sendings t ss)
    unfolding after_sendings
    sendings-IsAccounted t [] honest h = h
    sendings-IsAccounted t (s ∷ ss) honest h =
        sendings-IsAccounted (after_sending t s) ss honest.1 (sending-IsAccounted t s honest.0 h)

    -- Whatever warnings are sent to whom, and whatever the allocations, `socket`, `connect` and
    -- `send` do: at each moment of a process between `connections_init` and `connections_cleanup`,
    -- the pool's connections with a socket other than INVALID_SOCKET and the times that it was
    -- closed are together the times that `socket` gave it; behind `connections_cleanup` it was
    -- closed as often as `socket` gave it.
    pub session_lem :
        (alloc : Alloc) (ss : List Sending)
        → IsHonest alloc
        → AllHonest ss
        → let t = session alloc ss in
          (in_pool j live t.pool + count j t.closed ≡ count j t.given)
          × (count j (cleaned t).closed ≡ count j t.given)
    session_lem alloc ss honest all =
        let t = session alloc ss in
        let h = sendings-IsAccounted _ ss all (init-IsAccounted j live alloc honest) in
        (h.1, cleaned_count j live t.pool t.given t.closed h)
