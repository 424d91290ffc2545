-- ===== src/Client/Framing.antt =====
-- What `send_warning_to` in Common/propagator_client.c leaves in a socket that stays in the pool.
use ikp_data_propagator.Prelude.{
  ℕ, ◌≡◌, ◌≢◌, refl, ap, sym, ◌∙◌, true, false, Option, none, some, List, [], ◌∷◌, ◌==◌, take,
  arith, Bool-cases, inl, inr, ◌⊎◌, ==_iff,
}
use ikp_data_propagator.HashMap.{HashMap}
use ikp_data_propagator.HashMap.Valid.{IsHonest, IsValid, value_of}
use ikp_data_propagator.HashMap.Remove.{hashmap_remove-Removes}
use ikp_data_propagator.Warning.{Warning}
use ikp_data_propagator.Wire.{ByteOrder, buffer_length, pack}
use ikp_data_propagator.Wire.Layout.{IsSendable, message, pack-message, take_all}
use ikp_data_propagator.Connections.{
  ConnectionKey, eq_conn_key, eq_conn_key_refl, connection_key, invalid_socket,
  get_or_create_connection, close_connection,
}
use ikp_data_propagator.Connections.Reuse.{get_or_create_connection-Pooled}
use ikp_data_propagator.Client.{Call, Outcome, give_up, after_send, send_warning_to}

ne_of_test : (a b : ℕ) → (a == b) ≡ false → a ≢ b
ne_of_test a b e same = ground arith

-- After a call: the pool is well formed and has the other keys' sockets. A success has put the
-- documented message, and nothing else, into the socket that the pool now has for the key; after a
-- failure either no byte was written, or the pool has no socket for the key.
abbrev pub Framed : HashMap ConnectionKey ℕ → ConnectionKey → Warning → Outcome → Type 0
Framed m key w o =
    (m' : HashMap ConnectionKey ℕ) × (o.pool ≡ some m')
    × IsValid m'
    × ((q : ConnectionKey) → eq_conn_key key q ≡ false → value_of m' q ≡ value_of m q)
    × (o.sent ≡ true → (s : ℕ) × (value_of m' key ≡ some s) × (o.written ≡ (s, message w) ∷ []))
    × (o.sent ≡ false → (o.written ≡ []) ⊎ (value_of m' key ≡ none))

module _ (m m' : HashMap ConnectionKey ℕ) (key : ConnectionKey) (w : Warning) (v : IsValid m')
    (others : (q : ConnectionKey) → eq_conn_key key q ≡ false → value_of m' q ≡ value_of m q) where
  give_up-Framed :
      (written : List (ℕ × List ℕ)) (closed : List ℕ)
      → Framed m key w (give_up (some m') key written closed)
  unfolding close_connection
  give_up-Framed written closed =
      let (m'', e, r) = hashmap_remove-Removes m' key v in
      (
        m'',
        e,
        r.valid,
        λ q other. r.reads q ∙ rw other (others q other),
        λ no. cc,
        λ _. inr (r.reads key ∙ rw (eq_conn_key_refl key) refl),
      )

  after_send-Framed :
      (order : ByteOrder) (s : ℕ) (closed : List ℕ) (taken : Option ℕ)
      → IsSendable w
      → value_of m' key ≡ some s
      → Framed m key w (after_send (pack order w) (buffer_length w) s (some m') key closed taken)
  after_send-Framed order s closed none sendable there = give_up-Framed [] closed
  after_send-Framed order s closed (some n) sendable there =
      elim (Bool-cases (n == buffer_length w)) [
        | inr e ↦ rw e (give_up-Framed ((s, take n (pack order w)) ∷ []) closed)
        | inl e ↦
            let (is_message, fills) = pack-message order w sendable in
            let whole : take n (pack order w) ≡ message w =
              take_all n (pack order w) (fills ∙ sym ((==_iff n (buffer_length w)).0 e))
              ∙ is_message in
            rw e
              (m', refl, v, others, λ _. (s, there, ap (λ bytes. (s, bytes) ∷ []) whole), λ no. cc)
      ]

-- From a well-formed pool, whatever allocations, `connect` and `send` do: a call of
-- `send_warning_to` that succeeds has put just the documented message into the socket that the
-- pool then has for the address and port; after one that fails, either no byte was written or that
-- socket is no longer in the pool. So a socket of the pool has only whole messages in it.
pub send_warning_to-Framed :
    (order : ByteOrder) (call : Call) (m : HashMap ConnectionKey ℕ) (key : ConnectionKey)
    (w : Warning)
    → IsHonest call.connection.put
    → IsValid m
    → IsSendable w
    → Framed m key w (send_warning_to order call (some m) key w)
unfolding send_warning_to
send_warning_to-Framed order call m key w honest v sendable =
    let r = get_or_create_connection call.connection call.dial (some m) key in
    let (m', e, v', there, others) =
      get_or_create_connection-Pooled call.connection honest m v key call.dial in
    elim (Bool-cases (r.0 == invalid_socket)) [
      | inl bad ↦ rw bad (m', e, v', others, λ no. cc, λ _. inl refl)
      | inr live ↦ elim (Bool-cases call.buffer) [
        | inr denied ↦ rw (live, denied) (m', e, v', others, λ no. cc, λ _. inl refl)
        | inl given ↦
            rw (live, given, e)
              (after_send-Framed m m' key w v' others order r.0 r.2 call.taken sendable
                (there (ne_of_test r.0 invalid_socket live)))
      ]
    ]
