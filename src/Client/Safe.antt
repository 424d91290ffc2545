-- ===== src/Client/Safe.antt =====
-- A process that sends any warnings (Common/propagator_client.c), from one call to the next: each
-- socket holds whole messages, and at its end perhaps a part of one.
use ikp_data_propagator.Prelude.{
  ℕ, ◌<◌, ◌≤◌, ◌≡◌, ◌≢◌, refl, ap, sym, ◌∙◌, true, Option, none, some, List, [], ◌∷◌, ◌++◌, arith,
  ◌==◌, ==_iff, if◌then◌else◌, Bool-cases, inl, inr, length, take,
}
use mathlib.Core.List.{append-nil}
use mathlib.Core.Path.{subst}
use ikp_data_propagator.Warning.{Warning}
use ikp_data_propagator.Wire.{ByteOrder, buffer_length, pack}
use ikp_data_propagator.Wire.Layout.{IsSendable, pack-message, take_all}
use ikp_data_propagator.HashMap.{HashMap}
use ikp_data_propagator.HashMap.Valid.{IsHonest, value_of}
use ikp_data_propagator.HashMap.Remove.{hashmap_remove-Removes}
use ikp_data_propagator.Connections.{
  ConnectionKey, Connection, connection_key, eq_conn_key, eq_conn_key_refl, invalid_socket, Pool,
  Dial, get_or_create_connection, close_connection,
}
use ikp_data_propagator.Connections.Outcomes.{
  Ends, no_connection, reused, made, get_or_create_connection-Ends,
}
use ikp_data_propagator.Client.{Outcome, give_up, after_send, send_warning_to}
use ikp_data_propagator.Client.Session.{Sending}
use ikp_data_propagator.Client.Stream.{Wires, stream, sent_over, tagged, still, still-IsWhole}
use ikp_data_propagator.Client.Sockets.{IsFresh, IsFramed, narrowed, widened, more, cut_short}

-- `send` takes no more than it is given.
abbrev pub IsTaken : Option ℕ → ℕ → Type 0
IsTaken none len = Unit
IsTaken (some n) len = n ≤ len

module _ (order : ByteOrder) where
  abbrev pub after_sending : Wires → Sending → Wires
  after_sending t s =
      let o = send_warning_to order s.call t.pool s.key s.warning in
      record {
        pool = o.pool;
        log = t.log ++ o.written;
        sent = t.sent ++ tagged s.warning o.sent o.written;
      }

  -- What the calls of Windows and the warning of one sending are asked for.
  pub record IsGood (t : Wires) (s : Sending) : Type 0 where
    pub honest : IsHonest s.call.connection.put
    pub fresh : IsFresh s.call.dial t
    pub taken : IsTaken s.call.taken (buffer_length s.warning)
    pub sendable : IsSendable s.warning

  -- The wires behind a call of `send_warning_to` for a warning.
  abbrev behind : Wires → Warning → Outcome → Wires
  behind t w o = record {
    pool = o.pool;
    log = t.log ++ o.written;
    sent = t.sent ++ tagged w o.sent o.written;
  }

  abbrev pub IsSafe : Wires → Type 0
  IsSafe t = (m : HashMap ConnectionKey ℕ) × (t.pool ≡ some m) × IsFramed order t m

  -- A call that writes nothing.
  quiet :
      (t : Wires) (m : HashMap ConnectionKey ℕ) (pool : Pool)
      → IsFramed order t m
      → IsFramed order (record { pool = pool; log = t.log ++ []; sent = t.sent ++ [] }) m
  quiet t m pool h =
      let t' : Wires = record { pool = pool; log = t.log ++ []; sent = t.sent ++ [] } in
      let log : t.log ++ [] ≡ t.log = append-nil t.log in
      let sent : t.sent ++ [] ≡ t.sent = append-nil t.sent in
      record {
        valid = h.valid;
        live = h.live;
        alone = h.alone;
        whole = λ q j e.
            still-IsWhole order t t' j (ap (stream j) log) (ap (sent_over j) sent) (h.whole q j e);
        every = λ j. still order t t' j (ap (stream j) log) (ap (sent_over j) sent) (h.every j);
      }

  forgets :
      (m m' : HashMap ConnectionKey ℕ) (key : ConnectionKey)
      → ((q : ConnectionKey) → value_of m' q ≡ (if eq_conn_key key q then none else value_of m q))
      → (q : ConnectionKey) (j : ℕ) → value_of m' q ≡ some j
      → (value_of m q ≡ some j) × (key ≢ q)
  forgets m m' key reads q j e = elim (Bool-cases (eq_conn_key key q)) [
    | inl same ↦
        let gone : value_of m' q ≡ none = reads q ∙ rw same refl in
        let clash : none ≡ some j = sym gone ∙ e in absurd (cc)
    | inr other ↦
        let kept : value_of m' q ≡ value_of m q = reads q ∙ rw other refl in
        (
          sym kept ∙ e,
          λ same.
              let wrong : eq_conn_key key q ≡ true =
                ap (eq_conn_key key) (sym same) ∙ eq_conn_key_refl key in
              absurd (cc),
        )
  ]

  module _ (t : Wires) (m : HashMap ConnectionKey ℕ) (key : ConnectionKey) (s : ℕ) (w : Warning)
      (ok : IsSendable w) (h : IsFramed order t m) (there : value_of m key ≡ some s)
      (closed : List ℕ) where
    unsent : IsSafe (behind t w (give_up (some m) key [] closed))
    unfolding close_connection
    unsent =
        let (m', e, r) = hashmap_remove-Removes m key h.valid in
        (
          m',
          e,
          quiet t m' _ (
              narrowed order t m m' h r.valid
                (λ q j there'. (forgets m m' key r.reads q j there').0)),
        )

    partly :
        (n : ℕ)
        → n < length (pack order w)
        → IsSafe (behind t w (give_up (some m) key ((s, take n (pack order w)) ∷ []) closed))
    unfolding close_connection
    partly n short =
        let (m', e, r) = hashmap_remove-Removes m key h.valid in
        (
          m',
          e,
          cut_short order t m h s w ok key _ m' n there short r.valid (forgets m m' key r.reads),
        )

    after_send-IsSafe :
        (taken : Option ℕ)
        → IsTaken taken (buffer_length w)
        → IsSafe
            (behind t w (after_send (pack order w) (buffer_length w) s (some m) key closed taken))
    after_send-IsSafe none fits = unsent
    after_send-IsSafe (some n) fits = elim (Bool-cases (n == buffer_length w)) [
      | inl e ↦
          let all : take n (pack order w) ≡ pack order w =
            take_all n (pack order w)
              ((pack-message order w ok).1 ∙ sym ((==_iff n (buffer_length w)).0 e)) in
          rw (e, all) (m, refl, more order t m h s w ok key (some m) there)
      | inr e ↦ let len = (pack-message order w ok).1 in rw e (partly n (ground arith))
    ]

  module _ (t : Wires) (m : HashMap ConnectionKey ℕ) (key : ConnectionKey) (dial : Dial)
      (here : t.pool ≡ some m) (h : IsFramed order t m) (fresh : IsFresh dial t) where
    behind_get :
        {r : Connection}
        → Ends m key dial r
        → (m' : HashMap ConnectionKey ℕ) × (r.1 ≡ some m')
          × IsFramed order t m'
          × (r.0 ≢ invalid_socket → value_of m' key ≡ some r.0)
    behind_get (no_connection m' bad e v reads) = (
      m',
      e,
      narrowed order t m m' h v (λ q j there. sym (reads q) ∙ there),
      λ live. absurd (live bad),
    )
    behind_get (reused e there) = (m, e, h, λ _. there)
    behind_get {r} (made m' e v d absent reads) = (
      m',
      e,
      widened order t m m' key r.0 here h (subst (λ c. IsFresh c t) d fresh) reads v,
      λ _. reads key ∙ rw (eq_conn_key_refl key) refl,
    )

  sending-IsSafe : (t : Wires) (s : Sending) → IsGood t s → IsSafe t → IsSafe (after_sending t s)
  unfolding send_warning_to
  sending-IsSafe t s good (m, here, h) =
      let r = get_or_create_connection s.call.connection s.call.dial (some m) s.key in
      let (m', e, h', there) = behind_get t m s.key s.call.dial here h good.fresh (
        get_or_create_connection-Ends m s.key s.call.dial s.call.connection good.honest h.valid
          h.live) in
      rw here (elim (Bool-cases (r.0 == invalid_socket)) [
        | inl bad ↦ rw bad (m', e, quiet t m' r.1 h')
        | inr live ↦ elim (Bool-cases s.call.buffer) [
          | inr denied ↦ rw (live, denied) (m', e, quiet t m' r.1 h')
          | inl given ↦
              rw (live, given, e)
                (after_send-IsSafe t m' s.key r.0 s.warning good.sendable h'
                  (there (λ bad. ground arith)) r.2 s.call.taken good.taken)
        ]
      ])

  unfoldable pub after_sendings : Wires → List Sending → Wires
  after_sendings t [] = t
  after_sendings t (s ∷ ss) = after_sendings (after_sending t s) ss

  -- What `IsGood` asks for, of each sending where it takes place.
  unfoldable pub AllGood : Wires → List Sending → Type 0
  AllGood t [] = Unit
  AllGood t (s ∷ ss) = IsGood t s × AllGood (after_sending t s) ss

  pub sendings-IsSafe :
      (t : Wires) (ss : List Sending) → AllGood t ss → IsSafe t → IsSafe (after_sendings t ss)
  unfolding after_sendings AllGood
  sendings-IsSafe t [] good h = h
  sendings-IsSafe t (s ∷ ss) good h =
      sendings-IsSafe (after_sending t s) ss good.1 (sending-IsSafe t s good.0 h)
