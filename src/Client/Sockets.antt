-- ===== src/Client/Sockets.antt =====
-- The sockets of a process that sends warnings (Common/propagator_client.c): which of them hold whole
-- messages, and how a connection and a message change that.
use ikp_data_propagator.Prelude.{
  ℕ, ◌<◌, ◌≡◌, ◌≢◌, refl, ap, sym, ◌∙◌, some, [], ◌∷◌, ◌++◌, if◌then◌else◌, Bool-cases, ◌⊎◌, inl,
  inr, length, take, ℕ_discrete,
}
use mathlib.Core.List.{append-nil}
use mathlib.Core.Option.{some-injective}
use mathlib.Core.Path.{subst}
use ikp_data_propagator.Warning.{Warning}
use ikp_data_propagator.Wire.{ByteOrder, pack}
use ikp_data_propagator.Wire.Layout.{IsSendable}
use ikp_data_propagator.Wire.RoundTrip.{pack_all}
use ikp_data_propagator.HashMap.{HashMap, hashmap_get}
use ikp_data_propagator.HashMap.Valid.{IsValid, value_of}
use ikp_data_propagator.HashMap.Put.{hashmap_get_lem}
use ikp_data_propagator.Connections.{
  ConnectionKey, connection_key, eq_conn_key, eq_of_eq_conn_key, invalid_socket, Pool, Dial,
  no_socket, refused, connected,
}
use ikp_data_propagator.Client.Stream.{
  Wires, stream, sent_over, stream_self, stream_other, sent_over_self, sent_over_other,
  pack_all-append, AllSendable-append, IsWhole, IsCut, unused-IsWhole, still, still-IsWhole,
}

-- A socket that `connect` gives is not in the pool, and nothing was written to its number before.
abbrev pub IsFresh : Dial → Wires → Type 0
IsFresh no_socket t = Unit
IsFresh (refused s) t = Unit
IsFresh (connected s) t =
    (s ≢ invalid_socket)
    × (stream s t.log ≡ [])
    × ((q : ConnectionKey) → hashmap_get t.pool (some q) ≢ some s)

module _ (order : ByteOrder) where
  -- Each socket of a pool is valid, has whole messages only, and belongs to one key.
  pub record IsFramed (t : Wires) (m : HashMap ConnectionKey ℕ) : Type 0 where
    pub valid : IsValid m
    pub live : (q : ConnectionKey) (s : ℕ) → value_of m q ≡ some s → s ≢ invalid_socket
    pub alone :
        (p q : ConnectionKey) (s : ℕ) → value_of m p ≡ some s → value_of m q ≡ some s → p ≡ q
    pub whole : (q : ConnectionKey) (s : ℕ) → value_of m q ≡ some s → IsWhole order t.log t.sent s
    pub every : (j : ℕ) → IsWhole order t.log t.sent j ⊎ IsCut order t.log t.sent j

  -- Another pool, each of whose connections the pool had.
  pub narrowed :
      (t : Wires) (m m' : HashMap ConnectionKey ℕ)
      → IsFramed t m
      → IsValid m'
      → ((q : ConnectionKey) (s : ℕ) → value_of m' q ≡ some s → value_of m q ≡ some s)
      → IsFramed t m'
  narrowed t m m' h v sub = record {
    valid = v;
    live = λ q s e. h.live q s (sub q s e);
    alone = λ p q s e e'. h.alone p q s (sub p s e) (sub q s e');
    whole = λ q s e. h.whole q s (sub q s e);
    every = h.every;
  }

  module _ (t : Wires) (m m' : HashMap ConnectionKey ℕ) (key : ConnectionKey) (s : ℕ)
      (here : t.pool ≡ some m) (h : IsFramed t m) (fresh : IsFresh (connected s) t)
      (reads : (q : ConnectionKey)
        → value_of m' q ≡ (if eq_conn_key key q then some s else value_of m q)) where
    -- A connection of the pool with one more is the new one, or has another socket.
    new_or_old :
        (q : ConnectionKey) (j : ℕ)
        → value_of m' q ≡ some j
        → ((key ≡ q) × (s ≡ j)) ⊎ ((j ≢ s) × (value_of m q ≡ some j))
    new_or_old q j e = elim (Bool-cases (eq_conn_key key q)) [
      | inl same ↦
          let is_new : value_of m' q ≡ some s = reads q ∙ rw same refl in
          inl (eq_of_eq_conn_key key q same, some-injective _ _ (sym is_new ∙ e))
      | inr other ↦
          let is_old : value_of m' q ≡ value_of m q = reads q ∙ rw other refl in
          let old : value_of m q ≡ some j = sym is_old ∙ e in
          inr (
            λ bad. fresh.2 q (
                ap (λ pool. hashmap_get pool (some q)) here
                ∙ hashmap_get_lem m q h.valid
                ∙ old
                ∙ ap some bad),
            old,
          )
    ]

    -- The pool with one more connection, whose socket is fresh.
    pub widened : IsValid m' → IsFramed t m'
    widened v = record {
      valid = v;
      live = λ q j e. elim (new_or_old q j e) [
        | inl (_, same) ↦ (λ bad. fresh.0 (same ∙ bad))
        | inr (_, old) ↦ h.live q j old
      ];
      alone = λ p q j e e'. elim (new_or_old p j e) [
        | inl (a, x) ↦ elim (new_or_old q j e') [
          | inl (b, _) ↦ sym a ∙ b
          | inr (bad, _) ↦ absurd (bad (sym x))
        ]
        | inr (bad, old) ↦ elim (new_or_old q j e') [
          | inl (_, x) ↦ absurd (bad (sym x))
          | inr (_, old') ↦ h.alone p q j old old'
        ]
      ];
      whole = λ q j e. elim (new_or_old q j e) [
        | inl (_, same) ↦
            unused-IsWhole order t.log t.sent j (ap (λ i. stream i t.log) (sym same) ∙ fresh.1)
              (h.every j)
        | inr (_, old) ↦ h.whole q j old
      ];
      every = h.every;
    }

  -- A message more in a socket of the pool.
  module _ (t : Wires) (m : HashMap ConnectionKey ℕ) (h : IsFramed t m) (s : ℕ) (w : Warning)
      (ok : IsSendable w) where
    abbrev longer : Pool → Wires
    longer pool = record {
      pool = pool;
      log = t.log ++ (s, pack order w) ∷ [];
      sent = t.sent ++ (s, w) ∷ [];
    }

    added :
        (pool : Pool)
        → IsWhole order t.log t.sent s
        → IsWhole order (longer pool).log (longer pool).sent s
    added pool old = record {
      sendable =
          rw (sent_over_self s t.sent w)
            (AllSendable-append order (sent_over s t.sent) w old.sendable ok);
      bytes =
          stream_self s t.log (pack order w)
          ∙ ap (λ l. l ++ pack order w) old.bytes
          ∙ sym (pack_all-append order (sent_over s t.sent) w)
          ∙ ap (pack_all order) (sym (sent_over_self s t.sent w));
    }

    pub more :
        (key : ConnectionKey) (pool : Pool) → value_of m key ≡ some s → IsFramed (longer pool) m
    more key pool there = record {
      valid = h.valid;
      live = h.live;
      alone = h.alone;
      whole = λ q j e. elim (ℕ_discrete j s) [
        | yes same ↦
            subst (λ i. IsWhole order (longer pool).log (longer pool).sent i) (sym same)
              (added pool (h.whole key s there))
        | no ne ↦
            still-IsWhole order t (longer pool) j (stream_other j s t.log _ ne)
              (sent_over_other j s t.sent w ne) (h.whole q j e)
      ];
      every = λ j. elim (ℕ_discrete j s) [
        | yes same ↦ inl (
            subst (λ i. IsWhole order (longer pool).log (longer pool).sent i) (sym same)
              (added pool (h.whole key s there)))
        | no ne ↦
            still order t (longer pool) j (stream_other j s t.log _ ne)
              (sent_over_other j s t.sent w ne) (h.every j)
      ];
    }

    -- A part of a message more in a socket that the pool has no more.
    abbrev broken : Pool → ℕ → Wires
    broken pool k = record {
      pool = pool;
      log = t.log ++ (s, take k (pack order w)) ∷ [];
      sent = t.sent ++ [];
    }

    pub cut_short :
        (key : ConnectionKey) (pool : Pool) (m' : HashMap ConnectionKey ℕ) (k : ℕ)
        → value_of m key ≡ some s
        → k < length (pack order w)
        → IsValid m'
        → ((q : ConnectionKey) (j : ℕ)
            → value_of m' q ≡ some j
            → (value_of m q ≡ some j) × (key ≢ q))
        → IsFramed (broken pool k) m'
    cut_short key pool m' k there short v sub =
        let same_sent : t.sent ++ [] ≡ t.sent = append-nil t.sent in
        let old = h.whole key s there in
        record {
          valid = v;
          live = λ q j e. h.live q j (sub q j e).0;
          alone = λ p q j e e'. h.alone p q j (sub p j e).0 (sub q j e').0;
          whole = λ q j e.
              let other : j ≢ s =
                λ bad. (sub q j e).1 (h.alone key q s there ((sub q j e).0 ∙ ap some bad)) in
              still-IsWhole order t (broken pool k) j (stream_other j s t.log _ other)
                (ap (sent_over j) same_sent) (h.whole q j (sub q j e).0);
          every = λ j. elim (ℕ_discrete j s) [
            | yes same ↦ inr (
                subst (λ i. IsCut order (broken pool k).log (broken pool k).sent i) (sym same)
                  (record {
                    sendable = rw same_sent old.sendable;
                    last = w;
                    last_sendable = ok;
                    arrived = k;
                    part = short;
                    bytes =
                        stream_self s t.log _
                        ∙ ap (λ l. l ++ take k (pack order w))
                            (old.bytes ∙ ap (λ l. pack_all order (sent_over s l)) (sym same_sent));
                  }))
            | no ne ↦
                still order t (broken pool k) j (stream_other j s t.log _ ne)
                  (ap (sent_over j) same_sent) (h.every j)
          ];
        }
