-- ===== src/Connections/Outcomes.antt =====
-- The three ways in which a call of `get_or_create_connection` in
-- Common/propagator_connections.c ends.
use ikp_data_propagator.Prelude.{
  ℕ, ◌≡◌, ◌≢◌, refl, ◌&&◌, none, some, List, [], ◌∷◌, ==_false_of_ne, if◌then◌else◌, Bool-cases,
  Option-cases, inl, inr, Status, done, failed,
}
use ikp_data_propagator.HashMap.{HashMap, Freed, hashmap_put}
use ikp_data_propagator.HashMap.Valid.{IsHonest, IsValid, value_of}
use ikp_data_propagator.HashMap.Put.{Puts, hashmap_put-Puts, hashmap_get_lem}
use ikp_data_propagator.Connections.{
  ConnectionKey, eq_conn_key, connection_key, invalid_socket, Pool, Dial, no_socket, refused,
  connected, ConnectionAlloc, Connection, after_put, keep, dialled, get_or_create_connection,
}

module _ (m : HashMap ConnectionKey ℕ) (key : ConnectionKey) (dial : Dial) where
  -- No socket, and a pool with the same connections; the socket that the pool had; or the one that
  -- `connect` gave, for a key that had none.
  pub data Ends : Connection → Type 0 where
    no_connection :
        {r : Connection} (m' : HashMap ConnectionKey ℕ)
        → r.0 ≡ invalid_socket
        → r.1 ≡ some m'
        → IsValid m'
        → ((q : ConnectionKey) → value_of m' q ≡ value_of m q)
        → Ends r
    reused : {r : Connection} → r.1 ≡ some m → value_of m key ≡ some r.0 → Ends r
    made :
        {r : Connection} (m' : HashMap ConnectionKey ℕ)
        → r.1 ≡ some m'
        → IsValid m'
        → dial ≡ connected r.0
        → value_of m key ≡ none
        → ((q : ConnectionKey)
            → value_of m' q ≡ (if eq_conn_key key q then some r.0 else value_of m q))
        → Ends r

  module _ (alloc : ConnectionAlloc) (honest : IsHonest alloc.put) (v : IsValid m) where
    same : (closed : List ℕ) → Ends (invalid_socket, some m, closed)
    same closed = no_connection m refl refl v (λ q. refl)

    after_put-Ends :
        (s : ℕ) (m' : HashMap ConnectionKey ℕ) (r : Status × Pool × List (Freed ConnectionKey ℕ))
        → value_of m key ≡ none
        → dial ≡ connected s
        → r.1 ≡ some m'
        → Puts alloc.put m key s (r.0, m', r.2)
        → Ends (after_put s r)
    after_put-Ends s m' (done, pool, freed) absent d e p = made m' e p.valid d absent p.reads
    after_put-Ends s m' (failed, pool, freed) absent d e p = no_connection m' refl e p.valid p.reads

    keep-Ends : (s : ℕ) → dial ≡ connected s → value_of m key ≡ none → Ends (keep alloc m key s)
    unfolding keep
    keep-Ends s d absent =
        elim (Bool-cases (alloc.new_key && (alloc.new_address && alloc.socket_block))) [
          | inl given ↦
              let (m', e, p) = hashmap_put-Puts alloc.put m key s honest v in
              rw given
                (after_put-Ends s m' (hashmap_put alloc.put (some m) (some key) s) absent d e p)
          | inr denied ↦ rw denied (same (s ∷ []))
        ]

    dialled-Ends : (d : Dial) → dial ≡ d → value_of m key ≡ none → Ends (dialled alloc m key d)
    dialled-Ends no_socket e absent = same []
    dialled-Ends (refused s) e absent = same (s ∷ [])
    dialled-Ends (connected s) e absent = keep-Ends s e absent

    -- The pool has no INVALID_SOCKET.
    pub get_or_create_connection-Ends :
        ((q : ConnectionKey) (s : ℕ) → value_of m q ≡ some s → s ≢ invalid_socket)
        → Ends (get_or_create_connection alloc dial (some m) key)
    unfolding get_or_create_connection
    get_or_create_connection-Ends live = elim (Bool-cases (alloc.temp_key && alloc.temp_address)) [
      | inr denied ↦ rw denied (same [])
      | inl given ↦ elim (Option-cases (value_of m key)) [
        | inl absent ↦ rw (given, hashmap_get_lem m key v, absent) (dialled-Ends dial refl absent)
        | inr (s, there) ↦
            rw
              (
                given,
                hashmap_get_lem m key v,
                there,
                ==_false_of_ne s invalid_socket (live key s there),
              )
              (reused refl there)
      ]
    ]
