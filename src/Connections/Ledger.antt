-- ===== src/Connections/Ledger.antt =====
-- What becomes of each socket that `get_or_create_connection` in Common/propagator_connections.c
-- has from `socket`.
use ikp_data_propagator.Prelude.{
  ℕ, ◌+◌, ◌≡◌, ◌≢◌, refl, ◌∙◌, ◌&&◌, Option, none, some, List, [], ◌∷◌, ◌==◌, ==_iff, arith,
  if◌then◌else◌, Bool-cases, inl, inr, count, count-append, Status, done, failed, succeeded,
}
use ikp_data_propagator.HashMap.{
  HashMap, Freed, freed_key, freed_value, hashmap_get, hashmap_put, hashmap_remove, hashmap_destroy,
}
use ikp_data_propagator.HashMap.Valid.{IsHonest, IsValid}
use ikp_data_propagator.HashMap.Weight.{stock, freed_weight}
use ikp_data_propagator.HashMap.Ownership.{
  IsOwner, IsOwner-flags, hashmap_put_balance, hashmap_remove_balance, hashmap_destroy_balance,
}
use ikp_data_propagator.HashMap.Put.{hashmap_put-Puts}
use ikp_data_propagator.HashMap.Remove.{hashmap_remove-Removes}
use ikp_data_propagator.Connections.{
  ConnectionKey, connection_key, invalid_socket, Pool, Dial, no_socket, refused, connected,
  ConnectionAlloc, Connection, closed_by, after_put, keep, dialled, reuse_or_dial,
  get_or_create_connection, close_connection, connections_cleanup,
}

-- The socket that `socket` gives.
abbrev pub socket_of : Dial → List ℕ
socket_of no_socket = []
socket_of (refused s) = s ∷ []
socket_of (connected s) = s ∷ []

-- The sockets that a call has from `socket`, by what the pool has for the key.
abbrev pub opened_for : Dial → Option ℕ → List ℕ
opened_for dial none = socket_of dial
opened_for dial (some s) = if s == invalid_socket then socket_of dial else []

unfoldable pub opened : ConnectionAlloc → Dial → Pool → ConnectionKey → List ℕ
opened alloc dial none key = []
opened alloc dial (some m) key =
    if alloc.temp_key && alloc.temp_address
    then opened_for dial (hashmap_get (some m) (some key))
    else []

module _ (j : ℕ) (live : j ≢ invalid_socket) where
  -- The weights that count the socket `j`.
  abbrev pub no_key : ConnectionKey → ℕ
  no_key k = 0

  abbrev pub here : ℕ → ℕ
  here s = if j == s then 1 else 0

  -- How many connections of a pool have the socket.
  abbrev pub pooled : HashMap ConnectionKey ℕ → ℕ
  pooled m = stock no_key here m.buckets

  closed_count :
      (fs : List (Freed ConnectionKey ℕ)) → count j (closed_by fs) ≡ freed_weight no_key here fs
  unfolding count closed_by freed_weight
  closed_count [] = refl
  closed_count (freed_key k ∷ fs) = omega (arith, closed_count fs)
  closed_count (freed_value s ∷ fs) = ground (arith, closed_count fs, ==_iff j s, live)

  -- A call on the pool `m` that had the sockets `new` from `socket` ends with `r`.
  pub record Accounts (m : HashMap ConnectionKey ℕ) (new : List ℕ) (r : Connection) : Type 0 where
    pub pool : HashMap ConnectionKey ℕ
    pub alive : r.1 ≡ some pool
    pub valid : IsValid pool
    pub owner : IsOwner no_key here pool
    pub balance : pooled pool + count j r.2 ≡ pooled m + count j new

  module _ (m : HashMap ConnectionKey ℕ) (v : IsValid m) (o : IsOwner no_key here m) where
    same_pool :
        (s : ℕ) (new closed : List ℕ)
        → count j new ≡ count j closed
        → Accounts m new (s, some m, closed)
    same_pool s new closed e = record {
      pool = m;
      alive = refl;
      valid = v;
      owner = o;
      balance = omega (arith, e);
    }

    after_put-Accounts :
        (key : ConnectionKey) (s : ℕ) (m' : HashMap ConnectionKey ℕ)
        (r : Status × Pool × List (Freed ConnectionKey ℕ))
        → r.1 ≡ some m'
        → IsValid m'
        → IsOwner no_key here m'
        → pooled m' + freed_weight no_key here r.2
          ≡ pooled m + (if succeeded r.0 then 0 + here s else 0)
        → Accounts m (s ∷ []) (after_put s r)
    unfolding count
    after_put-Accounts key s m' (done, pool, freed) e v' o' b = record {
      pool = m';
      alive = e;
      valid = v';
      owner = o';
      balance = omega (arith, b, closed_count freed);
    }
    after_put-Accounts key s m' (failed, pool, freed) e v' o' b = record {
      pool = m';
      alive = e;
      valid = v';
      owner = o';
      balance = omega (arith, b, closed_count freed, count-append j (closed_by freed) (s ∷ []));
    }

    module _ (key : ConnectionKey) (alloc : ConnectionAlloc) (honest : IsHonest alloc.put) where
      keep-Accounts : (s : ℕ) → Accounts m (s ∷ []) (keep alloc m key s)
      unfolding keep
      keep-Accounts s =
          elim (Bool-cases (alloc.new_key && (alloc.new_address && alloc.socket_block))) [
            | inl given ↦
                let (m', e, p) = hashmap_put-Puts alloc.put m key s honest v in
                let owner = IsOwner-flags no_key here m m' o p.flags in
                rw given (
                  after_put-Accounts key s m' (hashmap_put alloc.put (some m) (some key) s) e
                    p.valid owner
                    (hashmap_put_balance no_key here alloc.put m key s m' honest v o e))
            | inr denied ↦ rw denied (same_pool invalid_socket (s ∷ []) (s ∷ []) refl)
          ]

      dialled-Accounts : (dial : Dial) → Accounts m (socket_of dial) (dialled alloc m key dial)
      dialled-Accounts no_socket = same_pool invalid_socket [] [] refl
      dialled-Accounts (refused s) = same_pool invalid_socket (s ∷ []) (s ∷ []) refl
      dialled-Accounts (connected s) = keep-Accounts s

      reuse_or_dial-Accounts :
          (dial : Dial) (existing : Option ℕ)
          → Accounts m (opened_for dial existing) (reuse_or_dial alloc m key dial existing)
      reuse_or_dial-Accounts dial none = dialled-Accounts dial
      reuse_or_dial-Accounts dial (some s) = elim (Bool-cases (s == invalid_socket)) [
        | inl stale ↦ rw stale (dialled-Accounts dial)
        | inr valid ↦ rw valid (same_pool s [] [] refl)
      ]

      pub get_or_create_connection-Accounts :
          (dial : Dial)
          → Accounts m
              (opened alloc dial (some m) key)
              (get_or_create_connection alloc dial (some m) key)
      unfolding opened get_or_create_connection
      get_or_create_connection-Accounts dial =
          elim (Bool-cases (alloc.temp_key && alloc.temp_address)) [
            | inl given ↦ rw given (reuse_or_dial-Accounts dial (hashmap_get (some m) (some key)))
            | inr denied ↦ rw denied (same_pool invalid_socket [] [] refl)
          ]

    pub close_connection-Accounts :
        (key : ConnectionKey)
        → let (pool, closed) = close_connection (some m) key in
          Accounts m [] (invalid_socket, pool, closed)
    unfolding close_connection count
    close_connection-Accounts key =
        let (m', e, p) = hashmap_remove-Removes m key v in
        let freed = (hashmap_remove (some m) (some key)).2 in
        record {
          pool = m';
          alive = e;
          valid = p.valid;
          owner = IsOwner-flags no_key here m m' o p.flags;
          balance =
              omega (arith, hashmap_remove_balance no_key here m key m' v o e, closed_count freed);
        }

    pub connections_cleanup_count : count j (connections_cleanup (some m)).1 ≡ pooled m
    unfolding connections_cleanup
    connections_cleanup_count =
        closed_count (hashmap_destroy (some m)) ∙ hashmap_destroy_balance no_key here m v o
