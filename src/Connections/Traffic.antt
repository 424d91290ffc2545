-- ===== src/Connections/Traffic.antt =====
-- Any traffic over the pool of Common/propagator_connections.c, from `connections_init` to
-- `connections_cleanup`.
use ikp_data_propagator.Prelude.{
  ℕ, ◌+◌, ◌≡◌, ◌≢◌, refl, true, none, some, List, [], ◌∷◌, ◌++◌, arith, inl, inr, Bool-cases, ◌&&◌,
  count, count-append,
}
use ikp_data_propagator.HashMap.{HashMap, Alloc, hashmap_create, hashmap_remove, hashmap_destroy}
use ikp_data_propagator.HashMap.Valid.{IsHonest, IsValid}
use ikp_data_propagator.HashMap.Create.{hashmap_create-Created}
use ikp_data_propagator.HashMap.Weight.{stock-replicate}
use ikp_data_propagator.HashMap.Ownership.{IsOwner, both_owned}
use ikp_data_propagator.Connections.{
  ConnectionKey, connection_key, invalid_socket, Pool, Dial, ConnectionAlloc, closed_by,
  get_or_create_connection, close_connection, connections_init, connections_cleanup,
}
use ikp_data_propagator.Connections.Ledger.{
  opened, pooled, no_key, here, Accounts, get_or_create_connection-Accounts,
  close_connection-Accounts, connections_cleanup_count,
}

-- A call on the pool.
pub data Request : Type 0 where
  get : ConnectionAlloc → Dial → ConnectionKey → Request
  close : ConnectionKey → Request

-- The pool so far, the sockets that `socket` gave and those that were closed.
pub record Traffic : Type 0 where
  pub pool : Pool
  pub given : List ℕ
  pub closed : List ℕ

abbrev pub after_request : Traffic → Request → Traffic
after_request t (get alloc dial key) =
    let (_, pool, closed) = get_or_create_connection alloc dial t.pool key in
    record {
      pool = pool;
      given = opened alloc dial t.pool key ++ t.given;
      closed = closed ++ t.closed;
    }
after_request t (close key) =
    let (pool, closed) = close_connection t.pool key in
    record { pool = pool; given = t.given; closed = closed ++ t.closed }

unfoldable pub after_requests : Traffic → List Request → Traffic
after_requests t [] = t
after_requests t (r ∷ rs) = after_requests (after_request t r) rs

-- The traffic from `connections_init` on, and then with `connections_cleanup` at its end.
abbrev pub traffic : Alloc → List Request → Traffic
traffic alloc rs =
    after_requests (record { pool = connections_init alloc; given = []; closed = [] }) rs

abbrev pub cleaned : Traffic → Traffic
cleaned t =
    let (pool, closed) = connections_cleanup t.pool in
    record { pool = pool; given = t.given; closed = closed ++ t.closed }

abbrev pub AllHonest : List Request → Type 0
AllHonest [] = Unit
AllHonest (get alloc dial key ∷ rs) = IsHonest alloc.put × AllHonest rs
AllHonest (close key ∷ rs) = AllHonest rs

module _ (j : ℕ) (live : j ≢ invalid_socket) where
  -- How many connections of the pool have the socket.
  abbrev pub in_pool : Pool → ℕ
  in_pool none = 0
  in_pool (some m) = pooled j live m

  abbrev pub IsSound : Pool → Type 0
  IsSound none = Unit
  IsSound (some m) = IsValid m × IsOwner (no_key j live) (here j live) m

  abbrev pub IsAccounted : Traffic → Type 0
  IsAccounted t = IsSound t.pool × (in_pool t.pool + count j t.closed ≡ count j t.given)

  accounted :
      (m : HashMap ConnectionKey ℕ) (new given closed : List ℕ) (s : ℕ) (p : Pool) (more : List ℕ)
      → Accounts j live m new (s, p, more)
      → in_pool (some m) + count j closed ≡ count j given
      → IsAccounted (record { pool = p; given = new ++ given; closed = more ++ closed })
  accounted m new given closed s p more a h = rw a.alive (
    (a.valid, a.owner),
    omega (arith, a.balance, h, count-append j new given, count-append j more closed),
  )

  pub get-IsAccounted :
      (p : Pool) (given closed : List ℕ) (alloc : ConnectionAlloc) (dial : Dial)
      (key : ConnectionKey)
      → IsHonest alloc.put
      → IsAccounted (record { pool = p; given = given; closed = closed })
      → IsAccounted
          (after_request (record { pool = p; given = given; closed = closed }) (get alloc dial key))
  unfolding get_or_create_connection opened
  get-IsAccounted none given closed alloc dial key honest h = h
  get-IsAccounted (some m) given closed alloc dial key honest (s, h) =
      accounted m _ given closed _ _ _
        (get_or_create_connection-Accounts j live m s.0 s.1 key alloc honest dial) h

  pub close-IsAccounted :
      (p : Pool) (given closed : List ℕ) (key : ConnectionKey)
      → IsAccounted (record { pool = p; given = given; closed = closed })
      → IsAccounted
          (after_request (record { pool = p; given = given; closed = closed }) (close key))
  unfolding close_connection hashmap_remove closed_by
  close-IsAccounted none given closed key h = h
  close-IsAccounted (some m) given closed key (s, h) =
      accounted m [] given closed invalid_socket _ _
        (close_connection-Accounts j live m s.0 s.1 key) h

  requests-IsAccounted :
      (t : Traffic) (rs : List Request)
      → AllHonest rs
      → IsAccounted t
      → IsAccounted (after_requests t rs)
  unfolding after_requests
  requests-IsAccounted t [] honest h = h
  requests-IsAccounted t (get alloc dial key ∷ rs) honest h =
      requests-IsAccounted (after_request t (get alloc dial key)) rs honest.1
        (get-IsAccounted t.pool t.given t.closed alloc dial key honest.0 h)
  requests-IsAccounted t (close key ∷ rs) honest h =
      requests-IsAccounted (after_request t (close key)) rs honest
        (close-IsAccounted t.pool t.given t.closed key h)

  pub init-IsAccounted :
      (alloc : Alloc)
      → IsHonest alloc
      → IsAccounted (record { pool = connections_init alloc; given = []; closed = [] })
  unfolding connections_init hashmap_create count
  init-IsAccounted alloc honest = elim (Bool-cases (alloc.malloc && alloc.calloc 16)) [
    | inl given ↦
        let made =
          rw given at (hashmap_create-Created ConnectionKey ℕ alloc 16 true true true honest) in
        rw given (
          (made.0.valid, both_owned (no_key j live) (here j live) _ refl refl),
          omega (arith, stock-replicate {K = ConnectionKey} (no_key j live) (here j live) 16),
        )
    | inr denied ↦ rw denied (tt, refl)
  ]

  pub cleaned_count :
      (p : Pool) (given closed : List ℕ)
      → IsAccounted (record { pool = p; given = given; closed = closed })
      → count j ((connections_cleanup p).1 ++ closed) ≡ count j given
  unfolding connections_cleanup hashmap_destroy closed_by
  cleaned_count none given closed (_, h) = omega (arith, h)
  cleaned_count (some m) given closed (s, h) = omega (
    arith,
    h,
    count-append j (connections_cleanup (some m)).1 closed,
    connections_cleanup_count j live m s.0 s.1,
  )

  -- Whatever the calls' allocations, `socket` and `connect` do, at each moment between
  -- `connections_init` and `connections_cleanup` every socket other than INVALID_SOCKET was given by
  -- `socket` as often as the pool has it and it was closed, together; and behind
  -- `connections_cleanup` it was closed exactly as often as `socket` gave it.
  pub traffic_lem :
      (alloc : Alloc) (rs : List Request)
      → IsHonest alloc
      → AllHonest rs
      → let t = traffic alloc rs in
        (in_pool t.pool + count j t.closed ≡ count j t.given)
        × (count j (cleaned t).closed ≡ count j t.given)
        × ((cleaned t).pool ≡ none)
  unfolding connections_cleanup
  traffic_lem alloc rs honest all =
      let h = requests-IsAccounted _ rs all (init-IsAccounted alloc honest) in
      let t = traffic alloc rs in (h.1, cleaned_count t.pool t.given t.closed h, refl)
