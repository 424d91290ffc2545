-- ===== src/Client/Workers.antt =====
-- Several threads in `send_warning_to` (Common/propagator_client.c) at a time, as the workers of a
-- propagator's pool are. `get_or_create_connection` and `close_connection` are each one action, by
-- their critical section; between the two a worker holds a socket that others hold too.
use ikp_data_propagator.Prelude.{
  ℕ, ◌≡◌, ◌≢◌, refl, ap, sym, ◌∙◌, false, ◌&&◌, Option, none, some, List, [], ◌∷◌, arith, ◌==◌,
  if◌then◌else◌, Bool-cases, Option-cases, inl, inr,
}
use mathlib.Core.Option.{some-injective}
use ikp_data_propagator.HashMap.{HashMap}
use ikp_data_propagator.HashMap.Valid.{IsHonest, IsValid, value_of}
use ikp_data_propagator.HashMap.Remove.{hashmap_remove-Removes}
use ikp_data_propagator.Connections.{
  ConnectionKey, connection_key, eq_conn_key, eq_of_eq_conn_key, invalid_socket, Pool, Dial,
  ConnectionAlloc, get_or_create_connection, close_connection,
}
use ikp_data_propagator.Connections.Reuse.{get_or_create_connection-Pooled, again}

-- `fetch` is the call of `get_or_create_connection`; `finish` is the return behind a `send` that took
-- all, or behind a `malloc` that failed; `hang_up` is the call of `close_connection` and the return.
pub data Action : Type 0 where
  fetch : ℕ → ConnectionAlloc → Dial → ConnectionKey → Action
  finish hang_up : ℕ → Action

-- What a worker holds.
pub record Hold : Type 0 where
  pub key : ConnectionKey
  pub socket : ℕ

pub record Workers : Type 0 where
  pub pool : Pool
  pub holds : ℕ → Option Hold

abbrev pub with_hold : ℕ → Option Hold → (ℕ → Option Hold) → ℕ → Option Hold
with_hold i h holds k = if k == i then h else holds k

abbrev pub fetched : ConnectionKey → ℕ → Option Hold
fetched key s = if s == invalid_socket then none else some (record { key = key; socket = s })

abbrev pub closed_pool : Pool → Option Hold → Pool
closed_pool pool none = pool
closed_pool pool (some h) = (close_connection pool h.key).0

unfoldable pub step : Action → Workers → Workers
unfolding get_or_create_connection close_connection
step (fetch i alloc dial key) w =
    let (s, pool, _) = get_or_create_connection alloc dial w.pool key in
    record { pool = pool; holds = with_hold i (fetched key s) w.holds }
step (finish i) w = record w { holds = with_hold i none w.holds }
step (hang_up i) w = record {
  pool = closed_pool w.pool (w.holds i);
  holds = with_hold i none w.holds;
}

unfoldable pub run : List Action → Workers → Workers
unfolding step
run [] w = w
run (a ∷ actions) w = run actions (step a w)

-- Each socket that a worker holds is the one that the pool has for its key.
pub record IsCurrent (w : Workers) : Type 0 where
  pub map : HashMap ConnectionKey ℕ
  pub alive : w.pool ≡ some map
  pub valid : IsValid map
  pub current :
      (i : ℕ) (h : Hold)
      → w.holds i ≡ some h
      → (h.socket ≢ invalid_socket) × (value_of map h.key ≡ some h.socket)

-- No other worker holds a connection by the key that the worker gives up.
abbrev pub IsAlone : ℕ → Option Hold → Workers → Type 0
IsAlone i none w = Unit
IsAlone i (some h) w =
    (k : ℕ) (other : Hold) → k ≢ i → w.holds k ≡ some other → eq_conn_key h.key other.key ≡ false

-- The allocations are honest, and a connection is given up only by a worker that is alone with it.
abbrev pub IsCalm : List Action → Workers → Type 0
IsCalm [] w = Unit
IsCalm (fetch i alloc dial key ∷ actions) w =
    IsHonest alloc.put × IsCalm actions (step (fetch i alloc dial key) w)
IsCalm (finish i ∷ actions) w = IsCalm actions (step (finish i) w)
IsCalm (hang_up i ∷ actions) w = IsAlone i (w.holds i) w × IsCalm actions (step (hang_up i) w)

-- A key that the pool has a valid socket for keeps the pool as it is.
same_pool :
    (alloc : ConnectionAlloc) (dial : Dial) (m : HashMap ConnectionKey ℕ) (key : ConnectionKey)
    (s : ℕ)
    → IsValid m
    → value_of m key ≡ some s
    → s ≢ invalid_socket
    → (get_or_create_connection alloc dial (some m) key).1 ≡ some m
unfolding get_or_create_connection
same_pool alloc dial m key s v there live =
    elim (Bool-cases (alloc.temp_key && alloc.temp_address)) [
      | inl given ↦ ap (λ r. r.1) (again m key alloc dial s v given there live)
      | inr denied ↦ rw denied refl
    ]

module _ (w : Workers) (c : IsCurrent w) where
  finish-IsCurrent : (i : ℕ) → IsCurrent (step (finish i) w)
  unfolding step
  finish-IsCurrent i = record {
    map = c.map;
    alive = c.alive;
    valid = c.valid;
    current = λ k h e. ground (arith, c.current k h);
  }

  fetched_hold :
      (m' : HashMap ConnectionKey ℕ) (key : ConnectionKey) (s : ℕ) (h : Hold)
      → (s ≢ invalid_socket → value_of m' key ≡ some s)
      → fetched key s ≡ some h
      → (h.socket ≢ invalid_socket) × (value_of m' h.key ≡ some h.socket)
  fetched_hold m' key s h there e = elim (Bool-cases (s == invalid_socket)) [
    | inl invalid ↦ let none_held : none ≡ some h = rw invalid at e in cc
    | inr valid ↦
        let same : record { key = key; socket = s } ≡ h = some-injective _ _ (rw valid at e) in
        let live : s ≢ invalid_socket = ground arith in rw (← same) (live, there live)
  ]

  kept_hold :
      (alloc : ConnectionAlloc) (dial : Dial) (key : ConnectionKey) (m' : HashMap ConnectionKey ℕ)
      (k : ℕ) (h : Hold)
      → (get_or_create_connection alloc dial (some c.map) key).1 ≡ some m'
      → ((q : ConnectionKey) → eq_conn_key key q ≡ false → value_of m' q ≡ value_of c.map q)
      → w.holds k ≡ some h
      → (h.socket ≢ invalid_socket) × (value_of m' h.key ≡ some h.socket)
  kept_hold alloc dial key m' k h e others held =
      let (live, there) = c.current k h held in
      elim (Bool-cases (eq_conn_key key h.key)) [
        | inr other ↦ (live, others h.key other ∙ there)
        | inl same ↦
            let same_key : key ≡ h.key = eq_of_eq_conn_key key h.key same in
            let at_key : value_of c.map key ≡ some h.socket =
              ap (value_of c.map) same_key ∙ there in
            let unchanged : m' ≡ c.map =
              some-injective _ _
                (sym e ∙ same_pool alloc dial c.map key h.socket c.valid at_key live) in
            (live, ap (λ m. value_of m h.key) unchanged ∙ there)
      ]

  fetch-IsCurrent :
      (i : ℕ) (alloc : ConnectionAlloc) (dial : Dial) (key : ConnectionKey)
      → IsHonest alloc.put
      → IsCurrent (step (fetch i alloc dial key) w)
  unfolding step
  fetch-IsCurrent i alloc dial key honest =
      let (m', e, v', there, others) =
        get_or_create_connection-Pooled alloc honest c.map c.valid key dial in
      let r = get_or_create_connection alloc dial (some c.map) key in
      rw c.alive (record {
        map = m';
        alive = e;
        valid = v';
        current = λ k h held. elim (Bool-cases (k == i)) [
          | inl mine ↦ fetched_hold m' key r.0 h there (rw mine at held)
          | inr other ↦ kept_hold alloc dial key m' k h e others (rw other at held)
        ];
      })

  hang_up-IsCurrent : (i : ℕ) → IsAlone i (w.holds i) w → IsCurrent (step (hang_up i) w)
  unfolding step close_connection
  hang_up-IsCurrent i alone = elim (Option-cases (w.holds i)) [
    | inl e ↦ rw e (finish-IsCurrent i)
    | inr (h, e) ↦
        let (m', e', r) = hashmap_remove-Removes c.map h.key c.valid in
        let away = rw e at alone in
        rw (e, c.alive)
          (record {
            map = m';
            alive = e';
            valid = r.valid;
            current = λ k other held. elim (Bool-cases (k == i)) [
              | inl mine ↦ let none_held : none ≡ some other = rw mine at held in cc
              | inr elsewhere ↦
                  let held' : w.holds k ≡ some other = rw elsewhere at held in
                  let (live, there) = c.current k other held' in
                  let kept = away k other (ground arith) held' in
                  (live, r.reads other.key ∙ rw kept there)
            ];
          })
  ]

-- From a well-formed pool in which every socket that a worker holds is the one of its key, whatever
-- workers fetch connections, send
-- and return in whatever order: as long as a worker gives up a connection only while no other one
-- holds a connection by the same key, every socket that a worker holds is valid and is the one that
-- the pool has for its key.
pub run-IsCurrent :
    (actions : List Action) (w : Workers)
    → IsCurrent w
    → IsCalm actions w
    → IsCurrent (run actions w)
unfolding run
run-IsCurrent [] w c calm = c
run-IsCurrent (fetch i alloc dial key ∷ actions) w c calm =
    run-IsCurrent actions (step (fetch i alloc dial key) w)
      (fetch-IsCurrent w c i alloc dial key calm.0) calm.1
run-IsCurrent (finish i ∷ actions) w c calm =
    run-IsCurrent actions (step (finish i) w) (finish-IsCurrent w c i) calm
run-IsCurrent (hang_up i ∷ actions) w c calm =
    run-IsCurrent actions (step (hang_up i) w) (hang_up-IsCurrent w c i calm.0) calm.1
