-- ===== src/Connections.antt =====
-- Common/propagator_connections.c: the pool of sockets by address and port. What `socket` and
-- `connect` do is an argument of the call that makes them.
pub mod Reuse
pub mod Outcomes
pub mod Close
pub mod Cleanup
pub mod Ledger
pub mod Traffic
use ikp_data_propagator.Prelude.{
  ℕ, ◌+◌, ◌-◌, ◌*◌, ◌%◌, ◌≡◌, refl, ap, ap₂, Bool, true, false, ◌&&◌, Option, none, some, List, [],
  ◌∷◌, ◌++◌, arith, ◌==◌, ltb, if◌then◌else◌, size_mod, Status, done, failed,
}
use ikp_data_propagator.Text.{
  Text, hash_step, eq_string, eq_string_refl, eq_string_symm, eq_of_eq_string,
}
use ikp_data_propagator.HashMap.{
  KeyOps, HashMap, Freed, freed_key, freed_value, Alloc, hashmap_create, hashmap_put, hashmap_get,
  hashmap_remove, hashmap_destroy,
}

-- `struct ConnectionKey`
pub record ConnectionKey : Type 0 where
  pub address : Text
  pub port : ℕ

-- A `char` is signed here: a byte from 128 on adds a negative number to the `size_t`.
abbrev pub signed_char : ℕ → ℕ
signed_char c = if ltb c 128 then c else c + size_mod - 256

unfoldable pub hash_address : ℕ → Text → ℕ
hash_address h [] = h
hash_address h (c ∷ s) = hash_address (hash_step h (signed_char c)) s

unfoldable pub hash_conn_key : ConnectionKey → ℕ
unfolding hash_address
hash_conn_key key = hash_step (hash_address 5381 key.address) key.port

unfoldable pub eq_conn_key : ConnectionKey → ConnectionKey → Bool
eq_conn_key a b = eq_string a.address b.address && (a.port == b.port)

pub eq_conn_key_refl : (a : ConnectionKey) → eq_conn_key a a ≡ true
unfolding eq_conn_key
eq_conn_key_refl a = ground (arith, eq_string_refl a.address)

pub eq_conn_key_symm : (a b : ConnectionKey) → eq_conn_key a b ≡ eq_conn_key b a
unfolding eq_conn_key
eq_conn_key_symm a b = ground (arith, eq_string_symm a.address b.address)

pub eq_of_eq_conn_key : (a b : ConnectionKey) → eq_conn_key a b ≡ true → a ≡ b
unfolding eq_conn_key
eq_of_eq_conn_key a b e =
    let same : eq_string a.address b.address ≡ true = ground arith in
    let port : a.port ≡ b.port = ground arith in
    ap₂ (λ s p. record { address = s; port = p }) (eq_of_eq_string a.address b.address same) port

pub eq_conn_key_trans :
    (a b c : ConnectionKey)
    → eq_conn_key a b ≡ true
    → eq_conn_key b c ≡ true
    → eq_conn_key a c ≡ true
eq_conn_key_trans a b c p q =
    rw (eq_of_eq_conn_key a b p, eq_of_eq_conn_key b c q) (eq_conn_key_refl c)

instance abbrev pub connection_key : KeyOps ConnectionKey
connection_key = record {
  hash_func = hash_conn_key;
  key_eq = eq_conn_key;
  key_eq_refl = eq_conn_key_refl;
  key_eq_symm = eq_conn_key_symm;
  key_eq_trans = eq_conn_key_trans;
  hash_func-key_eq = λ a b e. ap hash_conn_key (eq_of_eq_conn_key a b e);
}

-- `INVALID_SOCKET`
abbrev pub invalid_socket : ℕ
invalid_socket = size_mod - 1

abbrev pub Pool : Type 0
Pool = Option (HashMap ConnectionKey ℕ)

-- What `socket` and `connect` do; the socket is the one that `socket` gave.
pub data Dial : Type 0 where
  no_socket : Dial
  refused : ℕ → Dial
  connected : ℕ → Dial

-- The outcome of the allocations of one call.
pub record ConnectionAlloc : Type 0 where
  pub temp_key : Bool
  pub temp_address : Bool
  pub new_key : Bool
  pub new_address : Bool
  pub socket_block : Bool
  pub put : Alloc

-- The sockets that `free_socket` closes, where the map frees keys and values.
unfoldable pub closed_by : List (Freed ConnectionKey ℕ) → List ℕ
closed_by [] = []
closed_by (freed_key k ∷ fs) = closed_by fs
closed_by (freed_value s ∷ fs) =
    let rest = closed_by fs in if s == invalid_socket then rest else s ∷ rest

-- A socket, the pool behind the call, and the sockets that were closed.
abbrev pub Connection : Type 0
Connection = ℕ × Pool × List ℕ

abbrev pub after_put : ℕ → Status × Pool × List (Freed ConnectionKey ℕ) → Connection
after_put s (done, pool, freed) = (s, pool, closed_by freed)
after_put s (failed, pool, freed) = (invalid_socket, pool, closed_by freed ++ s ∷ [])

-- A socket that is connected gets a key and a block, and goes into the map.
unfoldable pub keep : ConnectionAlloc → HashMap ConnectionKey ℕ → ConnectionKey → ℕ → Connection
unfolding closed_by
keep alloc m key s =
    if alloc.new_key && (alloc.new_address && alloc.socket_block)
    then after_put s (hashmap_put alloc.put (some m) (some key) s)
    else (invalid_socket, some m, s ∷ [])

abbrev pub dialled : ConnectionAlloc → HashMap ConnectionKey ℕ → ConnectionKey → Dial → Connection
dialled alloc m key no_socket = (invalid_socket, some m, [])
dialled alloc m key (refused s) = (invalid_socket, some m, s ∷ [])
dialled alloc m key (connected s) = keep alloc m key s

-- The part behind the lookup.
abbrev pub reuse_or_dial :
    ConnectionAlloc → HashMap ConnectionKey ℕ → ConnectionKey → Dial → Option ℕ → Connection
reuse_or_dial alloc m key dial none = dialled alloc m key dial
reuse_or_dial alloc m key dial (some s) =
    if s == invalid_socket then dialled alloc m key dial else (s, some m, [])

unfoldable pub get_or_create_connection : ConnectionAlloc → Dial → Pool → ConnectionKey → Connection
unfolding keep
get_or_create_connection alloc dial none key = (invalid_socket, none, [])
get_or_create_connection alloc dial (some m) key =
    if alloc.temp_key && alloc.temp_address
    then reuse_or_dial alloc m key dial (hashmap_get (some m) (some key))
    else (invalid_socket, some m, [])

-- The pool behind the call, and what was closed.
unfoldable pub close_connection : Pool → ConnectionKey → Pool × List ℕ
unfolding closed_by
close_connection pool key =
    let (_, pool', freed) = hashmap_remove pool (some key) in (pool', closed_by freed)

unfoldable pub connections_init : Alloc → Pool
connections_init alloc = hashmap_create alloc 16 true true true

unfoldable pub connections_cleanup : Pool → Pool × List ℕ
unfolding closed_by
connections_cleanup pool = (none, closed_by (hashmap_destroy pool))
