-- ===== src/Connections/Cleanup.antt =====
-- What `connections_cleanup` in Common/propagator_connections.c closes.
use ikp_data_propagator.Prelude.{
  ℕ, ◌≡◌, refl, ap, ◌∙◌, true, none, some, List, [], ◌∷◌, map, ◌==◌, if◌then◌else◌, flatten,
}
use ikp_data_propagator.HashMap.{HashMap}
use ikp_data_propagator.HashMap.Valid.{IsValid}
use ikp_data_propagator.HashMap.Create.{freed_entry, hashmap_destroy_lem}
use ikp_data_propagator.Connections.{
  ConnectionKey, connection_key, invalid_socket, closed_by, connections_cleanup,
}

-- The valid sockets of the entries of a pool.
unfoldable pub valid_sockets : List (ConnectionKey × ℕ) → List ℕ
valid_sockets [] = []
valid_sockets ((k, s) ∷ entries) =
    let rest = valid_sockets entries in if s == invalid_socket then rest else s ∷ rest

closed_entries :
    (m : HashMap ConnectionKey ℕ) (entries : List (ConnectionKey × ℕ))
    → m.frees_key ≡ true
    → m.frees_value ≡ true
    → closed_by (flatten (map (freed_entry m) entries)) ≡ valid_sockets entries
unfolding closed_by valid_sockets
closed_entries m [] fk fv = refl
closed_entries m ((k, s) ∷ entries) fk fv =
    rw (fk, fv)
      (ap (λ rest. if s == invalid_socket then rest else s ∷ rest) (closed_entries m entries fk fv))

-- On a well-formed pool with its free functions, `connections_cleanup` closes the valid sockets of
-- its connections, each once and nothing else, and leaves no pool.
pub connections_cleanup_lem :
    (m : HashMap ConnectionKey ℕ)
    → IsValid m
    → m.frees_key ≡ true
    → m.frees_value ≡ true
    → connections_cleanup (some m) ≡ (none, valid_sockets (flatten m.buckets))
unfolding connections_cleanup
connections_cleanup_lem m v fk fv =
    ap (λ freed. (none, closed_by freed)) (hashmap_destroy_lem m v)
    ∙ ap (λ closed. (none, closed)) (closed_entries m (flatten m.buckets) fk fv)
