-- ===== src/Connections/Close.antt =====
-- What `close_connection` in Common/propagator_connections.c closes.
use ikp_data_propagator.Prelude.{
  ℕ, ◌≡◌, refl, ap, ◌∙◌, true, Option, none, some, List, [], ◌∷◌, ◌==◌, if◌then◌else◌, Option-cases,
  inl, inr,
}
use ikp_data_propagator.HashMap.{HashMap}
use ikp_data_propagator.HashMap.Valid.{IsValid, value_of}
use ikp_data_propagator.HashMap.Buckets.{chain_of, view}
use ikp_data_propagator.HashMap.Chain.{find_key-find}
use ikp_data_propagator.HashMap.Remove.{freed_by_remove, stored_key, hashmap_remove-Removes}
use ikp_data_propagator.Connections.{
  ConnectionKey, eq_conn_key, connection_key, invalid_socket, closed_by, close_connection,
}

abbrev pub closes_old : Option ℕ → List ℕ
closes_old none = []
closes_old (some s) = if s == invalid_socket then [] else s ∷ []

module _ (m : HashMap ConnectionKey ℕ) (key : ConnectionKey) (v : IsValid m) where
  closed_lem :
      m.frees_key ≡ true
      → m.frees_value ≡ true
      → closed_by (freed_by_remove m (value_of m key) (stored_key m key))
        ≡ closes_old (value_of m key)
  unfolding closed_by view
  closed_lem fk fv = elim (Option-cases (value_of m key)) [
    | inl e ↦ rw e refl
    | inr (old, e) ↦
        let (j, ej, _) = find_key-find key (chain_of m.buckets key) old e in rw (e, ej, fk, fv) refl
  ]

  -- On a well-formed pool that frees what it drops, `close_connection` forgets the key's socket and
  -- no other, closes it if there was a valid one, and closes nothing else.
  pub close_connection_lem :
      m.frees_key ≡ true
      → m.frees_value ≡ true
      → (m' : HashMap ConnectionKey ℕ) × ((close_connection (some m) key).0 ≡ some m')
        × IsValid m'
        × ((q : ConnectionKey) → value_of m' q ≡ (if eq_conn_key key q then none else value_of m q))
        × ((close_connection (some m) key).1 ≡ closes_old (value_of m key))
  unfolding close_connection
  close_connection_lem fk fv =
      let (m', e, r) = hashmap_remove-Removes m key v in
      (m', e, r.valid, r.reads, ap closed_by r.frees ∙ closed_lem fk fv)
