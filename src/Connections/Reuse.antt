-- ===== src/Connections/Reuse.antt =====
-- What a call of `get_or_create_connection` or `close_connection` in
-- Common/propagator_connections.c leaves in the pool.
use ikp_data_propagator.Prelude.{
  ℕ, ◌≡◌, ◌≢◌, refl, ap, sym, ◌∙◌, true, false, ◌&&◌, Option, none, some, List, [], ◌∷◌, ◌==◌,
  ==_false_of_ne, Bool-cases, inl, inr, Status, done, failed,
}
use ikp_data_propagator.HashMap.{HashMap, hashmap_get, hashmap_put, Freed}
use ikp_data_propagator.HashMap.Valid.{IsHonest, IsValid, value_of}
use ikp_data_propagator.HashMap.Put.{Puts, hashmap_put-Puts, hashmap_get_lem}
use ikp_data_propagator.Connections.{
  ConnectionKey, eq_conn_key, eq_conn_key_refl, connection_key, invalid_socket, Pool, Dial,
  no_socket, refused, connected, ConnectionAlloc, Connection, after_put, keep, dialled,
  reuse_or_dial, get_or_create_connection,
}

-- The pool is well formed; a socket that the call gives is in it; the other keys keep theirs.
abbrev pub Pooled : HashMap ConnectionKey ℕ → ConnectionKey → Connection → Type 0
Pooled m key r =
    (m' : HashMap ConnectionKey ℕ) × (r.1 ≡ some m')
    × IsValid m'
    × (r.0 ≢ invalid_socket → value_of m' key ≡ some r.0)
    × ((q : ConnectionKey) → eq_conn_key key q ≡ false → value_of m' q ≡ value_of m q)

unchanged :
    (m : HashMap ConnectionKey ℕ) (key : ConnectionKey) (closed : List ℕ)
    → IsValid m
    → Pooled m key (invalid_socket, some m, closed)
unchanged m key closed v = (m, refl, v, λ ne. absurd (ne refl), λ q _. refl)

after_put-Pooled :
    (alloc : ConnectionAlloc) (m m' : HashMap ConnectionKey ℕ) (key : ConnectionKey) (s : ℕ)
    (r : Status × Pool × List (Freed ConnectionKey ℕ))
    → r.1 ≡ some m'
    → Puts alloc.put m key s (r.0, m', r.2)
    → Pooled m key (after_put s r)
after_put-Pooled alloc m m' key s (done, pool, freed) e p = (
  m',
  e,
  p.valid,
  λ _. p.reads key ∙ rw (eq_conn_key_refl key) refl,
  λ q other. p.reads q ∙ rw other refl,
)
after_put-Pooled alloc m m' key s (failed, pool, freed) e p =
    (m', e, p.valid, λ ne. absurd (ne refl), λ q _. p.reads q)

module _ (alloc : ConnectionAlloc) (honest : IsHonest alloc.put) (m : HashMap ConnectionKey ℕ)
    (v : IsValid m) (key : ConnectionKey) where
  keep-Pooled : (s : ℕ) → Pooled m key (keep alloc m key s)
  unfolding keep
  keep-Pooled s = elim (Bool-cases (alloc.new_key && (alloc.new_address && alloc.socket_block))) [
    | inl given ↦
        let (m', e, p) = hashmap_put-Puts alloc.put m key s honest v in
        rw given
          (after_put-Pooled alloc m m' key s (hashmap_put alloc.put (some m) (some key) s) e p)
    | inr denied ↦ rw denied (unchanged m key (s ∷ []) v)
  ]

  dialled-Pooled : (dial : Dial) → Pooled m key (dialled alloc m key dial)
  dialled-Pooled no_socket = unchanged m key [] v
  dialled-Pooled (refused s) = unchanged m key (s ∷ []) v
  dialled-Pooled (connected s) = keep-Pooled s

  reuse_or_dial-Pooled :
      (dial : Dial) (existing : Option ℕ)
      → value_of m key ≡ existing
      → Pooled m key (reuse_or_dial alloc m key dial existing)
  reuse_or_dial-Pooled dial none e = dialled-Pooled dial
  reuse_or_dial-Pooled dial (some s) e = elim (Bool-cases (s == invalid_socket)) [
    | inl stale ↦ rw stale (dialled-Pooled dial)
    | inr live ↦ rw live (m, refl, v, λ _. e, λ q _. refl)
  ]

  -- Whatever its allocations, `socket` and `connect` do, a call of `get_or_create_connection` keeps
  -- the pool well formed and the sockets of all other keys; a socket that it gives is the one that
  -- the pool then has for the key.
  pub get_or_create_connection-Pooled :
      (dial : Dial) → Pooled m key (get_or_create_connection alloc dial (some m) key)
  unfolding get_or_create_connection
  get_or_create_connection-Pooled dial = elim (Bool-cases (alloc.temp_key && alloc.temp_address)) [
    | inl given ↦ rw given (
        reuse_or_dial-Pooled dial (hashmap_get (some m) (some key)) (sym (hashmap_get_lem m key v)))
    | inr denied ↦ rw denied (unchanged m key [] v)
  ]

pub again :
    (m : HashMap ConnectionKey ℕ) (key : ConnectionKey) (next : ConnectionAlloc) (dial : Dial)
    (s : ℕ)
    → IsValid m
    → next.temp_key && next.temp_address ≡ true
    → value_of m key ≡ some s
    → s ≢ invalid_socket
    → get_or_create_connection next dial (some m) key ≡ (s, some m, [])
unfolding get_or_create_connection
again m key next dial s v given there live =
    rw (given, hashmap_get_lem m key v, there, ==_false_of_ne s invalid_socket live) refl

-- A socket that a call gave is given again by the next call for the same key, whose temporary key
-- can be allocated: no other connection is made, and the pool stays as it is.
pub reuse_lem :
    (alloc next : ConnectionAlloc) (m : HashMap ConnectionKey ℕ) (key : ConnectionKey)
    (dial dial' : Dial)
    → IsHonest alloc.put
    → IsValid m
    → (get_or_create_connection alloc dial (some m) key).0 ≢ invalid_socket
    → next.temp_key && next.temp_address ≡ true
    → get_or_create_connection next dial' (get_or_create_connection alloc dial (some m) key).1 key
      ≡ (
        (get_or_create_connection alloc dial (some m) key).0,
        (get_or_create_connection alloc dial (some m) key).1,
        [],
      )
reuse_lem alloc next m key dial dial' honest v ne given =
    let r = get_or_create_connection alloc dial (some m) key in
    let (m', e, v', there, _) = get_or_create_connection-Pooled alloc honest m v key dial in
    ap (λ p. get_or_create_connection next dial' p key) e
    ∙ again m' key next dial' r.0 v' given (there ne) ne
    ∙ ap (λ p. (r.0, p, [])) (sym e)
