-- ===== src/Wire/Receiver.antt =====
-- Reading warnings from a connection: `recv_all`, `deserialize_warning` and the inner loop of
-- `cp_listener_run` in CentralPropagator/cp_listener.c. (DataDestination/data_destination.c has
-- its own copy of the first two, with the same text.) Winsock's `recv` is a parameter.
pub mod Reads
use mathlib.Core.Option
use ikp_data_propagator.Prelude.{
  ℕ, zero, suc, ◌+◌, ◌-◌, ◌%◌, ◌^◌, ◌≤◌, ◌<◌, ◌≡◌, ◌≢◌, Bool, true, false, Option, none, some, List,
  [], ◌∷◌, ◌++◌, ◌==◌, leb, if◌then◌else◌, length,
}
use ikp_data_propagator.Warning.{Warning, WarningAlloc, warning_create}
use ikp_data_propagator.Wire.{ByteOrder, network_to_host64}
use ikp_data_propagator.Wire.Bytes.{of_le}

-- What one call of `recv` gives: some bytes, or a result that is 0 or negative.
pub data Received : Type 0 where
  got : List ℕ → Received
  ended : Received

-- A connection. `pending` is what will still arrive before it ends; `recv` gives a nonempty
-- piece of it, of any length up to the one asked for, and ends when nothing is left.
pub record Transport : Type 1 where
  pub Socket : Type 0
  pub recv : Socket → ℕ → Received × Socket
  pub pending : Socket → List ℕ
  pub recv_ready :
      (s : Socket) (n : ℕ)
      → 0 < n
      → pending s ≢ []
      → (bs : List ℕ) × (s' : Socket) × (recv s n ≡ (got bs, s'))
        × (0 < length bs)
        × (length bs ≤ n)
        × (pending s ≡ bs ++ pending s')
  pub recv_ended :
      (s : Socket) (n : ℕ)
      → 0 < n
      → pending s ≡ []
      → (s' : Socket) × (recv s n ≡ (ended, s')) × (pending s' ≡ [])

-- The outcome of `malloc` by size, and of the allocations of `warning_create`.
pub record Memory : Type 0 where
  pub malloc : ℕ → Bool
  pub warning : WarningAlloc

module _ (net : Transport) where
  open net use {Socket, recv}

  -- An action on a connection; `none` is a failure, after which the connection is not used.
  abbrev pub Read : Type 0 → Type 0
  Read A = Socket → Option A × Socket

  abbrev pub continue : {A B : Type 0} → (A → Read B) → Option A × Socket → Option B × Socket
  continue f (none, s) = (none, s)
  continue f (some a, s) = f a s

  abbrev pub and_then : {A B : Type 0} → Read A → (A → Read B) → Read B
  and_then m f s = continue f (m s)

  abbrev pub prepend : List ℕ → Option (List ℕ) × Socket → Option (List ℕ) × Socket
  prepend bs (none, s) = (none, s)
  prepend bs (some cs, s) = (some (bs ++ cs), s)

  -- The rest of the loop's body behind the `recv`.
  abbrev pub after_recv : (ℕ → Read (List ℕ)) → Received × Socket → Option (List ℕ) × Socket
  after_recv again (ended, s) = (none, s)
  after_recv again (got bs, s) = prepend bs (again (length bs) s)

  -- The loop of `recv_all` with `want` bytes to go; `none` is the early return of `r <= 0`. Each
  -- round receives a byte at least, so a fuel of `want` is enough.
  unfoldable pub recv_loop : ℕ → ℕ → Read (List ℕ)
  recv_loop fuel zero s = (some [], s)
  recv_loop zero (suc want) s = (none, s)
  recv_loop (suc fuel) (suc want) s =
      after_recv (λ r s'. recv_loop fuel (suc want - r) s') (recv s (suc want))

  -- `n` is an `int`, as its 32 bits: a negative one makes no round.
  unfoldable pub recv_all : ℕ → Read (List ℕ)
  unfolding recv_loop
  recv_all n s = if leb (2 ^ 31) n then (some [], s) else recv_loop n n s

  abbrev pub expect : ℕ → List ℕ → Read (List ℕ)
  expect n bs s = if length bs == n then (some bs, s) else (none, s)

  -- `if (recv_all(s, buf, n) != n) return NULL;`
  unfoldable pub read : ℕ → Read (List ℕ)
  read n = and_then (recv_all n) (expect n)

  -- `char* buf = malloc(n + 1); if (!buf) return NULL;`, where `n + 1` is a `uint32_t`.
  unfoldable pub allocate : Memory → ℕ → Read (Unit {0})
  allocate memory n s = if memory.malloc ((n + 1) % 2 ^ 32) then (some tt, s) else (none, s)

  module _ (order : ByteOrder) (memory : Memory) where
    -- `recv_all(s, (char*)&len32, 4)` and `ntohl(len32)`.
    unfoldable pub read_u32 : Read ℕ
    read_u32 = and_then (read 4) λ bs s. (some (order.ntohl (of_le bs)), s)

    -- A 64-bit number, and `network_to_host64`.
    unfoldable pub read_u64 : Read ℕ
    read_u64 = and_then (read 8) λ bs s. (some (network_to_host64 order (of_le bs)), s)

    -- A length, a buffer for it, and as many bytes.
    unfoldable pub read_text : Read (List ℕ)
    read_text = and_then read_u32 λ len. and_then (allocate memory len) λ _. read len

    unfoldable pub deserialize_warning : Read Warning
    deserialize_warning = and_then read_text λ city. and_then read_text λ dest.
        and_then read_u32 λ kind. and_then read_u64 λ value.
          and_then read_u64 λ ts s. (warning_create memory.warning city kind value ts dest, s)

    abbrev pub serve :
        (Socket → Option (List Warning)) → Option Warning × Socket → Option (List Warning)
    serve again (none, s) = some []
    serve again (some w, s) = Option.map (λ ws. w ∷ ws) (again s)

    -- The loop over one client: the warnings that are submitted, in their order. It ends at the
    -- first message that cannot be read; the fuel bounds the number of messages.
    unfoldable pub serve_client : ℕ → Socket → Option (List Warning)
    serve_client zero s = none
    serve_client (suc fuel) s = serve (λ s'. serve_client fuel s') (deserialize_warning s)
