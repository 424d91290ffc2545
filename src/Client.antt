-- ===== src/Client.antt =====
-- `send_warning_to` in Common/propagator_client.c, over the pool of connections.
pub mod Framing
pub mod Session
pub mod Workers
pub mod Stream
pub mod Sockets
pub mod Safe
pub mod Delivered
use ikp_data_propagator.Prelude.{
  ℕ, Bool, true, false, Option, none, some, List, [], ◌∷◌, ◌++◌, ◌==◌, if◌then◌else◌, take,
}
use ikp_data_propagator.Warning.{Warning}
use ikp_data_propagator.Wire.{ByteOrder, buffer_length, pack}
use ikp_data_propagator.Connections.{
  ConnectionKey, invalid_socket, Pool, Dial, ConnectionAlloc, get_or_create_connection,
  close_connection,
}

-- What happens around one call: the allocations and the dialling of its connection, whether `malloc`
-- gives the buffer, and what `send` gives: how many bytes it took, or none for `SOCKET_ERROR`.
pub record Call : Type 0 where
  pub connection : ConnectionAlloc
  pub dial : Dial
  pub buffer : Bool
  pub taken : Option ℕ

-- The result, the pool behind the call, the bytes that went into a socket, and what was closed.
pub record Outcome : Type 0 where
  pub sent : Bool
  pub pool : Pool
  pub written : List (ℕ × List ℕ)
  pub closed : List ℕ

abbrev pub give_up : Pool → ConnectionKey → List (ℕ × List ℕ) → List ℕ → Outcome
give_up pool key written closed =
    let (pool', others) = close_connection pool key in
    record { sent = false; pool = pool'; written = written; closed = closed ++ others }

-- The part behind `send`, on the buffer that was sent and its length.
abbrev pub after_send : List ℕ → ℕ → ℕ → Pool → ConnectionKey → List ℕ → Option ℕ → Outcome
after_send buf buf_len s pool key closed none = give_up pool key [] closed
after_send buf buf_len s pool key closed (some n) =
    if n == buf_len
    then record { sent = true; pool = pool; written = (s, take n buf) ∷ []; closed = closed }
    else give_up pool key ((s, take n buf) ∷ []) closed

unfoldable pub send_warning_to : ByteOrder → Call → Pool → ConnectionKey → Warning → Outcome
unfolding get_or_create_connection close_connection pack buffer_length
send_warning_to order call pool key w =
    let (s, pool', closed) = get_or_create_connection call.connection call.dial pool key in
    if s == invalid_socket
    then record { sent = false; pool = pool'; written = []; closed = closed }
    else if call.buffer
    then after_send (pack order w) (buffer_length w) s pool' key closed call.taken
    else record { sent = false; pool = pool'; written = []; closed = closed }
