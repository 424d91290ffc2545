-- ===== src/Wire.antt =====
-- The message format: `send_warning_to` in Common/propagator_client.c packs a warning, and
-- `deserialize_warning` in CentralPropagator/cp_listener.c reads it back. The host is
-- little-endian (x86), so `memcpy` of an integer copies its lowest byte first. Winsock's
-- `htonl` and `ntohl` are a parameter with what its documentation says of them.
pub mod Bytes
pub mod Layout
pub mod Receiver
pub mod Copy
pub mod RoundTrip
pub mod Truncated
use Prim.Native.Nat.{bit_or}
use ikp_data_propagator.Prelude.{
  ℕ, zero, suc, ◌+◌, ◌*◌, ◌/◌, ◌%◌, ◌^◌, ◌<◌, ◌≡◌, List, [], ◌∷◌, ◌++◌, length, take,
}
use ikp_data_propagator.Text.{Text}
use ikp_data_propagator.Warning.{Warning}
use Bytes.{le_bytes, be_bytes, of_le, of_be}

-- `htonl` gives the number whose bytes in memory are those of its argument, the highest first;
-- `ntohl` reads such a number back.
pub record ByteOrder : Type 0 where
  pub htonl : ℕ → ℕ
  pub ntohl : ℕ → ℕ
  pub htonl_lt : (x : ℕ) → x < 2 ^ 32 → htonl x < 2 ^ 32
  pub htonl_bytes : (x : ℕ) → x < 2 ^ 32 → le_bytes 4 (htonl x) ≡ be_bytes 4 x
  pub ntohl_bytes : (x : ℕ) → x < 2 ^ 32 → ntohl (of_le (be_bytes 4 x)) ≡ x

-- `(uint32_t)strlen(s)`
abbrev pub len32 : Text → ℕ
len32 s = length s % 2 ^ 32

-- `buf_len`: the sum is one of `uint32_t`, and wraps as such.
unfoldable pub buffer_length : Warning → ℕ
buffer_length w = (4 + len32 w.city + 4 + len32 w.dest_node + 4 + 8 + 8) % 2 ^ 32

module _ (order : ByteOrder) where
  -- `((uint64_t)lo << 32) | hi`
  unfoldable pub host_to_network64 : ℕ → ℕ
  host_to_network64 x =
      let hi = x / 2 ^ 32 % 2 ^ 32 in
      let lo = x % 2 ^ 32 in bit_or (order.htonl lo * 2 ^ 32) (order.htonl hi)

  -- `network_to_host64` of Common/utils.c.
  unfoldable pub network_to_host64 : ℕ → ℕ
  network_to_host64 x =
      let hi_net = x % 2 ^ 32 in
      let lo_net = x / 2 ^ 32 % 2 ^ 32 in bit_or (order.ntohl hi_net * 2 ^ 32) (order.ntohl lo_net)

  -- The bytes that the `memcpy` calls put into the buffer, in their order.
  unfoldable pub pack : Warning → List ℕ
  pack w =
      le_bytes 4 (order.htonl (len32 w.city))
      ++ (take (len32 w.city) w.city
          ++ (le_bytes 4 (order.htonl (len32 w.dest_node))
              ++ (take (len32 w.dest_node) w.dest_node
                  ++ (le_bytes 4 (order.htonl (w.kind % 2 ^ 32))
                      ++ (le_bytes 8 (host_to_network64 w.value)
                          ++ le_bytes 8 (host_to_network64 w.timestamp))))))
