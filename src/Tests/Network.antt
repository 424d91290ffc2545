-- ===== src/Tests/Network.antt =====
-- The message format and the routes: runs of the definitions, and the theorems at concrete inputs.
use ikp_data_propagator.Prelude.{
  false, none, ℕ, ◌<◌, ◌≤◌, ◌≡◌, ◌≢◌, refl, ap, ap₂, ◌∙◌, true, some, List, [], ◌∷◌, ◌++◌, arith,
  length, take,
}
use ikp_data_propagator.Text.{string_key}
use ikp_data_propagator.Warning.{Warning}
use ikp_data_propagator.Wire.Bytes.{le_bytes, be_bytes, of_le, of_be, of_be-be_bytes4}
use ikp_data_propagator.Wire.{ByteOrder, buffer_length, pack}
use ikp_data_propagator.Wire.Layout.{IsSendable, message, pack-message}
use ikp_data_propagator.Wire.Receiver.{
  Received, got, ended, Transport, Memory, deserialize_warning, serve_client,
}
use ikp_data_propagator.Wire.Truncated.{serve_truncated}
use ikp_data_propagator.Wire.Copy.{dd_deserialize_warning}
use ikp_data_propagator.Wire.Copy.Same.{clean, deserialize_lem}
use ikp_data_propagator.Wire.RoundTrip.{IsAmple, serve_client_lem, pack_all}
use ikp_data_propagator.Listeners.{cp_listener_run, dd_count}
use ikp_data_propagator.Listeners.Clients.{cp_listener_run_lem, dd_count_lem}

-- `htonl` and `ntohl` of a little-endian host.
pub le_bytes-of_le : (x : ℕ) → le_bytes 4 (of_le (be_bytes 4 x)) ≡ be_bytes 4 x
le_bytes-of_le x =
    ap₂ ◌∷◌ (omega arith)
      (ap₂ ◌∷◌ (omega arith) (ap₂ ◌∷◌ (omega arith) (ap₂ ◌∷◌ (omega arith) refl)))

abbrev pub little_endian : ByteOrder
little_endian = record {
  htonl = λ x. of_le (be_bytes 4 x);
  ntohl = λ x. of_be (le_bytes 4 x);
  htonl_lt = λ x lt. omega arith;
  htonl_bytes = λ x lt. le_bytes-of_le x;
  ntohl_bytes = λ x lt. ap of_be (le_bytes-of_le x) ∙ of_be-be_bytes4 x lt;
}

-- A connection that gives one byte at a time.
abbrev pub trickle : List ℕ → ℕ → Received × List ℕ
trickle [] n = (ended, [])
trickle (b ∷ s) n = (got (b ∷ []), s)

pub trickle_ready :
    (s : List ℕ) (n : ℕ)
    → 0 < n
    → s ≢ []
    → (bs : List ℕ) × (s' : List ℕ) × (trickle s n ≡ (got bs, s'))
      × (0 < length bs)
      × (length bs ≤ n)
      × (s ≡ bs ++ s')
trickle_ready [] n lt ne = absurd (ne refl)
trickle_ready (b ∷ s) n lt ne = (b ∷ [], s, refl, omega arith, omega arith, refl)

pub trickle_ended :
    (s : List ℕ) (n : ℕ) → 0 < n → s ≡ [] → (s' : List ℕ) × (trickle s n ≡ (ended, s')) × (s' ≡ [])
trickle_ended s n lt e = ([], rw e refl, refl)

abbrev pub byte_stream : Transport
byte_stream = record {
  Socket = List ℕ;
  recv = trickle;
  pending = λ s. s;
  recv_ready = trickle_ready;
  recv_ended = trickle_ended;
}

abbrev pub enough_memory : Memory
enough_memory = record {
  malloc = λ n. true;
  warning = record { struct_block = true; city_copy = true; dest_copy = true };
}

pub enough_memory-IsAmple : IsAmple enough_memory
enough_memory-IsAmple = record {
  buffers = λ n lt. refl;
  struct_block = refl;
  city_copy = refl;
  dest_copy = refl;
}

abbrev flood_at_nis : Warning
flood_at_nis = record {
  city = b'N' ∷ b'i' ∷ b's' ∷ [];
  kind = 0;
  value = 4611686018427387904;
  timestamp = 1700000000;
  dest_node = b'D' ∷ b'1' ∷ [];
}

abbrev storm_at_bor : Warning
storm_at_bor = record {
  city = b'B' ∷ b'o' ∷ b'r' ∷ [];
  kind = 2;
  value = 258;
  timestamp = 1700000001;
  dest_node = b'D' ∷ b'2' ∷ [];
}

flood_at_nis-IsSendable : IsSendable flood_at_nis
flood_at_nis-IsSendable = record {
  city_text =
      (omega arith, omega arith, (omega arith, omega arith, (omega arith, omega arith, tt)));
  dest_text = (omega arith, omega arith, (omega arith, omega arith, tt));
  short = omega arith;
  kind_lt = omega arith;
  value_lt = omega arith;
  timestamp_lt = omega arith;
}

storm_at_bor-IsSendable : IsSendable storm_at_bor
storm_at_bor-IsSendable = record {
  city_text =
      (omega arith, omega arith, (omega arith, omega arith, (omega arith, omega arith, tt)));
  dest_text = (omega arith, omega arith, (omega arith, omega arith, tt));
  short = omega arith;
  kind_lt = omega arith;
  value_lt = omega arith;
  timestamp_lt = omega arith;
}

pack-message_example :
    (pack little_endian flood_at_nis ≡ message flood_at_nis)
    × (length (pack little_endian flood_at_nis) ≡ buffer_length flood_at_nis)
pack-message_example = pack-message little_endian flood_at_nis flood_at_nis-IsSendable

serve_client_lem_example :
    serve_client byte_stream little_endian enough_memory 3
      (pack_all little_endian (flood_at_nis ∷ storm_at_bor ∷ []))
    ≡ some (flood_at_nis ∷ storm_at_bor ∷ [])
serve_client_lem_example =
    serve_client_lem byte_stream little_endian enough_memory enough_memory-IsAmple
      (flood_at_nis ∷ storm_at_bor ∷ []) 3
      (pack_all little_endian (flood_at_nis ∷ storm_at_bor ∷ [])) (omega arith)
      (flood_at_nis-IsSendable, (storm_at_bor-IsSendable, tt)) refl

-- Two connections, a failure of `accept` between them, and the exit event behind them.
cp_listener_run_lem_example :
    cp_listener_run byte_stream little_endian enough_memory 3 (
      (false, some (pack_all little_endian (flood_at_nis ∷ [])))
      ∷ (false, none)
      ∷ (false, some (pack_all little_endian (storm_at_bor ∷ [])))
      ∷ (true, none)
      ∷ [])
    ≡ some (flood_at_nis ∷ storm_at_bor ∷ [])
cp_listener_run_lem_example =
    cp_listener_run_lem byte_stream little_endian enough_memory 3 enough_memory-IsAmple
      ((false, some (pack_all little_endian (flood_at_nis ∷ [])))
        ∷ (false, none)
        ∷ (false, some (pack_all little_endian (storm_at_bor ∷ [])))
        ∷ (true, none)
        ∷ [])
      ((flood_at_nis ∷ []) ∷ (storm_at_bor ∷ []) ∷ [])
      (
        (omega arith, (flood_at_nis-IsSendable, tt), refl),
        ((omega arith, (storm_at_bor-IsSendable, tt), refl), tt),
      )

dd_count_lem_example :
    dd_count byte_stream little_endian enough_memory 3 (
      some (pack_all little_endian (flood_at_nis ∷ storm_at_bor ∷ []))
      ∷ some (pack_all little_endian (storm_at_bor ∷ []))
      ∷ none
      ∷ [])
    ≡ some 3
dd_count_lem_example =
    dd_count_lem byte_stream little_endian enough_memory 3 enough_memory-IsAmple
      (some (pack_all little_endian (flood_at_nis ∷ storm_at_bor ∷ []))
        ∷ some (pack_all little_endian (storm_at_bor ∷ []))
        ∷ none
        ∷ [])
      ((flood_at_nis ∷ storm_at_bor ∷ []) ∷ (storm_at_bor ∷ []) ∷ [])
      (
        (omega arith, (flood_at_nis-IsSendable, (storm_at_bor-IsSendable, tt)), refl),
        ((omega arith, (storm_at_bor-IsSendable, tt), refl), tt),
      )

deserialize_lem_example :
    dd_deserialize_warning byte_stream little_endian enough_memory (pack little_endian flood_at_nis)
    ≡ clean byte_stream (
        deserialize_warning byte_stream little_endian enough_memory
          (pack little_endian flood_at_nis))
deserialize_lem_example =
    deserialize_lem byte_stream little_endian enough_memory (pack little_endian flood_at_nis)

-- A connection that ends nine bytes into its second message.
serve_truncated_example :
    serve_client byte_stream little_endian enough_memory 2
      (pack_all little_endian (flood_at_nis ∷ []) ++ take 9 (pack little_endian storm_at_bor))
    ≡ some (flood_at_nis ∷ [])
unfolding pack buffer_length
serve_truncated_example =
    serve_truncated byte_stream little_endian enough_memory enough_memory-IsAmple
      (flood_at_nis ∷ []) storm_at_bor 9 2
      (pack_all little_endian (flood_at_nis ∷ []) ++ take 9 (pack little_endian storm_at_bor))
      (omega arith) (flood_at_nis-IsSendable, tt) storm_at_bor-IsSendable
      (let len = (pack-message little_endian storm_at_bor storm_at_bor-IsSendable).1 in
        omega (arith, len))
      refl
