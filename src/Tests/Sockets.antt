-- ===== src/Tests/Sockets.antt =====
-- The pool of connections and the client over it: the theorems at concrete inputs.
use ikp_data_propagator.Prelude.{
  ℕ, ◌+◌, ◌≡◌, ◌≢◌, List, count, refl, sym, ◌∙◌, true, none, some, [], ◌∷◌, arith, ltb, replicate,
  length,
}
use ikp_data_propagator.Text.{eq_string}
use ikp_data_propagator.HashMap.{
  HashMap, Alloc, hashmap_create, hashmap_put, hashmap_get, resize_if_needed, put_checked, put_at,
  insert, find, slot, hashmap_remove, remove_at, find_key, unlink, freed_node,
}
use ikp_data_propagator.HashMap.Valid.{IsHonest, IsValid}
use ikp_data_propagator.HashMap.Create.{hashmap_create-Created}
use ikp_data_propagator.Tests.Network.{
  little_endian, byte_stream, enough_memory, enough_memory-IsAmple,
}
use ikp_data_propagator.Client.Stream.{stream, sent_over}
use ikp_data_propagator.Client.Safe.{AllGood, after_sendings}
use ikp_data_propagator.Client.Delivered.{started, wires_of, delivered_lem}
use ikp_data_propagator.Wire.Receiver.{serve_client}
use ikp_data_propagator.Connections.{connections_init}
use ikp_data_propagator.Client.{Call, send_warning_to}
use ikp_data_propagator.Client.Framing.{Framed, send_warning_to-Framed}
use ikp_data_propagator.Warning.{Warning}
use ikp_data_propagator.Wire.{buffer_length, pack}
use ikp_data_propagator.Wire.Layout.{IsSendable}
use ikp_data_propagator.Connections.{
  ConnectionKey, connection_key, hash_conn_key, hash_address, eq_conn_key, connected, no_socket,
  ConnectionAlloc, keep, get_or_create_connection,
}
use ikp_data_propagator.Connections.{close_connection, closed_by, invalid_socket, refused}
use ikp_data_propagator.Connections.Traffic.{in_pool, cleaned}
use ikp_data_propagator.Client.Session.{Sending, session, session_lem}
use ikp_data_propagator.Client.Workers.{
  Action, fetch, finish, hang_up, Workers, step, run, IsCurrent, IsCalm, run-IsCurrent,
}

abbrev lavish : Alloc
lavish = record { calloc = λ n. ltb n 1000; malloc = true }

lavish-IsHonest : IsHonest lavish
lavish-IsHonest n e = ground arith

abbrev all_given : ConnectionAlloc
all_given = record {
  temp_key = true;
  temp_address = true;
  new_key = true;
  new_address = true;
  socket_block = true;
  put = lavish;
}

abbrev no_connections : HashMap ConnectionKey ℕ
no_connections = record {
  buckets = replicate 16 [];
  capacity = 16;
  size = 0;
  frees_key = true;
  frees_value = true;
}

no_connections-IsValid : IsValid no_connections
unfolding hashmap_create
no_connections-IsValid =
    (hashmap_create-Created ConnectionKey ℕ lavish 16 true true true lavish-IsHonest).0.valid

abbrev port_1 : ConnectionKey
port_1 = record { address = b'h' ∷ []; port = 1 }

abbrev two_letters : Warning
two_letters = record { city = b'N' ∷ []; kind = 1; value = 2; timestamp = 3; dest_node = b'D' ∷ [] }

two_letters-IsSendable : IsSendable two_letters
two_letters-IsSendable = record {
  city_text = (omega arith, omega arith, tt);
  dest_text = (omega arith, omega arith, tt);
  short = omega arith;
  kind_lt = omega arith;
  value_lt = omega arith;
  timestamp_lt = omega arith;
}

-- A new connection, over which `send` takes the whole message.
abbrev good_call : Call
good_call = record { connection = all_given; dial = connected 5; buffer = true; taken = some 30 }

send_warning_to-Framed_example :
    Framed no_connections port_1 two_letters
      (send_warning_to little_endian good_call (some no_connections) port_1 two_letters)
send_warning_to-Framed_example =
    send_warning_to-Framed little_endian good_call no_connections port_1 two_letters lavish-IsHonest
      no_connections-IsValid two_letters-IsSendable

sent_whole :
    (send_warning_to little_endian good_call (some no_connections) port_1 two_letters).sent ≡ true
unfolding send_warning_to get_or_create_connection keep hashmap_put put_checked put_at insert find
    slot resize_if_needed hashmap_get hash_conn_key hash_address eq_conn_key buffer_length
sent_whole = refl

-- The first call for an address is refused, the second connects, and the third cannot be sent.
abbrev three_sendings : List Sending
three_sendings =
    record { call = record good_call { dial = refused 4 }; key = port_1; warning = two_letters }
    ∷ record { call = good_call; key = port_1; warning = two_letters }
    ∷ record { call = record good_call { taken = none }; key = port_1; warning = two_letters }
    ∷ []

five-live : 5 ≢ invalid_socket
five-live e = omega (arith, e)

session_lem_example :
    let t = session little_endian lavish three_sendings in
    (in_pool 5 five-live t.pool + count 5 t.closed ≡ count 5 t.given)
    × (count 5 (cleaned t).closed ≡ count 5 t.given)
session_lem_example =
    session_lem little_endian 5 five-live lavish three_sendings lavish-IsHonest
      (lavish-IsHonest, (lavish-IsHonest, (lavish-IsHonest, tt)))

abbrev no_workers : Workers
no_workers = record { pool = some no_connections; holds = λ i. none }

no_workers-IsCurrent : IsCurrent no_workers
no_workers-IsCurrent = record {
  map = no_connections;
  alive = refl;
  valid = no_connections-IsValid;
  current = λ i h e. cc;
}

abbrev two_workers : List Action
two_workers =
    fetch 0 all_given (connected 5) port_1
    ∷ finish 0
    ∷ fetch 1 all_given no_socket port_1
    ∷ hang_up 0
    ∷ []

two_workers-IsCalm : IsCalm two_workers no_workers
unfolding step
two_workers-IsCalm = (lavish-IsHonest, (lavish-IsHonest, (tt, tt)))

run-IsCurrent_example : IsCurrent (run two_workers no_workers)
run-IsCurrent_example = run-IsCurrent two_workers no_workers no_workers-IsCurrent two_workers-IsCalm

-- Two workers have a connection by the same key, and the first gives it up: the second still holds
-- the socket, which was closed, and the pool has none for the key.
stale_socket :
    let w =
      run
        (fetch 0 all_given (connected 5) port_1
          ∷ fetch 1 all_given no_socket port_1
          ∷ hang_up 0
          ∷ [])
        no_workers in
    (w.holds 1 ≡ some (record { key = port_1; socket = 5 }))
    × (hashmap_get w.pool (some port_1) ≡ none)
unfolding run step get_or_create_connection close_connection keep hashmap_get hashmap_put
    put_checked put_at insert resize_if_needed find slot hash_conn_key hash_address eq_conn_key
    eq_string hashmap_remove remove_at find_key unlink freed_node closed_by
stale_socket = (refl, refl)

-- The first call opens a connection and sends a whole message over it, and `send` takes a part of
-- the second message.
abbrev two_sendings : List Sending
two_sendings =
    record { call = good_call; key = port_1; warning = two_letters }
    ∷ record {
      call = record good_call { dial = no_socket; taken = some 9 };
      key = port_1;
      warning = two_letters;
    }
    ∷ []

lavish-init : connections_init lavish ≡ some no_connections
unfolding connections_init hashmap_create
lavish-init = refl

two_sendings-AllGood : AllGood little_endian (started little_endian lavish) two_sendings
unfolding AllGood stream buffer_length connections_init hashmap_create
two_sendings-AllGood = (
  record {
    honest = lavish-IsHonest;
    fresh = (
      five-live,
      refl,
      λ q e.
          let empty : hashmap_get (some no_connections) (some q) ≡ none =
            let made =
              hashmap_create-Created ConnectionKey ℕ lavish 16 true true true lavish-IsHonest in
            made.0.reads q in
          let clash : none ≡ some 5 = sym empty ∙ e in absurd (cc),
    );
    taken = omega arith;
    sendable = two_letters-IsSendable;
  },
  (
    record {
      honest = lavish-IsHonest;
      fresh = tt;
      taken = omega arith;
      sendable = two_letters-IsSendable;
    },
    tt,
  ),
)

-- Of the second message, nine bytes are in the socket.
cut_after_nine :
    let t = wires_of little_endian lavish two_sendings in
    (sent_over 5 t.sent ≡ two_letters ∷ []) × (length (stream 5 t.log) ≡ 39)
unfolding after_sendings sent_over stream send_warning_to get_or_create_connection keep hashmap_put
    put_checked put_at insert find slot resize_if_needed hashmap_get hash_conn_key hash_address
    eq_conn_key buffer_length connections_init hashmap_create eq_string pack close_connection
cut_after_nine = (refl, refl)

delivered_lem_example :
    let t = wires_of little_endian lavish two_sendings in
    serve_client byte_stream little_endian enough_memory 2 (stream 5 t.log)
    ≡ some (sent_over 5 t.sent)
unfolding after_sendings sent_over send_warning_to get_or_create_connection keep hashmap_put
    put_checked put_at insert find slot resize_if_needed hashmap_get hash_conn_key hash_address
    eq_conn_key buffer_length connections_init hashmap_create eq_string
delivered_lem_example =
    delivered_lem little_endian byte_stream enough_memory enough_memory-IsAmple lavish
      no_connections two_sendings lavish-IsHonest lavish-init two_sendings-AllGood 5 2
      (stream 5 (wires_of little_endian lavish two_sendings).log) (omega arith) refl
