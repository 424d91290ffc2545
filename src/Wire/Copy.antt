-- ===== src/Wire/Copy.antt =====
-- `recv_all`, `deserialize_warning` and the loop over one client in
-- DataDestination/data_destination.c, with the two buffers that they allocate and free. A free of
-- what is not held is undefined behaviour: the heap is `none` from there on.
pub mod Same
use mathlib.Core.Option
use mathlib.Core.Option.{bind}
use ikp_data_propagator.Prelude.{
  ℕ, zero, suc, ◌+◌, ◌-◌, ◌%◌, ◌^◌, Bool, true, false, Option, none, some, List, [], ◌∷◌, ◌==◌, ltb,
  leb, if◌then◌else◌, length,
}
use ikp_data_propagator.Warning.{Warning, warning_create}
use ikp_data_propagator.Wire.{ByteOrder, network_to_host64}
use ikp_data_propagator.Wire.Bytes.{of_le}
use ikp_data_propagator.Wire.Receiver.{
  Received, got, ended, Transport, Memory, Read, and_then, after_recv, expect, serve,
}

-- `char* city` and `char* dest`.
pub data Buffer : Type 0 where
  city_buffer dest_buffer : Buffer

abbrev pub same_buffer : Buffer → Buffer → Bool
same_buffer city_buffer city_buffer = true
same_buffer dest_buffer dest_buffer = true
same_buffer _ _ = false

-- The buffers that are allocated, the latest first.
abbrev pub Heap : Type 0
Heap = Option (List Buffer)

abbrev pub keep_buffer : Buffer → Heap → Heap
keep_buffer b none = none
keep_buffer b (some h) = some (b ∷ h)

-- `free`
abbrev pub free_in : Buffer → List Buffer → Heap
free_in b [] = none
free_in b (x ∷ h) = let rest = free_in b h in if same_buffer b x then some h else keep_buffer x rest

-- Several of them, in their order.
abbrev pub free_all : List Buffer → List Buffer → Heap
free_all [] h = some h
free_all (b ∷ bs) h = bind (free_in b h) (λ h'. free_all bs h')

module _ (net : Transport) where
  open net use {Socket, recv}

  -- `while (total < n)`, with what is received from `total` on. A round receives a byte at least.
  unfoldable pub dd_recv_loop : ℕ → ℕ → ℕ → Read net (List ℕ)
  dd_recv_loop zero total n s = if ltb total n then (none, s) else (some [], s)
  dd_recv_loop (suc fuel) total n s =
      if ltb total n
      then after_recv net (λ r s'. dd_recv_loop fuel (total + r) n s') (recv s (n - total))
      else (some [], s)

  -- `n` is an `int`, as its 32 bits: a negative one makes no round.
  unfoldable pub dd_recv_all : ℕ → Read net (List ℕ)
  unfolding dd_recv_loop
  dd_recv_all n s = if leb (2 ^ 31) n then (some [], s) else dd_recv_loop n 0 n s

  -- `recv_all(s, buf, n) != n`
  unfoldable pub dd_read : ℕ → Read net (List ℕ)
  unfolding dd_recv_all
  dd_read n = and_then net (dd_recv_all n) (expect net n)

  -- What is returned, with the connection and the heap at that time.
  abbrev pub DdOutcome : Type 0
  DdOutcome = Option Warning × Socket × Heap

  -- A read behind which, where it fails, the buffers `bs` of the heap `h` are freed.
  abbrev pub checked :
      {A : Type 0}
      → List Buffer
      → List Buffer
      → (A → Socket → DdOutcome)
      → Option A × Socket
      → DdOutcome
  checked bs h next (none, s) = (none, s, free_all bs h)
  checked bs h next (some a, s) = next a s

  module _ (order : ByteOrder) (memory : Memory) where
    -- `recv_all(s, (char*)&len32, 4)` and `ntohl(len32)`.
    unfoldable pub dd_read_u32 : Read net ℕ
    unfolding dd_read
    dd_read_u32 = and_then net (dd_read 4) λ bs s. (some (order.ntohl (of_le bs)), s)

    -- A 64-bit number, and `network_to_host64`.
    unfoldable pub dd_read_u64 : Read net ℕ
    unfolding dd_read
    dd_read_u64 = and_then net (dd_read 8) λ bs s. (some (network_to_host64 order (of_le bs)), s)

    -- `malloc(len + 1)`, where `len + 1` is a `uint32_t`.
    abbrev pub malloc_text : ℕ → Bool
    malloc_text len = memory.malloc ((len + 1) % 2 ^ 32)

    -- From `char* dest = malloc(dest_len + 1)` on.
    unfoldable pub dd_after_dest : List ℕ → ℕ → Socket → DdOutcome
    unfolding dd_read dd_read_u32 dd_read_u64
    dd_after_dest city dest_len s =
        let both = dest_buffer ∷ city_buffer ∷ [] in
        let frees = city_buffer ∷ dest_buffer ∷ [] in
        if malloc_text dest_len
        then checked frees both
            (λ dest s.
              checked frees both
                (λ kind s.
                  checked frees both
                    (λ value s.
                      checked frees both
                        (λ ts s. (
                          warning_create memory.warning city kind value ts dest,
                          s,
                          free_all frees both,
                        ))
                        (dd_read_u64 s))
                    (dd_read_u64 s))
                (dd_read_u32 s))
            (dd_read dest_len s)
        else (none, s, free_all (city_buffer ∷ []) (city_buffer ∷ []))

    -- From `char* city = malloc(city_len + 1)` on.
    unfoldable pub dd_after_city : ℕ → Socket → DdOutcome
    unfolding dd_read dd_read_u32 dd_after_dest
    dd_after_city city_len s =
        let one = city_buffer ∷ [] in
        if malloc_text city_len
        then checked one one (λ city s. checked one one (dd_after_dest city) (dd_read_u32 s))
            (dd_read city_len s)
        else (none, s, some [])

    unfoldable pub dd_deserialize_warning : Socket → DdOutcome
    unfolding dd_read_u32 dd_after_city
    dd_deserialize_warning s = checked [] [] dd_after_city (dd_read_u32 s)

    -- `for (;;)`: the warnings that are put into the queue, and the heap behind the last message.
    abbrev pub dd_serve :
        (Socket → Option (List Warning × Heap)) → DdOutcome → Option (List Warning × Heap)
    dd_serve again (none, s, heap) = some ([], heap)
    dd_serve again (some w, s, none) = some (w ∷ [], none)
    dd_serve again (some w, s, some h) = Option.map (λ r. (w ∷ r.0, r.1)) (again s)

    unfoldable pub dd_serve_client : ℕ → Socket → Option (List Warning × Heap)
    dd_serve_client zero s = none
    dd_serve_client (suc fuel) s =
        dd_serve (λ s'. dd_serve_client fuel s') (dd_deserialize_warning s)
