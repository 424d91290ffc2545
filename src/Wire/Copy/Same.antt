-- ===== src/Wire/Copy/Same.antt =====
-- The destination's own reader (DataDestination/data_destination.c) does what the propagator's
-- (CentralPropagator/cp_listener.c) does.
use mathlib.Core.Option
use ikp_data_propagator.Prelude.{
  ℕ, zero, suc, ◌+◌, ◌-◌, ◌^◌, ◌≡◌, refl, sym, ap, ◌∙◌, true, false, Option, none, some, List, [],
  ◌∷◌, arith, ltb, leb, if◌then◌else◌, Bool-cases, inl, inr, length,
}
use ikp_data_propagator.Warning.{Warning, warning_create}
use ikp_data_propagator.Wire.{ByteOrder}
use ikp_data_propagator.Wire.Receiver.{
  Received, got, ended, Transport, Memory, Read, continue, and_then, prepend, after_recv, expect,
  recv_loop, recv_all, read, allocate, read_u32, read_u64, read_text, deserialize_warning, serve,
  serve_client,
}
use ikp_data_propagator.Wire.Copy.{
  Buffer, Heap, city_buffer, dest_buffer, free_all, DdOutcome, checked, dd_recv_loop, dd_recv_all,
  dd_read, dd_read_u32, dd_read_u64, malloc_text, dd_after_dest, dd_after_city,
  dd_deserialize_warning, dd_serve, dd_serve_client,
}

module _ (net : Transport) where
  open net use {Socket, recv}

  after_recv_congr :
      (f g : ℕ → Read net (List ℕ)) (r : Received × Socket)
      → ((k : ℕ) (s : Socket) → f k s ≡ g k s)
      → after_recv net f r ≡ after_recv net g r
  after_recv_congr f g (ended, s) h = refl
  after_recv_congr f g (got bs, s) h = ap (prepend net bs) (h (length bs) s)

  -- Counting up to `n` is counting down from it.
  recv_loop_lem :
      (fuel total n want : ℕ) (s : Socket)
      → n - total ≡ want
      → dd_recv_loop net fuel total n s ≡ recv_loop net fuel want s
  unfolding dd_recv_loop recv_loop
  recv_loop_lem zero total n zero s e =
      let last : ltb total n ≡ false = ground arith in rw last refl
  recv_loop_lem zero total n (suc want) s e =
      let more : ltb total n ≡ true = ground arith in rw more refl
  recv_loop_lem (suc fuel) total n zero s e =
      let last : ltb total n ≡ false = ground arith in rw last refl
  recv_loop_lem (suc fuel) total n (suc want) s e =
      let more : ltb total n ≡ true = ground arith in
      rw (more, e)
        (after_recv_congr (λ r s'. dd_recv_loop net fuel (total + r) n s')
          (λ r s'. recv_loop net fuel (suc want - r) s') (recv s (suc want))
          (λ r s'. recv_loop_lem fuel (total + r) n (suc want - r) s' (omega (arith, e))))

  -- The copy of `recv_all` is `recv_all`.
  pub recv_all_lem : (n : ℕ) (s : Socket) → dd_recv_all net n s ≡ recv_all net n s
  unfolding dd_recv_all recv_all
  recv_all_lem n s =
      ap (λ r. if leb (2 ^ 31) n then (some [], s) else r) (recv_loop_lem n 0 n n s (omega arith))

  read_lem : (n : ℕ) (s : Socket) → dd_read net n s ≡ read net n s
  unfolding dd_read read
  read_lem n s = ap (continue net (expect net n)) (recv_all_lem n s)

  -- An outcome of a reader that leaves no buffer.
  abbrev pub clean : Option Warning × Socket → DdOutcome net
  clean (w, s) = (w, s, some [])

  -- A check that frees all that is held, in front of steps that leave no buffer.
  checked-clean :
      {A : Type 0} (bs h : List Buffer) (next : A → Socket → DdOutcome net)
      (f : A → Read net Warning) (r : Option A × Socket)
      → free_all bs h ≡ some []
      → ((a : A) (s : Socket) → next a s ≡ clean (f a s))
      → checked net bs h next r ≡ clean (continue net f r)
  checked-clean bs h next f (none, s) e same = ap (λ heap. (none, s, heap)) e
  checked-clean bs h next f (some a, s) e same = same a s

  continue_assoc :
      {A B C : Type 0} (f : A → Read net B) (g : B → Read net C) (r : Option A × Socket)
      → continue net g (continue net f r) ≡ continue net (λ a. and_then net (f a) g) r
  continue_assoc f g (none, s) = refl
  continue_assoc f g (some a, s) = refl

  module _ (order : ByteOrder) (memory : Memory) where
    read_u32_lem : (s : Socket) → dd_read_u32 net order memory s ≡ read_u32 net order memory s
    unfolding dd_read_u32 read_u32
    read_u32_lem s = ap (continue net (λ bs s. (some _, s))) (read_lem 4 s)

    read_u64_lem : (s : Socket) → dd_read_u64 net order memory s ≡ read_u64 net order memory s
    unfolding dd_read_u64 read_u64
    read_u64_lem s = ap (continue net (λ bs s. (some _, s))) (read_lem 8 s)

    abbrev last_fields : List ℕ → List ℕ → ℕ → ℕ → Read net Warning
    last_fields city dest kind value =
        and_then net (read_u64 net order memory)
          λ ts s. (warning_create memory.warning city kind value ts dest, s)

    abbrev fields : List ℕ → List ℕ → Read net Warning
    fields city dest =
        and_then net (read_u32 net order memory)
          λ kind. and_then net (read_u64 net order memory) λ value. last_fields city dest kind value

    abbrev text_of : ℕ → Read net (List ℕ)
    text_of len = and_then net (allocate net memory len) λ _. read net len

    after_dest_lem :
        (city : List ℕ) (len : ℕ) (s : Socket)
        → dd_after_dest net order memory city len s
          ≡ clean (and_then net (text_of len) (fields city) s)
    unfolding dd_after_dest allocate Option.bind
    after_dest_lem city len s =
        let both = dest_buffer ∷ city_buffer ∷ [] in
        let frees = city_buffer ∷ dest_buffer ∷ [] in
        elim (Bool-cases (malloc_text net order memory len)) [
          | inr denied ↦ rw denied refl
          | inl given ↦
              rw (given, read_lem len s)
                (checked-clean frees both _ (fields city) (read net len s) refl λ dest s.
                  rw (read_u32_lem s) (
                    checked-clean frees both _ _ (read_u32 net order memory s) refl λ kind s.
                      rw (read_u64_lem s) (
                        checked-clean frees both _ (last_fields city dest kind)
                          (read_u64 net order memory s) refl
                          λ value s. rw (read_u64_lem s) (
                            checked-clean frees both _ _ (read_u64 net order memory s) refl
                              λ ts s. refl))))
        ]

    after_city_lem :
        (len : ℕ) (s : Socket)
        → dd_after_city net order memory len s
          ≡ clean (
              and_then net
                (text_of len)
                (λ city. and_then net (read_text net order memory) (fields city))
                s)
    unfolding dd_after_city allocate read_text Option.bind
    after_city_lem len s =
        let one = city_buffer ∷ [] in
        elim (Bool-cases (malloc_text net order memory len)) [
          | inr denied ↦ rw denied refl
          | inl given ↦
              rw (given, read_lem len s)
                (checked-clean one one _ _ (read net len s) refl λ city s. rw (read_u32_lem s) (
                  checked-clean one one _ _ (read_u32 net order memory s) refl (after_dest_lem city)
                  ∙ sym (
                      ap clean
                        (continue_assoc text_of (fields city) (read_u32 net order memory s)))))
        ]

    -- Whatever the connection, the allocations and the bytes that arrive: the destination's
    -- `deserialize_warning` gives what the propagator's gives, reads as far, and on every path frees
    -- each buffer that it allocated exactly once.
    pub deserialize_lem :
        (s : Socket)
        → dd_deserialize_warning net order memory s ≡ clean (deserialize_warning net order memory s)
    unfolding dd_deserialize_warning deserialize_warning read_text
    deserialize_lem s = rw (read_u32_lem s) (
        checked-clean [] [] _ _ (read_u32 net order memory s) refl after_city_lem
        ∙ sym (ap clean (continue_assoc text_of _ (read_u32 net order memory s))))

    map_twice :
        (w : Warning) (o : Option (List Warning))
        → Option.map
            (λ (r : List Warning × Heap). (w ∷ r.0, r.1))
            (Option.map (λ ws. (ws, some [])) o)
          ≡ Option.map {B = List Warning × Heap} (λ ws. (ws, some [])) (Option.map (λ ws. w ∷ ws) o)
    map_twice w none = refl
    map_twice w (some ws) = refl

    served :
        (f : Socket → Option (List Warning × Heap)) (g : Socket → Option (List Warning))
        (r : Option Warning × Socket)
        → ((s : Socket) → f s ≡ Option.map (λ ws. (ws, some [])) (g s))
        → dd_serve net order memory f (clean r)
          ≡ Option.map (λ ws. (ws, some [])) (serve net order memory g r)
    served f g (none, s) same = refl
    served f g (some w, s) same =
        ap (Option.map (λ (r : List Warning × Heap). (w ∷ r.0, r.1))) (same s) ∙ map_twice w (g s)

    -- The same of the loop over one client: it puts the same warnings into the queue, and leaves no
    -- buffer.
    pub serve_client_copy :
        (fuel : ℕ) (s : Socket)
        → dd_serve_client net order memory fuel s
          ≡ Option.map (λ ws. (ws, some [])) (serve_client net order memory fuel s)
    unfolding dd_serve_client serve_client
    serve_client_copy zero s = refl
    serve_client_copy (suc fuel) s =
        ap (dd_serve net order memory (λ s'. dd_serve_client net order memory fuel s'))
          (deserialize_lem s)
        ∙ served (λ s'. dd_serve_client net order memory fuel s')
            (λ s'. serve_client net order memory fuel s') (deserialize_warning net order memory s)
            (serve_client_copy fuel)
