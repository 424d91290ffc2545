-- ===== src/Wire/Receiver/Reads.antt =====
-- `recv_all` reads exactly the bytes that it is asked for, however they are cut into pieces.
use ikp_data_propagator.Prelude.{
  ℕ, zero, suc, ◌+◌, ◌-◌, ◌%◌, ◌^◌, ◌≤◌, ◌<◌, ◌≡◌, ◌≢◌, refl, ap, sym, ◌∙◌, true, false, none, some,
  List, [], ◌∷◌, ◌++◌, arith, ◌==◌, leb, length, length-append, List-cases, Bool-cases, inl, inr,
}
use ikp_data_propagator.Wire.Receiver.{
  got, ended, Transport, Read, and_then, continue, after_recv, prepend, recv_loop, recv_all, expect,
  read, allocate, Memory,
}

-- One of two ways to cut a list is the finer one.
append_cut :
    (cs ps bs rest : List ℕ)
    → cs ++ ps ≡ bs ++ rest
    → length cs ≤ length bs
    → (ds : List ℕ) × (bs ≡ cs ++ ds) × (ps ≡ ds ++ rest)
append_cut [] ps bs rest e le = (bs, refl, e)
append_cut (c ∷ cs) ps [] rest e le = absurd (omega arith)
append_cut (c ∷ cs) ps (b ∷ bs) rest e le =
    let (ds, p, q) = append_cut cs ps bs rest (cc) (omega arith) in (ds, cc, q)

module _ (net : Transport) where
  open net use {Socket, recv, pending, recv_ready, recv_ended}

  -- The action succeeds with `a`, and leaves `rest` to arrive.
  abbrev pub Reads : {A : Type 0} → Read net A → Socket → A → List ℕ → Type 0
  Reads m s a rest = (s' : Socket) × (m s ≡ (some a, s')) × (pending s' ≡ rest)

  pub Reads-and_then :
      {A B : Type 0} (m : Read net A) (f : A → Read net B) (s : Socket) (a : A) (b : B)
      (mid rest : List ℕ)
      → Reads m s a mid
      → ((s' : Socket) → pending s' ≡ mid → Reads (f a) s' b rest)
      → Reads (and_then net m f) s b rest
  Reads-and_then m f s a b mid rest (s₁, run, left) next =
      let (s₂, run', left') = next s₁ left in (s₂, rw run run', left')

  ne_nil : (bs rest : List ℕ) → 0 < length bs → bs ++ rest ≢ []
  ne_nil [] rest lt = absurd (omega arith)
  ne_nil (b ∷ bs) rest lt = λ e. cc

  loop_got :
      (fuel want : ℕ) (s s₁ : Socket) (cs : List ℕ)
      → recv s (suc want) ≡ (got cs, s₁)
      → recv_loop net (suc fuel) (suc want) s
        ≡ prepend net cs (recv_loop net fuel (suc want - length cs) s₁)
  unfolding recv_loop
  loop_got fuel want s s₁ cs e =
      ap (after_recv net (λ r s'. recv_loop net fuel (suc want - r) s')) e

  loop_ended :
      (fuel want : ℕ) (s s₁ : Socket)
      → recv s (suc want) ≡ (ended, s₁)
      → recv_loop net (suc fuel) (suc want) s ≡ (none, s₁)
  unfolding recv_loop
  loop_ended fuel want s s₁ e = ap (after_recv net (λ r s'. recv_loop net fuel (suc want - r) s')) e

  read_small :
      (n : ℕ) (s : Socket)
      → leb (2 ^ 31) n ≡ false
      → read net n s ≡ continue net (expect net n) (recv_loop net n n s)
  unfolding read recv_all
  read_small n s e = rw (e, read, recv_all)

  -- A length of 2 ^ 31 or more is a negative `int`: nothing is read, and the read fails.
  read_huge : (n : ℕ) (s : Socket) → leb (2 ^ 31) n ≡ true → read net n s ≡ (none, s)
  unfolding read recv_all
  read_huge n s e = let differ : (0 == n) ≡ false = ground arith in rw (e, read, recv_all, differ)

  recv_loop-Reads :
      (fuel want : ℕ) (s : Socket) (bs rest : List ℕ)
      → want ≤ fuel
      → length bs ≡ want
      → pending s ≡ bs ++ rest
      → Reads (recv_loop net fuel want) s bs rest
  unfolding recv_loop
  recv_loop-Reads fuel zero s [] rest le len e = (s, refl, e)
  recv_loop-Reads fuel zero s (b ∷ bs) rest le len e = absurd (omega arith)
  recv_loop-Reads zero (suc want) s bs rest le len e = absurd (omega arith)
  recv_loop-Reads (suc fuel) (suc want) s bs rest le len e =
      let (cs, s₁, run, some_bytes, few, cut) =
        recv_ready s (suc want) (omega arith) (λ nil. ne_nil bs rest (omega arith) (sym e ∙ nil)) in
      let (ds, split, left) = append_cut cs (pending s₁) bs rest (sym cut ∙ e) (omega arith) in
      let (s₂, run', left') =
        recv_loop-Reads fuel (suc want - length cs) s₁ ds rest (omega arith)
          (omega (arith, ap length split, length-append cs ds)) left in
      (
        s₂,
        loop_got fuel want s s₁ cs run
            ∙ ap (prepend net cs) run'
            ∙ ap (λ l. (some l, s₂)) (sym split),
        left',
      )

  pub read-Reads :
      (n : ℕ) (s : Socket) (bs rest : List ℕ)
      → n < 2 ^ 31
      → length bs ≡ n
      → pending s ≡ bs ++ rest
      → Reads (read net n) s bs rest
  read-Reads n s bs rest lt len e =
      let (s₁, run, left) = recv_loop-Reads n n s bs rest (omega arith) len e in
      let small : leb (2 ^ 31) n ≡ false = ground arith in
      let full : (length bs == n) ≡ true = ground arith in
      (s₁, read_small n s small ∙ ap (continue net (expect net n)) run ∙ rw full, left)

  pub allocate-Reads :
      (memory : Memory) (n : ℕ) (s : Socket) (rest : List ℕ)
      → memory.malloc ((n + 1) % 2 ^ 32) ≡ true
      → pending s ≡ rest
      → Reads (allocate net memory n) s tt rest
  unfolding allocate
  allocate-Reads memory n s rest ok e = (s, rw (ok, allocate), e)

  -- Where fewer bytes are left than asked for, the read fails.
  recv_loop_short :
      (fuel want : ℕ) (s : Socket)
      → want ≤ fuel
      → length (pending s) < want
      → (s' : Socket) × (recv_loop net fuel want s ≡ (none, s'))
  unfolding recv_loop
  recv_loop_short fuel zero s le short = absurd (omega arith)
  recv_loop_short zero (suc want) s le short = absurd (omega arith)
  recv_loop_short (suc fuel) (suc want) s le short = elim (List-cases (pending s)) [
    | inl nil ↦
        let (s₁, run, _) = recv_ended s (suc want) (omega arith) nil in
        (s₁, loop_ended fuel want s s₁ run)
    | inr more ↦
        let (cs, s₁, run, some_bytes, few, cut) = recv_ready s (suc want) (omega arith) more in
        let (s₂, run') =
          recv_loop_short fuel (suc want - length cs) s₁ (omega arith)
            (omega (arith, ap length cut, length-append cs (pending s₁))) in
        (s₂, loop_got fuel want s s₁ cs run ∙ ap (prepend net cs) run')
  ]

  pub read_short :
      (n : ℕ) (s : Socket) → length (pending s) < n → (s' : Socket) × (read net n s ≡ (none, s'))
  read_short n s short = elim (Bool-cases (leb (2 ^ 31) n)) [
    | inl huge ↦ (s, read_huge n s huge)
    | inr small ↦
        let (s₁, run) = recv_loop_short n n s (omega arith) short in
        (s₁, read_small n s small ∙ ap (continue net (expect net n)) run)
  ]
