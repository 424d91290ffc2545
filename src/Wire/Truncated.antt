-- ===== src/Wire/Truncated.antt =====
-- A connection that ends within a message: `deserialize_warning` and the loop over one client in
-- CentralPropagator/cp_listener.c.
use mathlib.Core.List.{append_assoc, append-nil}
use mathlib.Core.Option
use ikp_data_propagator.Prelude.{
  ℕ, zero, suc, ◌-◌, ◌^◌, ◌≤◌, ◌<◌, ◌≡◌, refl, ap, sym, ◌∙◌, none, some, List, [], ◌∷◌, ◌++◌, arith,
  ltb, ltb→lt, length, length-append, length-take, take, Bool-cases, inl, inr,
}
use ikp_data_propagator.Text.{Text}
use ikp_data_propagator.Warning.{Warning}
use ikp_data_propagator.Wire.Bytes.{be_bytes}
use ikp_data_propagator.Wire.{ByteOrder, pack}
use ikp_data_propagator.Wire.Layout.{IsSendable, message, pack_layout}
use ikp_data_propagator.Wire.Receiver.{
  Transport, Memory, Read, and_then, read, allocate, read_u32, read_u64, read_text,
  deserialize_warning, serve, serve_client,
}
use ikp_data_propagator.Wire.Receiver.Reads.{Reads, allocate-Reads, read_short}
use ikp_data_propagator.Wire.RoundTrip.{
  IsAmple, AllSendable, pack_all, read_u32-Reads, read_u64-Reads, read_text-Reads,
  deserialize-Reads,
}

take-append_short : (k : ℕ) (xs ys : List ℕ) → k ≤ length xs → take k (xs ++ ys) ≡ take k xs
take-append_short zero xs ys le = refl
take-append_short (suc k) [] ys le = absurd (omega arith)
take-append_short (suc k) (x ∷ xs) ys le = ap (λ l. x ∷ l) (take-append_short k xs ys (omega arith))

take-append_long :
    (k : ℕ) (xs ys : List ℕ) → length xs ≤ k → take k (xs ++ ys) ≡ xs ++ take (k - length xs) ys
take-append_long k [] ys le = let same : k - 0 ≡ k = omega arith in rw same refl
take-append_long zero (x ∷ xs) ys le = absurd (omega arith)
take-append_long (suc k) (x ∷ xs) ys le =
    let same : suc k - length (x ∷ xs) ≡ k - length xs = omega arith in
    rw same (ap (λ l. x ∷ l) (take-append_long k xs ys (omega arith)))

module _ (net : Transport) where
  open net use {Socket, pending}

  -- The action reads `a` from its bytes.
  abbrev ReadsOf : {A : Type 0} → Read net A → List ℕ → A → Type 0
  ReadsOf m bs a = (s : Socket) (rest : List ℕ) → pending s ≡ bs ++ rest → Reads net m s a rest

  -- It fails on a connection that ends within the bytes.
  abbrev FailsWithin : {A : Type 0} → Read net A → List ℕ → Type 0
  FailsWithin m bs =
      (s : Socket) (k : ℕ)
      → k < length bs
      → pending s ≡ take k bs
      → (s' : Socket) × (m s ≡ (none, s'))

  read-FailsWithin : (n : ℕ) (bs : List ℕ) → length bs ≡ n → FailsWithin (read net n) bs
  read-FailsWithin n bs len s k lt e =
      read_short net n s (omega (arith, ap length e, length-take k bs, len, lt))

  FailsWithin-and_then :
      {A B : Type 0} (m : Read net A) (f : A → Read net B) (a : A) (bs cs : List ℕ)
      → ReadsOf m bs a
      → FailsWithin m bs
      → FailsWithin (f a) cs
      → FailsWithin (and_then net m f) (bs ++ cs)
  FailsWithin-and_then m f a bs cs whole first later s k lt e =
      elim (Bool-cases (ltb k (length bs))) [
        | inl inside ↦
            let short = ltb→lt k (length bs) inside in
            let (s', run) = first s k short (e ∙ take-append_short k bs cs (omega arith)) in
            (s', rw run refl)
        | inr behind ↦
            let long : length bs ≤ k = ground arith in
            let (s₁, run, left) =
              whole s (take (k - length bs) cs) (e ∙ take-append_long k bs cs long) in
            let (s₂, run') =
              later s₁ (k - length bs) (omega (arith, lt, long, length-append bs cs)) left in
            (s₂, rw run run')
      ]

  module _ (order : ByteOrder) (memory : Memory) (ample : IsAmple memory) where
    read_u32-FailsWithin : (n : ℕ) → FailsWithin (read_u32 net order memory) (be_bytes 4 n)
    unfolding read_u32
    read_u32-FailsWithin n s k lt e =
        let (s', run) = read-FailsWithin 4 (be_bytes 4 n) refl s k lt e in (s', rw run refl)

    read_u64-FailsWithin : (n : ℕ) → FailsWithin (read_u64 net order memory) (be_bytes 8 n)
    unfolding read_u64
    read_u64-FailsWithin n s k lt e =
        let (s', run) = read-FailsWithin 8 (be_bytes 8 n) refl s k lt e in (s', rw run refl)

    read_text-FailsWithin :
        (t : Text)
        → length t < 2 ^ 31
        → FailsWithin (read_text net order memory) (be_bytes 4 (length t) ++ t)
    unfolding read_text
    read_text-FailsWithin t lt =
        FailsWithin-and_then (read_u32 net order memory) _ (length t) (be_bytes 4 (length t)) t
          (λ s rest e. read_u32-Reads net order memory ample (length t) s rest (omega arith) e)
          (read_u32-FailsWithin (length t))
          (FailsWithin-and_then (allocate net memory (length t)) _ tt [] t
            (λ s rest e.
              allocate-Reads net memory (length t) s rest (ample.buffers _ (omega arith)) e)
            (λ s k none_left e. absurd (omega arith)) (read-FailsWithin (length t) t refl))

    read_text_onto :
        (t : Text) (s : Socket) (rest : List ℕ)
        → length t < 2 ^ 31
        → pending s ≡ (be_bytes 4 (length t) ++ t) ++ rest
        → Reads net (read_text net order memory) s t rest
    read_text_onto t s rest lt e =
        read_text-Reads net order memory ample t s rest lt
          (e ∙ append_assoc (be_bytes 4 (length t)) t rest)

    -- The message, bracketed as it is read.
    abbrev parts : Warning → List ℕ
    parts w =
        (be_bytes 4 (length w.city) ++ w.city)
        ++ ((be_bytes 4 (length w.dest_node) ++ w.dest_node)
            ++ (be_bytes 4 w.kind ++ (be_bytes 8 w.value ++ (be_bytes 8 w.timestamp ++ []))))

    deserialize-FailsWithin :
        (w : Warning) → IsSendable w → FailsWithin (deserialize_warning net order memory) (parts w)
    unfolding deserialize_warning
    deserialize-FailsWithin w ok =
        let text = read_text net order memory in
        FailsWithin-and_then text _ w.city _ _
          (λ s rest e. read_text_onto w.city s rest (omega (arith, ok.short)) e)
          (read_text-FailsWithin w.city (omega (arith, ok.short)))
          (FailsWithin-and_then text _ w.dest_node _ _
            (λ s rest e. read_text_onto w.dest_node s rest (omega (arith, ok.short)) e)
            (read_text-FailsWithin w.dest_node (omega (arith, ok.short)))
            (FailsWithin-and_then (read_u32 net order memory) _ w.kind (be_bytes 4 w.kind) _
              (λ s rest e. read_u32-Reads net order memory ample w.kind s rest ok.kind_lt e)
              (read_u32-FailsWithin w.kind)
              (FailsWithin-and_then (read_u64 net order memory) _ w.value (be_bytes 8 w.value) _
                (λ s rest e. read_u64-Reads net order memory ample w.value s rest ok.value_lt e)
                (read_u64-FailsWithin w.value)
                (FailsWithin-and_then (read_u64 net order memory) _ w.timestamp
                  (be_bytes 8 w.timestamp) []
                  (λ s rest e.
                    read_u64-Reads net order memory ample w.timestamp s rest ok.timestamp_lt e)
                  (read_u64-FailsWithin w.timestamp) (λ s k none_left e. absurd (omega arith))))))

    parts_lem : (w : Warning) → parts w ≡ message w
    parts_lem w = simp (append_assoc, append-nil)

    -- A message of which only a part arrives is not read as a warning.
    deserialize_truncated :
        (w : Warning) (s : Socket) (k : ℕ)
        → IsSendable w
        → k < length (pack order w)
        → pending s ≡ take k (pack order w)
        → (s' : Socket) × (deserialize_warning net order memory s ≡ (none, s'))
    deserialize_truncated w s k ok lt e =
        let same : pack order w ≡ parts w = pack_layout order w ok ∙ sym (parts_lem w) in
        deserialize-FailsWithin w ok s k (rw same at lt) (e ∙ ap (take k) same)

    -- With memory for the messages and fuel for their number: where a connection ends within a
    -- message, at whatever byte of it, behind the messages of any sendable warnings, just those
    -- warnings are submitted, in their order and unchanged, and the loop ends then.
    pub serve_truncated :
        (ws : List Warning) (w : Warning) (k fuel : ℕ) (s : Socket)
        → length ws < fuel
        → AllSendable ws
        → IsSendable w
        → k < length (pack order w)
        → pending s ≡ pack_all order ws ++ take k (pack order w)
        → serve_client net order memory fuel s ≡ some ws
    unfolding serve_client
    serve_truncated ws w k zero s lt all ok inside e = absurd (omega arith)
    serve_truncated [] w k (suc fuel) s lt all ok inside e =
        let (s', run) = deserialize_truncated w s k ok inside e in ap (serve net order memory _) run
    serve_truncated (v ∷ ws) w k (suc fuel) s lt all ok inside e =
        let rest = pack_all order ws ++ take k (pack order w) in
        let (s', run, left) =
          deserialize-Reads net order memory ample v s rest all.0
            (e ∙ append_assoc (pack order v) (pack_all order ws) (take k (pack order w))) in
        ap (serve net order memory _) run
        ∙ ap (Option.map (λ l. v ∷ l))
            (serve_truncated ws w k fuel s' (omega arith) all.1 ok inside left)
