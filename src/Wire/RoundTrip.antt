-- ===== src/Wire/RoundTrip.antt =====
-- What the sender packs, the receiver reads back: CentralPropagator/cp_listener.c against
-- Common/propagator_client.c.
use mathlib.Core.List.{append_assoc}
use mathlib.Core.Option
use Prim.Native.Nat.{bit_or}
use ikp_data_propagator.Prelude.{
  ℕ, zero, suc, ◌+◌, ◌*◌, ◌/◌, ◌%◌, ◌^◌, ◌<◌, ◌≡◌, refl, ap, ap₂, ◌∙◌, true, none, some, List, [],
  ◌∷◌, ◌++◌, arith, length,
}
use ikp_data_propagator.Text.{Text, until_nul-IsText}
use ikp_data_propagator.Warning.{Warning, WarningAlloc, warning_create}
use ikp_data_propagator.Wire.Bytes.{be_bytes, of_le, bit_or_words, be_bytes_words}
use ikp_data_propagator.Wire.{ByteOrder, network_to_host64, pack}
use ikp_data_propagator.Wire.Layout.{IsSendable, message, pack_layout}
use ikp_data_propagator.Wire.Receiver.{
  Transport, Memory, read, allocate, read_u32, read_u64, read_text, deserialize_warning, serve,
  serve_client,
}
use ikp_data_propagator.Wire.Receiver.Reads.{
  Reads, Reads-and_then, read-Reads, allocate-Reads, read_short,
}

-- Memory for messages of up to 2 GiB, and for the warnings.
pub record IsAmple (memory : Memory) : Type 0 where
  pub buffers : (n : ℕ) → n < 2 ^ 32 → memory.malloc n ≡ true
  pub struct_block : memory.warning.struct_block ≡ true
  pub city_copy : memory.warning.city_copy ≡ true
  pub dest_copy : memory.warning.dest_copy ≡ true

-- The message and what follows it, bracketed as it is read.
abbrev onto : Warning → List ℕ → List ℕ
onto w rest =
    be_bytes 4 (length w.city)
    ++ (w.city
        ++ (be_bytes 4 (length w.dest_node)
            ++ (w.dest_node
                ++ (be_bytes 4 w.kind
                    ++ (be_bytes 8 w.value ++ (be_bytes 8 w.timestamp ++ rest))))))

message-onto : (w : Warning) (rest : List ℕ) → message w ++ rest ≡ onto w rest
message-onto w rest = simp append_assoc

warning_create_lem :
    (alloc : WarningAlloc) (w : Warning)
    → alloc.struct_block ≡ true
    → alloc.city_copy ≡ true
    → alloc.dest_copy ≡ true
    → IsSendable w
    → warning_create alloc w.city w.kind w.value w.timestamp w.dest_node ≡ some w
unfolding warning_create
warning_create_lem alloc w a b c s =
    rw (a, b, c, until_nul-IsText w.city s.city_text, until_nul-IsText w.dest_node s.dest_text)

of_le_words :
    (a b : ℕ)
    → of_le (be_bytes 4 a ++ be_bytes 4 b) ≡ of_le (be_bytes 4 a) + 2 ^ 32 * of_le (be_bytes 4 b)
of_le_words a b = omega arith

of_le-be_bytes4-lt : (a : ℕ) → of_le (be_bytes 4 a) < 2 ^ 32
of_le-be_bytes4-lt a = omega arith

module _ (order : ByteOrder) where
  -- `network_to_host64` reads a number whose bytes came highest first.
  pub network_to_host64_bytes :
      (x : ℕ) → x < 2 ^ 64 → network_to_host64 order (of_le (be_bytes 8 x)) ≡ x
  unfolding network_to_host64
  network_to_host64_bytes x lt =
      let hi = x / 2 ^ 32 in
      let lo = x % 2 ^ 32 in
      let y = of_le (be_bytes 8 x) in
      let split : y ≡ of_le (be_bytes 4 hi) + 2 ^ 32 * of_le (be_bytes 4 lo) =
        ap of_le (be_bytes_words x) ∙ of_le_words hi lo in
      let low : y % 2 ^ 32 ≡ of_le (be_bytes 4 hi) = omega (arith, of_le-be_bytes4-lt hi) in
      let high : y / 2 ^ 32 % 2 ^ 32 ≡ of_le (be_bytes 4 lo) =
        omega (arith, of_le-be_bytes4-lt hi, of_le-be_bytes4-lt lo) in
      ap₂ (λ a b. bit_or (a * 2 ^ 32) b) (ap order.ntohl low ∙ order.ntohl_bytes hi (omega arith))
        (ap order.ntohl high ∙ order.ntohl_bytes lo (omega arith))
      ∙ bit_or_words hi lo (omega arith)
      ∙ omega arith

abbrev pub AllSendable : List Warning → Type 0
AllSendable [] = Unit {0}
AllSendable (w ∷ ws) = IsSendable w × AllSendable ws

abbrev pub pack_all : ByteOrder → List Warning → List ℕ
pack_all order [] = []
pack_all order (w ∷ ws) = pack order w ++ pack_all order ws

module _ (net : Transport) (order : ByteOrder) (memory : Memory) (ample : IsAmple memory) where
  open net use {Socket, pending}

  pub read_u32-Reads :
      (n : ℕ) (s : Socket) (rest : List ℕ)
      → n < 2 ^ 32
      → pending s ≡ be_bytes 4 n ++ rest
      → Reads net (read_u32 net order memory) s n rest
  unfolding read_u32
  read_u32-Reads n s rest lt e =
      Reads-and_then net (read net 4) _ s (be_bytes 4 n) n rest rest
        (read-Reads net 4 s (be_bytes 4 n) rest (omega arith) refl e)
        (λ s₁ e₁. (s₁, ap (λ m. (some m, s₁)) (order.ntohl_bytes n lt), e₁))

  pub read_u64-Reads :
      (n : ℕ) (s : Socket) (rest : List ℕ)
      → n < 2 ^ 64
      → pending s ≡ be_bytes 8 n ++ rest
      → Reads net (read_u64 net order memory) s n rest
  unfolding read_u64
  read_u64-Reads n s rest lt e =
      Reads-and_then net (read net 8) _ s (be_bytes 8 n) n rest rest
        (read-Reads net 8 s (be_bytes 8 n) rest (omega arith) refl e)
        (λ s₁ e₁. (s₁, ap (λ m. (some m, s₁)) (network_to_host64_bytes order n lt), e₁))

  pub read_text-Reads :
      (t : Text) (s : Socket) (rest : List ℕ)
      → length t < 2 ^ 31
      → pending s ≡ be_bytes 4 (length t) ++ (t ++ rest)
      → Reads net (read_text net order memory) s t rest
  unfolding read_text
  read_text-Reads t s rest lt e =
      Reads-and_then net (read_u32 net order memory) _ s (length t) t (t ++ rest) rest
        (read_u32-Reads (length t) s (t ++ rest) (omega arith) e)
        (λ s₁ e₁.
          Reads-and_then net (allocate net memory (length t)) _ s₁ tt t (t ++ rest) rest
            (allocate-Reads net memory (length t) s₁ (t ++ rest)
              (ample.buffers ((length t + 1) % 2 ^ 32) (omega arith)) e₁)
            (λ s₂ e₂. read-Reads net (length t) s₂ t rest lt refl e₂))

  create-Reads :
      (w : Warning) (s : Socket) (rest : List ℕ)
      → IsSendable w
      → pending s ≡ rest
      → Reads net
          (λ s. (warning_create memory.warning w.city w.kind w.value w.timestamp w.dest_node, s))
          s
          w
          rest
  create-Reads w s rest ok e = (
    s,
    ap (λ o. (o, s))
        (warning_create_lem memory.warning w ample.struct_block ample.city_copy ample.dest_copy ok),
    e,
  )

  -- With memory for it, the message of a sendable warning that is still to arrive is read as that
  -- warning, whatever the pieces it comes in, and what follows it is left to be read.
  pub deserialize-Reads :
      (w : Warning) (s : Socket) (rest : List ℕ)
      → IsSendable w
      → pending s ≡ pack order w ++ rest
      → Reads net (deserialize_warning net order memory) s w rest
  unfolding deserialize_warning
  deserialize-Reads w s rest ok e =
      let r₅ = rest in
      let r₄ = be_bytes 8 w.timestamp ++ r₅ in
      let r₃ = be_bytes 8 w.value ++ r₄ in
      let r₂ = be_bytes 4 w.kind ++ r₃ in
      let r₁ = be_bytes 4 (length w.dest_node) ++ (w.dest_node ++ r₂) in
      let text = read_text net order memory in
      let u32 = read_u32 net order memory in
      let u64 = read_u64 net order memory in
      let arrives = e ∙ ap (λ bs. bs ++ rest) (pack_layout order w ok) ∙ message-onto w rest in
      Reads-and_then net text _ s w.city w r₁ rest
        (read_text-Reads w.city s r₁ (omega (arith, ok.short)) arrives)
        λ s₁ e₁.
          Reads-and_then net text _ s₁ w.dest_node w r₂ rest
            (read_text-Reads w.dest_node s₁ r₂ (omega (arith, ok.short)) e₁)
            λ s₂ e₂.
              Reads-and_then net u32 _ s₂ w.kind w r₃ rest
                (read_u32-Reads w.kind s₂ r₃ ok.kind_lt e₂)
                λ s₃ e₃.
                  Reads-and_then net u64 _ s₃ w.value w r₄ rest
                    (read_u64-Reads w.value s₃ r₄ ok.value_lt e₃)
                    λ s₄ e₄.
                      Reads-and_then net u64 _ s₄ w.timestamp w r₅ rest
                        (read_u64-Reads w.timestamp s₄ r₅ ok.timestamp_lt e₄)
                        λ s₅ e₅. create-Reads w s₅ rest ok e₅

  -- At the end of a connection no message is read.
  deserialize_ended :
      (s : Socket)
      → pending s ≡ []
      → (s' : Socket) × (deserialize_warning net order memory s ≡ (none, s'))
  unfolding deserialize_warning read_text read_u32
  deserialize_ended s e = let (s', run) = read_short net 4 s (rw e (omega arith)) in (s', rw run)

  -- With memory for the messages and fuel for their number: the sendable warnings that a peer
  -- packs and sends over one connection before it ends are submitted all, in the order in which
  -- they were sent and unchanged, whatever the pieces that they come in, and the loop ends then.
  pub serve_client_lem :
      (ws : List Warning) (fuel : ℕ) (s : Socket)
      → length ws < fuel
      → AllSendable ws
      → pending s ≡ pack_all order ws
      → serve_client net order memory fuel s ≡ some ws
  unfolding serve_client
  serve_client_lem ws zero s lt ok e = absurd (omega arith)
  serve_client_lem [] (suc fuel) s lt ok e =
      let (s', run) = deserialize_ended s e in ap (serve net order memory _) run
  serve_client_lem (w ∷ ws) (suc fuel) s lt ok e =
      let (s', run, left) = deserialize-Reads w s (pack_all order ws) ok.0 e in
      ap (serve net order memory _) run
      ∙ ap (Option.map (λ l. w ∷ l)) (serve_client_lem ws fuel s' (omega arith) ok.1 left)
