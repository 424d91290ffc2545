-- ===== src/Wire/Layout.antt =====
-- What `send_warning_to` puts on the wire: the layout that README.md documents.
use ikp_data_propagator.Prelude.{
  ℕ, zero, suc, ◌+◌, ◌/◌, ◌%◌, ◌^◌, ◌<◌, ◌≡◌, refl, ap, ap₂, ◌∙◌, sym, List, [], ◌∷◌, ◌++◌, arith,
  length, length-append, take,
}
use ikp_data_propagator.Text.{Text, IsText}
use ikp_data_propagator.Warning.{Warning}
use ikp_data_propagator.Wire.Bytes.{
  le_bytes, be_bytes, bit_or_words, le_bytes_words, be_bytes_words,
}
use ikp_data_propagator.Wire.{ByteOrder, host_to_network64, len32, buffer_length, pack}

-- A warning as the program makes it: C strings whose message is shorter than 2 GiB, and numbers
-- in the range of their fields.
pub record IsSendable (w : Warning) : Type 0 where
  pub city_text : IsText w.city
  pub dest_text : IsText w.dest_node
  pub short : length w.city + length w.dest_node + 28 < 2 ^ 31
  pub kind_lt : w.kind < 2 ^ 32
  pub value_lt : w.value < 2 ^ 64
  pub timestamp_lt : w.timestamp < 2 ^ 64

-- The documented message: lengths and numbers with their highest byte first.
abbrev pub message : Warning → List ℕ
message w =
    be_bytes 4 (length w.city)
    ++ (w.city
        ++ (be_bytes 4 (length w.dest_node)
            ++ (w.dest_node
                ++ (be_bytes 4 w.kind ++ (be_bytes 8 w.value ++ be_bytes 8 w.timestamp)))))

pub take_all : (n : ℕ) (s : List ℕ) → length s ≡ n → take n s ≡ s
take_all zero [] e = refl
take_all zero (c ∷ s) e = absurd (omega arith)
take_all (suc n) [] e = refl
take_all (suc n) (c ∷ s) e = ap (λ l. c ∷ l) (take_all n s (omega arith))

module _ (order : ByteOrder) where
  -- In memory the converted number has its highest byte first.
  pub host_to_network64_bytes :
      (x : ℕ) → x < 2 ^ 64 → le_bytes 8 (host_to_network64 order x) ≡ be_bytes 8 x
  unfolding host_to_network64
  host_to_network64_bytes x lt =
      let hi = x / 2 ^ 32 % 2 ^ 32 in
      let lo = x % 2 ^ 32 in
      let same : hi ≡ x / 2 ^ 32 = omega arith in
      ap (le_bytes 8)
        (bit_or_words (order.htonl lo) (order.htonl hi) (order.htonl_lt hi (omega arith)))
      ∙ le_bytes_words (order.htonl lo) (order.htonl hi) (order.htonl_lt hi (omega arith))
      ∙ ap₂ ◌++◌ (order.htonl_bytes hi (omega arith) ∙ ap (be_bytes 4) same)
          (order.htonl_bytes lo (omega arith))
      ∙ sym (be_bytes_words x)

  len32_eq : (t : Text) → length t < 2 ^ 31 → len32 t ≡ length t
  len32_eq t lt = omega arith

  prefix_bytes :
      (t : Text) → length t < 2 ^ 31 → le_bytes 4 (order.htonl (len32 t)) ≡ be_bytes 4 (length t)
  prefix_bytes t lt = order.htonl_bytes (len32 t) (omega arith) ∙ ap (be_bytes 4) (len32_eq t lt)

  text_bytes : (t : Text) → length t < 2 ^ 31 → take (len32 t) t ≡ t
  text_bytes t lt = take_all (len32 t) t (sym (len32_eq t lt))

  kind_bytes : (k : ℕ) → k < 2 ^ 32 → le_bytes 4 (order.htonl (k % 2 ^ 32)) ≡ be_bytes 4 k
  kind_bytes k lt =
      let same : k % 2 ^ 32 ≡ k = omega arith in
      order.htonl_bytes (k % 2 ^ 32) (omega arith) ∙ ap (be_bytes 4) same

  pub pack_layout : (w : Warning) → IsSendable w → pack order w ≡ message w
  unfolding pack
  pack_layout w s = ap₂ ◌++◌ (prefix_bytes w.city (omega (arith, s.short))) (
      ap₂ ◌++◌ (text_bytes w.city (omega (arith, s.short))) (
        ap₂ ◌++◌ (prefix_bytes w.dest_node (omega (arith, s.short))) (
          ap₂ ◌++◌ (text_bytes w.dest_node (omega (arith, s.short))) (
            ap₂ ◌++◌ (kind_bytes w.kind s.kind_lt) (
              ap₂ ◌++◌ (host_to_network64_bytes w.value s.value_lt)
                (host_to_network64_bytes w.timestamp s.timestamp_lt))))))

  pub length-message : (w : Warning) → IsSendable w → length (message w) ≡ buffer_length w
  unfolding buffer_length
  length-message w s = omega (
    arith,
    length-append w.city (
        be_bytes 4 (length w.dest_node)
        ++ (w.dest_node ++ (be_bytes 4 w.kind ++ (be_bytes 8 w.value ++ be_bytes 8 w.timestamp)))),
    length-append w.dest_node (be_bytes 4 w.kind ++ (be_bytes 8 w.value ++ be_bytes 8 w.timestamp)),
    s.short,
  )

  -- Where the message is shorter than 2 GiB, the bytes that `send_warning_to` sends are the
  -- documented message, and they fill the buffer exactly: no write passes its end.
  pub pack-message :
      (w : Warning)
      → IsSendable w
      → (pack order w ≡ message w) × (length (pack order w) ≡ buffer_length w)
  pack-message w s = (pack_layout w s, ap length (pack_layout w s) ∙ length-message w s)
