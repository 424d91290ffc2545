-- ===== src/Wire/Bytes.antt =====
-- The bytes of a number in both orders, and `|` of two numbers with no common bit.
use Prim.Native.Nat.{max, digits, bit_or, bit_or-bitwise}
use ikp_data_propagator.Prelude.{
  ℕ, zero, suc, ◌+◌, ◌*◌, ◌/◌, ◌%◌, ◌^◌, ◌≤◌, ◌<◌, ◌≡◌, refl, ap, ap₂, List, [], ◌∷◌, ◌++◌, arith,
}

-- The `n` lowest bytes of `x`, the lowest first.
abbrev pub le_bytes : ℕ → ℕ → List ℕ
le_bytes zero x = []
le_bytes (suc n) x = x % 256 ∷ le_bytes n (x / 256)

-- The same bytes, the highest first.
abbrev pub be_bytes : ℕ → ℕ → List ℕ
be_bytes zero x = []
be_bytes (suc n) x = be_bytes n (x / 256) ++ x % 256 ∷ []

abbrev pub of_le : List ℕ → ℕ
of_le [] = 0
of_le (b ∷ bs) = b + 256 * of_le bs

abbrev pub be_onto : ℕ → List ℕ → ℕ
be_onto n [] = n
be_onto n (b ∷ bs) = be_onto (n * 256 + b) bs

abbrev pub of_be : List ℕ → ℕ
of_be = be_onto 0

abbrev or_digits : ℕ → ℕ → ℕ → ℕ
or_digits n a b = digits (λ b. b) max n a b

or_digits_fuel : (n m a b : ℕ) → a ≤ n → a ≤ m → or_digits n a b ≡ or_digits m a b
or_digits_fuel zero zero a b p q = refl
or_digits_fuel zero (suc m) zero b p q = refl
or_digits_fuel zero (suc m) (suc a) b p q = absurd (omega arith)
or_digits_fuel (suc n) zero zero b p q = refl
or_digits_fuel (suc n) zero (suc a) b p q = absurd (omega arith)
or_digits_fuel (suc n) (suc m) zero b p q = refl
or_digits_fuel (suc n) (suc m) (suc a) b p q =
    omega (arith, or_digits_fuel n m (suc a / 2) (b / 2) (omega arith) (omega arith))

zero-bit_or : (b : ℕ) → bit_or 0 b ≡ b
zero-bit_or b = bit_or-bitwise 0 b

bit_or_step : (a b : ℕ) → bit_or a b ≡ max (a % 2) (b % 2) + 2 * bit_or (a / 2) (b / 2)
bit_or_step zero b = omega (arith, zero-bit_or b, zero-bit_or (b / 2))
bit_or_step (suc a) b = omega (
  arith,
  bit_or-bitwise (suc a) b,
  bit_or-bitwise (suc a / 2) (b / 2),
  or_digits_fuel a (suc a / 2) (suc a / 2) (b / 2) (omega arith) (omega arith),
)

bit_or-zero_fuel : (n a : ℕ) → a ≤ n → bit_or a 0 ≡ a
bit_or-zero_fuel n zero h = refl
bit_or-zero_fuel zero (suc a) h = absurd (omega arith)
bit_or-zero_fuel (suc n) (suc a) h =
    omega (arith, bit_or_step (suc a) 0, bit_or-zero_fuel n (suc a / 2) (omega arith))

abbrev pub pow2 : ℕ → ℕ
pow2 zero = 1
pow2 (suc k) = 2 * pow2 k

-- A shifted number and one below the shift are added by `|`.
pub bit_or_shifted : (k a b : ℕ) → b < pow2 k → bit_or (a * pow2 k) b ≡ a * pow2 k + b
bit_or_shifted zero a b lt =
    let e : b ≡ 0 = omega arith in
    rw e (omega (arith, bit_or-zero_fuel (a * 1) (a * 1) (omega arith)))
bit_or_shifted (suc k) a b lt =
    let half : (a * (2 * pow2 k)) / 2 ≡ a * pow2 k = omega arith in
    let even : (a * (2 * pow2 k)) % 2 ≡ 0 = omega arith in
    let ih = bit_or_shifted k a (b / 2) (omega arith) in
    omega (arith, bit_or_step (a * (2 * pow2 k)) b, ap (λ n. bit_or n (b / 2)) half)

pub bit_or_words : (hi lo : ℕ) → lo < 2 ^ 32 → bit_or (hi * 2 ^ 32) lo ≡ hi * 2 ^ 32 + lo
bit_or_words hi lo lt = bit_or_shifted 32 hi lo lt

cons_eq : {a b : ℕ} {xs ys : List ℕ} → a ≡ b → xs ≡ ys → a ∷ xs ≡ b ∷ ys
cons_eq p q = ap₂ ◌∷◌ p q

-- A 64-bit number is its low word and then its high word.
pub le_bytes_words :
    (hi lo : ℕ) → lo < 2 ^ 32 → le_bytes 8 (hi * 2 ^ 32 + lo) ≡ le_bytes 4 lo ++ le_bytes 4 hi
le_bytes_words hi lo lt = cons_eq (omega arith) (
    cons_eq (omega arith) (
      cons_eq (omega arith) (
        cons_eq (omega arith) (
          cons_eq (omega arith)
            (cons_eq (omega arith) (cons_eq (omega arith) (cons_eq (omega arith) (refl))))))))

pub be_bytes_words : (x : ℕ) → be_bytes 8 x ≡ be_bytes 4 (x / 2 ^ 32) ++ be_bytes 4 (x % 2 ^ 32)
be_bytes_words x = cons_eq (omega arith) (
    cons_eq (omega arith) (
      cons_eq (omega arith) (
        cons_eq (omega arith) (
          cons_eq (omega arith)
            (cons_eq (omega arith) (cons_eq (omega arith) (cons_eq (omega arith) (refl))))))))

pub of_be-be_bytes4 : (x : ℕ) → x < 2 ^ 32 → of_be (be_bytes 4 x) ≡ x
of_be-be_bytes4 x lt = omega arith

pub of_le-le_bytes4 : (x : ℕ) → x < 2 ^ 32 → of_le (le_bytes 4 x) ≡ x
of_le-le_bytes4 x lt = omega arith

pub of_le-le_bytes8 : (x : ℕ) → x < 2 ^ 64 → of_le (le_bytes 8 x) ≡ x
of_le-le_bytes8 x lt = omega arith
