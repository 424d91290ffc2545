-- ===== src/Text/Format.antt =====
-- What `snprintf` prints for `%s` and `%u`, and how `atoi` reads a number back: the command lines
-- of DataSource/cp_launcher.c and the names of the events.
use Prim.Native.Char.{code}
use Prim.Native.String.{String}
use Prim.Native.Nat.{◌/◌}
use ikp_data_propagator.Prelude.{
  ℕ, zero, suc, ◌+◌, ◌-◌, ◌*◌, ◌%◌, ◌^◌, ◌<◌, ◌≡◌, refl, ap, ◌∙◌, [], ◌∷◌, ◌++◌, arith, ltb, ltb→lt,
  lt→ltb, sym, ◌==◌, if◌then◌else◌, take, Bool-cases, inl, inr, true, false, Bool,
}
use mathlib.Core.List.{append_assoc, append-nil}
use ikp_data_propagator.Text.{Text}
use ikp_data_propagator.Node.{is_space, is_digit, digits, port_of, skip_spaces}

-- The bytes of a literal.
abbrev pub bytes : String → Text
bytes String.[] = []
bytes (String.◌∷◌ c s) = code c ∷ bytes s

-- `%u`; the first argument is the digits that are printed at most.
unfoldable pub decimal : ℕ → ℕ → Text
decimal zero n = []
decimal (suc d) n =
    let front = decimal d (n / 10) in
    if ltb n 10 then (b'0' + n) ∷ [] else front ++ (b'0' + n % 10) ∷ []

-- `snprintf(buf, size, ...)` keeps `size - 1` bytes.
abbrev pub snprintf : ℕ → Text → Text
snprintf size s = take (size - 1) s

read_digit :
    (a c m : ℕ) (s : Text) → c < 10 → a * 10 + c ≡ m → digits a ((b'0' + c) ∷ s) ≡ digits m s
unfolding digits
read_digit a c m s lt e = ground arith

split_last :
    (d n : ℕ) → n < 10 ^ suc d → (n / 10 < 10 ^ d) × (n % 10 < 10) × (n / 10 * 10 + n % 10 ≡ n)
split_last d n lt = (omega arith, omega arith, omega arith)

digits-decimal : (d n : ℕ) (t : Text) → n < 10 ^ d → digits 0 (decimal d n ++ t) ≡ digits n t
unfolding decimal
digits-decimal zero n t lt = ap (λ m. digits m t) {x = 0} {y = n} (omega arith)
digits-decimal (suc d) n t lt = elim (Bool-cases (ltb n 10)) [
  | inl e ↦ rw e (read_digit 0 n n t (ltb→lt n 10 e) (omega arith))
  | inr e ↦
      let (below, small, whole) = split_last d n lt in
      rw (e, append_assoc)
        (digits-decimal d (n / 10) ((b'0' + n % 10) ∷ t) below
          ∙ read_digit (n / 10) (n % 10) n t small whole)
]

abbrev starts_with_digit : Text → Bool
starts_with_digit [] = false
starts_with_digit (c ∷ s) = is_digit c

starts_with_digit-append :
    (s t : Text) → starts_with_digit s ≡ true → starts_with_digit (s ++ t) ≡ true
starts_with_digit-append [] t e = cc
starts_with_digit-append (c ∷ s) t e = e

digit : (n : ℕ) → n < 10 → is_digit (b'0' + n) ≡ true
digit n lt = ground arith

starts_with_digit-decimal :
    (d n : ℕ) → n < 10 ^ suc d → starts_with_digit (decimal (suc d) n) ≡ true
unfolding decimal
starts_with_digit-decimal zero n lt =
    let small : n < 10 = omega arith in rw (lt→ltb n 10 small) (digit n small)
starts_with_digit-decimal (suc d) n lt = elim (Bool-cases (ltb n 10)) [
  | inl e ↦ rw e (digit n (ltb→lt n 10 e))
  | inr e ↦ rw e (
      starts_with_digit-append (decimal (suc d) (n / 10)) ((b'0' + n % 10) ∷ [])
        (starts_with_digit-decimal d (n / 10) (split_last (suc d) n lt).0))
]

not_signs :
    (c : ℕ)
    → is_digit c ≡ true
    → (is_space c ≡ false) × ((c == b'-') ≡ false) × ((c == b'+') ≡ false)
not_signs c d = (ground arith, ground arith, ground arith)

port_of-digits : (s : Text) → starts_with_digit s ≡ true → port_of s ≡ digits 0 s % 2 ^ 16
unfolding port_of skip_spaces
port_of-digits [] d = cc
port_of-digits (c ∷ s) d =
    let (blank, minus, plus) = not_signs c d in rw (port_of, blank, minus, plus) refl

-- A port printed by `%u` is read back by `atoi`: a process that the launcher starts listens on the
-- port of its node.
pub port_of-decimal : (n : ℕ) → n < 2 ^ 16 → port_of (decimal 10 n) ≡ n
unfolding digits
port_of-decimal n lt =
    port_of-digits (decimal 10 n) (starts_with_digit-decimal 9 n (omega arith))
    ∙ ap (λ m. m % 2 ^ 16)
        (ap (digits 0) (sym (append-nil (decimal 10 n))) ∙ digits-decimal 10 n [] (omega arith))
    ∙ omega arith
