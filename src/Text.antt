-- ===== src/Text.antt =====
-- C strings, and the hash and equality of string keys in Common/node.c and
-- CentralPropagator/cp_context.c. A string is the list of its bytes before the NUL.
pub mod Format
use ikp_data_propagator.Prelude.{
  ℕ, ◌+◌, ◌*◌, ◌%◌, ◌<◌, ◌≡◌, refl, ap, inl, inr, Bool-cases, Bool, true, false, ◌&&◌, List, [],
  ◌∷◌, arith, ◌==◌, size_mod, if◌then◌else◌,
}
use ikp_data_propagator.HashMap.{KeyOps}

abbrev pub Text : Type 0
Text = List ℕ

-- Bytes between 1 and 255.
abbrev pub IsText : Text → Type 0
IsText [] = Unit {0}
IsText (c ∷ s) = (0 < c) × (c < 256) × IsText s

-- What `strlen`, `_strdup` and `strcmp` see of a buffer: the bytes before its first NUL.
abbrev pub until_nul : List ℕ → Text
until_nul [] = []
until_nul (c ∷ s) = if c == 0 then [] else c ∷ until_nul s

pub until_nul-IsText : (s : Text) → IsText s → until_nul s ≡ s
until_nul-IsText [] t = refl
until_nul-IsText (c ∷ s) t = ground (arith, until_nul-IsText s t.2)

-- One round of the loop: `h = ((h << 5) + h) + *s++` on `size_t`.
abbrev pub hash_step : ℕ → ℕ → ℕ
hash_step h c = (h * 32 % size_mod + h + c) % size_mod

unfoldable pub hash_from : ℕ → Text → ℕ
hash_from h [] = h
hash_from h (c ∷ s) = hash_from (hash_step h c) s

unfoldable pub hash_string : Text → ℕ
unfolding hash_from
hash_string s = hash_from 5381 s

-- `strcmp(a, b) == 0`
unfoldable pub eq_string : Text → Text → Bool
eq_string [] [] = true
eq_string [] (_ ∷ _) = false
eq_string (_ ∷ _) [] = false
eq_string (a ∷ s) (b ∷ t) = (a == b) && eq_string s t

pub eq_string_refl : (s : Text) → eq_string s s ≡ true
unfolding eq_string
eq_string_refl [] = refl
eq_string_refl (a ∷ s) = ground (arith, eq_string_refl s)

pub eq_of_eq_string : (s t : Text) → eq_string s t ≡ true → s ≡ t
unfolding eq_string
eq_of_eq_string [] [] e = refl
eq_of_eq_string [] (b ∷ t) e = cc
eq_of_eq_string (a ∷ s) [] e = cc
eq_of_eq_string (a ∷ s) (b ∷ t) e = ground (arith, eq_of_eq_string s t)

pub eq_string-false : (s t : Text) → (s ≡ t → ⊥) → eq_string s t ≡ false
eq_string-false s t ne = elim (Bool-cases (eq_string s t)) [
  | inl same ↦ absurd (ne (eq_of_eq_string s t same))
  | inr differ ↦ differ
]

pub eq_string_symm : (s t : Text) → eq_string s t ≡ eq_string t s
unfolding eq_string
eq_string_symm [] [] = refl
eq_string_symm [] (b ∷ t) = refl
eq_string_symm (a ∷ s) [] = refl
eq_string_symm (a ∷ s) (b ∷ t) = ground (arith, eq_string_symm s t)

pub eq_string_trans :
    (a b c : Text) → eq_string a b ≡ true → eq_string b c ≡ true → eq_string a c ≡ true
eq_string_trans a b c p q = rw (eq_of_eq_string a b p, eq_of_eq_string b c q) (eq_string_refl c)

pub hash_string-eq_string : (a b : Text) → eq_string a b ≡ true → hash_string a ≡ hash_string b
hash_string-eq_string a b e = ap hash_string (eq_of_eq_string a b e)

-- The callbacks that node.c and cp_context.c give to `hashmap_create`.
instance abbrev pub string_key : KeyOps Text
string_key = record {
  hash_func = hash_string;
  key_eq = eq_string;
  key_eq_refl = eq_string_refl;
  key_eq_symm = eq_string_symm;
  key_eq_trans = eq_string_trans;
  hash_func-key_eq = hash_string-eq_string;
}
