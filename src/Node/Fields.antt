-- ===== src/Node/Fields.antt =====
-- The fields of a line of nodes.csv, as `node_load_all` in Common/node.c takes them apart.
use ikp_data_propagator.Prelude.{
  ℕ, zero, suc, ◌<◌, ◌≡◌, refl, ap, Bool, true, false, ◌&&◌, not, some, [], ◌∷◌, ◌++◌, ◌==◌, arith,
  length,
}
use ikp_data_propagator.Text.{Text, until_nul}
use ikp_data_propagator.Node.{
  is_space, skip_spaces, cons_unless_blank, cut_spaces, trim, skip_commas, split_comma, strtok,
  strip_newline, fgets,
}

-- A byte of a field: no blank, no comma, and not NUL.
abbrev pub is_plain : ℕ → Bool
is_plain c = not (is_space c) && (not (c == b',') && not (c == 0))

abbrev pub AllPlain : Text → Type 0
AllPlain [] = Unit {0}
AllPlain (c ∷ s) = (is_plain c ≡ true) × AllPlain s

abbrev pub IsField : Text → Type 0
IsField [] = ⊥
IsField (c ∷ s) = AllPlain (c ∷ s)

-- A byte of a line: no end of line, and not NUL.
abbrev pub in_line : ℕ → Bool
in_line c = not (c == 10) && (not (c == 13) && not (c == 0))

abbrev pub IsLine : Text → Type 0
IsLine [] = Unit {0}
IsLine (c ∷ s) = (in_line c ≡ true) × IsLine s

pub AllPlain-append : (s t : Text) → AllPlain s → AllPlain t → AllPlain (s ++ t)
AllPlain-append [] t p q = q
AllPlain-append (c ∷ s) t p q = (p.0, AllPlain-append s t p.1 q)

pub IsLine-append : (s t : Text) → IsLine s → IsLine t → IsLine (s ++ t)
IsLine-append [] t p q = q
IsLine-append (c ∷ s) t p q = (p.0, IsLine-append s t p.1 q)

plain-in_line : (c : ℕ) → is_plain c ≡ true → in_line c ≡ true
plain-in_line c p = ground arith

pub AllPlain-IsLine : (s : Text) → AllPlain s → IsLine s
AllPlain-IsLine [] p = tt
AllPlain-IsLine (c ∷ s) p = (plain-in_line c p.0, AllPlain-IsLine s p.1)

pub AllPlain-of_field : (s : Text) → IsField s → AllPlain s
AllPlain-of_field [] f = tt
AllPlain-of_field (c ∷ s) f = f

pub fgets-line :
    (n : ℕ) (l rest : Text)
    → IsLine l
    → length l < n
    → fgets n (l ++ 10 ∷ rest) ≡ (l ++ 10 ∷ [], rest)
unfolding fgets
fgets-line zero l rest p lt = absurd (omega arith)
fgets-line (suc n) [] rest p lt = refl
fgets-line (suc n) (c ∷ l) rest p lt =
    let other : (c == 10) ≡ false = ground arith in
    rw (other, fgets-line n l rest p.1 (omega arith)) refl

pub until_nul-line : (l : Text) → IsLine l → until_nul (l ++ 10 ∷ []) ≡ l ++ 10 ∷ []
until_nul-line [] p = refl
until_nul-line (c ∷ l) p =
    let other : (c == 0) ≡ false = ground arith in rw (other, until_nul-line l p.1) refl

pub strip_newline-line : (l : Text) → strip_newline (l ++ 10 ∷ []) ≡ l
unfolding strip_newline
strip_newline-line [] = refl
strip_newline-line (c ∷ []) = refl
strip_newline-line (c ∷ d ∷ l) = ap (λ s. c ∷ s) (strip_newline-line (d ∷ l))

not_comma : (c : ℕ) → is_plain c ≡ true → (c == b',') ≡ false
not_comma c p = ground arith

not_space : (c : ℕ) → is_plain c ≡ true → is_space c ≡ false
not_space c p = ground arith

split_comma-field : (f r : Text) → AllPlain f → split_comma (f ++ b',' ∷ r) ≡ (f, r)
unfolding split_comma
split_comma-field [] r p = refl
split_comma-field (c ∷ f) r p = rw (not_comma c p.0, split_comma-field f r p.1) refl

split_comma-last : (f : Text) → AllPlain f → split_comma f ≡ (f, [])
unfolding split_comma
split_comma-last [] p = refl
split_comma-last (c ∷ f) p = rw (not_comma c p.0, split_comma-last f p.1) refl

pub strtok-field : (f r : Text) → IsField f → strtok (f ++ b',' ∷ r) ≡ (some f, r)
unfolding strtok skip_commas
strtok-field [] r p = absurd p
strtok-field (c ∷ f) r p =
    rw (strtok, not_comma c p.0)
      (ap (λ (q : Text × Text). (some q.0, q.1)) (split_comma-field (c ∷ f) r p))

pub strtok-last : (f : Text) → IsField f → strtok f ≡ (some f, [])
unfolding strtok skip_commas
strtok-last [] p = absurd p
strtok-last (c ∷ f) p =
    rw (strtok, not_comma c p.0)
      (ap (λ (q : Text × Text). (some q.0, q.1)) (split_comma-last (c ∷ f) p))

cut_spaces-field : (f : Text) → AllPlain f → cut_spaces f ≡ f
unfolding cut_spaces
cut_spaces-field [] p = refl
cut_spaces-field (c ∷ []) p = rw (not_space c p.0) refl
cut_spaces-field (c ∷ d ∷ f) p = ap (cons_unless_blank c) (cut_spaces-field (d ∷ f) p.1)

pub trim-field : (f : Text) → IsField f → trim f ≡ f
unfolding trim skip_spaces
trim-field [] p = absurd p
trim-field (c ∷ f) p = rw (not_space c p.0) (cut_spaces-field (c ∷ f) p)
