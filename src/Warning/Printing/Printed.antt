-- ===== src/Warning/Printing/Printed.antt =====
-- What `warning_to_string` in Common/warning.c returns.
use ikp_data_propagator.Prelude.{
  ℕ, zero, suc, ◌+◌, ◌%◌, ◌^◌, ◌<◌, ◌≡◌, refl, ap, ◌||◌, ◌&&◌, Bool, true, Option, none, some, List,
  [], ◌∷◌, ◌++◌, arith, ltb, leb, if◌then◌else◌, Bool-cases, inl, inr, length, get_elem?, get_or,
  sym, ◌≤◌, ltb→lt, lt→ltb, size_mod,
}
use mathlib.Core.Option
use mathlib.Core.Option.{bind}
use ikp_data_propagator.Text.{Text, IsText, until_nul, until_nul-IsText}
use ikp_data_propagator.Text.Format.{bytes}
use ikp_data_propagator.Warning.{Warning}
use ikp_data_propagator.Warning.Printing.{
  Locale, warning_type_names, warning_type_to_string, scprintf, format_local_time, warning_line,
  filled, warning_to_string,
}

-- The name of a warning's type, for every number that the enum's variable may hold.
abbrev pub type_name : ℕ → Text
type_name t = get_or warning_type_names t (bytes "Unknown warning type")

get_elem?-get_or :
    (xs : List Text) (i : ℕ) (d : Text) → i < length xs → get_elem? xs i ≡ some (get_or xs i d)
get_elem?-get_or [] i d h = absurd (omega arith)
get_elem?-get_or (x ∷ xs) zero d h = refl
get_elem?-get_or (x ∷ xs) (suc i) d h = get_elem?-get_or xs i d (omega arith)

get_or_beyond : (xs : List Text) (i : ℕ) (d : Text) → length xs ≤ i → get_or xs i d ≡ d
get_or_beyond [] i d h = refl
get_or_beyond (x ∷ xs) zero d h = absurd (omega arith)
get_or_beyond (x ∷ xs) (suc i) d h = get_or_beyond xs i d (omega arith)

-- No number makes `warning_type_to_string` read beyond the names.
pub type_to_string_lem : (t : ℕ) → warning_type_to_string t ≡ some (type_name t)
unfolding warning_type_to_string
type_to_string_lem t = elim (Bool-cases (leb (2 ^ 31) t || ltb 3 t)) [
  | inl beyond ↦
      let high : 4 ≤ t = ground arith in
      rw beyond (ap some (sym (get_or_beyond warning_type_names t _ high)))
  | inr named ↦
      let low : t < 4 = ground arith in
      rw named (get_elem?-get_or warning_type_names t (bytes "Unknown warning type") low)
]

IsText-append : (s t : Text) → IsText s → IsText t → IsText (s ++ t)
IsText-append [] t hs ht = ht
IsText-append (c ∷ s) t hs ht = (hs.0, hs.1, IsText-append s t hs.2 ht)

-- A literal is checked by computing.
abbrev is_text : Text → Bool
is_text [] = true
is_text (c ∷ s) = ltb 0 c && ltb c 256 && is_text s

is_text-IsText : (s : Text) → is_text s ≡ true → IsText s
is_text-IsText [] e = tt
is_text-IsText (c ∷ s) e = (ground arith, ground arith, is_text-IsText s (ground arith))

abbrev all_text : List Text → Bool
all_text [] = true
all_text (s ∷ ss) = is_text s && all_text ss

get_or-IsText :
    (ss : List Text) (i : ℕ) (d : Text) → all_text ss ≡ true → IsText d → IsText (get_or ss i d)
get_or-IsText [] i d e hd = hd
get_or-IsText (s ∷ ss) zero d e hd = is_text-IsText s (ground arith)
get_or-IsText (s ∷ ss) (suc i) d e hd = get_or-IsText ss i d (ground arith) hd

type_name-IsText : (t : ℕ) → IsText (type_name t)
type_name-IsText t =
    get_or-IsText warning_type_names t _ refl (is_text-IsText (bytes "Unknown warning type") refl)

literal-IsText : (s t : Text) → is_text s ≡ true → IsText t → IsText (s ++ t)
literal-IsText s t e = IsText-append s t (is_text-IsText s e)

filled_lem :
    (malloc : ℕ → Bool) (s : Text)
    → filled malloc s (scprintf s)
      ≡ (if ltb (length s) (2 ^ 31) && malloc (length s + 1) then some s else none)
filled_lem malloc s = elim (Bool-cases (ltb (length s) (2 ^ 31))) [
  | inr long ↦ rw long refl
  | inl short ↦
      let below = ltb→lt (length s) (2 ^ 31) short in
      let wrap : (length s + 1) % size_mod ≡ length s + 1 = omega (arith, below) in
      let fits : ltb (length s) (length s + 1) ≡ true = lt→ltb _ _ (omega arith) in
      rw (short, wrap, fits) refl
]

module _ (locale : Locale) where
  line-IsText :
      (name time : Text) (w : Warning)
      → IsText name
      → IsText time
      → IsText w.city
      → IsText w.dest_node
      → IsText (warning_line locale name time w)
  unfolding warning_line
  line-IsText name time w hn ht hc hd =
      let dest = literal-IsText (bytes ", dest=") w.dest_node refl hd in
      let timed = IsText-append time _ ht dest in
      let value =
        IsText-append _ _ (locale.print_value_text w.value)
          (literal-IsText (bytes ", time=") _ refl timed) in
      let kind = IsText-append name _ hn (literal-IsText (bytes ", value=") _ refl value) in
      let city = IsText-append w.city _ hc (literal-IsText (bytes ", type=") _ refl kind) in
      let line = literal-IsText (bytes "city=") _ refl city in line

  -- The line that shows a warning at a local time.
  abbrev pub shown : Warning → locale.Tm → Text
  shown w tm = warning_line locale (type_name w.kind) (locale.strftime 32 tm) w

  printed :
      (malloc : ℕ → Bool) (w : Warning) (tm : Option locale.Tm)
      → Option.map
          (λ timebuf.
            let s = warning_line locale (type_name w.kind) timebuf w in
            filled malloc s (scprintf s))
          (Option.map (λ t. locale.strftime 32 t) tm)
        ≡ Option.map
            (λ t.
              if ltb (length (shown w t)) (2 ^ 31) && malloc (length (shown w t) + 1)
              then some (shown w t)
              else none)
            tm
  printed malloc w none = refl
  printed malloc w (some t) = ap some (filled_lem malloc (shown w t))

  -- For a warning with any 32 bits as its type: where `localtime_s` gives a local time for its
  -- timestamp, the line fits an `int` and memory for it and its NUL is given, `warning_to_string`
  -- returns the whole line, which `%s` then shows to its end; where the line does not fit or no
  -- memory is given, NULL; and where `localtime_s` fails, which is not tested, the process ends in
  -- `strftime`. It reads no name beyond the last and writes nothing behind its buffer.
  pub to_string_lem :
      (malloc : ℕ → Bool) (w : Warning)
      → IsText w.city
      → IsText w.dest_node
      → (warning_to_string locale malloc (some w)
          ≡ Option.map
              (λ t.
                if ltb (length (shown w t)) (2 ^ 31) && malloc (length (shown w t) + 1)
                then some (shown w t)
                else none)
              (locale.localtime_s w.timestamp))
        × ((t : locale.Tm) → until_nul (shown w t) ≡ shown w t)
  unfolding warning_to_string format_local_time bind
  to_string_lem malloc w hc hd = (
    rw (type_to_string_lem w.kind) (printed malloc w (locale.localtime_s w.timestamp)),
    λ t. until_nul-IsText (shown w t) (
        line-IsText (type_name w.kind) (locale.strftime 32 t) w (type_name-IsText w.kind)
          (locale.strftime_text 32 t) hc hd),
  )
