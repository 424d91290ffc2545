-- ===== src/Node.antt =====
-- Common/node.h, and the text of nodes.csv as `node_load_all` in Common/node.c reads it. The
-- array of nodes is a function from indices; a pointer to a node is its index.
pub mod Link
pub mod Linked
pub mod Ids
pub mod Children
pub mod Forest
pub mod Fields
pub mod RoundTrip
pub mod Memory
use ikp_data_propagator.Prelude.{
  ℕ, zero, suc, ◌+◌, ◌-◌, ◌*◌, ◌%◌, ◌^◌, ◌<◌, Bool, true, false, ◌&&◌, ◌||◌, Option, none, some,
  List, [], ◌∷◌, ◌++◌, ◌==◌, leb, if◌then◌else◌, length,
}
use ikp_data_propagator.Text.{Text, until_nul}

pub data NodeType : Type 0 where
  root central destination : NodeType

-- `struct NodeInfo`. `children` is the allocated array, of which `child_count` entries are used.
pub record NodeInfo : Type 0 where
  pub id : Text
  pub address : Text
  pub port : ℕ
  pub parent : Option ℕ
  pub children : List ℕ
  pub child_count : ℕ
  pub kind : NodeType

-- One line of the file that has an id, an address and a port.
pub record Row : Type 0 where
  pub id : Text
  pub address : Text
  pub port : ℕ
  pub parent_id : Option Text

-- `isspace` in the C locale.
abbrev pub is_space : ℕ → Bool
is_space c = (leb 9 c && leb c 13) || c == b' '

unfoldable pub skip_spaces : Text → Text
skip_spaces [] = []
skip_spaces (c ∷ s) = let rest = skip_spaces s in if is_space c then rest else c ∷ s

abbrev pub cons_unless_blank : ℕ → Text → Text
cons_unless_blank c [] = if is_space c then [] else c ∷ []
cons_unless_blank c (d ∷ s) = c ∷ d ∷ s

-- The loop from the end of the string.
unfoldable pub cut_spaces : Text → Text
cut_spaces [] = []
cut_spaces (c ∷ s) = cons_unless_blank c (cut_spaces s)

unfoldable pub trim : Text → Text
unfolding skip_spaces cut_spaces
trim s = cut_spaces (skip_spaces s)

unfoldable pub skip_commas : Text → Text
skip_commas [] = []
skip_commas (c ∷ s) = let rest = skip_commas s in if c == b',' then rest else c ∷ s

-- The token before the next comma, and what follows that comma.
unfoldable pub split_comma : Text → Text × Text
split_comma [] = ([], [])
split_comma (c ∷ s) =
    let rest = split_comma s in if c == b',' then ([], s) else (c ∷ rest.0, rest.1)

-- `strtok(s, ",")`: the token, if there is one, and the string that the next call goes on with.
unfoldable pub strtok : Text → Option Text × Text
unfolding skip_commas split_comma
strtok s = elim (skip_commas s) [
  | [] ↦ (none, [])
  | c ∷ r ↦ let p = split_comma (c ∷ r) in (some p.0, p.1)
]

abbrev pub is_digit : ℕ → Bool
is_digit c = leb b'0' c && leb c b'9'

unfoldable pub digits : ℕ → Text → ℕ
digits n [] = n
digits n (c ∷ s) = let rest = digits (n * 10 + (c - b'0')) s in if is_digit c then rest else n

-- `(uint16_t)atoi(s)`, for numbers that an `int` holds.
unfoldable pub port_of : Text → ℕ
unfolding digits skip_spaces
port_of s = elim (skip_spaces s) [
  | [] ↦ 0
  | c ∷ r ↦
      if c == b'-'
      then (2 ^ 16 - digits 0 r % 2 ^ 16) % 2 ^ 16
      else if c == b'+'
      then digits 0 r % 2 ^ 16
      else digits 0 (c ∷ r) % 2 ^ 16
]

-- `if (L && (p[L - 1] == '\n' || p[L - 1] == '\r')) p[--L] = '\0';`
unfoldable pub strip_newline : Text → Text
strip_newline [] = []
strip_newline (c ∷ []) = if (c == 10) || (c == 13) then [] else c ∷ []
strip_newline (c ∷ d ∷ s) = c ∷ strip_newline (d ∷ s)

-- `(pid && *pid) ? _strdup(pid) : NULL`, after the trim.
unfoldable pub parent_of_token : Option Text → Option Text
unfolding trim
parent_of_token none = none
parent_of_token (some t) = elim (trim t) [ [] ↦ none | c ∷ s ↦ some (c ∷ s) ]

abbrev pub row_of : Option Text → Option Text → Option Text → Option Text → Option Row
row_of (some id) (some address) (some port) pid = some (record {
  id = trim id;
  address = trim address;
  port = port_of (trim port);
  parent_id = parent_of_token pid;
})
row_of id address port pid = none

-- One line: a row, or none where it has fewer than three fields.
unfoldable pub parse_line : List ℕ → Option Row
unfolding strip_newline strtok trim port_of parent_of_token
parse_line line =
    let (id, r₁) = strtok (strip_newline (until_nul line)) in
    let (address, r₂) = strtok r₁ in
    let (port, r₃) = strtok r₂ in let (pid, _) = strtok r₃ in row_of id address port pid

-- `fgets(line, n + 1, f)`: up to `n` bytes, through the first newline; then the rest of the file.
unfoldable pub fgets : ℕ → List ℕ → List ℕ × List ℕ
fgets zero s = ([], s)
fgets (suc n) [] = ([], [])
fgets (suc n) (c ∷ s) =
    let rest = fgets n s in if c == 10 then (c ∷ [], s) else (c ∷ rest.0, rest.1)

abbrev pub add_row : Option Row → List Row → List Row
add_row none rows = rows
add_row (some r) rows = r ∷ rows

-- The loop over the lines; each takes a byte at least, so the length of the file is enough fuel.
unfoldable pub read_rows : ℕ → List ℕ → List Row
unfolding fgets parse_line
read_rows fuel [] = []
read_rows zero (c ∷ s) = []
read_rows (suc fuel) (c ∷ s) =
    let (line, rest) = fgets 511 (c ∷ s) in add_row (parse_line line) (read_rows fuel rest)
