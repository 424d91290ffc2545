-- ===== src/Node/RoundTrip.antt =====
-- nodes.csv, written line by line and read by `node_load_all` in Common/node.c.
use ikp_data_propagator.Prelude.{
  ℕ, zero, suc, ◌+◌, ◌%◌, ◌/◌, ◌^◌, ◌<◌, ◌≤◌, ◌≡◌, refl, ap, ◌∙◌, true, Option, none, some, List,
  [], ◌∷◌, ◌++◌, ltb, ltb→lt, arith, length, length-append, Bool-cases, inl, inr,
}
use mathlib.Core.List.{append-nil}
use ikp_data_propagator.Text.{Text}
use ikp_data_propagator.Text.Format.{decimal, port_of-decimal}
use ikp_data_propagator.Node.{
  Row, skip_commas, strtok, port_of, parent_of_token, parse_line, add_row, read_rows,
}
use ikp_data_propagator.HashMap.{Alloc}
use ikp_data_propagator.Node.Link.{id_map, link, node_load_all}
use ikp_data_propagator.Node.Fields.{
  is_plain, AllPlain, IsField, IsLine, AllPlain-append, IsLine-append, AllPlain-IsLine,
  AllPlain-of_field, fgets-line, until_nul-line, strip_newline-line, strtok-field, strtok-last,
  trim-field,
}

plain_digit : (n : ℕ) → n < 10 → is_plain (b'0' + n) ≡ true
plain_digit n lt = ground arith

AllPlain-decimal : (d n : ℕ) → n < 10 ^ d → AllPlain (decimal d n)
unfolding decimal
AllPlain-decimal zero n lt = tt
AllPlain-decimal (suc d) n lt = elim (Bool-cases (ltb n 10)) [
  | inl e ↦ rw e (plain_digit n (ltb→lt n 10 e), tt)
  | inr e ↦ rw e (
      AllPlain-append (decimal d (n / 10)) ((b'0' + n % 10) ∷ [])
        (AllPlain-decimal d (n / 10) (omega arith)) (plain_digit (n % 10) (omega arith), tt))
]

snoc-IsField : (s : Text) (c : ℕ) → AllPlain (s ++ c ∷ []) → IsField (s ++ c ∷ [])
snoc-IsField [] c p = p
snoc-IsField (x ∷ s) c p = p

decimal-IsField : (d n : ℕ) → n < 10 ^ suc d → IsField (decimal (suc d) n)
unfolding decimal
decimal-IsField d n lt = elim (Bool-cases (ltb n 10)) [
  | inl e ↦ rw e (plain_digit n (ltb→lt n 10 e), tt)
  | inr e ↦
      rw e (
        snoc-IsField (decimal d (n / 10)) (b'0' + n % 10) (rw e at (AllPlain-decimal (suc d) n lt)))
]

abbrev pub parent_field : Option Text → Text
parent_field none = []
parent_field (some pid) = b',' ∷ pid

-- A row as a line of the file, without the end of the line.
abbrev pub line_of : Row → Text
line_of r = r.id ++ (b',' ∷ (r.address ++ (b',' ∷ (decimal 10 r.port ++ parent_field r.parent_id))))

abbrev pub IsParent : Option Text → Type 0
IsParent none = Unit {0}
IsParent (some pid) = IsField pid

-- A row that a line can hold: its fields are not empty and have no blanks and no commas.
pub record IsPlainRow (r : Row) : Type 0 where
  pub id_field : IsField r.id
  pub address_field : IsField r.address
  pub port_lt : r.port < 2 ^ 16
  pub parent_field : IsParent r.parent_id
  pub short : length (line_of r) < 511

unfoldable pub print_rows : List Row → Text
print_rows [] = []
print_rows (r ∷ rows) = line_of r ++ 10 ∷ print_rows rows

comma-IsLine : (s : Text) → IsLine s → IsLine (b',' ∷ s)
comma-IsLine s p = (refl, p)

field-IsLine : (s : Text) → IsField s → IsLine s
field-IsLine s f = AllPlain-IsLine s (AllPlain-of_field s f)

parent-IsLine : (p : Option Text) → IsParent p → IsLine (parent_field p)
parent-IsLine none i = tt
parent-IsLine (some pid) i = comma-IsLine pid (field-IsLine pid i)

line_of-IsLine : (r : Row) → IsPlainRow r → IsLine (line_of r)
line_of-IsLine r p =
    let port =
      field-IsLine (decimal 10 r.port) (decimal-IsField 9 r.port (omega (arith, p.port_lt))) in
    let tail = decimal 10 r.port ++ parent_field r.parent_id in
    let tail_line =
      IsLine-append (decimal 10 r.port) (parent_field r.parent_id) port
        (parent-IsLine r.parent_id p.parent_field) in
    IsLine-append r.id (b',' ∷ (r.address ++ (b',' ∷ tail))) (field-IsLine r.id p.id_field) (
      comma-IsLine (r.address ++ (b',' ∷ tail)) (
        IsLine-append r.address (b',' ∷ tail) (field-IsLine r.address p.address_field)
          (comma-IsLine tail tail_line)))

parent_of_token-field : (pid : Text) → IsField pid → parent_of_token (some pid) ≡ some pid
unfolding parent_of_token
parent_of_token-field [] f = absurd f
parent_of_token-field (c ∷ s) f = rw (parent_of_token, trim-field (c ∷ s) f) refl

-- What the last two calls of `strtok` give.
strtok-port :
    (port : Text) (p : Option Text)
    → IsField port
    → IsParent p
    → ((strtok (port ++ parent_field p)).0 ≡ some port)
      × (parent_of_token (strtok (strtok (port ++ parent_field p)).1).0 ≡ p)
unfolding parent_of_token strtok skip_commas
strtok-port port none f i = rw (append-nil port, strtok-last port f) (refl, refl)
strtok-port port (some pid) f i =
    rw (strtok-field port pid f, strtok-last pid i) (refl, parent_of_token-field pid i)

parse_line-line_of : (r : Row) → IsPlainRow r → parse_line (line_of r ++ 10 ∷ []) ≡ some r
unfolding parse_line
parse_line-line_of r p =
    let port_small : r.port < 10 ^ 10 = omega (arith, p.port_lt) in
    let port = decimal-IsField 9 r.port port_small in
    let tail = decimal 10 r.port ++ parent_field r.parent_id in
    let (has_port, has_parent) = strtok-port (decimal 10 r.port) r.parent_id port p.parent_field in
    let line = line_of-IsLine r p in
    rw
      (
        until_nul-line (line_of r) line,
        strip_newline-line (line_of r),
        strtok-field r.id (r.address ++ (b',' ∷ tail)) p.id_field,
        strtok-field r.address tail p.address_field,
        has_port,
        has_parent,
      )
      (λ i. some (record {
        id = trim-field r.id p.id_field i;
        address = trim-field r.address p.address_field i;
        port =
            (ap port_of (trim-field (decimal 10 r.port) port) ∙ port_of-decimal r.port p.port_lt) i;
        parent_id = r.parent_id;
      }))

read_line :
    (fuel : ℕ) (l rest : Text)
    → IsLine l
    → length l < 511
    → read_rows (suc fuel) (l ++ 10 ∷ rest)
      ≡ add_row (parse_line (l ++ 10 ∷ [])) (read_rows fuel rest)
unfolding read_rows
read_line fuel [] rest p lt =
    ap (λ (q : Text × Text). add_row (parse_line q.0) (read_rows fuel q.1))
      (fgets-line 511 [] rest p lt)
read_line fuel (c ∷ l) rest p lt =
    ap (λ (q : Text × Text). add_row (parse_line q.0) (read_rows fuel q.1))
      (fgets-line 511 (c ∷ l) rest p lt)

abbrev pub AllPlainRows : List Row → Type 0
AllPlainRows [] = Unit {0}
AllPlainRows (r ∷ rows) = IsPlainRow r × AllPlainRows rows

pub read_rows-print_rows :
    (rows : List Row) (fuel : ℕ)
    → AllPlainRows rows
    → length rows ≤ fuel
    → read_rows fuel (print_rows rows) ≡ rows
unfolding print_rows read_rows
read_rows-print_rows [] fuel p le = refl
read_rows-print_rows (r ∷ rows) zero p le = absurd (omega arith)
read_rows-print_rows (r ∷ rows) (suc fuel) p le =
    read_line fuel (line_of r) (print_rows rows) (line_of-IsLine r p.0) p.0.short
    ∙ rw (parse_line-line_of r p.0)
        (ap (λ rs. r ∷ rs) (read_rows-print_rows rows fuel p.1 (omega arith)))

rows_le_file : (rows : List Row) → length rows ≤ length (print_rows rows)
unfolding print_rows
rows_le_file [] = omega arith
rows_le_file (r ∷ rows) =
    omega (arith, rows_le_file rows, length-append (line_of r) (10 ∷ print_rows rows))

-- `node_load_all` links the rows of which the lines of the file were written: from rows whose
-- fields are not empty and have no blanks and no commas, and whose lines fit its buffer, it makes
-- the nodes of these rows, with their ports and their parents, and their number.
pub node_load_all_lem :
    (alloc : Alloc) (allocs : ℕ → Alloc) (rows : List Row)
    → AllPlainRows rows
    → node_load_all alloc allocs (print_rows rows)
      ≡ (link (id_map alloc allocs rows).0 rows, length rows)
unfolding node_load_all
node_load_all_lem alloc allocs rows plain =
    ap (λ rs. (link (id_map alloc allocs rs).0 rs, length rs))
      (read_rows-print_rows rows (length (print_rows rows)) plain (rows_le_file rows))
