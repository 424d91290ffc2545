-- ===== src/Queue/Segment.antt =====
-- What a queue on the heap stands for: its nodes in order, each with its address and payload.
use ikp_data_propagator.Prelude.{
  ◌<◌, ◌≡◌, ◌≢◌, refl, Bool, true, false, ◌||◌, Option, none, some, List, [], ◌∷◌, ◌++◌, ◌∙◌, map,
  arith, ◌==◌, ==_self, ==_false_of_ne, length, size_mod,
}
use ikp_data_propagator.Queue.{Ptr, null, QueueNode, node, Heap, write, Queue}

abbrev pub Cells : Type 0
Cells = List (Ptr × Ptr)

abbrev pub occurs : Ptr → Cells → Bool
occurs a [] = false
occurs a ((p, _) ∷ xs) = (a == p) || occurs a xs

-- The address of the first node, and of the last.
abbrev pub first : Cells → Ptr
first [] = null
first ((a, _) ∷ _) = a

abbrev pub last : Cells → Ptr
last [] = null
last ((a, _) ∷ []) = a
last (_ ∷ y ∷ xs) = last (y ∷ xs)

abbrev pub payloads : Cells → List Ptr
payloads = map λ c. c.1

-- The nodes stand at distinct addresses, each pointing at the next and the last at NULL.
abbrev pub Seg : Heap → Cells → Type 0
Seg h [] = Unit {0}
Seg h ((a, d) ∷ xs) =
    (a ≢ null) × (h a ≡ some (node d (first xs))) × (occurs a xs ≡ false) × Seg h xs

pub record IsQueue (h : Heap) (q : Queue) (xs : Cells) : Type 0 where
  pub chain : Seg h xs
  pub front_first : q.front ≡ first xs
  pub rear_last : q.rear ≡ last xs
  pub counted : q.size ≡ length xs
  pub small : length xs < size_mod

pub write_self : (h : Heap) (p : Ptr) (c : Option QueueNode) → write h p c p ≡ c
write_self h p c = rw (==_self p)

pub write_ne : (h : Heap) (p a : Ptr) (c : Option QueueNode) → a ≢ p → write h p c a ≡ h a
write_ne h p a c ne = rw (==_false_of_ne a p ne)

pub ne_of_occurs : (a b : Ptr) (xs : Cells) → occurs a xs ≡ true → occurs b xs ≡ false → b ≢ a
ne_of_occurs a b xs p q = λ e. cc

-- A segment survives a write elsewhere.
pub Seg-write :
    (h : Heap) (a : Ptr) (c : Option QueueNode) (xs : Cells)
    → occurs a xs ≡ false
    → Seg h xs
    → Seg (write h a c) xs
Seg-write h a c [] out s = tt
Seg-write h a c ((b, d) ∷ xs) out s =
    (s.0, ground arith, s.2, Seg-write h a c xs (ground arith) s.3)

-- An address that holds no node is not in a segment.
pub not-occurs_of_none :
    (h : Heap) (a : Ptr) (xs : Cells) → h a ≡ none → Seg h xs → occurs a xs ≡ false
not-occurs_of_none h a [] e s = refl
not-occurs_of_none h a ((b, d) ∷ xs) e s = ground (arith, not-occurs_of_none h a xs e s.3)

pub occurs-append : (a : Ptr) (xs ys : Cells) → occurs a (xs ++ ys) ≡ (occurs a xs || occurs a ys)
occurs-append a [] ys = refl
occurs-append a (x ∷ xs) ys = ground (arith, occurs-append a xs ys)

pub last-append : (xs : Cells) (a d : Ptr) → last (xs ++ (a, d) ∷ []) ≡ a
last-append [] a d = refl
last-append (x ∷ []) a d = refl
last-append (x ∷ y ∷ xs) a d = last-append (y ∷ xs) a d

pub first-append : (x : Ptr × Ptr) (xs ys : Cells) → first ((x ∷ xs) ++ ys) ≡ x.0
first-append x xs ys = refl

pub last-ne-null : (h : Heap) (x : Ptr × Ptr) (xs : Cells) → Seg h (x ∷ xs) → last (x ∷ xs) ≢ null
last-ne-null h x [] s = s.0
last-ne-null h x (y ∷ xs) s = last-ne-null h y xs s.3

pub occurs-last :
    (h : Heap) (x : Ptr × Ptr) (xs : Cells)
    → Seg h (x ∷ xs)
    → occurs (last (x ∷ xs)) (x ∷ xs) ≡ true
occurs-last h x [] s = ground arith
occurs-last h x (y ∷ xs) s = ground (arith, occurs-last h y xs s.3)

-- The payload of the last node.
abbrev pub last_payload : Ptr × Ptr → Cells → Ptr
last_payload x [] = x.1
last_payload x (y ∷ xs) = last_payload y xs

pub last-holds :
    (h : Heap) (x : Ptr × Ptr) (xs : Cells)
    → Seg h (x ∷ xs)
    → h (last (x ∷ xs)) ≡ some (node (last_payload x xs) null)
last-holds h x [] s = s.1
last-holds h x (y ∷ xs) s = last-holds h y xs s.3

pub head_ne : (x : Ptr × Ptr) (xs : Cells) (a : Ptr) → occurs a (x ∷ xs) ≡ false → x.0 ≢ a
head_ne x xs a out = ground arith

pub ne_head : (x : Ptr × Ptr) (xs : Cells) (a : Ptr) → occurs a (x ∷ xs) ≡ false → a ≢ x.0
ne_head x xs a out = ground arith

pub out_tail :
    (x : Ptr × Ptr) (xs : Cells) (a : Ptr) → occurs a (x ∷ xs) ≡ false → occurs a xs ≡ false
out_tail x xs a out = ground arith

pub or_false : {p q : Bool} → p ≡ false → q ≡ false → (p || (q || false)) ≡ false
or_false {p} {q} e f = rw (e, f)

-- Linking a fresh node behind the last one extends the segment.
pub Seg-snoc :
    (h : Heap) (x : Ptr × Ptr) (xs : Cells) (a d : Ptr)
    → Seg h (x ∷ xs)
    → a ≢ null
    → occurs a (x ∷ xs) ≡ false
    → h a ≡ some (node d null)
    → Seg (write h (last (x ∷ xs)) (some (node (last_payload x xs) a))) (x ∷ xs ++ (a, d) ∷ [])
Seg-snoc h x [] a d s ne out e = (
  s.0,
  write_self h x.0 _,
  rw (==_false_of_ne x.0 a (head_ne x [] a out)) refl,
  (ne, rw (write_ne h x.0 a _ (ne_head x [] a out)) e, refl, tt),
)
Seg-snoc h x (y ∷ xs) a d s ne out e = (
  s.0,
  write_ne h _ x.0 _ (ne_of_occurs (last (y ∷ xs)) x.0 (y ∷ xs) (occurs-last h y xs s.3) s.2) ∙ s.1,
  occurs-append x.0 (y ∷ xs) ((a, d) ∷ [])
      ∙ or_false s.2 (==_false_of_ne x.0 a (head_ne x (y ∷ xs) a out)),
  Seg-snoc h y xs a d s.3 ne (out_tail x (y ∷ xs) a out) e,
)
