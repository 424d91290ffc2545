-- ===== src/ThreadPool/Jobs.antt =====
-- The jobs in a pool of CentralPropagator/thread_pool.c, counted.
use ikp_data_propagator.Prelude.{
  count, ℕ, zero, suc, ◌+◌, ◌≡◌, refl, ap, ◌∙◌, Option, none, some, List, [], ◌∷◌, ◌++◌, ◌==◌,
  if◌then◌else◌, arith, length,
}
use ikp_data_propagator.ThreadPool.{pick, picked}

-- How often a job is in a queue; how many NULLs are in the queue.
unfoldable pub queued : ℕ → List (Option ℕ) → ℕ
queued j [] = 0
queued j (none ∷ q) = queued j q
queued j (some x ∷ q) = (if j == x then 1 else 0) + queued j q

unfoldable pub stops : List (Option ℕ) → ℕ
stops [] = 0
stops (none ∷ q) = suc (stops q)
stops (some x ∷ q) = stops q

-- No task stands behind a NULL.
unfoldable pub IsOrdered : List (Option ℕ) → Type 0
unfolding queued
IsOrdered [] = Unit {0}
IsOrdered (none ∷ q) = ((j : ℕ) → queued j q ≡ 0) × IsOrdered q
IsOrdered (some x ∷ q) = IsOrdered q

pub queued-some :
    (j x : ℕ) (q : List (Option ℕ))
    → queued j (q ++ some x ∷ []) ≡ queued j q + (if j == x then 1 else 0)
unfolding queued
queued-some j x [] = omega arith
queued-some j x (none ∷ q) = queued-some j x q
queued-some j x (some y ∷ q) = omega (arith, queued-some j x q)

pub queued-none : (j : ℕ) (q : List (Option ℕ)) → queued j (q ++ none ∷ []) ≡ queued j q
unfolding queued
queued-none j [] = refl
queued-none j (none ∷ q) = queued-none j q
queued-none j (some y ∷ q) = omega (arith, queued-none j q)

pub stops-some : (x : ℕ) (q : List (Option ℕ)) → stops (q ++ some x ∷ []) ≡ stops q
unfolding stops
stops-some x [] = refl
stops-some x (none ∷ q) = ap (λ n. suc n) (stops-some x q)
stops-some x (some y ∷ q) = stops-some x q

pub stops-none : (q : List (Option ℕ)) → stops (q ++ none ∷ []) ≡ suc (stops q)
unfolding stops
stops-none [] = refl
stops-none (none ∷ q) = ap (λ n. suc n) (stops-none q)
stops-none (some y ∷ q) = stops-none q

pub IsOrdered-none : (q : List (Option ℕ)) → IsOrdered q → IsOrdered (q ++ none ∷ [])
unfolding IsOrdered queued
IsOrdered-none [] o = (λ j. refl, tt)
IsOrdered-none (none ∷ q) o = (λ j. queued-none j q ∙ o.0 j, IsOrdered-none q o.1)
IsOrdered-none (some x ∷ q) o = IsOrdered-none q o

-- What a pick takes out of a list.
abbrev pub Picks : List ℕ → Option (ℕ × List ℕ) → Type 0
Picks xs none = Unit {0}
Picks xs (some (x, rest)) =
    ((j : ℕ) → count j xs ≡ (if j == x then 1 else 0) + count j rest)
    × (length xs ≡ suc (length rest))

picked-Picks :
    (x : ℕ) (xs : List ℕ) (r : Option (ℕ × List ℕ)) → Picks xs r → Picks (x ∷ xs) (picked x r)
unfolding count
picked-Picks x xs none p = tt
picked-Picks x xs (some (y, ys)) p = (λ j. omega (arith, p.0 j), ap (λ n. suc n) p.1)

pub pick-Picks : (i : ℕ) (xs : List ℕ) → Picks xs (pick i xs)
unfolding pick count
pick-Picks i [] = tt
pick-Picks zero (x ∷ xs) = (λ j. refl, refl)
pick-Picks (suc i) (x ∷ xs) = picked-Picks x xs (pick i xs) (pick-Picks i xs)

pub IsOrdered-of_stops : (q : List (Option ℕ)) → stops q ≡ 0 → IsOrdered q
unfolding IsOrdered stops
IsOrdered-of_stops [] e = tt
IsOrdered-of_stops (none ∷ q) e = absurd (omega arith)
IsOrdered-of_stops (some x ∷ q) e = IsOrdered-of_stops q e
