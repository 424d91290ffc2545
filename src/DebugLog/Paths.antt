-- ===== src/DebugLog/Paths.antt =====
-- The file of a debug log (Common/utils.c).
use ikp_data_propagator.Prelude.{
  ℕ, zero, suc, ◌+◌, ◌≤◌, ◌≡◌, refl, sym, ap, ◌∙◌, ◌||◌, [], ◌∷◌, ◌++◌, arith, Bool-cases, ◌⊎◌, ◌≢◌,
  inl, inr, length, length-append, take, get_or,
}
use mathlib.Core.List.{append_cancel_left, append_cancel_right}
use ikp_data_propagator.Text.{Text, eq_string}
use ikp_data_propagator.Text.Format.{bytes, snprintf}
use ikp_data_propagator.DebugLog.{LogCalls, folder_name, file_name}

take_all : (n : ℕ) (s : Text) → length s ≤ n → take n s ≡ s
take_all zero [] h = refl
take_all zero (c ∷ s) h = absurd (omega arith)
take_all (suc n) [] h = refl
take_all (suc n) (c ∷ s) h = ap (λ l. c ∷ l) (take_all n s (omega arith))

whole_name :
    (prefix node_id : Text)
    → length prefix + length node_id ≤ 251
    → snprintf 256 (prefix ++ (node_id ++ bytes ".txt")) ≡ prefix ++ (node_id ++ bytes ".txt")
whole_name prefix node_id short = take_all 255 _ (
    omega
      (arith, length-append prefix (node_id ++ bytes ".txt"), length-append node_id (bytes ".txt")))

folder_cases :
    (calls : LogCalls)
    → (folder_name calls ≡ bytes "MemoryLeakReports") ⊎ (folder_name calls ≡ bytes ".")
unfolding folder_name
folder_cases calls =
    elim (Bool-cases (calls.folder_exists || (calls.mkdir_done || calls.directory_created))) [
      | inl there ↦ inl (rw there refl)
      | inr missing ↦ inr (rw missing refl)
    ]

-- The path of a log whose name fits its buffer, in the folder and without it.
path_in : Text → Text → Text
path_in prefix node_id = prefix ++ (node_id ++ bytes ".txt")

path_cases :
    (calls : LogCalls) (node_id : Text)
    → length node_id ≤ 220
    → (file_name (folder_name calls) node_id
        ≡ path_in (bytes "MemoryLeakReports/memory_leaks_") node_id)
      ⊎ (file_name (folder_name calls) node_id ≡ path_in (bytes "memory_leaks_") node_id)
unfolding file_name eq_string path_in
path_cases calls node_id short = elim (folder_cases calls) [
  | inl e ↦
      inl
        (rw e (whole_name (bytes "MemoryLeakReports/memory_leaks_") node_id (omega (arith, short))))
  | inr e ↦ inr (rw e (whole_name (bytes "memory_leaks_") node_id (omega (arith, short))))
]

same_prefix : (prefix a b : Text) → path_in prefix a ≡ path_in prefix b → a ≡ b
unfolding path_in
same_prefix prefix a b e = append_cancel_right a b (bytes ".txt") (append_cancel_left prefix _ _ e)

other_prefix :
    (a b : Text)
    → path_in (bytes "MemoryLeakReports/memory_leaks_") a ≡ path_in (bytes "memory_leaks_") b
    → ⊥
unfolding path_in
other_prefix a b e =
    let first : b'M' ≡ b'm' = ap (λ l. get_or l 0 0) e in absurd (omega (arith, first))

-- Two processes whose ids have at most 220 bytes and are not the same write their memory reports to
-- different files, wherever each of them finds or makes the folder.
pub file_name_lem :
    (calls calls' : LogCalls) (a b : Text)
    → length a ≤ 220
    → length b ≤ 220
    → a ≢ b
    → file_name (folder_name calls) a ≢ file_name (folder_name calls') b
file_name_lem calls calls' a b short short' ne same = elim (path_cases calls a short) [
  | inl e ↦ elim (path_cases calls' b short') [
    | inl e' ↦ ne (same_prefix _ a b (sym e ∙ same ∙ e'))
    | inr e' ↦ other_prefix a b (sym e ∙ same ∙ e')
  ]
  | inr e ↦ elim (path_cases calls' b short') [
    | inl e' ↦ other_prefix b a (sym e' ∙ sym same ∙ e)
    | inr e' ↦ ne (same_prefix _ a b (sym e ∙ same ∙ e'))
  ]
]
