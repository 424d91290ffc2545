-- ===== src/DebugLog/Reports.antt =====
-- What the report of a debug log (Common/utils.c) keeps and says.
use ikp_data_propagator.Prelude.{
  ℕ, ◌≡◌, refl, sym, ap, ◌∙◌, Bool, true, false, Option, none, some, [], ◌++◌,
}
use mathlib.Core.List.{append-nil, append_assoc}
use ikp_data_propagator.Text.{Text}
use ikp_data_propagator.Text.Format.{bytes}
use ikp_data_propagator.DebugLog.{
  LogFile, print, MemState, dump_to_file, print_to, newline, dump_states, leak_line, memory_line,
  print_stats_to_file,
}

-- The file is still there under its path, with more written behind what was there.
abbrev pub Extends : LogFile → Option LogFile → Type 0
Extends file none = ⊥
Extends file (some later) =
    (later.path ≡ file.path) × (s : Text) × (later.written ≡ file.written ++ s)

print_to-Extends :
    (file : LogFile) (s : Text) (later : Option LogFile)
    → Extends file later
    → Extends file (print_to s later)
print_to-Extends file s none h = h
print_to-Extends file s (some later) (path, t, e) =
    (path, t ++ s, ap (λ l. l ++ s) e ∙ append_assoc file.written t s)

dump_to_file-Extends :
    (file : LogFile) (header : Text) (state : MemState) (later : Option LogFile)
    → Extends file later
    → Extends file (dump_to_file header (some state) later)
unfolding dump_to_file
dump_to_file-Extends file header state none h = h
dump_to_file-Extends file header state (some later) h = print_to-Extends file _ (some later) h

dump_states-Extends :
    (file : LogFile) (s₁ s₂ diff : MemState) (later : Option LogFile)
    → Extends file later
    → Extends file (dump_states s₁ s₂ diff later)
dump_states-Extends file s₁ s₂ diff later h =
    dump_to_file-Extends file _ diff _
      (dump_to_file-Extends file _ s₂ _ (dump_to_file-Extends file _ s₁ later h))

-- The verdict of a report.
abbrev pub verdict : Bool → Text
verdict true = bytes "[INFO] Memory leaks detected." ++ newline
verdict false = bytes "[INFO] No memory leaks detected." ++ newline

abbrev pub title : Text
title = newline ++ (bytes "=== FINAL MEMORY ANALYSIS ===" ++ newline)

-- Without a file `print_stats_to_file` does nothing. Into an open one it writes, behind all that was
-- there, its title, then whether `_CrtMemDifference` found leaks, then the rest of the report.
pub print_stats_lem :
    (differs : Bool) (objects : Text) (s₁ s₂ diff : MemState) (working_set : ℕ) (file : LogFile)
    → (print_stats_to_file differs objects s₁ s₂ diff working_set none ≡ none)
      × Extends
          (print (verdict differs) (print title file))
          (print_stats_to_file differs objects s₁ s₂ diff working_set (some file))
unfolding print_stats_to_file dump_to_file
print_stats_lem true objects s₁ s₂ diff working_set file =
    let begun = print (verdict true) (print title file) in
    let dumped = dump_states s₁ s₂ diff (some begun) in
    let leaks = print_to leak_line dumped in
    (
      refl,
      print_to-Extends begun (memory_line working_set) (print_to objects leaks) (
          print_to-Extends begun objects leaks (
            print_to-Extends begun leak_line dumped (
              dump_states-Extends begun s₁ s₂ diff (some begun)
                (refl, [], sym (append-nil begun.written))))),
    )
print_stats_lem false objects s₁ s₂ diff working_set file =
    let begun = print (verdict false) (print title file) in
    (
      refl,
      print_to-Extends begun (memory_line working_set) (dump_states s₁ s₂ diff (some begun)) (
          dump_states-Extends begun s₁ s₂ diff (some begun)
            (refl, [], sym (append-nil begun.written))),
    )
