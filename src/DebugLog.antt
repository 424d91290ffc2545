-- ===== src/DebugLog.antt =====
-- The memory report of a debug build: `setup_debug_memory_log`, `dump_to_file` and
-- `print_stats_to_file` in Common/utils.c. What the debug heap and Windows give is an argument; the
-- settings of the heap's own reports are not modelled.
pub mod Paths
pub mod Reports
use ikp_data_propagator.Prelude.{
  ℕ, ◌+◌, ◌/◌, ◌%◌, ◌^◌, Bool, true, false, ◌||◌, Option, none, some, List, [], ◌∷◌, ◌++◌,
  if◌then◌else◌,
}
use ikp_data_propagator.Text.{Text, eq_string}
use ikp_data_propagator.Text.Format.{bytes, decimal, snprintf}

-- What the calls in `setup_debug_memory_log` do.
pub record LogCalls : Type 0 where
  pub folder_exists : Bool
  pub mkdir_done : Bool
  pub directory_created : Bool
  pub file_opened : Bool

-- `folderName` behind the attempts to make the folder.
unfoldable pub folder_name : LogCalls → Text
folder_name calls =
    if calls.folder_exists || (calls.mkdir_done || calls.directory_created)
    then bytes "MemoryLeakReports"
    else bytes "."

unfoldable pub file_name : Text → Text → Text
file_name folder node_id =
    if eq_string folder (bytes ".")
    then snprintf 256 (bytes "memory_leaks_" ++ (node_id ++ bytes ".txt"))
    else snprintf 256 (folder ++ (bytes "/memory_leaks_" ++ (node_id ++ bytes ".txt")))

-- An open file: its path, and what has been written to it.
pub record LogFile : Type 0 where
  pub path : Text
  pub written : Text

abbrev pub print : Text → LogFile → LogFile
print s file = record file { written = file.written ++ s }

-- "\n"
abbrev pub newline : Text
newline = 10 ∷ []

unfoldable pub setup_debug_memory_log : LogCalls → Text → Option LogFile
unfolding folder_name file_name
setup_debug_memory_log calls node_id =
    if calls.file_opened
    then some (
        print (bytes "Log initialized at program start" ++ (newline ++ newline)) (
          print (bytes "=== MEMORY DEBUG REPORT FOR " ++ (node_id ++ (bytes " ===" ++ newline)))
            (record { path = file_name (folder_name calls) node_id; written = [] })))
    else none

-- The blocks and the bytes of a `_CrtMemState`, of the three kinds that are printed.
pub record MemState : Type 0 where
  pub normal_blocks : ℕ
  pub normal_bytes : ℕ
  pub crt_blocks : ℕ
  pub crt_bytes : ℕ
  pub free_blocks : ℕ
  pub free_bytes : ℕ

-- A line with a `size_t` that is printed by `%u`, which takes 32 bits of it.
abbrev pub count_line : Text → ℕ → Text
count_line name n = name ++ (decimal 10 (n % 2 ^ 32) ++ newline)

unfoldable pub state_lines : MemState → Text
state_lines state =
    count_line (bytes "Total blocks: ") state.normal_blocks
    ++ (count_line (bytes "Total bytes: ") state.normal_bytes
        ++ (count_line (bytes "CRT blocks: ") state.crt_blocks
            ++ (count_line (bytes "CRT bytes: ") state.crt_bytes
                ++ (count_line (bytes "Free blocks: ") state.free_blocks
                    ++ count_line (bytes "Free bytes: ") state.free_bytes))))

unfoldable pub dump_to_file : Text → Option MemState → Option LogFile → Option LogFile
unfolding state_lines
dump_to_file header (some state) (some file) =
    some (print (newline ++ (header ++ (newline ++ state_lines state))) file)
dump_to_file header _ file = file

abbrev pub print_to : Text → Option LogFile → Option LogFile
print_to s none = none
print_to s (some file) = some (print s file)

-- The three dumps, in their order.
abbrev pub dump_states : MemState → MemState → MemState → Option LogFile → Option LogFile
dump_states s₁ s₂ diff file =
    dump_to_file (bytes "[STATISTICS] Memory allocation difference") (some diff) (
      dump_to_file (bytes "[STATISTICS] Final memory state") (some s₂)
        (dump_to_file (bytes "[STATISTICS] Initial memory state") (some s₁) file))

abbrev pub leak_line : Text
leak_line = newline ++ (bytes "[LEAK REPORT] Detailed leak information:" ++ newline)

-- `%lu` takes 32 bits of the `SIZE_T`.
abbrev pub memory_line : ℕ → Text
memory_line working_set =
    newline
    ++ (bytes "[SYSTEM] Process memory usage: "
        ++ (decimal 10 (working_set / 1024 % 2 ^ 32) ++ (bytes " KB" ++ newline)))

-- `differs` is what `_CrtMemDifference` returns, and `objects` what
-- `_CrtMemDumpAllObjectsSince` writes to the file. The file as it is closed, if there is one.
unfoldable pub print_stats_to_file :
    (differs : Bool)
    → (objects : Text) → MemState
    → MemState
    → MemState
    → (working_set : ℕ) → Option LogFile
    → Option LogFile
unfolding dump_to_file
print_stats_to_file differs objects s₁ s₂ diff working_set file =
    let begun = print_to (newline ++ (bytes "=== FINAL MEMORY ANALYSIS ===" ++ newline)) file in
    let told =
      if differs
      then print_to objects (
          print_to leak_line (
            dump_states s₁ s₂ diff
              (print_to (bytes "[INFO] Memory leaks detected." ++ newline) begun)))
      else dump_states s₁ s₂ diff
          (print_to (bytes "[INFO] No memory leaks detected." ++ newline) begun) in
    print_to (memory_line working_set) told
