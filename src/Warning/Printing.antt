-- ===== src/Warning/Printing.antt =====
-- `warning_to_string`, `format_local_time` and `warning_type_to_string` in Common/warning.c, and the
-- names in Common/Warning.h, in the build by the Microsoft compiler. What the C library prints for a
-- `double` and for a local time is a parameter.
pub mod Printed
use ikp_data_propagator.Prelude.{
  ℕ, ◌+◌, ◌%◌, ◌^◌, ◌<◌, ◌||◌, Bool, Option, none, some, List, [], ◌∷◌, ◌++◌, ltb, leb,
  if◌then◌else◌, length, get_elem?, size_mod,
}
use mathlib.Core.Option
use mathlib.Core.Option.{bind}
use ikp_data_propagator.Text.{Text, IsText}
use ikp_data_propagator.Text.Format.{bytes}
use ikp_data_propagator.Warning.{Warning}

-- `%.2f` of a `double` by its bits; `localtime_s` of a `time_t`, which fails on times that are not
-- between 1970 and 3000 and then gives fields of -1; and `strftime` of a time into a buffer of a size
-- with the format "%d.%m.%Y %H:%M:%S": it leaves room for the NUL.
pub record Locale : Type 1 where
  pub Tm : Type 0
  pub print_value : ℕ → Text
  pub localtime_s : ℕ → Option Tm
  pub strftime : ℕ → Tm → Text
  pub print_value_text : (bits : ℕ) → IsText (print_value bits)
  pub strftime_text : (size : ℕ) (tm : Tm) → IsText (strftime size tm)
  pub strftime_fits : (size : ℕ) (tm : Tm) → 0 < size → length (strftime size tm) < size

abbrev pub warning_type_names : List Text
warning_type_names =
    bytes "Flood alert" ∷ bytes "Fire alert" ∷ bytes "Storm alert" ∷ bytes "Other alert" ∷ []

-- The enum's variable as its 32 bits, of which those from 2^31 on are negative. A read beyond the
-- names is undefined behaviour, here `none`.
unfoldable pub warning_type_to_string : ℕ → Option Text
warning_type_to_string t =
    if leb (2 ^ 31) t || ltb 3 t
    then some (bytes "Unknown warning type")
    else get_elem? warning_type_names t

-- `_scprintf`: the number of bytes, or none for a negative result, where an `int` does not hold it.
abbrev pub scprintf : Text → Option ℕ
scprintf s = if ltb (length s) (2 ^ 31) then some (length s) else none

-- `sprintf_s` leaves an empty string where the text and its NUL do not fit.
abbrev pub sprintf_s : ℕ → Text → Text
sprintf_s size s = if ltb (length s) size then s else []

-- The part behind `_scprintf`; `malloc` is given the size.
abbrev pub filled : (ℕ → Bool) → Text → Option ℕ → Option Text
filled malloc s none = none
filled malloc s (some needed) =
    if malloc ((needed + 1) % size_mod) then some (sprintf_s (needed + 1) s) else none

module _ (locale : Locale) where
  -- The result of `localtime_s` is not tested: where it fails, its fields of -1 are not a time, and
  -- `strftime` calls the handler of invalid parameters, which ends the process, here `none`.
  unfoldable pub format_local_time : ℕ → Option Text
  format_local_time ts = Option.map (λ tm. locale.strftime 32 tm) (locale.localtime_s ts)

  -- `"city=%s, type=%s, value=%.2f, time=%s, dest=%s"`
  unfoldable pub warning_line : Text → Text → Warning → Text
  warning_line type_str timebuf w =
      bytes "city="
      ++ (w.city
          ++ (bytes ", type="
              ++ (type_str
                  ++ (bytes ", value="
                      ++ (locale.print_value w.value
                          ++ (bytes ", time=" ++ (timebuf ++ (bytes ", dest=" ++ w.dest_node))))))))

  -- The text, none for NULL; and none at all where the behaviour is undefined, or the process ends.
  unfoldable pub warning_to_string : (ℕ → Bool) → Option Warning → Option (Option Text)
  unfolding warning_type_to_string format_local_time warning_line
  warning_to_string malloc none = some none
  warning_to_string malloc (some w) = bind (warning_type_to_string w.kind) (λ type_str.
      Option.map
        (λ timebuf. let s = warning_line type_str timebuf w in filled malloc s (scprintf s))
        (format_local_time w.timestamp))
