-- ===== src/Warning.antt =====
-- Common/Warning.h and warning.c. A `double` is kept as the 64 bits that stand for it.
pub mod Printing
pub mod Blocks
use ikp_data_propagator.Prelude.{ℕ, Bool, Option, none, some, if◌then◌else◌}
use ikp_data_propagator.Text.{Text, until_nul}

-- `enum WarningType`, with the number that each constant has.
pub data WarningType : Type 0 where
  flood fire storm other : WarningType

-- `struct Warning`; `kind` is the number in the enum's variable, which the network may fill with
-- any 32 bits, and `value` the bits of the `double`.
pub record Warning : Type 0 where
  pub city : Text
  pub kind : ℕ
  pub value : ℕ
  pub timestamp : ℕ
  pub dest_node : Text

-- The outcome of the allocations of `warning_create`, in their order.
pub record WarningAlloc : Type 0 where
  pub struct_block : Bool
  pub city_copy : Bool
  pub dest_copy : Bool

-- `city` and `dest` are the buffers that `_strdup` copies up to the first NUL.
unfoldable pub warning_create :
    WarningAlloc → (city : Text) → (kind value timestamp : ℕ) → (dest : Text) → Option Warning
warning_create alloc city kind value timestamp dest =
    if alloc.struct_block
    then (if alloc.city_copy
        then (if alloc.dest_copy
            then some (record {
              city = until_nul city;
              kind = kind;
              value = value;
              timestamp = timestamp;
              dest_node = until_nul dest;
            })
            else none)
        else none)
    else none
