-- ===== src/Warning/Blocks.antt =====
-- The blocks that `warning_create` in Common/warning.c allocates, on each of its paths, and what it
-- and `warning_destroy` free.
use ikp_data_propagator.Prelude.{
  ℕ, ◌+◌, ◌≡◌, refl, Option, none, some, List, [], ◌∷◌, arith, if◌then◌else◌, Bool-cases, inl, inr,
  weigh,
}
use ikp_data_propagator.Text.{Text}
use ikp_data_propagator.Warning.{Warning, WarningAlloc, warning_create}

pub data WarningBlock : Type 0 where
  struct_of city_of dest_of : WarningBlock

-- What is allocated and freed by the time of the return.
unfoldable pub create_blocks : WarningAlloc → List WarningBlock × List WarningBlock
create_blocks alloc =
    if alloc.struct_block
    then (if alloc.city_copy
        then (if alloc.dest_copy
            then (struct_of ∷ city_of ∷ dest_of ∷ [], [])
            else (struct_of ∷ city_of ∷ [], city_of ∷ struct_of ∷ []))
        else (struct_of ∷ [], struct_of ∷ []))
    else ([], [])

unfoldable pub warning_destroy : Option Warning → List WarningBlock
warning_destroy none = []
warning_destroy (some w) = city_of ∷ dest_of ∷ struct_of ∷ []

module _ (f : WarningBlock → ℕ) where
  -- Whatever its allocations do, what `warning_create` allocates is, each block as often, what it
  -- frees before it returns and what `warning_destroy` frees of what it returns.
  pub create_blocks_lem :
      (alloc : WarningAlloc) (city dest : Text) (kind value timestamp : ℕ)
      → let (taken, freed) = create_blocks alloc in
        weigh f taken
        ≡ weigh f freed
          + weigh f (warning_destroy (warning_create alloc city kind value timestamp dest))
  unfolding create_blocks warning_create warning_destroy weigh
  create_blocks_lem alloc city dest kind value timestamp = elim (Bool-cases alloc.struct_block) [
    | inr denied ↦ rw denied refl
    | inl struct ↦ elim (Bool-cases alloc.city_copy) [
      | inr denied ↦ rw (struct, denied) (omega arith)
      | inl copied ↦ elim (Bool-cases alloc.dest_copy) [
        | inr denied ↦ rw (struct, copied, denied) (omega arith)
        | inl both ↦ rw (struct, copied, both) (omega arith)
      ]
    ]
  ]
