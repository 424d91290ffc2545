-- ===== src/Endpoints.antt =====
-- The two ends of the system: the generator of DataSource/data_generator.c, and the listener and the
-- processor of DataDestination/data_destination.c.
pub mod Generated
pub mod Received
use mathlib.Core.Option
use ikp_data_propagator.Prelude.{
  ℕ, zero, suc, ◌+◌, ◌%◌, ◌^◌, Bool, true, false, ◌&&◌, Option, none, some, List, [], ◌∷◌, ◌++◌,
  map, ltb, if◌then◌else◌, length, get_or, is_some,
}
use ikp_data_propagator.Warning.{Warning, WarningAlloc, warning_create}
use ikp_data_propagator.Node.{NodeType, root, central, destination, NodeInfo}
use ikp_data_propagator.Node.Link.{Nodes}
use ikp_data_propagator.Wire.{ByteOrder}
use ikp_data_propagator.Wire.Receiver.{Transport, Memory, serve_client}

abbrev pub is_destination : NodeType → Bool
is_destination root = false
is_destination central = false
is_destination destination = true

-- The array of the destinations among the first `n` nodes, in their order.
unfoldable pub destinations : Nodes → ℕ → List ℕ
destinations nodes zero = []
destinations nodes (suc i) =
    let before = destinations nodes i in
    if is_destination (nodes i).kind then before ++ i ∷ [] else before

-- What one round of the loop draws: three numbers of `rand`, the time, what its allocations do,
-- whether the text for the log could be made, and whether the queue's `malloc` gives a node.
pub record Draw : Type 0 where
  pub node : ℕ
  pub kind : ℕ
  pub value : ℕ
  pub time : ℕ
  pub alloc : WarningAlloc
  pub described : Bool
  pub enqueued : Bool

abbrev pub number_of_warnings : ℕ
number_of_warnings = 10000

-- What an enqueue adds to the entries behind it; the generator does not look at its result.
abbrev pub entry_if : Bool → Option Warning → List (Option Warning) → List (Option Warning)
entry_if node w rest = if node then w ∷ rest else rest

-- `double_bits` gives the bits of a small number as a `double`; `closes` says whether the queue takes
-- the NULL at the end.
module _ (double_bits : ℕ → ℕ) (closes : Bool) (nodes : Nodes) (dests : List ℕ) where
  abbrev pub drawn_node : Draw → ℕ
  drawn_node d = get_or dests (d.node % length dests) 0

  unfoldable pub draw_warning : Draw → Option Warning
  draw_warning d =
      let id = (nodes (drawn_node d)).id in
      warning_create d.alloc id (d.kind % 4) (double_bits (d.value % 100)) (d.time % 2 ^ 64) id

  -- The loop over the draws, which end where the stop event is set: what goes into the queue, with
  -- the NULL behind it, where the queue takes them. The counter counts the warnings whose text was made.
  unfoldable pub generate : List Draw → ℕ → List (Option Warning)
  unfolding draw_warning
  generate [] counter = entry_if closes none []
  generate (d ∷ ds) counter =
      let w = draw_warning d in
      let rest = generate ds (if is_some w && d.described then counter + 1 else counter) in
      if ltb counter number_of_warnings then entry_if d.enqueued w rest else entry_if closes none []

-- Nothing is put into the queue where there is no destination.
unfoldable pub data_generator_thread :
    (ℕ → ℕ) → Bool → Nodes → ℕ → List Draw → List (Option Warning)
unfolding destinations generate
data_generator_thread double_bits closes nodes total draws = elim (destinations nodes total) [
  | [] ↦ []
  | d ∷ ds ↦ generate double_bits closes nodes (d ∷ ds) draws 0
]

-- The processor's loop over what it dequeues; the counter is a `long` of 32 bits.
unfoldable pub processor_fn : List (Option Warning) → ℕ → ℕ
processor_fn [] count = count
processor_fn (none ∷ queue) count = count
processor_fn (some w ∷ queue) count = processor_fn queue ((count + 1) % 2 ^ 32)

-- One client of the listener, whose warnings go through the queue to the processor, and then the
-- NULL that `dd_destroy` puts into it.
unfoldable pub count_client : (net : Transport) → ByteOrder → Memory → ℕ → net.Socket → Option ℕ
unfolding processor_fn
count_client net order memory fuel s =
    Option.map (λ ws. processor_fn (map some ws ++ none ∷ []) 0)
      (serve_client net order memory fuel s)
