-- ===== src/Routing/Memory/Freed.antt =====
-- What a propagator's context (CentralPropagator/cp_context.c) leaves allocated.
use ikp_data_propagator.Prelude.{ℕ, ◌+◌, ◌≡◌, weigh}
use ikp_data_propagator.Text.{Text, string_key}
use ikp_data_propagator.Node.Memory.{Block, Loading, node_info_destroy_all}
use ikp_data_propagator.Routing.Memory.{Creation, cp_context_destroy}

module _ (w : Block → ℕ) where
  abbrev Balanced : Creation → Type 0
  Balanced c =
      weigh w c.taken
      ≡ weigh w c.freed + weigh w (cp_context_destroy c.context c.nodes c.count) + weigh w c.lost

  abbrev IsBalanced : Loading → Type 0
  IsBalanced l =
      weigh w l.taken
      ≡ weigh w l.freed + weigh w (node_info_destroy_all l.nodes l.count) + weigh w l.lost
