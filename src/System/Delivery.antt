-- ===== src/System/Delivery.antt =====
-- Every warning that the source (DataSource/data_generator.c, DataSource/network_sender.c) sends
-- reaches its destination over the propagators (CentralPropagator/cp_dispatcher.c).
use ikp_data_propagator.Prelude.{
  ℕ, ◌<◌, ◌≡◌, refl, ap, ◌∙◌, Bool, true, false, suc, Option, none, some, List, [], ◌∷◌, length,
}
use ikp_data_propagator.Text.{IsText, string_key, until_nul, until_nul-IsText}
use ikp_data_propagator.HashMap.{hashmap_get}
use ikp_data_propagator.Warning.{Warning}
use ikp_data_propagator.Node.{Row}
use ikp_data_propagator.Node.Link.{Nodes, id_map, row_at, first_nodes}
use ikp_data_propagator.Node.Ids.{last_with_self}
use ikp_data_propagator.Routing.{
  Send, send_to, send_to_root, before_sends, hop_of, node_find_by_id, dispatch_job_fn,
  network_sender_thread,
}
use ikp_data_propagator.Routing.Search.{node_find_by_id_last}
use ikp_data_propagator.Routing.Paths.{Arrives, arrived, forwarded, delivery_lem}
use ikp_data_propagator.Routing.File.{IsFileTree, link-IsForest, above-lt, same_id}
use ikp_data_propagator.Endpoints.{Draw, data_generator_thread}
use ikp_data_propagator.Endpoints.Generated.{IsDestination, IsFor, AllFor, data_generator-AllFor}
use ikp_data_propagator.System.{
  Allocations, loaded_nodes, context_map, Succeeds, send_of, Reaches, there, relayed,
}
use ikp_data_propagator.System.Contexts.{loaded-Answers, loaded-IsDistinct, context_map_lem}

module _ (rows : List Row) (rank : ℕ → ℕ) (fuel : ℕ) (allocs : Allocations)
    (file : IsFileTree rows rank) (deep : (x : ℕ) → x < length rows → rank x < fuel)
    (ok : Succeeds rows fuel allocs) where
  abbrev nodes : Nodes
  nodes = loaded_nodes rows fuel allocs

  -- The hops of a route are sends.
  Reaches-from :
      (w : Warning) (dest me : ℕ)
      → w.dest_node ≡ (nodes dest).id
      → Arrives fuel nodes (context_map rows fuel allocs) (nodes dest).id dest me
      → Reaches rows fuel allocs w dest (send_of rows fuel allocs me w)
  unfolding dispatch_job_fn
  Reaches-from w dest me e arrived = there refl
  Reaches-from w dest me e (forwarded {hop = hop} ne found rest) =
      relayed me refl ne
        (ap
            (λ id.
              send_to nodes w
                (hop_of fuel nodes me (hashmap_get (context_map rows fuel allocs me) (some id))))
            e
          ∙ ap (send_to nodes w) found)
        (Reaches-from w dest hop e rest)

  pub sent_lem :
      (w : Warning) (dest : ℕ) (sends : List Send)
      → dest < length rows
      → w.dest_node ≡ (nodes dest).id
      → (s : Send) × (before_sends fuel nodes (length rows) w (some sends) ≡ some (s ∷ sends))
        × Reaches rows fuel allocs w dest s
  unfolding first_nodes
  sent_lem w dest sends lt e =
      let m = (id_map allocs.load_map allocs.load_puts rows).0 in
      let known = loaded-Answers rows rank fuel allocs file deep ok in
      let distinct = loaded-IsDistinct rows rank fuel allocs file deep ok in
      let (r, found, _, route) =
        delivery_lem nodes rank (link-IsForest m rows rank file known)
          (context_map rows fuel allocs) (nodes dest).id dest fuel (deep dest lt)
          (λ me b.
            context_map_lem rows rank fuel allocs file deep ok me dest
              (above-lt m rows rank file known me dest lt b) b) in
      let looked_up : node_find_by_id nodes (length rows) w.dest_node ≡ some dest =
        ap (node_find_by_id nodes (length rows)) e
        ∙ node_find_by_id_last nodes (nodes dest).id (length rows) distinct
        ∙ last_with_self nodes (length rows) dest (λ j lj same. distinct j dest lj lt same) lt in
      (
        send_of rows fuel allocs r w,
        ap (λ o. send_to_root fuel nodes w o sends) looked_up
            ∙ ap
                (λ (o : Option ℕ). elim (send_to nodes w o) [
                  | none ↦ none
                  | some s ↦ some (s ∷ sends)
                ])
                found,
        Reaches-from w dest r e route,
      )

  -- The rounds of the sender on a stream: whether each finds the stop event set, and its entry.
  abbrev pub with_stops : (ℕ → Bool) → List (Option Warning) → List (Bool × Option Warning)
  with_stops stop [] = []
  with_stops stop (w ∷ ws) = (stop 0, w) ∷ with_stops (λ i. stop (suc i)) ws

  -- The warning of each round, up to the first that finds the stop event or NULL, goes out by one
  -- send, in order, and that send reaches the destination that the warning names.
  abbrev pub AllReached : List (Bool × Option Warning) → List Send → Type 0
  AllReached [] [] = Unit {0}
  AllReached [] (s ∷ sends) = ⊥
  AllReached ((true, w) ∷ rounds) sends = sends ≡ []
  AllReached ((false, none) ∷ rounds) sends = sends ≡ []
  AllReached ((false, some w) ∷ rounds) [] = ⊥
  AllReached ((false, some w) ∷ rounds) (s ∷ sends) =
      (dest : ℕ) × IsDestination nodes (length rows) dest
      × (w.dest_node ≡ (nodes dest).id)
      × Reaches rows fuel allocs w dest s
      × AllReached rounds sends

  id_text :
      ((i : ℕ) → i < length rows → IsText (row_at rows i).id)
      → (i : ℕ) → i < length rows
      → until_nul (nodes i).id ≡ (nodes i).id
  unfolding first_nodes
  id_text texts i lt =
      let m = (id_map allocs.load_map allocs.load_puts rows).0 in
      let same =
        same_id m rows rank file (loaded-Answers rows rank fuel allocs file deep ok) i lt in
      rw same (until_nul-IsText (row_at rows i).id (texts i lt))

  abbrev AllSent : List (Bool × Option Warning) → Type 0
  AllSent rounds =
      (sends : List Send) × (network_sender_thread fuel nodes (length rows) rounds ≡ some sends)
      × AllReached rounds sends

  module _ (texts : (i : ℕ) → i < length rows → IsText (row_at rows i).id) where
    round_lem :
        (flag : Bool) (w : Option Warning) (rounds : List (Bool × Option Warning))
        → IsFor nodes (length rows) w
        → AllSent rounds
        → AllSent ((flag, w) ∷ rounds)
    unfolding network_sender_thread
    round_lem true w rounds named rest = ([], refl, refl)
    round_lem false none rounds named rest = ([], refl, refl)
    round_lem false (some w) rounds (i, d, named, _, _) (sends, ran, reached) =
        let e = named ∙ id_text texts i d.0 in
        let (s, sent, route) = sent_lem w i sends d.0 e in
        (
          s ∷ sends,
          ap (before_sends fuel nodes (length rows) w) ran ∙ sent,
          (i, d, e, route, reached),
        )

    sends_lem :
        (stop : ℕ → Bool) (ws : List (Option Warning))
        → AllFor nodes (length rows) ws
        → AllSent (with_stops stop ws)
    unfolding network_sender_thread
    sends_lem stop [] all = ([], refl, tt)
    sends_lem stop (w ∷ ws) all =
        round_lem (stop 0) w (with_stops (λ i. stop (suc i)) ws) all.0
          (sends_lem (λ i. stop (suc i)) ws all.1)

  -- The source's pipeline, on a file whose rows are a tree with distinct ids that are texts, where
  -- the allocations of the loader's map and of each propagator's map and their puts succeed, and
  -- with fuel for the depth of the tree: whatever the generator draws and whichever of its
  -- allocations and enqueues fail, and at whatever rounds the sender finds the stop event set, the
  -- sender passes each warning that the queue has taken, up to the stop or to a NULL, to
  -- `send_warning_to` once and in order; and each of these sends, and the sends of the propagators'
  -- jobs behind it, each by its own context, lead to the warning's destination. The warnings behind
  -- the stop are not sent.
  pub pipeline_lem :
      (double_bits : ℕ → ℕ) (closes : Bool) (draws : List Draw) (stop : ℕ → Bool)
      → ((i : ℕ) → i < length rows → IsText (row_at rows i).id)
      → let ws = data_generator_thread double_bits closes nodes (length rows) draws in
        (sends : List Send) × (network_sender_thread fuel nodes (length rows) (with_stops stop ws)
          ≡ some sends)
        × AllReached (with_stops stop ws) sends
  pipeline_lem double_bits closes draws stop texts =
      sends_lem texts stop (data_generator_thread double_bits closes nodes (length rows) draws)
        (data_generator-AllFor double_bits closes nodes (length rows) draws)
