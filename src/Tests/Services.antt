-- ===== src/Tests/Services.antt =====
-- The queue between threads, the thread pool and the generator: the theorems at concrete inputs.
use ikp_data_propagator.Prelude.{
  Bool, ◌+◌, count, ◌≡◌, refl, true, false, none, some, List, [], ◌∷◌, arith, ◌==◌, map, is_some,
  inl, inr, Option-cases, if◌then◌else◌,
}
use ikp_data_propagator.Connections.{connection_key}
use ikp_data_propagator.Queue.{write, node, Ptr, null, Heap}
use ikp_data_propagator.Queue.Segment.{Cells}
use ikp_data_propagator.Queue.Script.{Allocates}
use ikp_data_propagator.TsQueue.{World, Try, put, take, turns}
use ikp_data_propagator.TsQueue.History.{IsConsistent, turns-IsConsistent}
use ikp_data_propagator.ThreadPool.{
  ThreadPool, tp_create, started_of, Action, check, push, finish, begin, post, run, step, pick,
}
use ikp_data_propagator.ThreadPool
use ikp_data_propagator.ThreadPool.Drain.{shutdown_lem}
use ikp_data_propagator.Node.{root, destination}
use ikp_data_propagator.Node.Link.{Nodes}
use ikp_data_propagator.Warning.{warning_create}
use ikp_data_propagator.Endpoints.{
  Draw, destinations, draw_warning, generate, data_generator_thread,
}
use ikp_data_propagator.Endpoints.Generated.{AllFor, data_generator-AllFor}

-- A `malloc` that has one block.
abbrev single_block : Heap → Ptr
single_block h = elim (h 1) [ none ↦ 1 | some _ ↦ null ]

single_block-Allocates : Allocates single_block
single_block-Allocates h = elim (Option-cases (h 1)) [
  | inl e ↦ inr (rw (e, single_block) (omega arith), rw (e, single_block) e)
  | inr (n, e) ↦ inl (rw (e, single_block))
]

abbrev empty_world : World
empty_world = record {
  heap = λ _. none;
  queue = record {
    inner = record { front = null; rear = null; size = 0; frees = false };
    capacity = 1;
  };
  puts = [];
  takes = [];
}

empty_world-IsConsistent : IsConsistent empty_world []
empty_world-IsConsistent = record {
  holds = record {
    chain = tt;
    front_first = refl;
    rear_last = refl;
    counted = refl;
    small = omega arith;
  };
  in_order = refl;
  bounded = λ _. omega arith;
}

abbrev one_inside : World
one_inside = record {
  heap = write (λ _. none) 1 (some (node 10 null));
  queue = record { inner = record { front = 1; rear = 1; size = 1; frees = false }; capacity = 1 };
  puts = 10 ∷ [];
  takes = [];
}

one_inside-IsConsistent : IsConsistent one_inside ((1, 10) ∷ [])
one_inside-IsConsistent = record {
  holds = record {
    chain = (omega arith, refl, refl, tt);
    front_first = refl;
    rear_last = refl;
    counted = refl;
    small = omega arith;
  };
  in_order = refl;
  bounded = λ _. omega arith;
}

abbrev three_tries : List Try
three_tries = put 10 ∷ put 20 ∷ take ∷ []

turns-IsConsistent_example :
    (w' : World) × (xs' : Cells) × (turns single_block three_tries empty_world ≡ some w')
    × IsConsistent w' xs'
turns-IsConsistent_example =
    turns-IsConsistent single_block single_block-Allocates three_tries empty_world []
      empty_world-IsConsistent (omega arith)

-- The second of the two threads cannot be started.
abbrev one_thread : List Bool
one_thread = true ∷ false ∷ []

-- The queue does not take the second job, nor the first NULL.
abbrev one_submitted : List Action
one_submitted = check 7 true ∷ push 0 true ∷ check 8 true ∷ push 0 false ∷ []

abbrev one_waiting : ThreadPool
one_waiting = record (tp_create one_thread) {
  queue = some 7 ∷ [];
  submitted = 8 ∷ 7 ∷ [];
  lost = 8 ∷ [];
}

one_waiting_reached : run one_submitted (tp_create one_thread) ≡ some one_waiting
unfolding run step pick started_of
one_waiting_reached = refl

abbrev to_the_end : List Action
to_the_end = post false ∷ post true ∷ ThreadPool.take ∷ finish 0 ∷ ThreadPool.take ∷ []

abbrev at_the_end : ThreadPool
at_the_end = record {
  thread_count = 2;
  started = 1;
  idle = 0;
  running = [];
  ended = 1;
  queue = [];
  shutting_down = true;
  posted = 2;
  unposted = 1;
  submitting = [];
  submitted = 8 ∷ 7 ∷ [];
  executed = 7 ∷ [];
  lost = 8 ∷ [];
}

end_reached : run (begin ∷ to_the_end) one_waiting ≡ some at_the_end
unfolding run step pick started_of
end_reached = refl

shutdown_lem_example :
    count 8 at_the_end.executed + count 8 at_the_end.lost ≡ count 8 at_the_end.submitted
unfolding started_of
shutdown_lem_example =
    shutdown_lem one_thread one_submitted to_the_end one_waiting at_the_end (omega arith)
      one_waiting_reached refl refl end_reached refl 8

abbrev two_nodes_file : Nodes
two_nodes_file i = record {
  id = b'N' ∷ [];
  address = [];
  port = i;
  parent = none;
  children = [];
  child_count = 0;
  kind = if i == 1 then destination else root;
}

abbrev one_draw : List Draw
one_draw =
    record {
      node = 9;
      kind = 7;
      value = 140;
      time = 1700000000;
      alloc = record { struct_block = true; city_copy = true; dest_copy = true };
      described = true;
      enqueued = true;
    }
    ∷ []

data_generator-AllFor_example :
    AllFor two_nodes_file 2 (data_generator_thread (λ n. n) true two_nodes_file 2 one_draw)
data_generator-AllFor_example = data_generator-AllFor (λ n. n) true two_nodes_file 2 one_draw

data_generator_run :
    map is_some (data_generator_thread (λ n. n) true two_nodes_file 2 one_draw) ≡ true ∷ false ∷ []
unfolding data_generator_thread destinations generate draw_warning warning_create
data_generator_run = refl
