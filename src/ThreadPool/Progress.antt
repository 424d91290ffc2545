-- ===== src/ThreadPool/Progress.antt =====
-- The shutdown of a pool of CentralPropagator/thread_pool.c comes to its end.
use ikp_data_propagator.Prelude.{◌<◌, ◌≡◌, true, Option, some, List}
use ikp_data_propagator.ThreadPool.{ThreadPool, Action, run}
use ikp_data_propagator.ThreadPool.Steps.{left_to_do, is_own, all_own}

-- A step of the pool's own that brings the end nearer.
abbrev Advances : ThreadPool → Action → Option ThreadPool → Type 0
Advances p a r =
    (is_own a ≡ true)
    × (q : ThreadPool) × (r ≡ some q)
    × (q.shutting_down ≡ p.shutting_down)
    × (q.unposted ≡ p.unposted)
    × (left_to_do q < left_to_do p)

-- A run of the pool's own actions to the end of all threads.
abbrev Ends : ThreadPool → Type 0
Ends p =
    (after : List Action) × (q : ThreadPool) × (all_own after ≡ true)
    × (run after p ≡ some q)
    × (q.ended ≡ p.started)
