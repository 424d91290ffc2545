-- ===== src/ThreadPool/Blocks.antt =====
-- What `tp_create` in CentralPropagator/thread_pool.c acquires, with its early returns, and what
-- `tp_shutdown` gives back.
use ikp_data_propagator.Prelude.{
  ℕ, zero, suc, ◌+◌, ◌≡◌, refl, Bool, true, false, not, List, [], ◌∷◌, ◌++◌, arith, if◌then◌else◌,
  Bool-cases, inl, inr, weigh, weigh-append,
}

-- A thread carries the index of its handle.
pub data PoolBlock : Type 0 where
  pool_of queue_of threads_of : PoolBlock
  thread : ℕ → PoolBlock

-- What the calls in `tp_create` do.
pub record PoolCalls : Type 0 where
  pub pool_given : Bool
  pub queue_created : Bool
  pub threads_given : Bool
  pub thread_started : ℕ → Bool

-- The handles of the threads that were started; the others are NULL.
unfoldable pub thread_handles : PoolCalls → ℕ → List PoolBlock
thread_handles calls zero = []
thread_handles calls (suc i) =
    thread_handles calls i ++ (if calls.thread_started i then thread i ∷ [] else [])

-- Whether there is a pool, what was acquired, and what was given back.
pub record PoolCreation : Type 0 where
  pub created : Bool
  pub taken : List PoolBlock
  pub given_back : List PoolBlock

abbrev pub no_pool : List PoolBlock → List PoolBlock → PoolCreation
no_pool taken given_back = record { created = false; taken = taken; given_back = given_back }

unfoldable pub create_pool : PoolCalls → ℕ → PoolCreation
unfolding thread_handles
create_pool calls thread_count =
    if not calls.pool_given
    then no_pool [] []
    else if not calls.queue_created
    then no_pool (pool_of ∷ []) (pool_of ∷ [])
    else if not calls.threads_given
    then no_pool (pool_of ∷ queue_of ∷ []) (queue_of ∷ pool_of ∷ [])
    else record {
      created = true;
      taken = pool_of ∷ queue_of ∷ threads_of ∷ thread_handles calls thread_count;
      given_back = [];
    }

-- `CloseHandle` of a NULL handle does nothing.
unfoldable pub shutdown_blocks : PoolCalls → ℕ → Bool → List PoolBlock
unfolding thread_handles
shutdown_blocks calls thread_count false = []
shutdown_blocks calls thread_count true =
    thread_handles calls thread_count ++ queue_of ∷ threads_of ∷ pool_of ∷ []

module _ (w : PoolBlock → ℕ) where
  -- Whatever the calls do, what `tp_create` acquires is, each as often, what it gives back before it
  -- returns and what `tp_shutdown` gives back of the pool.
  pub create_pool_lem :
      (calls : PoolCalls) (thread_count : ℕ)
      → let c = create_pool calls thread_count in
        weigh w c.taken
        ≡ weigh w c.given_back + weigh w (shutdown_blocks calls thread_count c.created)
  unfolding create_pool shutdown_blocks weigh
  create_pool_lem calls thread_count = elim (Bool-cases calls.pool_given) [
    | inr denied ↦ rw denied refl
    | inl pool ↦ elim (Bool-cases calls.queue_created) [
      | inr denied ↦ rw (pool, denied) (omega arith)
      | inl queue ↦ elim (Bool-cases calls.threads_given) [
        | inr denied ↦ rw (pool, queue, denied) (omega arith)
        | inl threads ↦
            let handles = thread_handles calls thread_count in
            rw (pool, queue, threads)
              (omega (arith, weigh-append w handles (queue_of ∷ threads_of ∷ pool_of ∷ [])))
      ]
    ]
  ]
