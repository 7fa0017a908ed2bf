-- ===== src/Pool/Tests.antt =====
-- The theorems of the pool at concrete pools.
use vs_http_server.Prelude.{
  refl, ret, ℕ, ◌≤◌, ◌≡◌, ◌⊎◌, Bool, true, none, some, [], ◌∷◌, fault, ◌>>=◌, arith, length,
  Returns,
}
use vs_http_server.Pool.Counts.{erase}
use vs_http_server.Pool.State.{
  Pool, IsPool, worker_pool, move_to_busy_list, add_thread, first_threads, append_to_idle_list,
}
use vs_http_server.Pool.Moves.{worker_pool-IsPool, move_to_busy_list-IsPool}
use vs_http_server.Pool.Thread.{start_all, terminate_all}
use vs_http_server.Pool.Thread.Laws.{terminate_all-start_all}
use vs_http_server.Pool.Dispatch.{run, finish_job, wait_max_num, assigned}
use vs_http_server.Pool.Dispatch.Laws.{IsBounded, IdleStarted, Runs, run-Runs}
use vs_http_server.Pool.Dispatch.Finish.{finish_job-IsPool}

-- Every `pthread_create` succeeds.
abbrev starts : ℕ → Bool
starts _ = true

abbrev first_pool : Pool
first_pool = worker_pool starts

first_pool-IsPool : IsPool first_pool
first_pool-IsPool = (worker_pool-IsPool starts).0

-- The thread 3 has a job.
abbrev second_pool : Pool
second_pool = move_to_busy_list 3 first_pool

second_pool-IsPool : IsPool second_pool
unfolding worker_pool first_threads add_thread append_to_idle_list
second_pool-IsPool =
    move_to_busy_list-IsPool 3 first_pool first_pool-IsPool (omega arith) (omega arith)

first_pool-IsBounded : IsBounded first_pool
unfolding worker_pool first_threads add_thread append_to_idle_list
first_pool-IsBounded = record {
  within = omega arith;
  max_small = omega arith;
  init_small = omega arith;
  init_pos = omega arith;
  low_pos = omega arith;
}

first_pool-IdleStarted : IdleStarted first_pool
unfolding worker_pool first_threads add_thread append_to_idle_list
first_pool-IdleStarted = λ t. ground arith

second_pool-IdleStarted : IdleStarted second_pool
unfolding worker_pool first_threads add_thread append_to_idle_list move_to_busy_list
second_pool-IdleStarted = λ t. ground arith

run-Runs_example :
    (length first_pool.busy_list ≡ first_pool.max_num)
      × (run starts 5 none first_pool ≡ ret wait_max_num)
    ⊎ ((t : ℕ) × (q : Pool) × (run starts 5 none first_pool ≡ ret (assigned t q))
        × Runs first_pool 5 none t q)
run-Runs_example =
    run-Runs starts 5 none first_pool first_pool-IsPool first_pool-IsBounded (λ t. refl)
      first_pool-IdleStarted

finish_job-IsPool_example :
    Returns
      (λ q.
        IsPool q
        × (q.busy_list ≡ erase 3 second_pool.busy_list)
        × (length q.idle_list ≤ second_pool.avail_high)
        × ((q.worker 3).job ≡ none)
        × IdleStarted q)
      (finish_job 3 second_pool)
unfolding worker_pool first_threads add_thread append_to_idle_list move_to_busy_list
finish_job-IsPool_example =
    finish_job-IsPool 3 second_pool second_pool-IsPool (omega arith) (omega arith) (omega arith)
      (omega arith) refl second_pool-IdleStarted

-- Two threads start, the second between them does not.
terminate_all-start_all_example :
    (start_all (some 11 ∷ (none ∷ (some 13 ∷ []))) >>= terminate_all starts) ≡ fault
terminate_all-start_all_example = terminate_all-start_all starts (some 11 ∷ (none ∷ (some 13 ∷ [])))
