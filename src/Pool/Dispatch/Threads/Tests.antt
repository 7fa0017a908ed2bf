-- ===== src/Pool/Dispatch/Threads/Tests.antt =====
-- Steps of the threads of the worker pool at concrete schedules.
use vs_http_server.Prelude.{ℕ, ◌≡◌, ◌≢◌, ◌⊎◌, refl, Bool, true, false, none, some, arith}
use vs_http_server.Pool.Counts.{count, erase}
use vs_http_server.Pool.State.{
  worker_pool, first_threads, add_thread, append_to_idle_list, move_to_busy_list,
}
use vs_http_server.Pool.Dispatch.{ensure_idle, get_idle_thread, set_job, begin_job, hand_back}
use vs_http_server.Pool.Dispatch.Threads.{
  waiting, running, trimming, listed, System, wake, call, grow, see, pick, lock, enlist, assign,
  signal, unlock, test_none, test_some, wait, enter, finish, Steps, here, next, first_state,
}
use vs_http_server.Pool.Dispatch.Threads.Owned.{owned, in_work, running_alone}
use vs_http_server.Pool.Dispatch.Threads.Serial.{set_job_free}
use vs_http_server.Pool.Dispatch.Threads.Stuck.{asleep, signal_lost}

abbrev starts : ℕ → Bool
starts _ = true

-- The state behind a step.
abbrev Reached : Bool → ℕ → Type 0
Reached spurious n = (s : System) × Steps starts spurious n (first_state starts) s

-- The event thread 0 has the worker 0 and its lock, and has made it busy.
abbrev chosen : Reached false 1
unfolding worker_pool first_threads add_thread append_to_idle_list ensure_idle get_idle_thread
chosen = (
  _,
  next
      (next
        (next
          (next
            (next (next here (call 0 5 none (omega arith) refl)) (grow 0 5 none (omega arith) refl))
            (see 0 5 0 none (omega arith) refl refl))
          (pick 0 5 0 none (omega arith) refl refl))
        (lock 0 0 5 none (omega arith) refl refl))
      (enlist 0 0 5 none (omega arith) refl),
)

set_job_free_example :
    ((chosen.0.pool.worker 0).job ≡ none)
    × (count 0 chosen.0.pool.idle_list ≡ 0)
    × (in_work (chosen.0.at 0) ≡ false)
unfolding worker_pool first_threads add_thread append_to_idle_list ensure_idle get_idle_thread
set_job_free_example = set_job_free 0 5 none chosen.1 refl

-- The worker 0 runs the job 5.
abbrev at_work : Reached false 1
unfolding worker_pool first_threads add_thread append_to_idle_list ensure_idle get_idle_thread
    move_to_busy_list erase set_job begin_job wake
at_work = (
  _,
  next
      (next
        (next
          (next (next chosen.1 (assign 0 0 5 none (omega arith) refl))
            (signal 0 0 (omega arith) refl))
          (unlock 0 0 (omega arith) refl))
        (test_some 0 5 refl refl refl))
      (enter 0 refl refl),
)

running_alone_example :
    ((at_work.0.pool.worker 0).job ≢ none)
    × ((c : ℕ) → owned (at_work.0.caller c) ≢ some 0)
    × ((trimming ≡ running)
          × (((hand_back 0 at_work.0.pool).worker 0).job ≡ (at_work.0.pool.worker 0).job)
        ⊎ (trimming ≡ trimming) × (((hand_back 0 at_work.0.pool).worker 0).job ≡ none))
unfolding worker_pool first_threads add_thread append_to_idle_list ensure_idle get_idle_thread
    move_to_busy_list erase set_job begin_job wake
running_alone_example = running_alone 0 at_work.1 refl (finish 0 refl)

-- The worker 0 has seen its slot empty, and the event thread 0 has filled it.
abbrev between : Reached false 1
unfolding worker_pool first_threads add_thread append_to_idle_list ensure_idle get_idle_thread
    move_to_busy_list erase set_job begin_job
between = (
  _,
  next
      (next
        (next
          (next
            (next
              (next
                (next (next here (test_none 0 refl refl refl)) (call 0 5 none (omega arith) refl))
                (grow 0 5 none (omega arith) refl))
              (see 0 5 0 none (omega arith) refl refl))
            (pick 0 5 0 none (omega arith) refl refl))
          (lock 0 0 5 none (omega arith) refl refl))
        (enlist 0 0 5 none (omega arith) refl))
      (assign 0 0 5 none (omega arith) refl),
)

-- It waits with the job in its slot.
signal_lost_example : (asleep waiting ≡ true) × ((between.0.pool.worker 0).job ≡ some 5)
unfolding worker_pool first_threads add_thread append_to_idle_list ensure_idle get_idle_thread
    move_to_busy_list erase set_job begin_job wake
signal_lost_example = signal_lost 0 5 between.1 refl refl refl (next here (wait 0 refl))

-- With two event threads both get the worker 0, and the second job is written over the first.
overwritten :
    (s : System) × Steps starts false 2 (first_state starts) s
    × (s.caller 1 ≡ listed 0 6 none)
    × ((s.pool.worker 0).job ≡ some 5)
unfolding worker_pool first_threads add_thread append_to_idle_list ensure_idle get_idle_thread
    move_to_busy_list erase set_job begin_job wake
overwritten = (
  _,
  next
      (next
        (next
          (next
            (next
              (next
                (next
                  (next
                    (next
                      (next
                        (next
                          (next
                            (next
                              (next (next here (call 0 5 none (omega arith) refl))
                                (call 1 6 none (omega arith) refl))
                              (grow 0 5 none (omega arith) refl))
                            (grow 1 6 none (omega arith) refl))
                          (see 0 5 0 none (omega arith) refl refl))
                        (see 1 6 0 none (omega arith) refl refl))
                      (pick 0 5 0 none (omega arith) refl refl))
                    (pick 1 6 0 none (omega arith) refl refl))
                  (lock 0 0 5 none (omega arith) refl refl))
                (enlist 0 0 5 none (omega arith) refl))
              (assign 0 0 5 none (omega arith) refl))
            (signal 0 0 (omega arith) refl))
          (unlock 0 0 (omega arith) refl))
        (lock 1 0 6 none (omega arith) refl refl))
      (enlist 1 0 6 none (omega arith) refl),
  refl,
  refl,
)
