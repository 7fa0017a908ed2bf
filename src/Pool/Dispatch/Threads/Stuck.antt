-- ===== src/Pool/Dispatch/Threads/Stuck.antt =====
-- A signal that comes between the test of the slot and the wait for it.
use vs_http_server.Prelude.{
  ℕ, ◌<◌, ◌≡◌, ◌≢◌, ap, Bool, true, false, Option, none, some, [], ◌∷◌, arith,
}
use vs_http_server.Pool.Counts.{count, count-append, count-erase}
use vs_http_server.Pool.State.{move_to_busy_list, move_to_idle_list}
use vs_http_server.Pool.Dispatch.{set_job, begin_job, hand_back}
use vs_http_server.Pool.Dispatch.Threads.{
  WorkerPlace, about_to_wait, waiting, CallerPlace, got, holding, listed, assigned, System, wake,
  Step, call, grow, see, pick, miss, lock, enlist, assign, signal, unlock, test_none, test_some,
  wait, wake_up, enter, finish, trim, Steps, here, next, first_state, after_signal,
}
use vs_http_server.Pool.Dispatch.Threads.Moves.{ensure_idle-Grown, trim_idle-Shrunk}
use vs_http_server.Pool.Dispatch.Threads.Owned.{Steps-IsOwned}
use vs_http_server.Pool.Dispatch.Threads.Serial.{get_idle_thread-count, Steps-IsSerial, made_busy}

-- The worker that an event thread has chosen and not signalled yet.
abbrev pub on_the_way : CallerPlace → Option ℕ
on_the_way (got t _ _) = some t
on_the_way (holding t _ _) = some t
on_the_way (listed t _ _) = some t
on_the_way (assigned t) = some t
on_the_way _ = none

abbrev pub asleep : WorkerPlace → Bool
asleep about_to_wait = true
asleep waiting = true
asleep _ = false

-- The worker has the job in its slot and nobody will tell it.
pub record IsStuck (t job : ℕ) (s : System) : Type 0 where
  pub worker :
      (asleep (s.at t) ≡ true)
      × ((s.pool.worker t).job ≡ some job)
      × (count t s.pool.idle_list ≡ 0)
      × (t < s.pool.next_thread)
  pub alone : (c : ℕ) → on_the_way (s.caller c) ≢ some t

Step-IsStuck :
    {starts : ℕ → Bool} {n : ℕ} {s u : System} (t job : ℕ)
    → Step starts false n s u
    → IsStuck t job s
    → IsStuck t job u
unfolding wake set_job hand_back begin_job move_to_busy_list move_to_idle_list
Step-IsStuck {s} t job (call c new job_data h e) v = record {
  worker = ground (arith, v.worker, v.alone c);
  alone = λ d a. ground (arith, v.alone d, v.worker);
}
Step-IsStuck {starts} {s} t job (grow c new job_data h e) v =
    let g = ensure_idle-Grown starts s.pool in
    record {
      worker = ground (arith, v.worker, v.alone c, g.kept t, g.later);
      alone = λ d a. ground (arith, v.alone d, v.worker, g.kept t, g.later);
    }
Step-IsStuck {s} t job (see c new w job_data h e k) v = record {
  worker = ground (arith, v.worker, v.alone c);
  alone = λ d a. ground (arith, v.alone d, v.worker);
}
Step-IsStuck {s} t job (pick c new w job_data h e k) v = record {
  worker = ground (arith, v.worker, v.alone c, get_idle_thread-count s.pool w k);
  alone = λ d a. ground (arith, v.alone d, v.worker, get_idle_thread-count s.pool w k);
}
Step-IsStuck {s} t job (miss c new job_data h e k) v = record {
  worker = ground (arith, v.worker, v.alone c);
  alone = λ d a. ground (arith, v.alone d, v.worker);
}
Step-IsStuck {s} t job (lock c w new job_data h e k) v = record {
  worker = ground (arith, v.worker, v.alone c);
  alone = λ d a. ground (arith, v.alone d, v.worker);
}
Step-IsStuck {s} t job (enlist c w new job_data h e) v = record {
  worker = ground (arith, v.worker, v.alone c, count-erase t w s.pool.idle_list);
  alone = λ d a. ground (arith, v.alone d, v.worker, count-erase t w s.pool.idle_list);
}
Step-IsStuck {s} t job (assign c w new job_data h e) v = record {
  worker = ground (arith, v.worker, v.alone c);
  alone = λ d a. ground (arith, v.alone d, v.worker);
}
Step-IsStuck {s} t job (signal c w h e) v = record {
  worker = ground (arith, v.worker, v.alone c);
  alone = λ d a. ground (arith, v.alone d, v.worker);
}
Step-IsStuck {s} t job (unlock c w h e) v = record {
  worker = ground (arith, v.worker, v.alone c);
  alone = λ d a. ground (arith, v.alone d, v.worker);
}
Step-IsStuck {s} t job (test_none w h e k) v = record {
  worker = ground (arith, v.worker);
  alone = v.alone;
}
Step-IsStuck {s} t job (test_some w new h e k) v = record {
  worker = ground (arith, v.worker);
  alone = v.alone;
}
Step-IsStuck {s} t job (wait w e) v = record { worker = ground (arith, v.worker); alone = v.alone }
Step-IsStuck {s} t job (wake_up w h e) v = record {
  worker = ground (arith, v.worker);
  alone = v.alone;
}
Step-IsStuck {s} t job (enter w e k) v = record {
  worker = ground (arith, v.worker);
  alone = v.alone;
}
Step-IsStuck {s} t job (finish w e) v = record {
  worker = ground (arith, v.worker, count-append t s.pool.idle_list (w ∷ []));
  alone = v.alone;
}
Step-IsStuck {s} t job (trim w q e k) v =
    let g = trim_idle-Shrunk s.pool q k in
    record { worker = ground (arith, v.worker, g.slots t, g.fewer t, g.numbers); alone = v.alone }

Steps-IsStuck :
    {starts : ℕ → Bool} {n : ℕ} {s u : System} (t job : ℕ)
    → IsStuck t job s
    → Steps starts false n s u
    → IsStuck t job u
Steps-IsStuck t job v here = v
Steps-IsStuck t job v (next r st) = Step-IsStuck t job st (Steps-IsStuck t job v r)

-- Where one event thread calls `Run`, and it signals a worker that stands between its test of
-- `m_Job` and its wait, the worker never runs the job that is in its slot: in every later state it
-- sleeps with the job, unless `pthread_cond_wait` comes back with no signal.
pub signal_lost :
    {starts : ℕ → Bool} {spurious : Bool} {s u : System} (t job : ℕ)
    → Steps starts spurious 1 (first_state starts) s
    → s.caller 0 ≡ assigned t
    → s.at t ≡ about_to_wait
    → (s.pool.worker t).job ≡ some job
    → Steps starts false 1 (after_signal 0 t s) u
    → (asleep (u.at t) ≡ true) × ((u.pool.worker t).job ≡ some job)
unfolding wake
signal_lost {s} t job r e a k runs =
    let v = Steps-IsSerial r in
    let o = Steps-IsOwned r in
    let stuck : IsStuck t job (after_signal 0 t s) = record {
      worker = (ground arith, k, (v.workers t).3 (ap made_busy e), ground (arith, o.fresh t));
      alone = λ c h. ground (arith, v.others c);
    } in
    let w = Steps-IsStuck t job stuck runs in (w.worker.0, w.worker.1)
