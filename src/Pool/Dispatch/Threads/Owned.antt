-- ===== src/Pool/Dispatch/Threads/Owned.antt =====
-- Who has a worker: its mutex keeps the event threads and its own loop apart.
use vs_http_server.Prelude.{
  ℕ, ◌≤◌, ◌≡◌, ◌≢◌, ◌⊎◌, inl, refl, ap, Bool, true, false, Option, none, some, arith,
}
use vs_http_server.Pool.State.{move_to_busy_list, move_to_idle_list}
use vs_http_server.Pool.Dispatch.{set_job, begin_job, hand_back}
use vs_http_server.Pool.Dispatch.Threads.{
  WorkerPlace, testing, found, running, trimming, CallerPlace, holding, listed, assigned, signalled,
  by_worker, by_caller, System, wake, Step, call, grow, see, pick, miss, lock, enlist, assign,
  signal, unlock, test_none, test_some, wait, wake_up, enter, finish, trim, Steps, here, next,
  first_state,
}
use vs_http_server.Pool.Dispatch.Threads.Moves.{
  ensure_idle-Grown, trim_idle-Shrunk, worker_pool-Grown,
}

-- The worker whose mutex an event thread has locked.
abbrev pub owned : CallerPlace → Option ℕ
owned (holding t _ _) = some t
owned (listed t _ _) = some t
owned (assigned t) = some t
owned (signalled t) = some t
owned _ = none

-- A worker that has its mutex locked, and one that needs its job.
abbrev pub in_work : WorkerPlace → Bool
in_work running = true
in_work trimming = true
in_work _ = false

abbrev pub has_job : WorkerPlace → Bool
has_job found = true
has_job running = true
has_job _ = false

pub record IsOwned (s : System) : Type 0 where
  pub callers : (c t : ℕ) → owned (s.caller c) ≡ some t → s.owner t ≡ by_caller c
  pub workers : (t : ℕ) → in_work (s.at t) ≡ true → s.owner t ≡ by_worker
  pub jobs : (t : ℕ) → has_job (s.at t) ≡ true → (s.pool.worker t).job ≢ none
  pub fresh :
      (t : ℕ) → s.pool.next_thread ≤ t → ((s.pool.worker t).started ≡ false) × (s.at t ≡ testing)

Step-IsOwned :
    {starts : ℕ → Bool} {spurious : Bool} {n : ℕ} {s u : System}
    → Step starts spurious n s u
    → IsOwned s
    → IsOwned u
unfolding wake set_job hand_back begin_job move_to_busy_list move_to_idle_list
Step-IsOwned {s} (call c job job_data h e) v = record {
  callers = λ d t o. ground (arith, v.callers d t);
  workers = v.workers;
  jobs = v.jobs;
  fresh = v.fresh;
}
Step-IsOwned {starts} {s} (grow c job job_data h e) v =
    let g = ensure_idle-Grown starts s.pool in
    record {
      callers = λ d u o. ground (arith, v.callers d u, g.kept u, g.made u, g.fresh u, g.later);
      workers = λ u o. ground (arith, v.workers u, g.kept u, g.made u, g.fresh u, g.later);
      jobs = λ u o. ground (arith, v.jobs u, v.fresh u, g.kept u, g.made u, g.fresh u, g.later);
      fresh = λ u o. (
        ground (arith, v.fresh u, g.kept u, g.made u, g.fresh u, g.later),
        ground (arith, v.fresh u, g.kept u, g.made u, g.fresh u, g.later),
      );
    }
Step-IsOwned {s} (see c job t job_data h e k) v = record {
  callers = λ d t o. ground (arith, v.callers d t);
  workers = v.workers;
  jobs = v.jobs;
  fresh = v.fresh;
}
Step-IsOwned {s} (pick c job t job_data h e k) v = record {
  callers = λ d t o. ground (arith, v.callers d t);
  workers = v.workers;
  jobs = v.jobs;
  fresh = v.fresh;
}
Step-IsOwned {s} (miss c job job_data h e k) v = record {
  callers = λ d t o. ground (arith, v.callers d t);
  workers = v.workers;
  jobs = v.jobs;
  fresh = v.fresh;
}
Step-IsOwned {s} (lock c t job job_data h e k) v = record {
  callers = λ d u o. ground (arith, v.callers d u);
  workers = λ u o. ground (arith, v.workers u);
  jobs = v.jobs;
  fresh = v.fresh;
}
Step-IsOwned {s} (enlist c t job job_data h e) v = record {
  callers = λ d u o. ground (arith, v.callers d u, v.callers c t);
  workers = λ u o. ground (arith, v.workers u, v.callers c t);
  jobs = λ u o. ground (arith, v.jobs u, v.fresh u, v.callers c t);
  fresh =
      λ u o. (ground (arith, v.fresh u, v.callers c t), ground (arith, v.fresh u, v.callers c t));
}
Step-IsOwned {s} (assign c t job job_data h e) v = record {
  callers = λ d u o. ground (arith, v.callers d u, v.callers c t);
  workers = v.workers;
  jobs = λ u o. ground (arith, v.jobs u, v.fresh u);
  fresh = λ u o. (ground (arith, v.fresh u), ground (arith, v.fresh u));
}
Step-IsOwned {s} (signal c t h e) v = record {
  callers = λ d u o. ground (arith, v.callers d u, v.callers c t);
  workers = λ u o. ground (arith, v.workers u, v.callers c t);
  jobs = λ u o. ground (arith, v.jobs u, v.fresh u, v.callers c t);
  fresh =
      λ u o. (ground (arith, v.fresh u, v.callers c t), ground (arith, v.fresh u, v.callers c t));
}
Step-IsOwned {s} (unlock c t h e) v = record {
  callers = λ d u o. ground (arith, v.callers d u, v.callers c t);
  workers = λ u o. ground (arith, v.workers u, v.callers c t);
  jobs = v.jobs;
  fresh = v.fresh;
}
Step-IsOwned {s} (test_none t h e k) v = record {
  callers = λ d u o. ground (arith, v.callers d u);
  workers = λ u o. ground (arith, v.workers u);
  jobs = λ u o. ground (arith, v.jobs u, v.fresh u);
  fresh = λ u o. (ground (arith, v.fresh u), ground (arith, v.fresh u));
}
Step-IsOwned {s} (test_some t job h e k) v = record {
  callers = λ d u o. ground (arith, v.callers d u);
  workers = λ u o. ground (arith, v.workers u);
  jobs = λ u o. ground (arith, v.jobs u, v.fresh u);
  fresh = λ u o. (ground (arith, v.fresh u), ground (arith, v.fresh u));
}
Step-IsOwned {s} (wait t e) v = record {
  callers = λ d u o. ground (arith, v.callers d u);
  workers = λ u o. ground (arith, v.workers u);
  jobs = λ u o. ground (arith, v.jobs u, v.fresh u);
  fresh = λ u o. (ground (arith, v.fresh u), ground (arith, v.fresh u));
}
Step-IsOwned {s} (wake_up t h e) v = record {
  callers = λ d u o. ground (arith, v.callers d u);
  workers = λ u o. ground (arith, v.workers u);
  jobs = λ u o. ground (arith, v.jobs u, v.fresh u);
  fresh = λ u o. (ground (arith, v.fresh u), ground (arith, v.fresh u));
}
Step-IsOwned {s} (enter t e k) v = record {
  callers = λ d u o. ground (arith, v.callers d u);
  workers = λ u o. ground (arith, v.workers u);
  jobs = λ u o. ground (arith, v.jobs u, v.fresh u);
  fresh = λ u o. (ground (arith, v.fresh u), ground (arith, v.fresh u));
}
Step-IsOwned {s} (finish t e) v = record {
  callers = λ d u o. ground (arith, v.callers d u);
  workers = λ u o. ground (arith, v.workers u);
  jobs = λ u o. ground (arith, v.jobs u, v.fresh u);
  fresh = λ u o. (ground (arith, v.fresh u), ground (arith, v.fresh u));
}
Step-IsOwned {s} (trim t q e k) v =
    let g = trim_idle-Shrunk s.pool q k in
    record {
      callers = λ d u o. ground (arith, v.callers d u, g.slots u, g.numbers, v.workers t);
      workers = λ u o. ground (arith, v.workers u, g.slots u, g.numbers, v.workers t);
      jobs = λ u o. ground (arith, v.jobs u, v.fresh u, g.slots u, g.numbers, v.workers t);
      fresh = λ u o. (
        ground (arith, v.fresh u, g.slots u, g.numbers, v.workers t),
        ground (arith, v.fresh u, g.slots u, g.numbers, v.workers t),
      );
    }

first_state-IsOwned : (starts : ℕ → Bool) → IsOwned (first_state starts)
first_state-IsOwned starts =
    let g = worker_pool-Grown starts in
    record {
      callers = λ c t o. cc;
      workers = λ t o. cc;
      jobs = λ t o. cc;
      fresh = λ t h. (ap (λ w. w.started) (g.fresh t h).0, refl);
    }

pub Steps-IsOwned :
    {starts : ℕ → Bool} {spurious : Bool} {n : ℕ} {s : System}
    → Steps starts spurious n (first_state starts) s
    → IsOwned s
Steps-IsOwned {starts} here = first_state-IsOwned starts
Steps-IsOwned (next r st) = Step-IsOwned st (Steps-IsOwned r)

Step-running :
    {starts : ℕ → Bool} {spurious : Bool} {n : ℕ} {s u : System} (t : ℕ)
    → Step starts spurious n s u
    → IsOwned s
    → s.at t ≡ running
    → (u.at t ≡ running) × ((u.pool.worker t).job ≡ (s.pool.worker t).job)
      ⊎ (u.at t ≡ trimming) × ((u.pool.worker t).job ≡ none)
unfolding wake set_job hand_back begin_job move_to_busy_list move_to_idle_list
Step-running t (call c job job_data h e) v a = inl (a, refl)
Step-running {starts} {s} t (grow c job job_data h e) v a =
    inl (a, ground (arith, (ensure_idle-Grown starts s.pool).kept t, v.fresh t))
Step-running t (see c job w job_data h e k) v a = inl (a, refl)
Step-running t (pick c job w job_data h e k) v a = inl (a, refl)
Step-running t (miss c job job_data h e k) v a = inl (a, refl)
Step-running t (lock c w job job_data h e k) v a = inl (a, refl)
Step-running t (enlist c w job job_data h e) v a = ground arith
Step-running t (assign c w job job_data h e) v a =
    inl (a, ground (arith, v.callers c w, v.workers t))
Step-running t (signal c w h e) v a = ground arith
Step-running t (unlock c w h e) v a = ground arith
Step-running t (test_none w h e k) v a = ground arith
Step-running t (test_some w job h e k) v a = ground arith
Step-running t (wait w e) v a = ground arith
Step-running t (wake_up w h e) v a = ground arith
Step-running t (enter w e k) v a = ground arith
Step-running t (finish w e) v a = ground arith
Step-running {s} t (trim w q e k) v a = ground (arith, (trim_idle-Shrunk s.pool q k).slots t)

-- However many event threads call `Run`, and however the threads interleave: while a worker runs its
-- job, its slot holds a job, no event thread is between the lock and the unlock of its `m_WorkMutex`,
-- and any one step leaves the worker where it is with the job in its slot, or is its own return from
-- the job.
pub running_alone :
    {starts : ℕ → Bool} {spurious : Bool} {n : ℕ} {s u : System} (t : ℕ)
    → Steps starts spurious n (first_state starts) s
    → s.at t ≡ running
    → Step starts spurious n s u
    → ((s.pool.worker t).job ≢ none)
      × ((c : ℕ) → owned (s.caller c) ≢ some t)
      × ((u.at t ≡ running) × ((u.pool.worker t).job ≡ (s.pool.worker t).job)
          ⊎ (u.at t ≡ trimming) × ((u.pool.worker t).job ≡ none))
running_alone t r e st =
    let v = Steps-IsOwned r in
    (
      v.jobs t (ap has_job e),
      λ c o. ground (arith, v.callers c t o, v.workers t (ap in_work e)),
      Step-running t st v e,
    )
