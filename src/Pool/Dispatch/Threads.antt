-- ===== src/Pool/Dispatch/Threads.antt =====
-- The threads of the worker pool, interleaved: event threads in `CThreadPool::Run`, and workers in
-- `CWorkerThread::Run` (threadpool.cpp). A step goes from one access of shared state to the next; an
-- operation on the lists of the pool is one step.
pub mod Owned
pub mod Moves
pub mod Stuck
pub mod Serial
pub mod Tests
use vs_http_server.Prelude.{
  ℕ, ◌≡◌, ◌<◌, Bool, true, false, Option, none, some, List, [], ◌∷◌, ◌==◌, if◌then◌else◌, Outcome,
  ret, length,
}
use vs_http_server.Pool.State.{Pool, Worker, worker_pool, move_to_busy_list}
use vs_http_server.Pool.Dispatch.{
  ensure_idle, get_idle_thread, set_job, begin_job, hand_back, trim_idle,
}

-- Where a worker stands in `CWorkerThread::Run`.
pub data WorkerPlace : Type 0 where
  testing : WorkerPlace  -- the test of `while(m_Job == NULL)`
  about_to_wait : WorkerPlace  -- behind the test, before `m_JobCond.wait()`
  waiting : WorkerPlace  -- in `m_JobCond.wait()`
  found : WorkerPlace  -- behind the loop, before `m_WorkMutex.lock()`
  running : WorkerPlace  -- in `m_Job->Run(m_JobData)`
  trimming : WorkerPlace  -- behind `MoveToIdleList`

-- Where an event thread stands in `CThreadPool::Run`, with the worker, the job and its data.
pub data CallerPlace : Type 0 where
  away : CallerPlace
  looking : ℕ → Option ℕ → CallerPlace  -- before the test of `m_IdleList.size()<m_AvailLow`
  picking : ℕ → Option ℕ → CallerPlace  -- the `while` of `GetIdleThread`
  seen : ℕ → Option ℕ → CallerPlace  -- behind it, before `m_IdleMutex.lock()`
  got : ℕ → ℕ → Option ℕ → CallerPlace  -- before `m_WorkMutex.lock()`
  holding : ℕ → ℕ → Option ℕ → CallerPlace  -- before `MoveToBusyList`
  listed : ℕ → ℕ → Option ℕ → CallerPlace  -- before `SetJob`
  assigned : ℕ → CallerPlace  -- in `SetJob`, before `m_JobCond.signal()`
  signalled : ℕ → CallerPlace  -- before `m_WorkMutex.unlock()`

-- Who has locked the `m_WorkMutex` of a worker.
pub data Owner : Type 0 where
  nobody : Owner
  by_worker : Owner
  by_caller : ℕ → Owner

pub record System : Type 0 where
  pub pool : Pool
  pub at : ℕ → WorkerPlace
  pub caller : ℕ → CallerPlace
  pub owner : ℕ → Owner

-- A family with another value at one place.
abbrev pub place {ℓ} : {A : Type ℓ} → ℕ → A → (ℕ → A) → ℕ → A
place t a f u = if u == t then a else f u

-- What `pthread_cond_signal` makes of a worker: it comes back from its wait, if it is in it.
unfoldable pub wake : WorkerPlace → WorkerPlace
wake waiting = testing
wake p = p

-- The state behind the signal of an event thread to a worker.
abbrev pub after_signal : ℕ → ℕ → System → System
after_signal c t s = record s {
  at = place t (wake (s.at t)) s.at;
  caller = place c (signalled t) s.caller;
}

-- The idle list is not empty.
abbrev pub first_of : List ℕ → Option ℕ
first_of [] = none
first_of (t ∷ _) = some t

-- One step, with `n` event threads. `starts` is the success of `pthread_create`; `spurious` tells
-- whether `pthread_cond_wait` may come back with no signal. The waits for `m_MaxNumCond` and
-- `m_IdleCond` may end at any time: an event thread that stays in `away` or `picking` is in them.
pub data Step (starts : ℕ → Bool) (spurious : Bool) (n : ℕ) (s : System) : System → Type 0 where
  call :
      (c job : ℕ) (job_data : Option ℕ)
      → c < n
      → s.caller c ≡ away
      → Step starts spurious n s (record s { caller = place c (looking job job_data) s.caller })
  grow :
      (c job : ℕ) (job_data : Option ℕ)
      → c < n
      → s.caller c ≡ looking job job_data
      → Step starts spurious n s (record s {
        pool = ensure_idle starts s.pool;
        caller = place c (picking job job_data) s.caller;
      })
  see :
      (c job t : ℕ) (job_data : Option ℕ)
      → c < n
      → s.caller c ≡ picking job job_data
      → first_of s.pool.idle_list ≡ some t
      → Step starts spurious n s (record s { caller = place c (seen job job_data) s.caller })
  pick :
      (c job t : ℕ) (job_data : Option ℕ)
      → c < n
      → s.caller c ≡ seen job job_data
      → get_idle_thread s.pool ≡ ret (some t)
      → Step starts spurious n s (record s { caller = place c (got t job job_data) s.caller })
  -- `GetIdleThread` returns NULL, and `Run` returns.
  miss :
      (c job : ℕ) (job_data : Option ℕ)
      → c < n
      → s.caller c ≡ seen job job_data
      → get_idle_thread s.pool ≡ ret none
      → Step starts spurious n s (record s { caller = place c away s.caller })
  lock :
      (c t job : ℕ) (job_data : Option ℕ)
      → c < n
      → s.caller c ≡ got t job job_data
      → s.owner t ≡ nobody
      → Step starts spurious n s (record s {
        caller = place c (holding t job job_data) s.caller;
        owner = place t (by_caller c) s.owner;
      })
  enlist :
      (c t job : ℕ) (job_data : Option ℕ)
      → c < n
      → s.caller c ≡ holding t job job_data
      → Step starts spurious n s (record s {
        pool = move_to_busy_list t s.pool;
        caller = place c (listed t job job_data) s.caller;
      })
  assign :
      (c t job : ℕ) (job_data : Option ℕ)
      → c < n
      → s.caller c ≡ listed t job job_data
      → Step starts spurious n s (record s {
        pool = set_job t job job_data s.pool;
        caller = place c (assigned t) s.caller;
      })
  signal :
      (c t : ℕ) → c < n → s.caller c ≡ assigned t → Step starts spurious n s (after_signal c t s)
  unlock :
      (c t : ℕ)
      → c < n
      → s.caller c ≡ signalled t
      → Step starts spurious n s
          (record s { caller = place c away s.caller; owner = place t nobody s.owner })
  test_none :
      (t : ℕ)
      → (s.pool.worker t).started ≡ true
      → s.at t ≡ testing
      → (s.pool.worker t).job ≡ none
      → Step starts spurious n s
          (record s { pool = (begin_job t s.pool).1; at = place t about_to_wait s.at })
  test_some :
      (t job : ℕ)
      → (s.pool.worker t).started ≡ true
      → s.at t ≡ testing
      → (s.pool.worker t).job ≡ some job
      → Step starts spurious n s
          (record s { pool = (begin_job t s.pool).1; at = place t found s.at })
  wait :
      (t : ℕ)
      → s.at t ≡ about_to_wait
      → Step starts spurious n s (record s { at = place t waiting s.at })
  wake_up :
      (t : ℕ)
      → spurious ≡ true
      → s.at t ≡ waiting
      → Step starts spurious n s (record s { at = place t testing s.at })
  enter :
      (t : ℕ)
      → s.at t ≡ found
      → s.owner t ≡ nobody
      → Step starts spurious n s
          (record s { at = place t running s.at; owner = place t by_worker s.owner })
  finish :
      (t : ℕ)
      → s.at t ≡ running
      → Step starts spurious n s
          (record s { pool = hand_back t s.pool; at = place t trimming s.at })
  trim :
      (t : ℕ) (q : Pool)
      → s.at t ≡ trimming
      → trim_idle s.pool ≡ ret q
      → Step starts spurious n s
          (record s { pool = q; at = place t testing s.at; owner = place t nobody s.owner })

-- The states behind a state.
pub data Steps (starts : ℕ → Bool) (spurious : Bool) (n : ℕ) (s : System) : System → Type 0 where
  here : Steps starts spurious n s s
  next :
      {t u : System}
      → Steps starts spurious n s t
      → Step starts spurious n t u
      → Steps starts spurious n s u

-- `CThreadPool()`, with its threads at the start of their loop.
abbrev pub first_state : (ℕ → Bool) → System
first_state starts = record {
  pool = worker_pool starts;
  at = λ _. testing;
  caller = λ _. away;
  owner = λ _. nobody;
}
