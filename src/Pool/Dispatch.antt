-- ===== src/Pool/Dispatch.antt =====
-- `CThreadPool::Run`, and the job slot of a worker: `CWorkerThread::SetJob` and `Run`.
pub mod Laws
pub mod Finish
pub mod Threads
use vs_http_server.Prelude.{
  ℕ, ◌+◌, ◌-◌, ◌%◌, ◌^◌, Bool, true, false, Option, none, some, List, [], ◌∷◌, length, ltb, ◌==◌,
  if◌then◌else◌, Outcome, ret, fault, ◌>>=◌,
}
use vs_http_server.Pool.State.{
  Pool, Worker, ThreadState, thread_running, thread_blocked, u32, set_worker, move_to_busy_list,
  move_to_idle_list, create_idle_thread, delete_idle_thread,
}

-- A `size_t` or `unsigned int` that becomes the `int` argument of a counted loop: a negative one
-- makes no round.
unfoldable pub rounds_of : ℕ → ℕ
rounds_of n = let r = n % u32 in if ltb r (2 ^ 31) then r else 0

-- The sums are of `size_t`, 64 bits; `m_MaxNum-GetAllNum()` is of `unsigned int`.
unfoldable pub ensure_idle : (ℕ → Bool) → Pool → Pool
unfolding rounds_of
ensure_idle starts p =
    let idle = length p.idle_list in
    let all = length p.thread_list in
    if ltb idle p.avail_low
    then (if ltb ((all + p.init_num + 2 ^ 64 - idle) % 2 ^ 64) p.max_num
        then create_idle_thread starts (rounds_of (p.init_num + 2 ^ 64 - idle)) p
        else create_idle_thread starts (rounds_of (p.max_num + u32 - all)) p)
    else p

-- `GetIdleThread`: the first of the idle list; `none` waits for `m_IdleCond`. The id of the thread is
-- printed; for a thread that has not started it is deleted.
unfoldable pub get_idle_thread : Pool → Outcome (Option ℕ)
get_idle_thread p = elim p.idle_list [
  | [] ↦ ret none
  | t ∷ _ ↦ if (p.worker t).started then ret (some t) else fault
]

-- `SetJob`, behind `SetWorkerThreadPool`. (`m_pWorkThread`, which it sets too, is a member of the job,
-- `work_thread` of Job.State, which nothing in the pool reads.)
unfoldable pub set_job : ℕ → ℕ → Option ℕ → Pool → Pool
set_job t job job_data p = record p {
  worker =
      set_worker t (record (p.worker t) { worker_pool = true; job = some job; job_data = job_data })
        p.worker;
}

-- How a call of `Run` goes on: it waits for `m_MaxNumCond`, it waits for `m_IdleCond`, or the thread
-- has the job.
pub data Dispatch : Type 0 where
  wait_max_num : Dispatch
  wait_idle : Pool → Dispatch
  assigned : ℕ → Pool → Dispatch

-- `Run` from the `if` on: behind the wait for `m_MaxNumCond`, which is not tested again, or without.
-- (It prints the id of the thread too, which `get_idle_thread` has found to be there.)
unfoldable pub run_job : (ℕ → Bool) → ℕ → Option ℕ → Pool → Outcome Dispatch
unfolding set_job get_idle_thread
run_job starts job job_data p =
    let q = ensure_idle starts p in
    do
      found ← get_idle_thread q
      elim found [
        | none ↦ ret (wait_idle q)
        | some t ↦ ret (assigned t (set_job t job job_data (move_to_busy_list t q)))
      ]

unfoldable pub run : (ℕ → Bool) → ℕ → Option ℕ → Pool → Outcome Dispatch
unfolding run_job
run starts job job_data p =
    let rest = run_job starts job job_data p in
    if length p.busy_list == p.max_num then ret wait_max_num else rest

-- `CWorkerThread::Run`, from the top of the loop to the call of the job: `none` waits for `m_JobCond`.
unfoldable pub begin_job : ℕ → Pool → Option (ℕ × Option ℕ) × Pool
begin_job t p = elim (p.worker t).job [
  | none ↦ (
    none,
    record p {
      worker = set_worker t (record (p.worker t) { thread_state = thread_blocked }) p.worker;
    },
  )
  | some job ↦ (
    some (job, (p.worker t).job_data),
    record p {
      worker = set_worker t (record (p.worker t) { thread_state = thread_running }) p.worker;
    },
  )
]

-- The idle threads above `m_AvailHigh` go, down to `m_InitNum`.
unfoldable pub trim_idle : Pool → Outcome Pool
trim_idle p =
    if ltb p.avail_high (length p.idle_list)
    then delete_idle_thread (rounds_of (length p.idle_list + 2 ^ 64 - p.init_num)) p
    else ret p

-- The slot is cleared, and the worker goes back to the idle list.
unfoldable pub hand_back : ℕ → Pool → Pool
hand_back t p = move_to_idle_list t (record p {
  worker = set_worker t (record (p.worker t) { job = none; job_data = none }) p.worker;
})

-- `CWorkerThread::Run`, behind the call of the job.
unfoldable pub finish_job : ℕ → Pool → Outcome Pool
unfolding trim_idle hand_back
finish_job t p = trim_idle (hand_back t p)
