-- ===== src/Pool/State.antt =====
-- The members of CThreadPool and CWorkerThread, and the operations on the three lists. A thread is
-- known by a number, and a new one gets the next number. The operations run under the mutexes of
-- the lists; here they run one at a time.
use vs_http_server.Prelude.{
  ℕ, zero, suc, ◌+◌, ◌-◌, ◌%◌, ◌^◌, ◌≤◌, ◌≡◌, Bool, true, false, Option, none, List, [], ◌∷◌, ◌++◌,
  length, ltb, leb, ◌&&◌, ◌==◌, if◌then◌else◌, Outcome, ret, fault,
}
use vs_http_server.Pool.Counts.{erase, count}

pub data ThreadState : Type 0 where
  thread_none thread_ready thread_running thread_blocked thread_terminated : ThreadState

-- `pool` and `worker_pool` tell whether `m_ThreadPool` and `m_WorkerThreadPool` are set. `started`
-- is the success of `pthread_create`. A job and its data are known by numbers.
pub record Worker : Type 0 where
  pub job : Option ℕ
  pub job_data : Option ℕ
  pub pool : Bool
  pub worker_pool : Bool
  pub thread_state : ThreadState
  pub started : Bool

pub record Pool : Type 0 where
  pub max_num : ℕ
  pub avail_low : ℕ
  pub avail_high : ℕ
  pub avail_num : ℕ
  pub init_num : ℕ
  pub thread_list : List ℕ
  pub busy_list : List ℕ
  pub idle_list : List ℕ
  pub next_thread : ℕ
  pub worker : ℕ → Worker

-- `unsigned int`.
abbrev pub u32 : ℕ
u32 = 2 ^ 32

unfoldable pub increment : ℕ → ℕ
increment n = (n + 1) % u32

unfoldable pub decrement : ℕ → ℕ
decrement n = (n + u32 - 1) % u32

abbrev pub set_worker : ℕ → Worker → (ℕ → Worker) → ℕ → Worker
set_worker t w f u = if u == t then w else f u

-- `CWorkerThread(int, int)`, then `SetWorkerThreadPool`.
abbrev pub new_worker : Worker
new_worker = record {
  job = none;
  job_data = none;
  pool = false;
  worker_pool = true;
  thread_state = thread_none;
  started = false;
}

-- `CWorkerThread(void *)`, then `SetThreadPool`. (Its event base and pipe are libevent's.)
abbrev pub new_main_worker : Worker
new_main_worker = record new_worker { pool = true; worker_pool = false }

unfoldable pub append_to_idle_list : ℕ → Pool → Pool
append_to_idle_list t p = record p {
  idle_list = p.idle_list ++ (t ∷ []);
  thread_list = p.thread_list ++ (t ∷ []);
}

unfoldable pub move_to_busy_list : ℕ → Pool → Pool
unfolding erase decrement
move_to_busy_list t p = record p {
  busy_list = p.busy_list ++ (t ∷ []);
  avail_num = decrement p.avail_num;
  idle_list = erase t p.idle_list;
}

unfoldable pub move_to_idle_list : ℕ → Pool → Pool
unfolding erase increment
move_to_idle_list t p = record p {
  idle_list = p.idle_list ++ (t ∷ []);
  avail_num = increment p.avail_num;
  busy_list = erase t p.busy_list;
}

-- The part of `CThreadPool::CheckIfInBusyList` on the pool. (`m_BusyMutex` is unlocked twice where
-- the thread is found.)
unfoldable pub check_if_in_busy_list : ℕ → Pool → Pool
unfolding move_to_idle_list
check_if_in_busy_list t p = if count t p.busy_list == 0 then p else move_to_idle_list t p

-- The new object, with the next number. `ok` is the answer of `pthread_create`; where it fails, the
-- exception is caught and the object stays in the lists.
unfoldable pub add_thread : Worker → Bool → Pool → Pool
unfolding append_to_idle_list
add_thread w ok p = append_to_idle_list p.next_thread (record p {
  next_thread = suc p.next_thread;
  worker = set_worker p.next_thread (record w { started = ok }) p.worker;
})

-- The rounds of `CreateIdleThread` and `CreateMainIdleThread`. `starts` answers for each thread.
unfoldable pub create_threads : Worker → (ℕ → Bool) → ℕ → Pool → Pool
unfolding add_thread increment
create_threads w starts zero p = p
create_threads w starts (suc rounds) p =
    let q = add_thread w (starts p.next_thread) p in
    create_threads w starts rounds (record q { avail_num = increment q.avail_num })

unfoldable pub create_idle_thread : (ℕ → Bool) → ℕ → Pool → Pool
unfolding create_threads
create_idle_thread = create_threads new_worker

unfoldable pub create_main_idle_thread : (ℕ → Bool) → ℕ → Pool → Pool
unfolding create_threads
create_main_idle_thread = create_threads new_main_worker

-- `DeleteIdleThread`. On an empty idle list `thr` is read before it is set. The id of the thread is
-- printed; for a thread that has not started it is deleted.
unfoldable pub delete_idle_thread : ℕ → Pool → Outcome Pool
unfolding erase decrement
delete_idle_thread zero p = ret p
delete_idle_thread (suc rounds) p = elim p.idle_list [
  | [] ↦ fault
  | t ∷ _ ↦
      let rest = delete_idle_thread rounds (record p {
        idle_list = erase t p.idle_list;
        thread_list = erase t p.thread_list;
        avail_num = decrement p.avail_num;
      }) in
      if (p.worker t).started then rest else fault
]

-- The loop of the two constructors, which sets `m_AvailNum` before.
unfoldable pub first_threads : Worker → (ℕ → Bool) → ℕ → Pool → Pool
unfolding add_thread
first_threads w starts zero p = p
first_threads w starts (suc rounds) p =
    first_threads w starts rounds (add_thread w (starts p.next_thread) p)

abbrev pub empty_pool : ℕ → ℕ → ℕ → ℕ → Pool
empty_pool max low high n = record {
  max_num = max;
  avail_low = low;
  avail_high = high;
  avail_num = n;
  init_num = n;
  thread_list = [];
  busy_list = [];
  idle_list = [];
  next_thread = 0;
  worker = λ _. new_worker;
}

-- `CThreadPool()`, the pool of the workers.
unfoldable pub worker_pool : (ℕ → Bool) → Pool
unfolding first_threads
worker_pool starts = first_threads new_worker starts 10 (empty_pool 20 5 15 10)

-- `CThreadPool(int, void *)`, the pool of the event loops. A failed assertion ends the program.
unfoldable pub main_pool : (ℕ → Bool) → ℕ → Outcome Pool
unfolding first_threads
main_pool starts n =
    if ltb 0 n && leb n 30
    then ret (
        first_threads new_main_worker starts n
          (empty_pool 30 (if ltb 10 n then n - 10 else 3) (n + 10) n))
    else fault

-- What holds of a pool between two operations: `m_AvailNum` counts the idle threads, and each thread
-- of `m_ThreadList` stands there once, and in one of the two other lists, and has a number in use.
pub record IsPool (p : Pool) : Type 0 where
  pub avail : p.avail_num ≡ length p.idle_list
  pub sizes : length p.thread_list ≡ length p.idle_list + length p.busy_list
  pub parts : (t : ℕ) → count t p.thread_list ≡ count t p.idle_list + count t p.busy_list
  pub single : (t : ℕ) → count t p.thread_list ≤ 1
  pub fresh : (t : ℕ) → p.next_thread ≤ t → count t p.thread_list ≡ 0
