-- ===== src/Server/State.antt =====
-- The state behind the callbacks of TcpEventServer, and how it is set up (tcpeventserver.cpp,
-- threadmanage.cpp, main.cpp). Of libevent, what an operation answers is an argument. An answer that
-- ends the program by `exit` is not among them.
use vs_http_server.Prelude.{
  ℕ, zero, suc, Bool, Option, none, some, ltb, ◌==◌, if◌then◌else◌, pos, Outcome, ret, fault, ◌>>=◌,
  or_fault,
}
use vs_http_server.Pool.State.{Pool, create_main_idle_thread, main_pool, worker_pool}
use vs_http_server.Conn.State.{Heap, ConnQueue, new_queue}

-- `main_manage` and `worker_manage`: the static members of CThreadManage, the pools of its two objects,
-- and `m_NumOfThread` of the last one.
pub record ThreadManage : Type 0 where
  pub num_objects : ℕ
  pub main : Option Pool
  pub worker : Option Pool
  pub num_of_thread : ℕ

abbrev pub max_object : ℕ
max_object = 2

-- What a call of `CThreadManage::init` comes to: it returns, or it throws `MyException`.
pub data Init : Type 0 where
  made : ThreadManage → Init
  over_limit : Init

-- `CThreadManage::init`, the first argument 0 for the pool of the workers. (The mutex is a local of
-- the call.)
unfoldable pub init_manage : (ℕ → Bool) → ℕ → ThreadManage → Outcome Init
unfolding worker_pool main_pool
init_manage starts zero m =
    if ltb m.num_objects max_object
    then ret (
        made (record m {
          num_objects = suc m.num_objects;
          worker = some (worker_pool starts);
          num_of_thread = 10;
        }))
    else ret over_limit
init_manage starts (suc n) m =
    if ltb m.num_objects max_object
    then (do
      p ← main_pool starts (suc n)
      ret (
          made
            (record m { num_objects = suc m.num_objects; main = some p; num_of_thread = suc n })))
    else ret over_limit

-- Each event thread has a ConnQueue of its own. (So have the workers, which use none.)
pub record Server : Type 0 where
  pub heap : Heap
  pub queue : ℕ → ConnQueue
  pub main : Pool
  pub worker : Pool
  pub idle_thread_count : ℕ

abbrev pub set_queue : ℕ → ConnQueue → (ℕ → ConnQueue) → ℕ → ConnQueue
set_queue t q f u = if u == t then q else f u

-- The member `connectQueue` of `count` new event threads, from the number `t` on.
unfoldable pub add_queues : ℕ → ℕ → (ℕ → ConnQueue) → Heap → Outcome ((ℕ → ConnQueue) × Heap)
unfolding new_queue
add_queues zero t f h = ret (f, h)
add_queues (suc count) t f h = do (q, k) ← new_queue h; add_queues count (suc t) (set_queue t q f) k

-- `TcpEventServer(int)`: `SetupWorkerThread`, then `SetupMainThread`. An exception ends the program.
unfoldable pub setup : (ℕ → Bool) → ℕ → Heap → Outcome Server
unfolding init_manage add_queues
setup starts count h = do
  let before : ThreadManage = record {
    num_objects = 0;
    main = none;
    worker = none;
    num_of_thread = 0;
  }
  first ← init_manage starts 0 before
  elim first [
    | over_limit ↦ fault
    | made m ↦ do
      second ← init_manage starts count m
      elim second [
        | over_limit ↦ fault
        | made n ↦ do
          workers ← or_fault n.worker
          events ← or_fault n.main
          (f, k) ←
              add_queues count 0 (λ t. record { head = 0; tail = 0; current_conn_num = pos 0 }) h
          ret (record {
            heap = k;
            queue = f;
            main = events;
            worker = workers;
            idle_thread_count = 0;
          })
      ]
  ]

-- `CreateMainIdleThread(1)`, with the queue of the new thread.
unfoldable pub add_event_thread : (ℕ → Bool) → Server → Outcome Server
unfolding new_queue create_main_idle_thread
add_event_thread starts s = do
  (q, k) ← new_queue s.heap
  ret (record s {
    heap = k;
    queue = set_queue s.main.next_thread q s.queue;
    main = create_main_idle_thread starts 1 s.main;
  })
