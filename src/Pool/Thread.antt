-- ===== src/Pool/Thread.antt =====
-- CThread, from its constructor to its destructor, and the loop of `CThreadPool::TerminateAll`
-- (threadpool.cpp, threadpool.h).
pub mod Laws
use vs_http_server.Prelude.{
  ℕ, Bool, true, false, Option, none, some, List, [], ◌∷◌, if◌then◌else◌, Outcome, ret, fault,
  ◌>>=◌,
}
use vs_http_server.Pool.State.{ThreadState, thread_none}

-- The `pthread_t` that `m_ThreadID` points to: it has no value yet, it is a thread, or it is deleted.
pub data ThreadId : Type 0 where
  no_value : ThreadId
  thread : ℕ → ThreadId
  deleted : ThreadId

-- `m_ThreadName`, which is NULL, and the semaphore, which no function uses, are left out.
pub record Thread : Type 0 where
  pub err_code : ℕ
  pub thread_id : ThreadId
  pub detach : Bool
  pub create_suspended : Bool
  pub thread_state : ThreadState

-- `CThread()`.
abbrev pub new_thread : Thread
new_thread = record {
  err_code = 0;
  thread_id = no_value;
  detach = false;
  create_suspended = false;
  thread_state = thread_none;
}

-- What a call comes to: it returns, or it throws. Both leave the object.
pub data Called : Type 0 where
  returned : Thread → Called
  threw : Thread → Called

-- `delete m_ThreadID`, which is also all that `~CThread()` does.
unfoldable pub delete_id : Thread → Outcome Thread
delete_id t = elim t.thread_id [ deleted ↦ fault | _ ↦ ret (record t { thread_id = deleted }) ]

-- `Start` and `StartWorkerThread`, with the thread that `pthread_create` makes, if it does.
unfoldable pub start : Option ℕ → Thread → Outcome Called
unfolding delete_id
start none t = do u ← delete_id t; ret (threw u)
start (some id) t = elim t.thread_id [
  | deleted ↦ fault
  | _ ↦ ret (returned (record t { thread_id = thread id }))
]

-- `Join`: the thread that `pthread_cancel` gets, and what the call comes to. `cancels` is whether it
-- answers 0.
unfoldable pub join : (ℕ → Bool) → Thread → Outcome (ℕ × Called)
join cancels t = elim t.thread_id [
  | no_value ↦ fault
  | deleted ↦ fault
  | thread id ↦ ret (id, if cancels id then returned t else threw t)
]

-- `TerminateAll` on the threads of `m_ThreadList`: what `pthread_cancel` gets, in order. An exception is
-- caught, and the loop goes on.
unfoldable pub terminate_all : (ℕ → Bool) → List Thread → Outcome (List ℕ)
unfolding join
terminate_all cancels [] = ret []
terminate_all cancels (t ∷ ts) = do
  first ← join cancels t
  rest ← terminate_all cancels ts
  ret (first.0 ∷ rest)

-- The threads of the constructors of CThreadPool: each is made and started, and the exception of a
-- start that fails is caught, with the thread in the list.
unfoldable pub start_all : List (Option ℕ) → Outcome (List Thread)
unfolding start
start_all [] = ret []
start_all (created ∷ more) = do
  called ← start created new_thread
  rest ← start_all more
  elim called [ returned t ↦ ret (t ∷ rest) | threw t ↦ ret (t ∷ rest) ]
