-- ===== src/Locks.antt =====
-- The wrappers of pthread in threadlock.h. What a call of pthread answers is an argument (`true` for 0);
-- counted are the objects that it has initialised and not destroyed, and the mutexes that are locked.
use vs_http_server.Prelude.{ℕ, ◌+◌, ◌-◌, Bool, true, false, if◌then◌else◌}

pub record Pthread : Type 0 where
  pub mutexes : ℕ
  pub conds : ℕ
  pub sems : ℕ
  pub locked : ℕ

-- `CSemaphore()`, with the value 0: `false` is an exception.
unfoldable pub construct_semaphore : Bool → Pthread → Bool × Pthread
construct_semaphore init p = if init then (true, record p { sems = p.sems + 1 }) else (false, p)

unfoldable pub destroy_semaphore : Pthread → Pthread
destroy_semaphore p = record p { sems = p.sems - 1 }

-- `CSemaphore::wait` and `post`: `sem_wait( &m_sem ) == 0`.
unfoldable pub semaphore_wait : Bool → Pthread → Bool × Pthread
semaphore_wait answer p = (answer, p)

unfoldable pub semaphore_post : Bool → Pthread → Bool × Pthread
semaphore_post answer p = (answer, p)

-- `CCondition()`: where the condition fails, the mutex is destroyed before the exception.
unfoldable pub construct_condition : Bool → Bool → Pthread → Bool × Pthread
construct_condition mutex_init cond_init p =
    if mutex_init
    then (let q : Pthread = record p { mutexes = p.mutexes + 1 } in
        if cond_init
        then (true, record q { conds = q.conds + 1 })
        else (false, record q { mutexes = q.mutexes - 1 }))
    else (false, p)

unfoldable pub destroy_condition : Pthread → Pthread
destroy_condition p = record p { mutexes = p.mutexes - 1; conds = p.conds - 1 }

-- `pthread_mutex_lock` and `pthread_mutex_unlock`, where they succeed.
unfoldable pub mutex_lock : Bool → Pthread → Pthread
mutex_lock ok p = if ok then record p { locked = p.locked + 1 } else p

unfoldable pub mutex_unlock : Bool → Pthread → Pthread
mutex_unlock ok p = if ok then record p { locked = p.locked - 1 } else p

-- `CCondition::wait`, with the answers of the lock, the wait and the unlock. `pthread_cond_wait` comes
-- back with the mutex as it was. The answers of the lock and of the unlock are not looked at.
unfoldable pub condition_wait : Bool → Bool → Bool → Pthread → Bool × Pthread
unfolding mutex_lock mutex_unlock
condition_wait locks answer unlocks p = (answer, mutex_unlock unlocks (mutex_lock locks p))

unfoldable pub condition_signal : Bool → Pthread → Bool × Pthread
condition_signal answer p = (answer, p)

-- `CThreadMutex`.
unfoldable pub construct_mutex : Bool → Pthread → Bool × Pthread
construct_mutex init p = if init then (true, record p { mutexes = p.mutexes + 1 }) else (false, p)

unfoldable pub destroy_mutex : Pthread → Pthread
destroy_mutex p = record p { mutexes = p.mutexes - 1 }

unfoldable pub thread_mutex_lock : Bool → Pthread → Bool × Pthread
unfolding mutex_lock
thread_mutex_lock answer p = (answer, mutex_lock answer p)

unfoldable pub thread_mutex_unlock : Bool → Pthread → Bool × Pthread
unfolding mutex_unlock
thread_mutex_unlock answer p = (answer, mutex_unlock answer p)
