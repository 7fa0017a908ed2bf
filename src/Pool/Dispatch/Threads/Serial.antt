-- ===== src/Pool/Dispatch/Threads/Serial.antt =====
-- One event thread: no job is written over another one.
use vs_http_server.Prelude.{
  inr, inl, Bool-cases, if◌then◌else◌, Outcome, fault, ret, ℕ, ◌<◌, ◌≤◌, ◌≡◌, refl, ap, Bool, false,
  Option, none, some, List, [], ◌∷◌, arith,
}
use vs_http_server.Pool.Counts.{count, count-append, count-erase}
use vs_http_server.Pool.State.{Pool, move_to_busy_list, move_to_idle_list}
use vs_http_server.Pool.Dispatch.{set_job, begin_job, hand_back, get_idle_thread}
use vs_http_server.Pool.Dispatch.Threads.{
  CallerPlace, away, got, holding, listed, assigned, System, wake, Step, call, grow, see, pick,
  miss, lock, enlist, assign, signal, unlock, test_none, test_some, wait, wake_up, enter, finish,
  trim, Steps, here, next, first_state,
}
use vs_http_server.Pool.Dispatch.Threads.Moves.{
  ensure_idle-Grown, trim_idle-Shrunk, worker_pool-Grown,
}
use vs_http_server.Pool.Dispatch.Threads.Owned.{owned, in_work, IsOwned, Steps-IsOwned}

-- The worker that an event thread has chosen and not given the job yet.
abbrev before_set : CallerPlace → Option ℕ
before_set (got t _ _) = some t
before_set (holding t _ _) = some t
before_set (listed t _ _) = some t
before_set _ = none

-- The worker that an event thread has made busy, up to the signal.
abbrev pub made_busy : CallerPlace → Option ℕ
made_busy (listed t _ _) = some t
made_busy (assigned t) = some t
made_busy _ = none

-- The facts on the worker `t`: it is idle once at most, and then has no job; nor has it one before
-- `SetJob`; it is not idle once it is made busy; and an unused number is not idle.
abbrev Settled : System → ℕ → Type 0
Settled s t =
    (count t s.pool.idle_list ≤ 1)
    × (0 < count t s.pool.idle_list → (s.pool.worker t).job ≡ none)
    × (before_set (s.caller 0) ≡ some t → (s.pool.worker t).job ≡ none)
    × (made_busy (s.caller 0) ≡ some t → count t s.pool.idle_list ≡ 0)
    × (s.pool.next_thread ≤ t → count t s.pool.idle_list ≡ 0)

pub record IsSerial (s : System) : Type 0 where
  pub workers : (t : ℕ) → Settled s t
  pub others : (c : ℕ) → 0 < c → s.caller c ≡ away

pub get_idle_thread-count :
    (p : Pool) (t : ℕ) → get_idle_thread p ≡ ret (some t) → 0 < count t p.idle_list
unfolding get_idle_thread
get_idle_thread-count p t e = from p.idle_list e
  where
    from :
        (l : List ℕ)
        → ◌≡◌ {A = Outcome (Option ℕ)}
            (elim l [
              | [] ↦ ret none
              | u ∷ _ ↦ if (p.worker u).started then ret (some u) else fault
            ])
            (ret (some t))
        → 0 < count t l
    from [] k = absurd cc
    from (u ∷ l) k = elim (Bool-cases (p.worker u).started) [
      | inl s ↦ let same : u ≡ t = cc (s, k) in ground (arith, same)
      | inr s ↦ absurd (cc (s, k))
    ]

Step-IsSerial :
    {starts : ℕ → Bool} {spurious : Bool} {s u : System}
    → Step starts spurious 1 s u
    → IsOwned s
    → IsSerial s
    → IsSerial u
unfolding wake set_job hand_back begin_job move_to_busy_list move_to_idle_list
Step-IsSerial {s} (call c job job_data h e) o v = record {
  workers = λ t. ground (arith, v.workers t);
  others = λ d a. ground (arith, v.others d);
}
Step-IsSerial {starts} {s} (grow c job job_data h e) o v =
    let g = ensure_idle-Grown starts s.pool in
    record {
      workers = λ t. ground (arith, v.workers t, g.kept t, g.made t, g.fresh t, g.later);
      others = λ d a. ground (arith, v.others d);
    }
Step-IsSerial {s} (see c job w job_data h e k) o v = record {
  workers = λ t. ground (arith, v.workers t);
  others = λ d a. ground (arith, v.others d);
}
Step-IsSerial {s} (pick c job w job_data h e k) o v = record {
  workers = λ t. ground (arith, v.workers t, get_idle_thread-count s.pool w k);
  others = λ d a. ground (arith, v.others d);
}
Step-IsSerial {s} (miss c job job_data h e k) o v = record {
  workers = λ t. ground (arith, v.workers t);
  others = λ d a. ground (arith, v.others d);
}
Step-IsSerial {s} (lock c w job job_data h e k) o v = record {
  workers = λ t. ground (arith, v.workers t);
  others = λ d a. ground (arith, v.others d);
}
Step-IsSerial {s} (enlist c w job job_data h e) o v = record {
  workers = λ t. ground (arith, v.workers t, count-erase t w s.pool.idle_list);
  others = λ d a. ground (arith, v.others d);
}
Step-IsSerial {s} (assign c w job job_data h e) o v = record {
  workers = λ t. ground (arith, v.workers t, v.workers w);
  others = λ d a. ground (arith, v.others d);
}
Step-IsSerial {s} (signal c w h e) o v = record {
  workers = λ t. ground (arith, v.workers t);
  others = λ d a. ground (arith, v.others d);
}
Step-IsSerial {s} (unlock c w h e) o v = record {
  workers = λ t. ground (arith, v.workers t);
  others = λ d a. ground (arith, v.others d);
}
Step-IsSerial {s} (test_none w h e k) o v = record {
  workers = λ t. ground (arith, v.workers t);
  others = v.others;
}
Step-IsSerial {s} (test_some w job h e k) o v = record {
  workers = λ t. ground (arith, v.workers t);
  others = v.others;
}
Step-IsSerial (wait w e) o v = record { workers = v.workers; others = v.others }
Step-IsSerial (wake_up w h e) o v = record { workers = v.workers; others = v.others }
Step-IsSerial (enter w e k) o v = record { workers = v.workers; others = v.others }
Step-IsSerial {s} (finish w e) o v = record {
  workers = λ t. ground (
    arith,
    v.workers t,
    count-append t s.pool.idle_list (w ∷ []),
    o.jobs w,
    v.workers w,
    o.workers w,
    o.callers 0 w,
    o.fresh w,
  );
  others = v.others;
}
Step-IsSerial {s} (trim w q e k) o v =
    let g = trim_idle-Shrunk s.pool q k in
    record {
      workers = λ t. ground (arith, v.workers t, g.slots t, g.fewer t, g.numbers);
      others = v.others;
    }

first_state-IsSerial : (starts : ℕ → Bool) → IsSerial (first_state starts)
first_state-IsSerial starts =
    let g = worker_pool-Grown starts in
    record { workers = λ t. ground (arith, g.made t, g.fresh t); others = λ c a. refl }

pub Steps-IsSerial :
    {starts : ℕ → Bool} {spurious : Bool} {s : System}
    → Steps starts spurious 1 (first_state starts) s
    → IsSerial s
Steps-IsSerial {starts} here = first_state-IsSerial starts
Steps-IsSerial (next r st) = Step-IsSerial st (Steps-IsOwned r) (Steps-IsSerial r)

-- Where one event thread calls `Run`, one call behind the other, and however the workers interleave with
-- it: when it is about to call `SetJob`, the slot of the worker is empty, so that no job is written over
-- another one; the worker is in the idle list no more, and is not in the middle of a job.
pub set_job_free :
    {starts : ℕ → Bool} {spurious : Bool} {s : System} (t job : ℕ) (job_data : Option ℕ)
    → Steps starts spurious 1 (first_state starts) s
    → s.caller 0 ≡ listed t job job_data
    → ((s.pool.worker t).job ≡ none) × (count t s.pool.idle_list ≡ 0) × (in_work (s.at t) ≡ false)
set_job_free {s} t job job_data r e =
    let v = Steps-IsSerial r in
    let o = Steps-IsOwned r in
    (
      (v.workers t).2 (ap before_set e),
      (v.workers t).3 (ap made_busy e),
      ground (arith, o.callers 0 t (ap owned e), o.workers t),
    )
