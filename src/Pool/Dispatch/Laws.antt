-- ===== src/Pool/Dispatch/Laws.antt =====
-- The bounds of the pool, and what becomes of a job.
use vs_http_server.Prelude.{
  ℕ, ◌+◌, ◌-◌, ◌%◌, ◌^◌, ◌<◌, ◌≤◌, ◌≡◌, ◌⊎◌, refl, ap, List, [], ◌∷◌, ◌++◌, arith, length, Bool,
  Option, none, some, ◌==◌, Bool-cases, ==_iff, inl, inr, false, true, zero, suc, Outcome, ret,
  fault, if◌then◌else◌, ltb, ltb→lt, ltb→le,
}
use vs_http_server.Pool.Counts.{count, count-append, count-erase}
use vs_http_server.Pool.State.{
  append_to_idle_list, Pool, Worker, u32, increment, IsPool, move_to_busy_list, new_worker,
  create_idle_thread, create_threads, add_thread,
}
use vs_http_server.Pool.Moves.{create_threads-IsPool, move_to_busy_list-IsPool}
use vs_http_server.Pool.Dispatch.{
  rounds_of, ensure_idle, set_job, wait_max_num, assigned, get_idle_thread, run_job, run,
}

-- The limits as the constructors set them, and no more threads than the limit.
pub record IsBounded (p : Pool) : Type 0 where
  pub within : length p.thread_list ≤ p.max_num
  pub max_small : p.max_num < 2 ^ 31
  pub init_small : p.init_num < 2 ^ 31
  pub init_pos : 0 < p.init_num
  pub low_pos : 0 < p.avail_low

-- Every idle thread has started.
abbrev pub IdleStarted : Pool → Type 0
IdleStarted p = (t : ℕ) → 0 < count t p.idle_list → (p.worker t).started ≡ true

create_threads-IdleStarted :
    (w : Worker) (starts : ℕ → Bool) (n : ℕ) (p : Pool)
    → ((t : ℕ) → starts t ≡ true)
    → IdleStarted p
    → IdleStarted (create_threads w starts n p)
unfolding create_threads add_thread append_to_idle_list
create_threads-IdleStarted w starts zero p every h = h
create_threads-IdleStarted w starts (suc n) p every h =
    let q = add_thread w (starts p.next_thread) p in
    create_threads-IdleStarted w starts n (record q { avail_num = increment q.avail_num }) every
      λ t m.
        ground (arith, h t, every p.next_thread, count-append t p.idle_list (p.next_thread ∷ []))

-- What `ensure_idle` leaves.
abbrev Ensured : Pool → Pool → Type 0
Ensured p q =
    IsPool q
    × (length q.thread_list ≤ p.max_num)
    × (q.busy_list ≡ p.busy_list)
    × (length p.busy_list < p.max_num → 0 < length q.idle_list)
    × IdleStarted q

made :
    (starts : ℕ → Bool) (n : ℕ) (p : Pool)
    → IsPool p
    → ((t : ℕ) → starts t ≡ true)
    → IdleStarted p
    → p.max_num < 2 ^ 31
    → length p.thread_list + n ≤ p.max_num
    → (length p.busy_list < p.max_num → 0 < length p.idle_list + n)
    → Ensured p (create_idle_thread starts n p)
unfolding create_idle_thread
made starts n p v every s m h i =
    let (u, all, busy, idle) = create_threads-IsPool new_worker starts n p v (omega arith) in
    (
      u,
      omega (arith, all),
      busy,
      λ b. omega (arith, i b, idle),
      create_threads-IdleStarted new_worker starts n p every s,
    )

-- The differences of `Run`, which wrap below zero: no round is made then.
pub rounds-sub64 : (a b : ℕ) → a < 2 ^ 31 → b < 2 ^ 31 → rounds_of (a + 2 ^ 64 - b) ≡ a - b
unfolding rounds_of
rounds-sub64 a b h k = ground arith

rounds-sub32 : (a b : ℕ) → a < 2 ^ 31 → b < 2 ^ 31 → rounds_of (a + u32 - b) ≡ a - b
unfolding rounds_of
rounds-sub32 a b h k = ground arith

ensure_idle-Ensured :
    (starts : ℕ → Bool) (p : Pool)
    → IsPool p
    → IsBounded p
    → ((t : ℕ) → starts t ≡ true)
    → IdleStarted p
    → Ensured p (ensure_idle starts p)
unfolding ensure_idle
ensure_idle-Ensured starts p v b every s =
    elim (Bool-cases (ltb (length p.idle_list) p.avail_low)) [
      | inr e ↦
          rw e (v, b.within, refl, λ _. omega (arith, ltb→le (length p.idle_list) p.avail_low e), s)
      | inl e ↦ elim (Bool-cases (ltb ((all + p.init_num + 2 ^ 64 - idle) % 2 ^ 64) p.max_num)) [
        | inl f ↦
            rw (e, f, rounds-sub64 p.init_num idle b.init_small (omega arith))
              (made starts (p.init_num - idle) p v every s b.max_small (omega (arith, ltb→lt _ _ f))
                λ _. omega arith)
        | inr f ↦
            rw (e, f, rounds-sub32 p.max_num all b.max_small (omega arith))
              (made starts (p.max_num - all) p v every s b.max_small (omega arith) λ h. omega arith)
      ]
    ]
  where
    all : ℕ
    all = length p.thread_list

    idle : ℕ
    idle = length p.idle_list

-- What a call leaves that hands the job to the thread `t`.
abbrev pub Runs : Pool → ℕ → Option ℕ → ℕ → Pool → Type 0
Runs p job job_data t q =
    IsPool q
    × (length q.thread_list ≤ p.max_num)
    × (q.busy_list ≡ p.busy_list ++ (t ∷ []))
    × ((q.worker t).job ≡ some job)
    × ((q.worker t).job_data ≡ job_data)
    × IdleStarted q

-- A thread is at the front, and has started.
get_idle_thread-front :
    (p : Pool)
    → IdleStarted p
    → 0 < length p.idle_list
    → (t : ℕ) × (get_idle_thread p ≡ ret (some t)) × (0 < count t p.idle_list)
unfolding get_idle_thread
get_idle_thread-front p started h = by_idle p.idle_list h started
  where
    by_idle :
        (xs : List ℕ)
        → 0 < length xs
        → ((t : ℕ) → 0 < count t xs → (p.worker t).started ≡ true)
        → (t : ℕ) × (◌≡◌ {A = Outcome (Option ℕ)}
            (elim xs [
              | [] ↦ ret none
              | u ∷ _ ↦ if (p.worker u).started then ret (some u) else fault
            ])
            (ret (some t)))
          × (0 < count t xs)
    by_idle [] n s = elim n [ ]
    by_idle (t ∷ rest) n s =
        let there : 0 < count t (t ∷ rest) = ground arith in
        (t, ap (λ b. if b then ret (some t) else fault) (s t there), there)

run_job-Runs :
    (starts : ℕ → Bool) (job : ℕ) (job_data : Option ℕ) (p : Pool)
    → IsPool p
    → IsBounded p
    → ((t : ℕ) → starts t ≡ true)
    → IdleStarted p
    → length p.busy_list < p.max_num
    → (t : ℕ) × (q : Pool) × (run_job starts job job_data p ≡ ret (assigned t q))
      × Runs p job job_data t q
unfolding run_job
run_job-Runs starts job job_data p v b every s room =
    let q = ensure_idle starts p in
    let (w, within, busy, some_idle, idle) = ensure_idle-Ensured starts p v b every s in
    let (t, front, present) = get_idle_thread-front q idle (some_idle room) in
    let moved = move_to_busy_list-IsPool t q w (omega (arith, b.max_small)) present in
    let n = set_job t job job_data (move_to_busy_list t q) in
    (
      t,
      n,
      rw front refl,
      unfold set_job move_to_busy_list in
          (
            record {
              avail = moved.avail;
              sizes = moved.sizes;
              parts = moved.parts;
              single = moved.single;
              fresh = moved.fresh;
            },
            within,
            ap (λ l. l ++ (t ∷ [])) busy,
            ground arith,
            ground arith,
            λ u m. ground (arith, idle u, count-erase u t q.idle_list),
          ),
    )

-- In a well-formed pool with no more threads than `m_MaxNum`, whose bounds fit an `int` and whose
-- `m_InitNum` and `m_AvailLow` are not 0, where every idle thread has started and `pthread_create`
-- succeeds, a call waits where as many threads are busy as `m_MaxNum` says. Any other call hands the
-- job and its data to one thread without waiting: that thread is the one more busy thread, the pool
-- stays well formed and within the limit, and every idle thread has started again.
pub run-Runs :
    (starts : ℕ → Bool) (job : ℕ) (job_data : Option ℕ) (p : Pool)
    → IsPool p
    → IsBounded p
    → ((t : ℕ) → starts t ≡ true)
    → IdleStarted p
    → (length p.busy_list ≡ p.max_num) × (run starts job job_data p ≡ ret wait_max_num)
      ⊎ ((t : ℕ) × (q : Pool) × (run starts job job_data p ≡ ret (assigned t q))
          × Runs p job job_data t q)
unfolding run
run-Runs starts job job_data p v b every s = elim (Bool-cases (length p.busy_list == p.max_num)) [
  | inl full ↦ inl ((==_iff (length p.busy_list) p.max_num).0 full, rw full refl)
  | inr room ↦ inr (rw room (run_job-Runs starts job job_data p v b every s (below room)))
]
  where
    below : (length p.busy_list == p.max_num) ≡ false → length p.busy_list < p.max_num
    below room = ground (arith, v.sizes, b.within)
