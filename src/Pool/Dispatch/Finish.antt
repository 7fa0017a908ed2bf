-- ===== src/Pool/Dispatch/Finish.antt =====
-- The end of a job: the worker goes back to the idle list, which is trimmed.
use vs_http_server.Prelude.{
  if◌then◌else◌, true, ℕ, zero, suc, ◌+◌, ◌-◌, ◌^◌, ◌<◌, ◌≤◌, ◌≡◌, refl, ◌∙◌, ap, List, [], ◌∷◌,
  arith, length, none, Returns, Returns-if, Returns-map, fault, ltb, ltb→lt, ltb→le,
}
use vs_http_server.Pool.Counts.{erase, count-append, count, count-erase, length-erase}
use vs_http_server.Pool.State.{
  Pool, Worker, u32, IsPool, set_worker, decrement, move_to_idle_list, delete_idle_thread,
}
use vs_http_server.Pool.Moves.{move_to_idle_list-IsPool, decrement_lem}
use vs_http_server.Pool.Dispatch.{rounds_of, trim_idle, finish_job}
use vs_http_server.Pool.Dispatch.Laws.{rounds-sub64, IdleStarted}

-- A round of `DeleteIdleThread` for the first idle thread.
dropped : ℕ → Pool → Pool
dropped t p = record p {
  idle_list = erase t p.idle_list;
  thread_list = erase t p.thread_list;
  avail_num = decrement p.avail_num;
}

dropped-IsPool :
    (t : ℕ) (p : Pool)
    → IsPool p
    → length p.thread_list < u32
    → 0 < count t p.idle_list
    → IsPool (dropped t p)
      × (suc (length (dropped t p).idle_list) ≡ length p.idle_list)
      × (suc (length (dropped t p).thread_list) ≡ length p.thread_list)
unfolding dropped
dropped-IsPool t p v small h =
    let idle = length-erase t p.idle_list h in
    let all = length-erase t p.thread_list (omega (arith, v.parts t)) in
    (
      record {
        avail =
            decrement_lem p.avail_num (omega (arith, v.avail, v.sizes))
              (omega (arith, v.avail, idle))
            ∙ omega (arith, v.avail, idle);
        sizes = omega (arith, v.sizes, idle, all);
        parts = λ u.
            ground (arith, v.parts u, count-erase u t p.idle_list, count-erase u t p.thread_list);
        single = λ u. ground (arith, v.single u, count-erase u t p.thread_list);
        fresh = λ u n. ground (arith, v.fresh u, count-erase u t p.thread_list);
      },
      idle,
      all,
    )

count-erase-le : (u t : ℕ) (xs : List ℕ) → count u (erase t xs) ≤ count u xs
count-erase-le u t xs = ground (arith, count-erase u t xs)

abbrev Trimmed : ℕ → Pool → Pool → Type 0
Trimmed n p q =
    IsPool q
    × (length q.idle_list ≡ length p.idle_list - n)
    × (q.busy_list ≡ p.busy_list)
    × (q.worker ≡ p.worker)
    × IdleStarted q

delete_idle_thread-Trimmed :
    (n : ℕ) (p : Pool)
    → IsPool p
    → length p.thread_list < u32
    → n ≤ length p.idle_list
    → IdleStarted p
    → Returns (Trimmed n p) (delete_idle_thread n p)
unfolding delete_idle_thread dropped
delete_idle_thread-Trimmed zero p v small h s = (v, omega arith, refl, refl, s)
delete_idle_thread-Trimmed (suc n) p v small h s = by_idle p.idle_list refl λ t w i a.
    delete_idle_thread-Trimmed n (dropped t p) w (omega (arith, a)) (omega (arith, i))
      λ u m. s u (omega (arith, m, count-erase-le u t p.idle_list))
  where
    by_idle :
        (xs : List ℕ)
        → p.idle_list ≡ xs
        → ((t : ℕ)
            → IsPool (dropped t p)
            → suc (length (dropped t p).idle_list) ≡ length p.idle_list
            → suc (length (dropped t p).thread_list) ≡ length p.thread_list
            → Returns (Trimmed n (dropped t p)) (delete_idle_thread n (dropped t p)))
        → Returns (Trimmed (suc n) p) (elim xs [
          | [] ↦ fault
          | t ∷ _ ↦
              let rest = delete_idle_thread n (dropped t p) in
              if (p.worker t).started then rest else fault
        ])
    by_idle [] e rest = absurd (omega (arith, ap length e))
    by_idle (t ∷ _) e rest =
        let there : 0 < count t p.idle_list = rw e (ground arith) in
        let (w, i, a) = dropped-IsPool t p v small there in
        Returns-if (Trimmed (suc n) p) (p.worker t).started _ _
          (λ _.
            Returns-map (Trimmed n (dropped t p)) (Trimmed (suc n) p)
              (delete_idle_thread n (dropped t p))
              (λ q k. (k.0, omega (arith, k.1, i), k.2, k.3, k.4)) (rest t w i a))
          λ no. absurd (cc (no, s t there))

trim_idle-IsPool :
    (r : Pool)
    → IsPool r
    → length r.thread_list < 2 ^ 31
    → r.init_num ≤ r.avail_high
    → r.init_num < 2 ^ 31
    → IdleStarted r
    → Returns
        (λ q.
          IsPool q
          × (q.busy_list ≡ r.busy_list)
          × (length q.idle_list ≤ r.avail_high)
          × (q.worker ≡ r.worker)
          × IdleStarted q)
        (trim_idle r)
unfolding trim_idle
trim_idle-IsPool r v small low init s =
    Returns-if _ (ltb r.avail_high (length r.idle_list)) _ _
      (λ e.
        let n = rounds_of (length r.idle_list + 2 ^ 64 - r.init_num) in
        let rounds : n ≡ length r.idle_list - r.init_num =
          rounds-sub64 (length r.idle_list) r.init_num (omega (arith, v.sizes)) init in
        let over = ltb→lt r.avail_high (length r.idle_list) e in
        Returns-map (Trimmed n r) _ (delete_idle_thread n r)
          (λ q k. (k.0, k.2, omega (arith, k.1, rounds, over), k.3, k.4))
          (delete_idle_thread-Trimmed n r v (omega arith) (omega (arith, rounds)) s))
      λ e. (v, refl, ltb→le r.avail_high (length r.idle_list) e, refl, s)

-- A busy worker of a well-formed pool that ends its job leaves a well-formed pool, where it and every
-- idle thread have started, the pool has fewer than 2 ^ 31 - 1 threads, and `m_InitNum` is at most
-- `m_AvailHigh`: the worker is no longer busy, the other busy threads are as before, its slot is
-- empty, there are no more idle threads than `m_AvailHigh` says, and each has started.
pub finish_job-IsPool :
    (t : ℕ) (p : Pool)
    → IsPool p
    → length p.thread_list + 1 < 2 ^ 31
    → p.init_num ≤ p.avail_high
    → p.init_num < 2 ^ 31
    → 0 < count t p.busy_list
    → (p.worker t).started ≡ true
    → IdleStarted p
    → Returns
        (λ q.
          IsPool q
          × (q.busy_list ≡ erase t p.busy_list)
          × (length q.idle_list ≤ p.avail_high)
          × ((q.worker t).job ≡ none)
          × IdleStarted q)
        (finish_job t p)
unfolding finish_job move_to_idle_list
finish_job-IsPool t p v small low init busy runs started =
    Returns-map _ _ (trim_idle moved)
      (λ q k. (k.0, k.1 ∙ left, k.2, ap (λ (f : ℕ → Worker). (f t).job) k.3 ∙ slot, k.4))
      (trim_idle-IsPool moved moved-IsPool fits low init all_started)
  where
    emptied : Pool
    emptied = record p {
      worker = set_worker t (record (p.worker t) { job = none; job_data = none }) p.worker;
    }

    moved : Pool
    moved = move_to_idle_list t emptied

    moved-IsPool : IsPool moved
    moved-IsPool =
        move_to_idle_list-IsPool t emptied
          (record {
            avail = v.avail;
            sizes = v.sizes;
            parts = v.parts;
            single = v.single;
            fresh = v.fresh;
          })
          (omega arith) busy

    left : moved.busy_list ≡ erase t p.busy_list
    left = unfold move_to_idle_list in refl

    fits : length moved.thread_list < 2 ^ 31
    fits = unfold move_to_idle_list in omega arith

    slot : (moved.worker t).job ≡ none
    slot = unfold move_to_idle_list in ground arith

    all_started : IdleStarted moved
    all_started =
        unfold move_to_idle_list in
        λ u m. ground (arith, runs, started u, count-append u p.idle_list (t ∷ []))
