-- ===== src/Pool/Moves.antt =====
-- The operations on the lists keep the pool well formed.
use vs_http_server.Prelude.{
  ℕ, zero, suc, ◌+◌, ◌-◌, ◌<◌, ◌≤◌, ◌≡◌, refl, sym, ◌∙◌, List, [], ◌∷◌, arith, length, Bool,
  length-append, ◌==◌, Bool-cases, ==_iff, inl, inr,
}
use vs_http_server.Pool.Counts.{count, count-append, count-erase, length-erase}
use vs_http_server.Pool.State.{
  Pool, Worker, u32, increment, decrement, IsPool, move_to_busy_list, move_to_idle_list,
  check_if_in_busy_list, add_thread, create_threads, first_threads, worker_pool, new_worker,
  empty_pool,
}

pub increment_lem : (n : ℕ) → suc n < u32 → increment n ≡ suc n
unfolding increment
increment_lem n h = omega arith

pub decrement_lem : (n : ℕ) → n < u32 → 0 < n → decrement n ≡ n - 1
unfolding decrement
decrement_lem n h pos = omega arith

count-le-length : (t : ℕ) (xs : List ℕ) → count t xs ≤ length xs
count-le-length t [] = omega arith
count-le-length t (x ∷ xs) = ground (arith, count-le-length t xs)

-- In a well-formed pool of fewer than 2 ^ 32 threads an idle thread becomes busy, and the pool stays
-- well formed.
pub move_to_busy_list-IsPool :
    (t : ℕ) (p : Pool)
    → IsPool p
    → length p.thread_list < u32
    → 0 < count t p.idle_list
    → IsPool (move_to_busy_list t p)
unfolding move_to_busy_list
move_to_busy_list-IsPool t p v small h =
    let shorter = length-erase t p.idle_list h in
    record {
      avail =
          decrement_lem p.avail_num (omega (arith, v.avail, v.sizes))
            (omega (arith, v.avail, count-le-length t p.idle_list))
          ∙ omega (arith, v.avail, shorter);
      sizes = omega (arith, v.sizes, shorter, length-append {0} p.busy_list (t ∷ []));
      parts = λ u.
          ground
            (arith, v.parts u, count-erase u t p.idle_list, count-append u p.busy_list (t ∷ []));
      single = v.single;
      fresh = v.fresh;
    }

-- In a well-formed pool of fewer than 2 ^ 32 - 1 threads a busy thread becomes idle, and the pool
-- stays well formed.
pub move_to_idle_list-IsPool :
    (t : ℕ) (p : Pool)
    → IsPool p
    → length p.thread_list + 1 < u32
    → 0 < count t p.busy_list
    → IsPool (move_to_idle_list t p)
unfolding move_to_idle_list
move_to_idle_list-IsPool t p v small h =
    let shorter = length-erase t p.busy_list h in
    let longer = length-append {0} p.idle_list (t ∷ []) in
    record {
      avail =
          increment_lem p.avail_num (omega (arith, v.avail, v.sizes))
          ∙ omega (arith, v.avail, longer);
      sizes = omega (arith, v.sizes, shorter, longer);
      parts = λ u.
          ground
            (arith, v.parts u, count-erase u t p.busy_list, count-append u p.idle_list (t ∷ []));
      single = v.single;
      fresh = v.fresh;
    }

-- Whatever the thread, the check keeps a well-formed pool of fewer than 2 ^ 32 - 1 threads well
-- formed, and the thread is not busy behind it.
pub check_if_in_busy_list-IsPool :
    (t : ℕ) (p : Pool)
    → IsPool p
    → length p.thread_list + 1 < u32
    → IsPool (check_if_in_busy_list t p) × (count t (check_if_in_busy_list t p).busy_list ≡ 0)
unfolding check_if_in_busy_list
check_if_in_busy_list-IsPool t p v small = elim (Bool-cases (count t p.busy_list == 0)) [
  | inl e ↦ rw e (v, (==_iff (count t p.busy_list) 0).0 e)
  | inr e ↦ rw e (
    move_to_idle_list-IsPool t p v small (ground arith),
    unfold move_to_idle_list in ground (arith, count-erase t t p.busy_list, v.parts t, v.single t),
  )
]

pub nothing : (max low high n : ℕ) → IsPool (record (empty_pool max low high n) { avail_num = 0 })
nothing max low high n = record {
  avail = refl;
  sizes = refl;
  parts = λ t. refl;
  single = λ t. omega arith;
  fresh = λ t h. refl;
}

module _ (w : Worker) where
  created : (ℕ → Bool) → Pool → Pool
  unfolding add_thread
  created starts p =
      let q = add_thread w (starts p.next_thread) p in
      record q { avail_num = increment q.avail_num }

  -- A new thread is idle; `m_AvailNum` is left to the caller.
  added-IsPool :
      (ok : Bool) (p : Pool)
      → IsPool (record p { avail_num = length p.idle_list })
      → let q = add_thread w ok p in IsPool (record q { avail_num = length q.idle_list })
  unfolding add_thread
  added-IsPool ok p v =
      let n = p.next_thread in
      let idle = length-append {0} p.idle_list (n ∷ []) in
      let all = length-append {0} p.thread_list (n ∷ []) in
      record {
        avail = refl;
        sizes = omega (arith, v.sizes, idle, all);
        parts = λ u. ground (
          arith,
          v.parts u,
          count-append u p.idle_list (n ∷ []),
          count-append u p.thread_list (n ∷ []),
        );
        single = λ u. ground (arith, v.single u, v.fresh u, count-append u p.thread_list (n ∷ []));
        fresh = λ u h. ground (arith, v.fresh u, count-append u p.thread_list (n ∷ []));
      }

  created-IsPool :
      (starts : ℕ → Bool) (p : Pool)
      → IsPool p
      → length p.thread_list + 1 < u32
      → IsPool (created starts p)
  unfolding created add_thread
  created-IsPool starts p v small =
      let added = added-IsPool (starts p.next_thread) p (record {
        avail = refl;
        sizes = v.sizes;
        parts = v.parts;
        single = v.single;
        fresh = v.fresh;
      }) in
      record {
        avail =
            increment_lem p.avail_num (omega (arith, v.avail, v.sizes))
            ∙ omega (arith, v.avail, length-append {0} p.idle_list (p.next_thread ∷ []));
        sizes = added.sizes;
        parts = added.parts;
        single = added.single;
        fresh = added.fresh;
      }

  -- `rounds` threads are made, all of them idle.
  pub create_threads-IsPool :
      (starts : ℕ → Bool) (rounds : ℕ) (p : Pool)
      → IsPool p
      → length p.thread_list + rounds < u32
      → let q = create_threads w starts rounds p in
        IsPool q
        × (length q.thread_list ≡ length p.thread_list + rounds)
        × (q.busy_list ≡ p.busy_list)
        × (length q.idle_list ≡ length p.idle_list + rounds)
  unfolding create_threads created
  create_threads-IsPool starts zero p v small = (v, omega arith, refl, omega arith)
  create_threads-IsPool starts (suc rounds) p v small =
      let n = p.next_thread in
      let idle = length-append {0} p.idle_list (n ∷ []) in
      let all = length-append {0} p.thread_list (n ∷ []) in
      let (w, a, b, c) =
        create_threads-IsPool starts rounds (created starts p)
          (created-IsPool starts p v (omega arith)) (omega (arith, all)) in
      (w, omega (arith, a, all), b, omega (arith, c, idle))

  -- The loops of the constructors: `m_AvailNum` is right once as many threads are made as it says.
  pub first_threads-lists :
      (starts : ℕ → Bool) (rounds : ℕ) (p : Pool)
      → IsPool (record p { avail_num = length p.idle_list })
      → length p.thread_list + rounds < u32
      → let q = first_threads w starts rounds p in
        IsPool (record q { avail_num = length q.idle_list })
        × (length q.idle_list ≡ length p.idle_list + rounds)
        × (length q.thread_list ≡ length p.thread_list + rounds)
        × (q.avail_num ≡ p.avail_num)
        × (q.max_num ≡ p.max_num)
  unfolding first_threads add_thread
  first_threads-lists starts zero p v small = (v, omega arith, omega arith, refl, refl)
  first_threads-lists starts (suc rounds) p v small =
      let n = p.next_thread in
      let idle = length-append {0} p.idle_list (n ∷ []) in
      let all = length-append {0} p.thread_list (n ∷ []) in
      let (u, i, t, a, m) =
        first_threads-lists starts rounds (add_thread w (starts n) p) (added-IsPool (starts n) p v)
          (omega (arith, all)) in
      (u, omega (arith, i, idle), omega (arith, t, all), a, m)

-- On as many idle threads as `m_AvailNum` says the pool is well formed.
pub IsPool-counted :
    (q : Pool)
    → IsPool (record q { avail_num = length q.idle_list })
    → q.avail_num ≡ length q.idle_list
    → IsPool q
IsPool-counted q v e = record {
  avail = e;
  sizes = v.sizes;
  parts = v.parts;
  single = v.single;
  fresh = v.fresh;
}

-- The pool of the workers starts well formed, with ten threads of its twenty, whether or not
-- `pthread_create` succeeds.
pub worker_pool-IsPool :
    (starts : ℕ → Bool)
    → IsPool (worker_pool starts)
      × (length (worker_pool starts).thread_list ≡ 10)
      × ((worker_pool starts).max_num ≡ 20)
unfolding worker_pool
worker_pool-IsPool starts =
    let (v, i, t, a, m) =
      first_threads-lists new_worker starts 10 _ (nothing 20 5 15 10) (omega arith) in
    (IsPool-counted _ v (a ∙ sym i), t, m)
