-- ===== src/Pool/Dispatch/Threads/Moves.antt =====
-- What the operations on the pool change of one thread: its slot, and its place in the idle list.
use vs_http_server.Prelude.{
  false, true, if◌then◌else◌, ℕ, zero, suc, ◌+◌, ◌-◌, ◌%◌, ◌^◌, ◌<◌, ◌≤◌, ◌≡◌, refl, Bool,
  Bool-cases, subst, inl, inr, List, [], ◌∷◌, none, arith, length, ltb, ret, fault, Outcome,
}
use vs_http_server.Pool.Counts.{erase, count, count-append, count-erase}
use vs_http_server.Pool.State.{
  u32, Pool, Worker, new_worker, add_thread, append_to_idle_list, create_threads,
  create_idle_thread, delete_idle_thread, decrement, increment, first_threads, worker_pool,
  empty_pool,
}
use vs_http_server.Pool.Dispatch.{ensure_idle, trim_idle, rounds_of}

-- New threads have numbers of their own, no job, and one place in the idle list.
pub record Grown (p q : Pool) : Type 0 where
  pub later : p.next_thread ≤ q.next_thread
  pub kept :
      (t : ℕ)
      → t < p.next_thread
      → (q.worker t ≡ p.worker t) × (count t q.idle_list ≡ count t p.idle_list)
  pub made :
      (t : ℕ)
      → p.next_thread ≤ t
      → t < q.next_thread
      → ((q.worker t).job ≡ none) × (count t q.idle_list ≡ count t p.idle_list + 1)
  pub fresh :
      (t : ℕ)
      → q.next_thread ≤ t
      → (q.worker t ≡ p.worker t) × (count t q.idle_list ≡ count t p.idle_list)

Grown-same : (p : Pool) → Grown p p
Grown-same p = record {
  later = omega arith;
  kept = λ t h. (refl, refl);
  made = λ t h k. absurd (omega arith);
  fresh = λ t h. (refl, refl);
}

add_thread-Grown : (w : Worker) (ok : Bool) (p : Pool) → w.job ≡ none → Grown p (add_thread w ok p)
unfolding add_thread append_to_idle_list
add_thread-Grown w ok p e = record {
  later = omega arith;
  kept = λ t h. (ground arith, ground (arith, count-append t p.idle_list (p.next_thread ∷ [])));
  made = λ t h k. (ground arith, ground (arith, count-append t p.idle_list (p.next_thread ∷ [])));
  fresh = λ t h. (ground arith, ground (arith, count-append t p.idle_list (p.next_thread ∷ [])));
}

Grown-trans : (p q r : Pool) → Grown p q → Grown q r → Grown p r
Grown-trans p q r g h = record {
  later = omega (arith, g.later, h.later);
  kept = λ t a. ground (arith, g.kept t, h.kept t, g.later);
  made = λ t a b. ground (arith, g.made t, g.fresh t, h.kept t, h.made t);
  fresh = λ t a. ground (arith, g.fresh t, h.fresh t, h.later);
}

create_threads-Grown :
    (w : Worker) (starts : ℕ → Bool) (n : ℕ) (p : Pool)
    → w.job ≡ none
    → Grown p (create_threads w starts n p)
unfolding create_threads
create_threads-Grown w starts zero p e = Grown-same p
create_threads-Grown w starts (suc n) p e =
    let q = add_thread w (starts p.next_thread) p in
    let r : Pool = record q { avail_num = increment q.avail_num } in
    let g = add_thread-Grown w (starts p.next_thread) p e in
    Grown-trans p r _ (record { later = g.later; kept = g.kept; made = g.made; fresh = g.fresh })
      (create_threads-Grown w starts n r e)

pub ensure_idle-Grown : (starts : ℕ → Bool) (p : Pool) → Grown p (ensure_idle starts p)
unfolding ensure_idle create_idle_thread
ensure_idle-Grown starts p =
    let idle = length p.idle_list in
    let all = length p.thread_list in
    let made : (n : ℕ) → Grown p (create_threads new_worker starts n p) =
      λ n. create_threads-Grown new_worker starts n p refl in
    elim (Bool-cases (ltb idle p.avail_low)) [
      | inr e ↦ rw e (Grown-same p)
      | inl e ↦ elim (Bool-cases (ltb ((all + p.init_num + 2 ^ 64 - idle) % 2 ^ 64) p.max_num)) [
        | inl f ↦ rw (e, f) (made (rounds_of (p.init_num + 2 ^ 64 - idle)))
        | inr f ↦ rw (e, f) (made (rounds_of (p.max_num + u32 - all)))
      ]
    ]

first_threads-Grown :
    (starts : ℕ → Bool) (n : ℕ) (p : Pool) → Grown p (first_threads new_worker starts n p)
unfolding first_threads
first_threads-Grown starts zero p = Grown-same p
first_threads-Grown starts (suc n) p =
    let q = add_thread new_worker (starts p.next_thread) p in
    Grown-trans p q _ (add_thread-Grown new_worker (starts p.next_thread) p refl)
      (first_threads-Grown starts n q)

pub worker_pool-Grown : (starts : ℕ → Bool) → Grown (empty_pool 20 5 15 10) (worker_pool starts)
unfolding worker_pool
worker_pool-Grown starts = first_threads-Grown starts 10 (empty_pool 20 5 15 10)

-- `trim_idle` takes threads away, and leaves their slots.
pub record Shrunk (p q : Pool) : Type 0 where
  pub numbers : q.next_thread ≡ p.next_thread
  pub slots : (t : ℕ) → q.worker t ≡ p.worker t
  pub fewer : (t : ℕ) → count t q.idle_list ≤ count t p.idle_list

Shrunk-same : (p q : Pool) → p ≡ q → Shrunk p q
Shrunk-same p q e =
    subst (Shrunk p) e (record { numbers = refl; slots = λ t. refl; fewer = λ t. omega arith })

if-ret : {q : Pool} (b : Bool) (m : Outcome Pool) → (if b then m else fault) ≡ ret q → m ≡ ret q
if-ret true m e = e
if-ret false m e = cc

abbrev delete_round : ℕ → Pool → List ℕ → Outcome Pool
delete_round n p [] = fault
delete_round n p (u ∷ l) =
    let rest = delete_idle_thread n (record p {
      idle_list = erase u p.idle_list;
      thread_list = erase u p.thread_list;
      avail_num = decrement p.avail_num;
    }) in
    if (p.worker u).started then rest else fault

delete_idle_thread-Shrunk : (n : ℕ) (p q : Pool) → delete_idle_thread n p ≡ ret q → Shrunk p q
unfolding delete_idle_thread
delete_idle_thread-Shrunk zero p q e = Shrunk-same p q cc
delete_idle_thread-Shrunk (suc n) p q e = from p.idle_list e (delete_idle_thread-Shrunk n)
  where
    from :
        (l : List ℕ)
        → delete_round n p l ≡ ret q
        → ((d r : Pool) → delete_idle_thread n d ≡ ret r → Shrunk d r)
        → Shrunk p q
    from [] k ih = absurd cc
    from (u ∷ l) k ih =
        let d : Pool = record p {
          idle_list = erase u p.idle_list;
          thread_list = erase u p.thread_list;
          avail_num = decrement p.avail_num;
        } in
        let h = ih d q (if-ret (p.worker u).started (delete_idle_thread n d) k) in
        record {
          numbers = h.numbers;
          slots = h.slots;
          fewer = λ t. ground (arith, h.fewer t, count-erase t u p.idle_list);
        }

pub trim_idle-Shrunk : (p q : Pool) → trim_idle p ≡ ret q → Shrunk p q
unfolding trim_idle
trim_idle-Shrunk p q e = elim (Bool-cases (ltb p.avail_high (length p.idle_list))) [
  | inl b ↦
      delete_idle_thread-Shrunk (rounds_of (length p.idle_list + 2 ^ 64 - p.init_num)) p q
        (ground arith)
  | inr b ↦ Shrunk-same p q (ground arith)
]
