-- ===== src/Server/Invariant/Setup.antt =====
-- The server that the constructor of TcpEventServer sets up.
use mathlib.Core.Path.{fun_ext}
use vs_http_server.Prelude.{
  ℕ, zero, suc, ◌+◌, ◌-◌, ◌<◌, ◌≤◌, ◌≡◌, refl, ◌∙◌, subst, none, List, [], ◌∷◌, arith, length,
  ==_ne, if◌then◌else◌, Bool, false, ltb, lt→ltb, le→leb, pos, Returns, Returns->>=, Returns-inv,
}
use vs_http_server.Pool.Counts.{count}
use vs_http_server.Pool.State.{
  IsPool, Pool, Worker, worker_pool, main_pool, first_threads, add_thread, append_to_idle_list,
  new_main_worker, empty_pool,
}
use vs_http_server.Pool.Moves.{first_threads-lists, nothing, IsPool-counted}
use vs_http_server.Conn.State.{Heap, ConnQueue, new_queue}
use vs_http_server.Conn.New.{Made, new_queue-Made}
use vs_http_server.Server.State.{Server, set_queue, init_manage, add_queues, setup}
use vs_http_server.Server.Callbacks.{needs_thread}
use vs_http_server.Server.Invariant.{IsHeld, IsServer}
use vs_http_server.Server.Invariant.Retire.{is_nearly_full-pos, idle-known}
use vs_http_server.Server.Invariant.Frame.{set_conns, IsHeld-set, IsHeld-pool, objects-below}

-- No thread has a connection.
abbrev pub no_conns : ℕ → List ℕ
no_conns t = []

-- No thread in the lists, and `n` numbers in use.
abbrev unlisted : ℕ → Pool
unlisted n = record (empty_pool 0 0 0 0) { next_thread = n }

unlisted-IsPool : (n : ℕ) → IsPool (unlisted n)
unlisted-IsPool n = record {
  avail = refl;
  sizes = refl;
  parts = λ t. refl;
  single = λ t. omega arith;
  fresh = λ t h. refl;
}

set_conns-no_conns : (t : ℕ) → set_conns t [] no_conns ≡ no_conns
set_conns-no_conns t = fun_ext λ u. ground arith

module _ (w : Pool) (i : ℕ) where
  abbrev made : ℕ → (ℕ → ConnQueue) → Heap → Server
  made n f h = record { heap = h; queue = f; main = unlisted n; worker = w; idle_thread_count = i }

  add_queues-IsHeld :
      (rounds n : ℕ) (f : ℕ → ConnQueue) (h : Heap)
      → IsHeld no_conns (made n f h)
      → Returns (λ r. IsHeld no_conns (made (n + rounds) r.0 r.1)) (add_queues rounds n f h)
  unfolding add_queues
  add_queues-IsHeld zero n f h v =
      subst (λ m. IsHeld no_conns (made m f h)) (let e : n ≡ n + 0 = omega arith in e) v
  add_queues-IsHeld (suc rounds) n f h v =
      Returns->>= (Made h) _ (new_queue h) _ (new_queue-Made h v.unused) λ r _ m.
        let held =
          IsHeld-set n [] r.0 r.1 (unlisted (suc n)) no_conns (made n f h) v
            (λ u lu ne. omega arith) m.queue
            (λ u a lu ne k. m.frame a (objects-below no_conns (made n f h) u a v lu k))
            (λ u a lu ne k. ground (arith, objects-below no_conns (made n f h) u a v lu k, m.ends))
            (unlisted-IsPool (suc n)) (omega arith) (λ c k. elim k [ ]) in
        subst
          (λ l.
            Returns (λ x. IsHeld no_conns (made l x.0 x.1))
              (add_queues rounds (suc n) (set_queue n r.0 f) r.1))
          (let e : suc n + rounds ≡ n + suc rounds = omega arith in e)
          (add_queues-IsHeld rounds (suc n) (set_queue n r.0 f) r.1 (
            subst (λ g. IsHeld g (made (suc n) (set_queue n r.0 f) r.1)) (set_conns-no_conns n)
              held))

first_threads-next_thread :
    (w : Worker) (starts : ℕ → Bool) (rounds : ℕ) (p : Pool)
    → (first_threads w starts rounds p).next_thread ≡ p.next_thread + rounds
unfolding first_threads add_thread append_to_idle_list
first_threads-next_thread w starts zero p = omega arith
first_threads-next_thread w starts (suc rounds) p =
    first_threads-next_thread w starts rounds (add_thread w (starts p.next_thread) p) ∙ omega arith

-- The pool of `n` event threads, all of them idle.
record Started (n : ℕ) (p : Pool) : Type 0 where
  pool : IsPool p
  numbers : p.next_thread ≡ n
  idle : length p.idle_list ≡ n

main_pool-Started :
    (starts : ℕ → Bool) (n : ℕ) → 0 < n → n ≤ 30 → Returns (Started n) (main_pool starts n)
unfolding main_pool
main_pool-Started starts n some_threads few =
    let low = if ltb 10 n then n - 10 else 3 in
    let first = empty_pool 30 low (n + 10) n in
    let (v, i, t, a, m) =
      first_threads-lists new_main_worker starts n first (nothing 30 low (n + 10) n)
        (omega arith) in
    rw (lt→ltb 0 n some_threads, le→leb n 30 few)
      (record {
        pool =
            IsPool-counted (first_threads new_main_worker starts n first) v (omega (arith, a, i));
        numbers = omega (arith, first_threads-next_thread new_main_worker starts n first);
        idle = omega (arith, i);
      })

nobody : ℕ → ConnQueue
nobody t = record { head = 0; tail = 0; current_conn_num = pos 0 }

nobody-IsHeld :
    (w : Pool) (h : Heap)
    → ((a : ℕ) → h.next_addr ≤ a → h.cell a ≡ none)
    → IsHeld no_conns (made w 0 0 nobody h)
nobody-IsHeld w h unused = record {
  pool = unlisted-IsPool 0;
  queues = λ t lt. elim lt [ ];
  apart = λ a t u lt. elim lt [ ];
  owner = λ t c lt. elim lt [ ];
  most = λ t lt. elim lt [ ];
  unused = unused;
}

-- Queues without a connection need no new thread.
needs_thread-empty :
    (idle : List ℕ) (q : ℕ → ConnQueue)
    → ((t : ℕ) → 0 < count t idle → (q t).current_conn_num ≡ pos 0)
    → needs_thread idle q ≡ false
unfolding needs_thread
needs_thread-empty [] q e = refl
needs_thread-empty (x ∷ []) q e =
    is_nearly_full-pos (q x).current_conn_num 0 (e x (ground arith)) ∙ ==_ne 0 1999 (omega arith)
needs_thread-empty (x ∷ y ∷ ys) q e = refl

made-IsServer :
    (w p : Pool) (n : ℕ) (f : ℕ → ConnQueue) (h : Heap)
    → 0 < n
    → Started n p
    → IsHeld no_conns (made w 0 n f h)
    → IsServer no_conns (record (made w 0 n f h) { main = p })
made-IsServer w p n f h some_threads v held = record {
  held = IsHeld-pool no_conns p (made w 0 n f h) held v.pool v.numbers;
  room = λ t m. omega arith;
  some_idle = omega (arith, v.idle);
  spare =
      needs_thread-empty p.idle_list f
        (λ t m. (held.queues t (omega (arith, idle-known t p v.pool m, v.numbers))).number);
}

-- Where the addresses from the next one on are unused, the constructor with 1 to 30 event threads makes
-- no bad access and throws nothing; the invariant of the server holds of what it sets up, in which
-- no thread has a connection.
pub setup-IsServer :
    (starts : ℕ → Bool) (threads : ℕ) (h : Heap)
    → 0 < threads
    → threads ≤ 30
    → ((a : ℕ) → h.next_addr ≤ a → h.cell a ≡ none)
    → Returns (IsServer no_conns) (setup starts threads h)
unfolding setup init_manage nobody
setup-IsServer starts zero h some_threads few unused = elim some_threads [ ]
setup-IsServer starts (suc n) h some_threads few unused =
    let (p, e, v) =
      Returns-inv (Started (suc n)) (main_pool starts (suc n))
        (main_pool-Started starts (suc n) some_threads few) in
    let w = worker_pool starts in
    rw e (
      Returns->>= _ _ (add_queues (suc n) 0 nobody h) _
        (add_queues-IsHeld w 0 (suc n) 0 nobody h (nobody-IsHeld w h unused))
        λ r _ held. made-IsServer w p (suc n) r.0 r.1 some_threads v (
          subst (λ m. IsHeld no_conns (made w 0 m r.0 r.1))
            (let e : 0 + suc n ≡ suc n = omega arith in e) held))
