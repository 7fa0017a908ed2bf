-- ===== src/Server/Invariant/Retire.antt =====
-- The tests at the end of `InsertConn`: a full thread is no longer idle, and the only idle thread is not
-- left nearly full.
use vs_http_server.Prelude.{
  ℕ, suc, ◌+◌, ◌-◌, ◌<◌, ◌≤◌, ℤ, ◌≡◌, ◌≢◌, refl, ap, sym, ◌∙◌, subst, List, [], ◌∷◌, ◌++◌, arith,
  length, length-append, ◌==◌, ==_iff, Bool, Bool-cases, inl, inr, false, pos, ltb, ltb→lt, ltb→le,
  Returns, Returns->>=,
}
use vs_http_server.Pool.Counts.{count, count-append, count-erase, length-erase}
use vs_http_server.Pool.State.{
  IsPool, Pool, u32, move_to_busy_list, create_threads, create_main_idle_thread, add_thread,
  append_to_idle_list, new_main_worker,
}
use vs_http_server.Pool.Moves.{move_to_busy_list-IsPool, create_threads-IsPool}
use vs_http_server.Conn.State.{Heap, ConnQueue, max_open_fd, new_queue}
use vs_http_server.Conn.New.{Made, new_queue-Made}
use vs_http_server.Server.State.{Server, set_queue, add_event_thread}
use vs_http_server.Server.Callbacks.{
  is_full, retire_thread, is_nearly_full, needs_thread, prepare_thread,
}
use vs_http_server.Server.Invariant.{IsHeld, IsServer}
use vs_http_server.Server.Invariant.Frame.{set_conns, IsHeld-set, IsHeld-pool, objects-below}

-- An idle thread has a number in use.
pub idle-known : (t : ℕ) (p : Pool) → IsPool p → 0 < count t p.idle_list → t < p.next_thread
idle-known t p v m = ground (arith, v.fresh t, v.parts t)

-- Behind the test for a full thread: the idle threads have room.
pub record Retired (f : ℕ → List ℕ) (s : Server) : Type 0 where
  pub held : IsHeld f s
  pub room : (t : ℕ) → 0 < count t s.main.idle_list → length (f t) < max_open_fd
  pub some_idle : 0 < length s.main.idle_list

is_full-pos : (z : ℤ) (n : ℕ) → z ≡ pos n → is_full z ≡ ltb max_open_fd (n + 1)
unfolding is_full
is_full-pos z n e = rw e refl

pub is_nearly_full-pos : (z : ℤ) (n : ℕ) → z ≡ pos n → is_nearly_full z ≡ (n == max_open_fd - 1)
unfolding is_nearly_full
is_nearly_full-pos z n e = rw e refl

pub retire_thread-Retired :
    (t : ℕ) (f : ℕ → List ℕ) (s : Server)
    → IsHeld f s
    → length s.main.thread_list < u32
    → 0 < count t s.main.idle_list
    → ((u : ℕ) → u ≢ t → 0 < count u s.main.idle_list → length (f u) < max_open_fd)
    → (length (f t) ≡ max_open_fd → 1 < length s.main.idle_list)
    → Retired f (retire_thread t s)
unfolding retire_thread move_to_busy_list
retire_thread-Retired t f s v small idle others spare =
    let lt = idle-known t s.main v.pool idle in
    let full = is_full-pos (s.queue t).current_conn_num (length (f t)) (v.queues t lt).number in
    elim (Bool-cases (ltb max_open_fd (length (f t) + 1))) [
      | inl e ↦ rw (full ∙ e) (full_case lt (ltb→lt max_open_fd (length (f t) + 1) e))
      | inr e ↦ rw (full ∙ e) (record {
        held = v;
        room = λ u m. elim (Bool-cases (u == t)) [
          | inl same ↦
              subst (λ w. length (f w) < max_open_fd) (sym ((==_iff u t).0 same))
                (omega (arith, ltb→le max_open_fd (length (f t) + 1) e))
          | inr apart ↦ others u (ground arith) m
        ];
        some_idle = count-pos t s.main.idle_list idle;
      })
    ]
  where
    count-pos : (x : ℕ) (xs : List ℕ) → 0 < count x xs → 0 < length xs
    count-pos x [] m = m
    count-pos x (y ∷ ys) m = omega arith

    full_case :
        t < s.main.next_thread
        → max_open_fd < length (f t) + 1
        → Retired f (record s { main = move_to_busy_list t s.main })
    full_case lt over = record {
      held =
          IsHeld-pool f (move_to_busy_list t s.main) s v
            (move_to_busy_list-IsPool t s.main v.pool small idle) refl;
      room = λ u m.
          let gone = count-erase u t s.main.idle_list in
          others u (ground (arith, gone, v.pool.parts t, v.pool.single t)) (ground (arith, gone));
      some_idle =
          omega (arith, length-erase t s.main.idle_list idle, spare (omega (arith, v.most t lt)));
    }

pub needs_thread-two :
    (idle : List ℕ) (q : ℕ → ConnQueue) → 1 < length idle → needs_thread idle q ≡ false
unfolding needs_thread
needs_thread-two [] q h = elim h [ ]
needs_thread-two (x ∷ []) q h = absurd (let no : ⊥ = omega arith in no)
needs_thread-two (x ∷ y ∷ ys) q h = refl

-- The only idle thread has room for two connections.
pub needs_thread-spare :
    (t n : ℕ) (idle : List ℕ) (q : ℕ → ConnQueue)
    → needs_thread idle q ≡ false
    → 0 < count t idle
    → (q t).current_conn_num ≡ pos n
    → suc n ≡ max_open_fd
    → 1 < length idle
unfolding needs_thread
needs_thread-spare t n [] q e m k last = elim m [ ]
needs_thread-spare t n (x ∷ []) q e m k last =
    let same : x ≡ t = ground arith in
    let yes =
      is_nearly_full-pos (q x).current_conn_num n (ap (λ w. (q w).current_conn_num) same ∙ k) in
    absurd (let no : ⊥ = ground (arith, sym yes ∙ e) in no)
needs_thread-spare t n (x ∷ y ∷ ys) q e m k last = omega arith

-- What is left behind the test for an only idle thread.
pub record Prepared (f : ℕ → List ℕ) (s k : Server) : Type 0 where
  pub conns : ℕ → List ℕ
  pub server : IsServer conns k
  pub kept : (u : ℕ) → u < s.main.next_thread → conns u ≡ f u
  pub grown : s.main.next_thread ≤ k.main.next_thread

add_event_thread-Prepared :
    (starts : ℕ → Bool) (f : ℕ → List ℕ) (s : Server)
    → Retired f s
    → length s.main.thread_list + 1 < u32
    → Returns (Prepared f s) (add_event_thread starts s)
unfolding add_event_thread
add_event_thread-Prepared starts f s w small =
    Returns->>= (Made s.heap) (Prepared f s) (new_queue s.heap) _
      (new_queue-Made s.heap w.held.unused) λ r _ m. added r m
  where
    n : ℕ
    n = s.main.next_thread

    pool : Pool
    pool = create_main_idle_thread starts 1 s.main

    lists : (pool.next_thread ≡ suc n) × (pool.idle_list ≡ s.main.idle_list ++ (n ∷ []))
    lists =
        unfold create_main_idle_thread create_threads add_thread append_to_idle_list in (refl, refl)

    added :
        (r : ConnQueue × Heap)
        → Made s.heap r
        → Prepared f s (record s { heap = r.1; queue = set_queue n r.0 s.queue; main = pool })
    added r m = record {
      conns = set_conns n [] f;
      server = record {
        held =
            IsHeld-set n [] r.0 r.1 pool f s w.held (λ u lu ne. omega (arith, lists.0)) m.queue
              (λ u a lu ne k. m.frame a (objects-below f s u a w.held lu k))
              (λ u a lu ne k. ground (arith, objects-below f s u a w.held lu k, m.ends))
              (create_threads-IsPool new_main_worker starts 1 s.main w.held.pool small).0
              (omega arith) (λ c k. elim k [ ]);
        room = λ u k. ground (arith, w.room u, count-append u s.main.idle_list (n ∷ []));
        some_idle = omega (arith, length-append {0} s.main.idle_list (n ∷ []));
        spare =
            needs_thread-two pool.idle_list (set_queue n r.0 s.queue)
              (omega (arith, w.some_idle, length-append {0} s.main.idle_list (n ∷ [])));
      };
      kept = λ u lt. ground arith;
      grown = omega (arith, lists.0);
    }

pub prepare_thread-Prepared :
    (starts : ℕ → Bool) (f : ℕ → List ℕ) (s : Server)
    → Retired f s
    → length s.main.thread_list + 1 < u32
    → Returns (Prepared f s) (prepare_thread starts s)
unfolding prepare_thread
prepare_thread-Prepared starts f s w small =
    elim (Bool-cases (needs_thread s.main.idle_list s.queue)) [
      | inl e ↦ rw e (add_event_thread-Prepared starts f s w small)
      | inr e ↦ rw e (record {
        conns = f;
        server = record { held = w.held; room = w.room; some_idle = w.some_idle; spare = e };
        kept = λ u lt. refl;
        grown = omega arith;
      })
    ]
