-- ===== src/Server/Invariant/Close.antt =====
-- `CloseEventCb` keeps the invariant of the server.
use vs_http_server.Prelude.{
  ℕ, suc, ◌+◌, ◌-◌, ◌<◌, ◌≤◌, ◌≡◌, refl, ap, sym, ◌∙◌, subst, none, some, List, [], ◌∷◌, ◌++◌,
  arith, length, length-append, ◌==◌, ==_ne, Bool-cases, inl, inr, ◌⊎◌, true, false, pos, ◌>>=◌,
  or_fault, Returns, Returns->>=, Returns-map,
}
use vs_http_server.Pool.Counts.{count, count-append, erase, count-erase, length-erase}
use vs_http_server.Pool.State.{Pool, u32, move_to_idle_list, check_if_in_busy_list}
use vs_http_server.Pool.Moves.{check_if_in_busy_list-IsPool}
use vs_http_server.Conn.State.{Heap, ConnQueue, max_open_fd, store_conn, load_conn, delete_conn}
use vs_http_server.Conn.Delete.{Deleted, delete_conn-Deleted}
use vs_http_server.Conn.Frame.{load_conn-is}
use vs_http_server.Server.State.{Server, set_queue}
use vs_http_server.Server.Callbacks.{needs_thread, CloseEvent, is_finished, drop_conn, close_event}
use vs_http_server.Server.Invariant.{IsHeld, IsServer, thread_in}
use vs_http_server.Server.Invariant.Retire.{is_nearly_full-pos, needs_thread-two}
use vs_http_server.Server.Invariant.Accept.{live_of}
use vs_http_server.Server.Invariant.Frame.{
  set_conns, IsHeld-set, IsHeld-store, thread_in-bare, objects-apart,
}

-- What the end of a connection leaves.
pub record Dropped (t c : ℕ) (f : ℕ → List ℕ) (k : Server) : Type 0 where
  pub server : IsServer (set_conns t (erase c (f t)) f) k
  pub gone : k.heap.cell c ≡ none
  pub not_busy : count t k.main.busy_list ≡ 0

-- A queue that has become shorter needs no new thread.
needs_thread-shorter :
    (t n : ℕ) (q : ConnQueue) (idle : List ℕ) (old : ℕ → ConnQueue)
    → needs_thread idle old ≡ false
    → q.current_conn_num ≡ pos n
    → (0 < count t idle → suc n < max_open_fd)
    → needs_thread idle (set_queue t q old) ≡ false
unfolding needs_thread
needs_thread-shorter t n q [] old e num small = refl
needs_thread-shorter t n q (x ∷ []) old e num small = elim (Bool-cases (x == t)) [
  | inl same ↦ rw same (
      is_nearly_full-pos q.current_conn_num n num
      ∙ ==_ne n (max_open_fd - 1) (omega (arith, small (ground arith))))
  | inr apart ↦ rw apart e
]
needs_thread-shorter t n q (x ∷ y ∷ ys) old e num small = refl

-- The lists of the pool behind `CheckIfInBusyList`.
check_if_in_busy_list-idle :
    (t : ℕ) (p : Pool)
    → let q = check_if_in_busy_list t p in
      (q.next_thread ≡ p.next_thread)
      × ((q.idle_list ≡ p.idle_list) ⊎ (q.idle_list ≡ p.idle_list ++ (t ∷ [])))
unfolding check_if_in_busy_list move_to_idle_list
check_if_in_busy_list-idle t p = elim (Bool-cases (count t p.busy_list == 0)) [
  | inl e ↦ rw e (refl, inl refl)
  | inr e ↦ rw e (refl, inr refl)
]

module _ (t c : ℕ) (f : ℕ → List ℕ) (s : Server) (r : ConnQueue × Heap) (v : IsServer f s)
    (small : length s.main.thread_list + 1 < u32) (lt : t < s.main.next_thread)
    (m : 0 < count c (f t)) (d : Deleted c (f t) (s.queue t) s.heap r) where
  shorter : suc (length (erase c (f t))) ≡ length (f t)
  shorter = length-erase c (f t) m

  pool : Pool
  pool = check_if_in_busy_list t s.main

  once : count c (f t) ≤ 1
  once = omega (arith, (v.held.queues t lt).single c, count-append c (f t) ((s.queue t).tail ∷ []))

  drop_conn-IsHeld :
      IsHeld
        (set_conns t (erase c (f t)) f)
        (record s { main = pool; queue = set_queue t r.0 s.queue; heap = r.1 })
  unfolding pool
  drop_conn-IsHeld =
      let (same, _) = check_if_in_busy_list-idle t s.main in
      IsHeld-set t (erase c (f t)) r.0 r.1 pool f s v.held (λ u lu ne. omega (arith, same)) d.queue
        (λ u a lu ne k. d.frame a (objects-apart f s t u a v.held lt lu ne k))
        (λ u a lu ne k. ground (
          arith,
          objects-apart f s t u a v.held lt lu ne k,
          count-append a (f t) ((s.queue t).tail ∷ []),
          count-append a (erase c (f t)) (r.0.tail ∷ []),
          count-erase a c (f t),
          d.ends,
        ))
        (check_if_in_busy_list-IsPool t s.main v.held.pool small).0
        (omega (arith, v.held.most t lt, shorter))
        (λ b k.
          sym (thread_in-bare (r.1.cell b))
          ∙ ap thread_in (d.others b (ground (arith, count-erase b c (f t), once)))
          ∙ thread_in-bare (s.heap.cell b)
          ∙ v.held.owner t b lt (ground (arith, count-erase b c (f t))))

  drop_conn-spare : needs_thread pool.idle_list (set_queue t r.0 s.queue) ≡ false
  unfolding pool
  drop_conn-spare = elim (check_if_in_busy_list-idle t s.main).1 [
    | inl e ↦ rw e (
        needs_thread-shorter t (length (erase c (f t))) r.0 s.main.idle_list s.queue v.spare
          d.queue.number (λ k. omega (arith, v.room t k, shorter)))
    | inr e ↦
        needs_thread-two pool.idle_list (set_queue t r.0 s.queue)
          (omega (arith, ap length e, length-append {0} s.main.idle_list (t ∷ []), v.some_idle))
  ]

  drop_conn-room :
      (u : ℕ) → 0 < count u pool.idle_list → length (set_conns t (erase c (f t)) f u) < max_open_fd
  unfolding pool
  drop_conn-room u k = elim (Bool-cases (u == t)) [
    | inl e ↦ rw e (omega (arith, v.held.most t lt, shorter))
    | inr e ↦ rw e (
        v.room u (elim (check_if_in_busy_list-idle t s.main).1 [
          | inl l ↦ omega (arith, ap (count u) l)
          | inr l ↦ ground (arith, ap (count u) l, count-append u s.main.idle_list (t ∷ []))
        ]))
  ]

  drop_conn-idle : 0 < length pool.idle_list
  unfolding pool
  drop_conn-idle = elim (check_if_in_busy_list-idle t s.main).1 [
    | inl e ↦ omega (arith, ap length e, v.some_idle)
    | inr e ↦ omega (arith, ap length e, length-append {0} s.main.idle_list (t ∷ []))
  ]

  drop_conn-Dropped_at :
      Dropped t c f (record s { main = pool; queue = set_queue t r.0 s.queue; heap = r.1 })
  unfolding pool
  drop_conn-Dropped_at = record {
    server = record {
      held = drop_conn-IsHeld;
      room = drop_conn-room;
      some_idle = drop_conn-idle;
      spare = drop_conn-spare;
    };
    gone = d.gone;
    not_busy = (check_if_in_busy_list-IsPool t s.main v.held.pool small).1;
  }

drop_conn-Dropped :
    (t c : ℕ) (f : ℕ → List ℕ) (s : Server)
    → IsServer f s
    → length s.main.thread_list + 1 < u32
    → t < s.main.next_thread
    → 0 < count c (f t)
    → Returns (Dropped t c f) (drop_conn t c s)
unfolding drop_conn pool
drop_conn-Dropped t c f s v small lt m =
    Returns->>= (Deleted c (f t) (s.queue t) s.heap) _ (delete_conn c (s.queue t) s.heap) _
      (delete_conn-Deleted c (f t) (s.queue t) s.heap (v.held.queues t lt) m)
      λ r _ d. drop_conn-Dropped_at t c f s r v small lt m d

-- In a server whose invariant holds, with fewer than 2 ^ 32 - 1 event threads, `CloseEventCb` on a
-- connection of a thread makes no bad access. At the end of the connection or an error on it, the
-- connection is gone from its thread and from memory, the thread is not busy, and the invariant holds
-- again; at another event the invariant holds with the same connections.
pub close_event-IsServer :
    (event : CloseEvent) (bev t c : ℕ) (f : ℕ → List ℕ) (s : Server)
    → IsServer f s
    → length s.main.thread_list + 1 < u32
    → t < s.main.next_thread
    → 0 < count c (f t)
    → Returns
        (λ k.
          (is_finished event ≡ true) × Dropped t c f k ⊎ (is_finished event ≡ false) × IsServer f k)
        (close_event event bev c s)
unfolding close_event
close_event-IsServer event bev t c f s v small lt m =
    let (conn, live) = live_of (s.heap.cell c) t (v.held.owner t c lt m) in
    let owns : conn.thread ≡ some t = sym (ap thread_in live) ∙ v.held.owner t c lt m in
    let k : Server = record s {
      heap = store_conn s.heap c (record conn { read_evbuf = some bev });
    } in
    let w : IsServer f k = record {
      held =
          IsHeld-store f s c conn (record conn { read_evbuf = some bev }) v.held live refl refl
            refl;
      room = v.room;
      some_idle = v.some_idle;
      spare = v.spare;
    } in
    Returns->>= (λ g. g ≡ conn) _ (load_conn s.heap c) _ (load_conn-is s.heap c conn live)
      λ g _ same. rw same (elim (Bool-cases (is_finished event)) [
        | inl e ↦ rw e (
            subst
              (λ u.
                Returns (λ x. (true ≡ true) × Dropped t c f x ⊎ (true ≡ false) × IsServer f x)
                  (or_fault u >>= λ o. drop_conn o c k))
              (sym owns)
              (Returns-map (Dropped t c f)
                (λ x. (true ≡ true) × Dropped t c f x ⊎ (true ≡ false) × IsServer f x)
                (drop_conn t c k) (λ l d. inl (refl, d)) (drop_conn-Dropped t c f k w small lt m)))
        | inr e ↦ rw e (inr (refl, w))
      ])
