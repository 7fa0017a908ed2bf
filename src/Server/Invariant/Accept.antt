-- ===== src/Server/Invariant/Accept.antt =====
-- `ThreadProcess` keeps the invariant of the server.
use vs_http_server.Prelude.{
  ℕ, ◌+◌, ◌<◌, ◌≤◌, ℤ, ◌≡◌, ◌≢◌, refl, ap, sym, ◌∙◌, Option, none, some, List, ◌∷◌, arith, length,
  ◌==◌, ==_iff, Bool, Bool-cases, inl, inr, true, pos, Returns, Returns->>=,
}
use vs_http_server.Pool.Counts.{count}
use vs_http_server.Pool.State.{u32, move_to_busy_list}
use vs_http_server.Conn.State.{Conn, Heap, ConnQueue, max_open_fd, load_conn, insert_conn}
use vs_http_server.Conn.Insert.{Inserted, insert_conn-Inserted}
use vs_http_server.Conn.Frame.{load_conn-is}
use vs_http_server.Server.State.{Server, set_queue}
use vs_http_server.Server.Callbacks.{
  is_full, retire_thread, prepare_thread, insert_event, thread_process,
}
use vs_http_server.Server.Invariant.{IsHeld, IsServer, thread_in}
use vs_http_server.Server.Invariant.Frame.{
  set_conns, IsHeld-set, IsHeld-store, thread_in-bare, objects-apart, objects-below,
}
use vs_http_server.Server.Invariant.Retire.{
  idle-known, retire_thread-Retired, Prepared, prepare_thread-Prepared, needs_thread-spare,
}

pub live_of : (u : Option Conn) (x : ℕ) → thread_in u ≡ some x → (d : Conn) × (u ≡ some d)
live_of none x e = cc
live_of (some d) x e = (d, refl)

-- Once the connection is in the list of its thread.
insert_conn-IsHeld :
    (fd : ℤ) (t bev : ℕ) (f : ℕ → List ℕ) (s : Server) (r : Option ℕ × ConnQueue × Heap)
    → IsHeld f s
    → t < s.main.next_thread
    → length (f t) < max_open_fd
    → Inserted fd t bev (f t) (s.queue t) s.heap r
    → IsHeld
        (set_conns t (s.heap.next_addr ∷ f t) f)
        (record s { queue = set_queue t r.1 s.queue; heap = r.2 })
insert_conn-IsHeld fd t bev f s r v lt room i =
    let c = s.heap.next_addr in
    IsHeld-set t (c ∷ f t) r.1 r.2 s.main f s v (λ u lu ne. lu) i.queue
      (λ u a lu ne m.
        i.frame a
          (ground (arith, objects-apart f s t u a v lt lu ne m, objects-below f s u a v lu m)))
      (λ u a lu ne m.
        ground (arith, objects-apart f s t u a v lt lu ne m, objects-below f s u a v lu m, i.ends))
      v.pool room
      (λ b m. elim (Bool-cases (b == c)) [
        | inl e ↦ new_owner b ((==_iff b c).0 e)
        | inr e ↦
            sym (thread_in-bare (r.2.cell b))
            ∙ ap thread_in (i.others b (ground arith))
            ∙ thread_in-bare (s.heap.cell b)
            ∙ v.owner t b lt (ground arith)
      ])
  where
    new_owner : (b : ℕ) → b ≡ s.heap.next_addr → thread_in (r.2.cell b) ≡ some t
    new_owner b e =
        ap (λ a. thread_in (r.2.cell a)) e
        ∙ sym (thread_in-bare (r.2.cell s.heap.next_addr))
        ∙ ap thread_in i.conn

-- What an accepted socket leaves: the new connection is the first of its thread.
pub record Accepted (t : ℕ) (f : ℕ → List ℕ) (s k : Server) : Type 0 where
  pub conns : ℕ → List ℕ
  pub server : IsServer conns k
  pub first : conns t ≡ s.heap.next_addr ∷ f t
  pub others : (u : ℕ) → u < s.main.next_thread → u ≢ t → conns u ≡ f u
  pub grown : s.main.next_thread ≤ k.main.next_thread

retire_thread-next_thread :
    (t : ℕ) (s : Server) → (retire_thread t s).main.next_thread ≡ s.main.next_thread
unfolding retire_thread move_to_busy_list
retire_thread-next_thread t s = ground arith

retire_thread-thread_list :
    (t : ℕ) (s : Server) → (retire_thread t s).main.thread_list ≡ s.main.thread_list
unfolding retire_thread move_to_busy_list
retire_thread-thread_list t s = elim (Bool-cases (is_full (s.queue t).current_conn_num)) [
  | inl e ↦ rw e refl
  | inr e ↦ rw e refl
]

insert_event-Accepted :
    (starts : ℕ → Bool) (fd : ℤ) (t bev : ℕ) (f : ℕ → List ℕ) (s : Server)
    → IsServer f s
    → length s.main.thread_list + 1 < u32
    → 0 < count t s.main.idle_list
    → Returns
        (λ r. (r.0 ≡ some s.heap.next_addr) × Accepted t f s r.1)
        (insert_event starts fd t bev s)
unfolding insert_event
insert_event-Accepted starts fd t bev f s v small idle =
    let lt = idle-known t s.main v.held.pool idle in
    let c = s.heap.next_addr in
    let g = set_conns t (c ∷ f t) f in
    Returns->>= (Inserted fd t bev (f t) (s.queue t) s.heap) _
      (insert_conn fd t bev (s.queue t) s.heap) _
      (insert_conn-Inserted fd t bev (f t) (s.queue t) s.heap (v.held.queues t lt) (v.room t idle))
      λ r _ i.
        let k : Server = record s { queue = set_queue t r.1 s.queue; heap = r.2 } in
        let held = insert_conn-IsHeld fd t bev f s r v.held lt (v.room t idle) i in
        let w =
          retire_thread-Retired t g k held (omega arith) idle (λ u ne m. ground (arith, v.room u m))
            (λ e.
              needs_thread-spare t (length (f t)) s.main.idle_list s.queue v.spare idle
                (v.held.queues t lt).number (ground arith)) in
        rw i.made (
          Returns->>= (Prepared g (retire_thread t k)) _ (prepare_thread starts (retire_thread t k))
            _
            (prepare_thread-Prepared starts g (retire_thread t k) w
              (omega (arith, ap length (retire_thread-thread_list t k))))
            λ l _ p. (
              refl,
              record {
                conns = p.conns;
                server = p.server;
                first = p.kept t (omega (arith, retire_thread-next_thread t k)) ∙ ground arith;
                others = λ u lu ne.
                    p.kept u (omega (arith, retire_thread-next_thread t k)) ∙ ground arith;
                grown = omega (arith, p.grown, retire_thread-next_thread t k);
              },
            ))

-- In a server whose invariant holds, with fewer than 2 ^ 32 - 1 event threads, `ThreadProcess` on an
-- idle thread that reads a socket, and gets a bufferevent for it, makes no bad access and goes on; the
-- invariant holds again, and the new connection is the first of the thread.
pub thread_process-Accepted :
    (starts : ℕ → Bool) (fd t bev : ℕ) (f : ℕ → List ℕ) (s : Server)
    → IsServer f s
    → length s.main.thread_list + 1 < u32
    → 0 < count t s.main.idle_list
    → Returns
        (λ r. (r.0 ≡ true) × Accepted t f s r.1)
        (thread_process starts t (pos fd) (some bev) s)
unfolding thread_process
thread_process-Accepted starts fd t bev f s v small idle =
    let lt = idle-known t s.main v.held.pool idle in
    let c = s.heap.next_addr in
    Returns->>= _ _ (insert_event starts (pos fd) t bev s) _
      (insert_event-Accepted starts (pos fd) t bev f s v small idle)
      λ r _ (e, a).
        let mine : 0 < count c (a.conns t) = rw a.first (ground arith) in
        let (conn, live) =
          live_of (r.1.heap.cell c) t (a.server.held.owner t c (omega (arith, a.grown)) mine) in
        rw e (
          Returns->>= (λ m. m ≡ conn) _ (load_conn r.1.heap c) _ (load_conn-is r.1.heap c conn live)
            λ m _ same. rw same (
              refl,
              record {
                conns = a.conns;
                server = record {
                  held = IsHeld-store a.conns r.1 c conn _ a.server.held live refl refl refl;
                  room = a.server.room;
                  some_idle = a.server.some_idle;
                  spare = a.server.spare;
                };
                first = a.first;
                others = a.others;
                grown = a.grown;
              },
            ))
