-- ===== src/Server/Invariant/Frame.antt =====
-- The server with another queue for one of its event threads.
use vs_http_server.Prelude.{
  ℕ, ◌<◌, ◌≤◌, ◌≡◌, ◌≢◌, refl, ap, sym, ◌∙◌, subst, Option, none, some, List, [], ◌∷◌, arith,
  length, ◌==◌, ==_iff, if◌then◌else◌, Bool-cases, inl, inr, ltb, ltb→lt, ltb→le,
}
use vs_http_server.Pool.Counts.{count, count-append}
use vs_http_server.Pool.State.{IsPool, Pool}
use vs_http_server.Conn.State.{store_conn, Conn, Heap, ConnQueue, max_open_fd}
use vs_http_server.Conn.Links.{IsQueue}
use vs_http_server.Conn.Chain.{Chain-fresh}
use vs_http_server.Conn.Pointers.{bare, next_of, prev_of, next_in, prev_in}
use vs_http_server.Conn.Frame.{IsQueue-store, objects, IsQueue-frame}
use vs_http_server.Server.State.{Server, set_queue}
use vs_http_server.Server.Invariant.{IsHeld, thread_in}

-- The connections, with those of the thread `t` replaced.
abbrev pub set_conns : ℕ → List ℕ → (ℕ → List ℕ) → ℕ → List ℕ
set_conns t xs f u = if u == t then xs else f u

pub count-objects :
    (c : ℕ) (xs : List ℕ) (q : ConnQueue) → 0 < count c xs → 0 < count c (objects xs q)
count-objects c xs q m = omega (arith, count-append c xs (q.tail ∷ []))

-- The objects of a queue are in memory.
pub IsLive-objects :
    (xs : List ℕ) (q : ConnQueue) (h : Heap)
    → IsQueue xs q h
    → (a : ℕ) → 0 < count a (objects xs q)
    → h.cell a ≢ none
IsLive-objects xs q h v a m e = omega (
  arith,
  Chain-fresh (next_of h) (prev_of h) q.head xs q.tail a v.chain (ap next_in e) (ap prev_in e),
)

-- The thread `t`, which may be new, has the queue `q` of the connections `xs`, in the heap `k` and
-- the pool `p`. The objects of the other threads are as before, and are not those of `q`.
module _ (t : ℕ) (xs : List ℕ) (q : ConnQueue) (k : Heap) (p : Pool) (f : ℕ → List ℕ) (s : Server)
    (v : IsHeld f s) (known : (u : ℕ) → u < p.next_thread → u ≢ t → u < s.main.next_thread)
    (new : IsQueue xs q k)
    (same : (u a : ℕ)
      → u < s.main.next_thread
      → u ≢ t
      → 0 < count a (objects (f u) (s.queue u))
      → k.cell a ≡ s.heap.cell a)
    (fresh : (u a : ℕ)
      → u < s.main.next_thread
      → u ≢ t
      → 0 < count a (objects (f u) (s.queue u))
      → count a (objects xs q) ≡ 0) where
  set_queue-IsQueue :
      (u : ℕ) → u < p.next_thread → IsQueue (set_conns t xs f u) (set_queue t q s.queue u) k
  set_queue-IsQueue u lt = elim (Bool-cases (u == t)) [
    | inl e ↦ rw e new
    | inr e ↦
        let ne : u ≢ t = ground arith in
        let old = known u lt ne in
        rw e (
          IsQueue-frame (f u) (s.queue u) s.heap k (v.queues u old) (λ a m. same u a old ne m)
            new.unused)
  ]

  set_queue-apart :
      (a u w : ℕ)
      → u < p.next_thread
      → w < p.next_thread
      → 0 < count a (objects (set_conns t xs f u) (set_queue t q s.queue u))
      → 0 < count a (objects (set_conns t xs f w) (set_queue t q s.queue w))
      → u ≡ w
  set_queue-apart a u w lu lw mu mw = elim (Bool-cases (u == t)) [
    | inl eu ↦ elim (Bool-cases (w == t)) [
      | inl ew ↦ (==_iff u t).0 eu ∙ sym ((==_iff w t).0 ew)
      | inr ew ↦
          let ne : w ≢ t = ground arith in
          absurd (let no : ⊥ = ground (arith, fresh w a (known w lw ne) ne) in no)
    ]
    | inr eu ↦
        let ne : u ≢ t = ground arith in
        elim (Bool-cases (w == t)) [
          | inl ew ↦ absurd (let no : ⊥ = ground (arith, fresh u a (known u lu ne) ne) in no)
          | inr ew ↦
              let nw : w ≢ t = ground arith in
              v.apart a u w (known u lu ne) (known w lw nw)
                (subst
                  (λ b. 0 < count a (objects (if b then xs else f u) (if b then q else s.queue u)))
                  eu mu)
                (subst
                  (λ b. 0 < count a (objects (if b then xs else f w) (if b then q else s.queue w)))
                  ew mw)
        ]
  ]

  pub IsHeld-set :
      IsPool p
      → length xs ≤ max_open_fd
      → ((c : ℕ) → 0 < count c xs → thread_in (k.cell c) ≡ some t)
      → IsHeld (set_conns t xs f) (record s { main = p; queue = set_queue t q s.queue; heap = k })
  IsHeld-set pool most own = record {
    pool = pool;
    queues = set_queue-IsQueue;
    apart = set_queue-apart;
    owner = λ u c lt m. elim (Bool-cases (u == t)) [
      | inl e ↦
          own c (subst (λ b. 0 < count c (if b then xs else f u)) e m)
          ∙ ap some (sym ((==_iff u t).0 e))
      | inr e ↦
          let ne : u ≢ t = ground arith in
          let old = known u lt ne in
          let mine = subst (λ b. 0 < count c (if b then xs else f u)) e m in
          ap thread_in (same u c old ne (count-objects c (f u) (s.queue u) mine))
          ∙ v.owner u c old mine
    ];
    most = λ u lt. elim (Bool-cases (u == t)) [
      | inl e ↦ rw e most
      | inr e ↦ rw e (v.most u (known u lt (ground arith)))
    ];
    unused = new.unused;
  }

-- The objects of two threads are apart.
pub objects-apart :
    (f : ℕ → List ℕ) (s : Server) (t u a : ℕ)
    → IsHeld f s
    → t < s.main.next_thread
    → u < s.main.next_thread
    → u ≢ t
    → 0 < count a (objects (f u) (s.queue u))
    → count a (objects (f t) (s.queue t)) ≡ 0
objects-apart f s t u a v lt lu ne m =
    elim (Bool-cases (count a (objects (f t) (s.queue t)) == 0)) [
      | inl e ↦ (==_iff (count a (objects (f t) (s.queue t))) 0).0 e
      | inr e ↦ absurd (ne (v.apart a u t lu lt m (ground arith)))
    ]

-- They stand before the next address.
pub objects-below :
    (f : ℕ → List ℕ) (s : Server) (u a : ℕ)
    → IsHeld f s
    → u < s.main.next_thread
    → 0 < count a (objects (f u) (s.queue u))
    → a < s.heap.next_addr
objects-below f s u a v lu m = elim (Bool-cases (ltb a s.heap.next_addr)) [
  | inl lt ↦ ltb→lt a s.heap.next_addr lt
  | inr ge ↦ absurd (
      IsLive-objects (f u) (s.queue u) s.heap (v.queues u lu) a m
        (v.unused a (ltb→le a s.heap.next_addr ge)))
]

pub thread_in-bare : (u : Option Conn) → thread_in (bare u) ≡ thread_in u
thread_in-bare none = refl
thread_in-bare (some c) = refl

-- Another pool with the same threads.
pub IsHeld-pool :
    (f : ℕ → List ℕ) (p : Pool) (s : Server)
    → IsHeld f s
    → IsPool p
    → p.next_thread ≡ s.main.next_thread
    → IsHeld f (record s { main = p })
IsHeld-pool f p s v pool e = record {
  pool = pool;
  queues = λ t lt. v.queues t (omega arith);
  apart = λ a t u lt lu. v.apart a t u (omega arith) (omega arith);
  owner = λ t c lt. v.owner t c (omega arith);
  most = λ t lt. v.most t (omega arith);
  unused = v.unused;
}

-- A write that leaves the pointers and the thread of a connection.
pub IsHeld-store :
    (f : ℕ → List ℕ) (s : Server) (a : ℕ) (c d : Conn)
    → IsHeld f s
    → s.heap.cell a ≡ some c
    → d.next ≡ c.next
    → d.prev ≡ c.prev
    → d.thread ≡ c.thread
    → IsHeld f (record s { heap = store_conn s.heap a d })
unfolding store_conn
IsHeld-store f s a c d v e n p same = record {
  pool = v.pool;
  queues = λ t lt. IsQueue-store (f t) (s.queue t) s.heap a c d (v.queues t lt) e n p;
  apart = v.apart;
  owner = λ t b lt m. thread_in-store b ∙ v.owner t b lt m;
  most = v.most;
  unused = λ b le. ground (arith, v.unused b le);
}
  where
    thread_in-store :
        (b : ℕ) → thread_in ((store_conn s.heap a d).cell b) ≡ thread_in (s.heap.cell b)
    thread_in-store b = ground (arith, same)
