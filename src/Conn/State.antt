-- ===== src/Conn/State.antt =====
-- The connections in memory, and the doubly linked list of ConnQueue between two sentinels. An
-- object is known by its address; a new one gets the next address, and a deleted one is gone, so
-- that a use of it is a fault.
use vs_http_server.Prelude.{
  ℕ, zero, suc, Bool, true, Option, none, some, ltb, ◌==◌, if◌then◌else◌, ℤ, pos, negsuc, Outcome,
  ret, spent, ◌>>=◌, or_fault,
}
use vs_http_server.Job.State.{Job, construct}

-- `Conn`, with its base class. `m_Thread`, `m_Bev` and the two buffers have no value at first;
-- a thread and a bufferevent are numbers, and a buffer is known by its bufferevent.
pub record Conn : Type 0 where
  pub fd : ℤ
  pub prev : Option ℕ
  pub next : Option ℕ
  pub thread : Option ℕ
  pub bev : Option ℕ
  pub read_evbuf : Option ℕ
  pub write_evbuf : Option ℕ
  pub job : Job

-- `memory` is what a new object finds at its address.
pub record Heap : Type 0 where
  pub next_addr : ℕ
  pub cell : ℕ → Option Conn
  pub memory : ℕ → Job

abbrev pub put_cell : ℕ → Option Conn → (ℕ → Option Conn) → ℕ → Option Conn
put_cell a c f b = if b == a then c else f b

-- `Conn(int)`.
unfoldable pub construct_conn : ℤ → Job → Conn
construct_conn fd memory = record {
  fd = fd;
  prev = none;
  next = none;
  thread = none;
  bev = none;
  read_evbuf = none;
  write_evbuf = none;
  job = construct memory;
}

-- The object that `new Conn(fd)` makes, at `next_addr`.
unfoldable pub new_conn : ℤ → Heap → Heap
unfolding construct_conn
new_conn fd h = record h {
  next_addr = suc h.next_addr;
  cell = put_cell h.next_addr (some (construct_conn fd (h.memory h.next_addr))) h.cell;
}

-- The object at an address, and a write into it.
unfoldable pub load_conn : Heap → ℕ → Outcome Conn
load_conn h a = or_fault (h.cell a)

unfoldable pub store_conn : Heap → ℕ → Conn → Heap
store_conn h a c = record h { cell = put_cell a (some c) h.cell }

unfoldable pub set_next : ℕ → Option ℕ → Heap → Outcome Heap
unfolding load_conn store_conn
set_next a p h = do c ← load_conn h a; ret (store_conn h a (record c { next = p }))

unfoldable pub set_prev : ℕ → Option ℕ → Heap → Outcome Heap
unfolding load_conn store_conn
set_prev a p h = do c ← load_conn h a; ret (store_conn h a (record c { prev = p }))

unfoldable pub delete_cell : ℕ → Heap → Heap
delete_cell a h = record h { cell = put_cell a none h.cell }

pub record ConnQueue : Type 0 where
  pub head : ℕ
  pub tail : ℕ
  pub current_conn_num : ℤ

abbrev pub max_open_fd : ℕ
max_open_fd = 2000

-- `m_CurrentConnNum + 1`, `m_CurrentConnNum - 1` and the test `m_CurrentConnNum < n`.
unfoldable pub suc_ℤ : ℤ → ℤ
suc_ℤ (pos n) = pos (suc n)
suc_ℤ (negsuc zero) = pos zero
suc_ℤ (negsuc (suc n)) = negsuc n

unfoldable pub pred_ℤ : ℤ → ℤ
pred_ℤ (pos zero) = negsuc zero
pred_ℤ (pos (suc n)) = pos n
pred_ℤ (negsuc n) = negsuc (suc n)

unfoldable pub is_below : ℤ → ℕ → Bool
is_below (pos m) n = ltb m n
is_below (negsuc m) n = true

-- `ConnQueue()`: the two sentinels, and the writes into them.
unfoldable pub new_queue : Heap → Outcome (ConnQueue × Heap)
unfolding new_conn set_next set_prev
new_queue h = do
  let head = h.next_addr
  let tail = suc h.next_addr
  let made = new_conn (pos 0) (new_conn (pos 0) h)
  a ← set_next tail none made
  b ← set_prev head none a
  c ← set_next head (some tail) b
  d ← set_prev tail (some head) c
  ret (record { head = head; tail = tail; current_conn_num = pos 0 }, d)

-- The writes of `InsertConn` into the list, with the new connection at `c`.
unfoldable pub link_conn : ℕ → ℕ → Heap → Outcome Heap
unfolding load_conn set_next set_prev
link_conn head c h = do
  first ← load_conn h head
  h1 ← set_prev c (some head) h
  again ← load_conn h1 head
  h2 ← set_next c again.next h1
  h3 ← set_next head (some c) h2
  next ← or_fault first.next
  set_prev next (some c) h3

-- `InsertConn` up to the new count: the connection, or NULL at the limit.
unfoldable pub insert_conn : ℤ → ℕ → ℕ → ConnQueue → Heap → Outcome (Option ℕ × ConnQueue × Heap)
unfolding new_conn store_conn link_conn load_conn suc_ℤ is_below
insert_conn fd t bev q h =
    if is_below q.current_conn_num max_open_fd
    then (do
      let c = h.next_addr
      let made = new_conn fd h
      conn ← load_conn made c
      linked ←
          link_conn q.head c (store_conn made c (record conn { thread = some t; bev = some bev }))
      ret (some c, record q { current_conn_num = suc_ℤ q.current_conn_num }, linked))
    else ret (none, q, h)

-- `c->m_Prev->m_Next = c->m_Next; c->m_Next->m_Prev = c->m_Prev`.
unfoldable pub unlink_conn : ℕ → Heap → Outcome Heap
unfolding load_conn set_next set_prev
unlink_conn c h = do
  conn ← load_conn h c
  before ← or_fault conn.prev
  h1 ← set_next before conn.next h
  again ← load_conn h1 c
  behind ← or_fault again.next
  set_prev behind again.prev h1

unfoldable pub delete_conn : ℕ → ConnQueue → Heap → Outcome (ConnQueue × Heap)
unfolding unlink_conn delete_cell pred_ℤ
delete_conn c q h = do
  unlinked ← unlink_conn c h
  ret (record q { current_conn_num = pred_ℤ q.current_conn_num }, delete_cell c unlinked)

-- The loop of `~ConnQueue()`, with fuel for its rounds.
unfoldable pub free_conns : ℕ → Option ℕ → Heap → Outcome Heap
unfolding load_conn delete_cell
free_conns fuel none h = ret h
free_conns zero (some a) h = spent
free_conns (suc fuel) (some a) h = do c ← load_conn h a; free_conns fuel c.next (delete_cell a h)

unfoldable pub delete_queue : ℕ → ConnQueue → Heap → Outcome Heap
unfolding free_conns
delete_queue fuel q h = free_conns fuel (some q.head) h
