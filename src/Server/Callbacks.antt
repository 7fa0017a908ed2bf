-- ===== src/Server/Callbacks.antt =====
-- The callbacks that libevent makes, and the methods that stop the server and handle signals
-- (tcpeventserver.cpp, http_conn.h). A callback runs as a whole.
pub mod Listener
pub mod Reading
pub mod Request
pub mod Reply
pub mod Signals
use vs_http_server.Prelude.{
  ℕ, zero, suc, ◌+◌, ◌-◌, ◌%◌, ◌≡◌, Bool, true, false, Option, none, some, List, [], ◌∷◌, ◌++◌,
  length, ltb, leb, ◌==◌, ◌&&◌, if◌then◌else◌, get_elem?, write_at, ℤ, pos, negsuc, eq_ℤ, Outcome,
  ret, fault, ◌>>=◌, or_fault,
}
use vs_http_server.CString.{Bytes, string_at}
use vs_http_server.Job.State.{Job}
use vs_http_server.Pool.State.{Pool, move_to_busy_list, check_if_in_busy_list}
use vs_http_server.Pool.Dispatch.{run, Dispatch, wait_max_num, wait_idle, assigned}
use vs_http_server.Conn.State.{
  Conn, Heap, ConnQueue, max_open_fd, load_conn, store_conn, insert_conn, delete_conn,
}
use vs_http_server.Server.State.{Server, set_queue, add_event_thread}

-- `ListenerEventCb`, on the idle list and `idle_thread_count`: the thread whose pipe gets the socket,
-- and the next count. The loop ends in its first round, or divides by zero.
unfoldable pub choose_thread : List ℕ → ℕ → Outcome (ℕ × ℕ)
choose_thread idle i =
    if length idle == 0
    then fault
    else (do t ← or_fault (get_elem? idle i); ret (t, (i + 1) % length idle))

unfoldable pub listener_event : Server → Outcome (ℕ × Server)
unfolding choose_thread
listener_event s = do
  (t, next) ← choose_thread s.main.idle_list s.idle_thread_count
  ret (t, record s { idle_thread_count = next })

-- `MAX_OPEN_FD < m_CurrentConnNum + 1`, and `m_CurrentConnNum == MAX_OPEN_FD-1`.
unfoldable pub is_full : ℤ → Bool
is_full (pos n) = ltb max_open_fd (n + 1)
is_full (negsuc n) = false

unfoldable pub is_nearly_full : ℤ → Bool
is_nearly_full (pos n) = n == max_open_fd - 1
is_nearly_full (negsuc n) = false

-- The end of `InsertConn` on the queue of the event thread `t`: a full thread is no longer idle.
unfoldable pub retire_thread : ℕ → Server → Server
unfolding is_full move_to_busy_list
retire_thread t s =
    if is_full (s.queue t).current_conn_num
    then record s { main = move_to_busy_list t s.main }
    else s

-- `m_IdleList.size() == 1` and the one idle thread is nearly full.
unfoldable pub needs_thread : List ℕ → (ℕ → ConnQueue) → Bool
unfolding is_nearly_full
needs_thread [] f = false
needs_thread (t ∷ []) f = is_nearly_full (f t).current_conn_num
needs_thread (t ∷ u ∷ ts) f = false

unfoldable pub prepare_thread : (ℕ → Bool) → Server → Outcome Server
unfolding needs_thread add_event_thread
prepare_thread starts s =
    if needs_thread s.main.idle_list s.queue then add_event_thread starts s else ret s

-- `work->connectQueue.InsertConn( confd, work, bev )`.
unfoldable pub insert_event : (ℕ → Bool) → ℤ → ℕ → ℕ → Server → Outcome (Option ℕ × Server)
unfolding insert_conn retire_thread prepare_thread
insert_event starts fd t bev s = do
  (found, q, h) ← insert_conn fd t bev (s.queue t) s.heap
  elim found [
    | none ↦ ret (none, s)
    | some c ↦ do
      k ←
          prepare_thread starts
            (retire_thread t (record s { queue = set_queue t q s.queue; heap = h }))
      ret (some c, k)
  ]

-- `ThreadProcess` on the thread `t`, with what it reads from the pipe and the new bufferevent. The
-- result tells whether the loop of the thread goes on.
unfoldable pub thread_process : (ℕ → Bool) → ℕ → ℤ → Option ℕ → Server → Outcome (Bool × Server)
unfolding insert_event load_conn store_conn
thread_process starts t (negsuc zero) bev s = ret (false, s)
thread_process starts t confd none s = ret (false, s)
thread_process starts t confd (some bev) s = do
  (found, k) ← insert_event starts confd t bev s
  c ← or_fault found
  conn ← load_conn k.heap c
  ret (
    true,
    record k {
      heap = store_conn k.heap c (record conn { read_evbuf = some bev; write_evbuf = some bev });
    },
  )

-- `GetReadBuffer( m_read_buf, len )`, where the buffer of the bufferevent holds `input`, of `len`
-- bytes: they go to the start of `m_read_buf`, whatever is there.
unfoldable pub get_read_buffer : Bytes → Job → Outcome Job
get_read_buffer input j =
    if leb (length input) (length j.read_buf)
    then ret
        (record j { read_buf = write_at j.read_buf 0 input; read_idx = j.read_idx + length input })
    else fault

-- `ReadEventCb` up to the call of `Run`: the text is printed up to its NUL.
unfoldable pub read_job : Bytes → Job → Outcome Job
unfolding get_read_buffer
read_job input j = do k ← get_read_buffer input j; _ ← string_at k.read_buf; ret k

-- `ReadEventCb` on the connection `c`: the new state, and how the call of `Run` goes on, if there is one.
unfoldable pub read_event : (ℕ → Bool) → ℕ → Bytes → Server → Outcome (Option Dispatch × Server)
unfolding read_job load_conn store_conn run
read_event starts c input s = do
  conn ← load_conn s.heap c
  _ ← or_fault conn.read_evbuf
  j ← read_job input conn.job
  let k = record s { heap = store_conn s.heap c (record conn { job = j }) }
  if length input == 0 then ret (none, k) else (do d ← run starts c none s.worker; ret (some d, k))

-- The first of the tests of `CloseEventCb` that holds, or none.
pub data CloseEvent : Type 0 where
  eof error timeout other : CloseEvent

abbrev pub is_finished : CloseEvent → Bool
is_finished eof = true
is_finished error = true
is_finished _ = false

-- `CheckIfInBusyList( conn->m_Thread, conn )` of the pool of the event threads.
unfoldable pub drop_conn : ℕ → ℕ → Server → Outcome Server
unfolding check_if_in_busy_list delete_conn
drop_conn t c s = do
  (q, h) ← delete_conn c (s.queue t) s.heap
  ret (record s { main = check_if_in_busy_list t s.main; queue = set_queue t q s.queue; heap = h })

unfoldable pub close_event : CloseEvent → ℕ → ℕ → Server → Outcome Server
unfolding drop_conn load_conn store_conn
close_event event bev c s = do
  conn ← load_conn s.heap c
  let k = record s { heap = store_conn s.heap c (record conn { read_evbuf = some bev }) }
  if is_finished event then (do t ← or_fault conn.thread; drop_conn t c k) else ret k

-- The pipes that `StopRun` writes to, for `i` from the first argument on.
unfoldable pub stop_run : ℕ → ℕ → List ℕ → Outcome (List ℕ)
stop_run i zero idle = ret []
stop_run i (suc count) idle = do
  t ← or_fault (get_elem? idle i)
  rest ← stop_run (suc i) count idle
  ret (t ∷ rest)

-- `m_SignalEvents`: the event of each signal that has one.
abbrev pub SignalEvents : Type 0
SignalEvents = ℤ → Option ℕ

abbrev pub set_signal : ℤ → Option ℕ → SignalEvents → SignalEvents
set_signal sig ev m sig2 = if eq_ℤ sig2 sig then ev else m sig2

-- `DeleteSignalEvent`: the result, the events that `event_del` gets, and the new table.
unfoldable pub delete_signal_event : ℤ → SignalEvents → Bool × List ℕ × SignalEvents
delete_signal_event sig m = elim (m sig) [
  | none ↦ (false, [], m)
  | some ev ↦ (true, ev ∷ [], set_signal sig none m)
]

-- `AddSignalEvent`, with the answer of `evsignal_new` and whether `event_add` succeeds. (On failure
-- `event_del` gets the event that there is, or NULL.)
unfoldable pub add_signal_event : ℤ → Option ℕ → Bool → SignalEvents → Bool × List ℕ × SignalEvents
unfolding delete_signal_event
add_signal_event sig none added m = (false, [], m)
add_signal_event sig (some ev) false m = (false, ev ∷ [], m)
add_signal_event sig (some ev) true m =
    let (_, deleted, rest) = delete_signal_event sig m in
    (true, deleted, set_signal sig (some ev) rest)
