-- ===== src/Server/Tests.antt =====
-- The theorems of the server at concrete states.
use vs_http_server.Prelude.{
  ℕ, false, none, ◌+◌, ◌-◌, ◌<◌, ◌≤◌, ◌≡◌, ◌⊎◌, refl, true, some, List, [], ◌∷◌, ◌++◌, arith,
  length, drop, get_elem?, pos, replicate, write_at, ret, fault, ◌>>=◌, Returns, Allows,
}
use vs_http_server.CString.{Bytes, codes, string_at}
use vs_http_server.Job.Tests.{memory, one_file}
use vs_http_server.Job.State.{FileStat, Method, construct, read_buffer_size}
use vs_http_server.Job.Reader.{process_read, is_readable, is_dir}
use vs_http_server.Job.Reader.Complete.{Answered}
use vs_http_server.Job.Reader.Request.{request_text}
use vs_http_server.Server.Callbacks.Reply.{IsPage, Replied, process-request}
use vs_http_server.Job.Process.{process}
use vs_http_server.Job.Writer.{before}
use vs_http_server.Server.Callbacks.Request.{read_job-request}
use vs_http_server.Job.Reader.Ready.{BadBody, Answer}
use vs_http_server.Pool.State.{Pool, IsPool, new_main_worker, worker_pool}
use vs_http_server.Conn.Tests.{second_queue, second_heap, second_queue-IsQueue}
use vs_http_server.Server.State.{Server, setup}
use vs_http_server.Server.Stop.{stop_run-take}
use vs_http_server.Server.Invariant.{IsServer}
use vs_http_server.Server.Invariant.Accept.{Accepted, thread_process-Accepted}
use vs_http_server.Server.Invariant.Close.{Dropped, close_event-IsServer}
use vs_http_server.Server.Invariant.Setup.{no_conns, setup-IsServer}
use vs_http_server.Server.Callbacks.{
  stop_run, choose_thread, read_job, eof, close_event, thread_process, needs_thread, is_nearly_full,
}
use vs_http_server.Server.Callbacks.Listener.{
  choose_thread-Chooses, choose_threads, choose_threads-all,
}
use vs_http_server.Server.Callbacks.Reading.{
  zeros, first_read, read_job-Answer, read_job-overwrites,
}

abbrev idle : List ℕ
idle = 4 ∷ (7 ∷ (9 ∷ []))

-- The last thread of the list, behind which the count is 0 again.
choose_thread-Chooses_example :
    (3 ≤ 2) × (choose_thread idle 2 ≡ fault)
    ⊎ ((x : ℕ) × (next : ℕ) × (choose_thread idle 2 ≡ ret (x, next))
        × (get_elem? idle 2 ≡ some x)
        × (next < 3))
choose_thread-Chooses_example = choose_thread-Chooses idle 2

choose_threads-all_example : choose_threads 3 idle 1 ≡ ret (7 ∷ (9 ∷ (4 ∷ [])), 1)
choose_threads-all_example = choose_threads-all idle 1 (omega arith)

abbrev input : Bytes
input = codes "GET /a HTTP/1.1\r\n\r\n"

read_job-Answer_example :
    Allows
      (BadBody one_file (first_read input memory))
      (Answer one_file (first_read input memory))
      (read_job input (construct memory) >>= process_read one_file)
read_job-Answer_example = read_job-Answer one_file memory input refl (omega arith)

abbrev half : Bytes
half = codes "GET /a"

abbrev rest : Bytes
rest = codes "bc"

read_job-overwrites_example :
    (read_job half (construct memory) >>= read_job rest)
    ≡ ret (record (construct memory) {
      read_buf = rest ++ (drop (length rest) half ++ zeros (read_buffer_size - length half));
      read_idx = length half + length rest;
    })
read_job-overwrites_example = read_job-overwrites memory half rest (omega arith) (omega arith)

-- The connection 2 is the only one, of the only event thread 0.
abbrev event_pool : Pool
event_pool = record {
  max_num = 30;
  avail_low = 3;
  avail_high = 11;
  avail_num = 1;
  init_num = 1;
  thread_list = 0 ∷ [];
  busy_list = [];
  idle_list = 0 ∷ [];
  next_thread = 1;
  worker = λ t. new_main_worker;
}

event_pool-IsPool : IsPool event_pool
event_pool-IsPool = record {
  avail = refl;
  sizes = refl;
  parts = λ t. ground arith;
  single = λ t. ground arith;
  fresh = λ t le. ground arith;
}

abbrev server : Server
server = record {
  heap = second_heap;
  queue = λ t. second_queue;
  main = event_pool;
  worker = worker_pool (λ t. true);
  idle_thread_count = 0;
}

abbrev conns : ℕ → List ℕ
conns t = 2 ∷ []

server-IsServer : IsServer conns server
unfolding needs_thread is_nearly_full
server-IsServer = record {
  held = record {
    pool = event_pool-IsPool;
    queues = λ t lt. second_queue-IsQueue;
    apart = λ a t u lt lu m n. omega arith;
    owner = λ t c lt m. ground arith;
    most = λ t lt. omega arith;
    unused = λ a le. ground arith;
  };
  room = λ t m. omega arith;
  some_idle = omega arith;
  spare = refl;
}

thread_process-Accepted_example :
    Returns
      (λ r. (r.0 ≡ true) × Accepted 0 conns server r.1)
      (thread_process (λ t. true) 0 (pos 9) (some 7) server)
thread_process-Accepted_example =
    thread_process-Accepted (λ t. true) 9 0 7 conns server server-IsServer (omega arith)
      (omega arith)

close_event-IsServer_example :
    Returns
      (λ k. (true ≡ true) × Dropped 0 2 conns k ⊎ (true ≡ false) × IsServer conns k)
      (close_event eof 6 2 server)
close_event-IsServer_example =
    close_event-IsServer eof 6 0 2 conns server server-IsServer (omega arith) (omega arith)
      (omega arith)

setup-IsServer_example :
    Returns
      (IsServer no_conns)
      (setup (λ t. true) 3 (record { next_addr = 0; cell = λ a. none; memory = λ a. memory }))
setup-IsServer_example =
    setup-IsServer (λ t. true) 3 (record { next_addr = 0; cell = λ a. none; memory = λ a. memory })
      (omega arith) (omega arith) (λ a le. refl)

read_job-request_example : Returns (Answered one_file memory.iv_count (codes "a.html")) (
    read_job
      (request_text Method.head
        (codes "a.html")
        (codes "Host: localhost" ∷ (codes "Connection: keep-alive" ∷ []))
        [])
      (construct memory)
    >>= process_read one_file)
read_job-request_example =
    read_job-request one_file memory Method.head (codes "a.html")
      (codes "Host: localhost" ∷ (codes "Connection: keep-alive" ∷ [])) refl (omega arith)
      (omega arith) (omega arith)

-- One of the three event threads is busy.
stop_run-take_example : stop_run 0 3 (4 ∷ (7 ∷ [])) ≡ fault
stop_run-take_example = stop_run-take 3 (4 ∷ (7 ∷ []))

-- The page of every path.
abbrev page_stat : FileStat
page_stat = record { st_mode = 33188; st_size = 5 }

page_stat-IsPage : (path : Bytes) → IsPage one_file path page_stat (codes "hello")
unfolding is_readable is_dir string_at
page_stat-IsPage path = record {
  found = refl;
  readable = refl;
  regular = refl;
  nonempty = λ e. omega (arith, e);
  bytes = write_at (replicate 4096 0) 0 (codes "hello");
  maps = refl;
  text = refl;
}

abbrev page_request : Bytes
page_request = request_text Method.get (codes "a.html") (codes "Host: localhost" ∷ []) []

process-request_example :
    Replied one_file
      (first_read page_request memory)
      page_stat
      (codes "hello")
      (before (read_job page_request (construct memory)) (process one_file (pos 4)))
process-request_example =
    process-request one_file (pos 4) (pos 0) memory Method.get (codes "a.html")
      (codes "Host: localhost" ∷ []) page_stat (codes "hello") refl refl refl (omega arith)
      (omega arith) (omega arith) (page_stat-IsPage _)
