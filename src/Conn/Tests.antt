-- ===== src/Conn/Tests.antt =====
-- The theorems of ConnQueue at concrete queues.
use vs_http_server.Prelude.{
  ℕ, refl, Option, none, some, List, [], ◌∷◌, arith, ◌==◌, if◌then◌else◌, pos, Returns,
}
use vs_http_server.Job.Tests.{memory}
use vs_http_server.Pool.Counts.{erase}
use vs_http_server.Conn.State.{Conn, Heap, ConnQueue, delete_queue}
use vs_http_server.Conn.Links.{IsQueue}
use vs_http_server.Conn.Free.{Freed, delete_queue-Freed}
use vs_http_server.Conn.Trace.{
  QueueCall, insert, delete, run_queue, Implements, run_queue-Implements,
}

-- An object with these pointers, of the event thread 0.
abbrev conn_with : Option ℕ → Option ℕ → Conn
conn_with prev next = record {
  fd = pos 8;
  prev = prev;
  next = next;
  thread = some 0;
  bev = some 6;
  read_evbuf = none;
  write_evbuf = none;
  job = memory;
}

-- The sentinels 0 and 1, with nothing between them.
abbrev pub first_queue : ConnQueue
first_queue = record { head = 0; tail = 1; current_conn_num = pos 0 }

abbrev first_heap : Heap
first_heap = record {
  next_addr = 2;
  cell = λ a.
      if a == 0
      then some (conn_with none (some 1))
      else if a == 1
      then some (conn_with (some 0) none)
      else none;
  memory = λ a. memory;
}

first_queue-IsQueue : IsQueue [] first_queue first_heap
first_queue-IsQueue = record {
  chain = (refl, refl);
  single = λ u. ground arith;
  number = refl;
  last = refl;
  unused = λ a le. ground arith;
}

-- The connection 2 alone.
abbrev pub second_queue : ConnQueue
second_queue = record { head = 0; tail = 1; current_conn_num = pos 1 }

abbrev pub second_heap : Heap
second_heap = record {
  next_addr = 3;
  cell = λ a.
      if a == 0
      then some (conn_with none (some 2))
      else if a == 1
      then some (conn_with (some 2) none)
      else if a == 2
      then some (conn_with (some 0) (some 1))
      else none;
  memory = λ a. memory;
}

pub second_queue-IsQueue : IsQueue (2 ∷ []) second_queue second_heap
second_queue-IsQueue = record {
  chain = (refl, refl, (refl, refl));
  single = λ u. ground arith;
  number = refl;
  last = refl;
  unused = λ a le. ground arith;
}

-- Two connections come, and the first of them goes.
abbrev calls : List QueueCall
calls = insert (pos 7) 5 6 ∷ (insert (pos 9) 5 8 ∷ (delete 2 ∷ []))

run_queue-Implements_example :
    Returns
      (Implements (record { conns = 3 ∷ []; next_name = 4 }))
      (run_queue calls first_queue first_heap)
unfolding erase
run_queue-Implements_example =
    run_queue-Implements calls (record { conns = []; next_name = 2 }) first_queue first_heap
      (record { queue = first_queue-IsQueue; name = refl }) (tt, (tt, (omega arith, tt)))

delete_queue-Freed_example :
    Returns (Freed (0 ∷ (2 ∷ (1 ∷ []))) second_heap) (delete_queue 3 second_queue second_heap)
delete_queue-Freed_example =
    delete_queue-Freed (2 ∷ []) second_queue second_heap 3 second_queue-IsQueue (omega arith)
