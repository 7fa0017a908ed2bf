-- ===== src/Server/Invariant.antt =====
-- What holds of the server between two callbacks of the event threads.
pub mod Frame
pub mod Retire
pub mod Accept
pub mod Close
pub mod Setup
use vs_http_server.Prelude.{ℕ, ◌+◌, ◌<◌, ◌≤◌, ◌≡◌, false, Option, none, some, List, [], ◌∷◌, length}
use vs_http_server.Pool.Counts.{count}
use vs_http_server.Pool.State.{IsPool}
use vs_http_server.Conn.State.{Conn, max_open_fd}
use vs_http_server.Conn.Links.{IsQueue}
use vs_http_server.Conn.Frame.{objects}
use vs_http_server.Server.State.{Server}
use vs_http_server.Server.Callbacks.{needs_thread}

-- The event thread of the connection at an address.
abbrev pub thread_in : Option Conn → Option ℕ
thread_in none = none
thread_in (some c) = c.thread

-- The pool of the event threads is well formed; each thread has a well-formed queue of its own, with
-- its connections `f t`, at most MAX_OPEN_FD of them, which name their thread.
pub record IsHeld (f : ℕ → List ℕ) (s : Server) : Type 0 where
  pub pool : IsPool s.main
  pub queues : (t : ℕ) → t < s.main.next_thread → IsQueue (f t) (s.queue t) s.heap
  pub apart :
      (a t u : ℕ)
      → t < s.main.next_thread
      → u < s.main.next_thread
      → 0 < count a (objects (f t) (s.queue t))
      → 0 < count a (objects (f u) (s.queue u))
      → t ≡ u
  pub owner :
      (t c : ℕ) → t < s.main.next_thread → 0 < count c (f t) → thread_in (s.heap.cell c) ≡ some t
  pub most : (t : ℕ) → t < s.main.next_thread → length (f t) ≤ max_open_fd
  pub unused : (a : ℕ) → s.heap.next_addr ≤ a → s.heap.cell a ≡ none

-- And an idle thread has room; there is an idle thread, and if there is but one, it has room for
-- two connections.
pub record IsServer (f : ℕ → List ℕ) (s : Server) : Type 0 where
  pub held : IsHeld f s
  pub room : (t : ℕ) → 0 < count t s.main.idle_list → length (f t) < max_open_fd
  pub some_idle : 0 < length s.main.idle_list
  pub spare : needs_thread s.main.idle_list s.queue ≡ false
