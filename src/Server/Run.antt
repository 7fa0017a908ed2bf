-- ===== src/Server/Run.antt =====
-- `StartRun` and the timers of TcpEventServer (tcpeventserver.cpp). What libevent answers is an argument.
use vs_http_server.Prelude.{
  ℕ, zero, ◌+◌, ◌==◌, Bool, true, false, not, Option, none, some, List, [], ◌∷◌, ◌++◌,
  if◌then◌else◌, ℤ, negsuc,
}

-- How `StartRun` ends: the program exits, or the loop is left, with whether the listener was made and
-- whether it was freed. (Behind the loop the function returns no value.)
pub data RunEnd : Type 0 where
  exited : RunEnd
  left : Bool → Bool → RunEnd

-- The port, where `EXIT_CODE` is -1, and whether `evconnlistener_new_bind` makes a listener.
unfoldable pub start_run : ℤ → Bool → RunEnd
start_run (negsuc zero) bound = left false false
start_run port false = exited
start_run port true = left true true

-- The event objects that `AddTimerEvent` has made, with whether each is `EV_PERSIST`, and those that are
-- pending in libevent. An object gets the next number, and none is ever deleted.
pub record Timers : Type 0 where
  pub next_event : ℕ
  pub events : List (ℕ × Bool)
  pub pending : ℕ → Bool

-- `AddTimerEvent`, with `once` and whether `event_add` succeeds: NULL, or the event.
unfoldable pub add_timer_event : Bool → Bool → Timers → Option ℕ × Timers
add_timer_event once added t =
    let ev = t.next_event in
    let made : Timers = record t {
      next_event = ev + 1;
      events = t.events ++ ((ev, not once) ∷ []);
      pending = λ e. if e == ev then added else t.pending e;
    } in
    (if added then some ev else none, made)

-- `DeleteTImerEvent`, with whether `event_del` answers 0.
unfoldable pub delete_timer_event : Bool → ℕ → Timers → Bool × Timers
delete_timer_event answer ev t = (
  answer,
  record t {
    pending = λ e. if e == ev then (if answer then false else t.pending e) else t.pending e;
  },
)
