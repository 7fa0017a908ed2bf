-- ===== src/Conn/Trace.antt =====
-- ConnQueue against its abstract view: a list of connections of at most `MAX_OPEN_FD`.
use vs_http_server.Prelude.{
  ℕ, suc, ◌+◌, ◌<◌, ◌≤◌, ◌≡◌, ap, ◌∙◌, subst, none, List, [], ◌∷◌, length, ltb, ltb→lt, ltb→le,
  Bool-cases, inl, inr, if◌then◌else◌, ℤ, Outcome, ret, ◌>>=◌, Returns, Returns->>=, Returns-map,
}
use vs_http_server.Pool.Counts.{erase, count}
use vs_http_server.Conn.State.{Heap, ConnQueue, max_open_fd, new_queue, insert_conn, delete_conn}
use vs_http_server.Conn.Links.{IsQueue}
use vs_http_server.Conn.New.{new_queue-Made}
use vs_http_server.Conn.Insert.{Inserted, insert_conn-Inserted, insert_conn-full}
use vs_http_server.Conn.Delete.{Deleted, delete_conn-Deleted}

pub data QueueCall : Type 0 where
  insert : ℤ → ℕ → ℕ → QueueCall
  delete : ℕ → QueueCall

-- The calls in order, on one queue.
unfoldable pub run_queue : List QueueCall → ConnQueue → Heap → Outcome (ConnQueue × Heap)
run_queue [] q h = ret (q, h)
run_queue (insert fd t bev ∷ calls) q h = do
  (_, r, k) ← insert_conn fd t bev q h
  run_queue calls r k
run_queue (delete c ∷ calls) q h = do (r, k) ← delete_conn c q h; run_queue calls r k

-- The abstract queue: the connections, the newest first, and the next name.
pub record Listing : Type 0 where
  pub conns : List ℕ
  pub next_name : ℕ

abbrev pub step : QueueCall → Listing → Listing
step (insert fd t bev) l =
    if ltb (length l.conns) max_open_fd
    then record { conns = l.next_name ∷ l.conns; next_name = suc l.next_name }
    else l
step (delete c) l = record l { conns = erase c l.conns }

-- Only a connection of the queue is deleted.
abbrev pub IsAllowed : QueueCall → Listing → Type 0
IsAllowed (insert fd t bev) l = Unit
IsAllowed (delete c) l = 0 < count c l.conns

abbrev pub AllAllowed : List QueueCall → Listing → Type 0
AllAllowed [] l = Unit
AllAllowed (call ∷ calls) l = IsAllowed call l × AllAllowed calls (step call l)

abbrev pub steps : List QueueCall → Listing → Listing
steps [] l = l
steps (call ∷ calls) l = steps calls (step call l)

-- The heap and the queue implement the abstract queue.
pub record Implements (l : Listing) (r : ConnQueue × Heap) : Type 0 where
  pub queue : IsQueue l.conns r.0 r.1
  pub name : r.1.next_addr ≡ l.next_name

-- From a heap that implements an abstract queue, calls that delete no connection but those of the
-- queue make no bad access, and the heap then implements what the same calls make of the abstract
-- queue.
pub run_queue-Implements :
    (calls : List QueueCall) (l : Listing) (q : ConnQueue) (h : Heap)
    → Implements l (q, h)
    → AllAllowed calls l
    → Returns (Implements (steps calls l)) (run_queue calls q h)
unfolding run_queue
run_queue-Implements [] l q h v ok = v
run_queue-Implements (insert fd t bev ∷ calls) l q h v ok =
    elim (Bool-cases (ltb (length l.conns) max_open_fd)) [
      | inl room ↦
          Returns->>= (Inserted fd t bev l.conns q h) _ (insert_conn fd t bev q h) _
            (insert_conn-Inserted fd t bev l.conns q h v.queue
              (ltb→lt (length l.conns) max_open_fd room))
            λ r _ i.
              run_queue-Implements calls (step (insert fd t bev) l) r.1 r.2
                (rw room (record {
                  queue = subst (λ n. IsQueue (n ∷ l.conns) r.1 r.2) v.name i.queue;
                  name = i.name ∙ ap suc v.name;
                }))
                ok.1
      | inr full ↦
          rw
            (insert_conn-full fd t bev l.conns q h v.queue
              (ltb→le (length l.conns) max_open_fd full))
            (run_queue-Implements calls (step (insert fd t bev) l) q h (rw full v) ok.1)
    ]
run_queue-Implements (delete c ∷ calls) l q h v ok =
    Returns->>= (Deleted c l.conns q h) _ (delete_conn c q h) _
      (delete_conn-Deleted c l.conns q h v.queue ok.0)
      λ r _ d.
        run_queue-Implements calls (step (delete c) l) r.0 r.1
          (record { queue = d.queue; name = d.name ∙ v.name }) ok.1

-- Where the addresses from the next one on are unused, `ConnQueue()` makes no bad access, and what
-- it makes implements the empty queue.
pub new_queue-Implements :
    (h : Heap)
    → ((a : ℕ) → h.next_addr ≤ a → h.cell a ≡ none)
    → Returns (Implements (record { conns = []; next_name = 2 + h.next_addr })) (new_queue h)
new_queue-Implements h unused =
    Returns-map _ _ (new_queue h) (λ r m. record { queue = m.queue; name = m.name })
      (new_queue-Made h unused)
