-- ===== src/Conn/New.antt =====
-- What the constructor of ConnQueue makes.
use vs_http_server.Prelude.{
  ℕ, suc, ◌+◌, ◌<◌, ◌≤◌, ◌≡◌, refl, ap, ◌∙◌, Option, none, some, [], arith, pos, Returns,
  Returns->>=,
}
use vs_http_server.Conn.State.{
  Heap, ConnQueue, new_conn, construct_conn, set_next, set_prev, new_queue,
}
use vs_http_server.Conn.Pointers.{
  next_of, prev_of, IsLive, Relinked-trans, IsLive-Relinked, set_next-Relinked, set_prev-Relinked,
  bare,
}
use vs_http_server.Conn.Chain.{Pointers, put, put_apart}
use vs_http_server.Conn.Links.{IsQueue}
use vs_http_server.Conn.Insert.{bare-none}
use vs_http_server.Conn.Frame.{Relinked-frame}

made_heap : Heap → Heap
made_heap h = new_conn (pos 0) (new_conn (pos 0) h)

module _ (h : Heap) where
  IsLive-head : IsLive (made_heap h) h.next_addr
  unfolding made_heap new_conn
  IsLive-head = (construct_conn (pos 0) (h.memory h.next_addr), ground arith)

  IsLive-tail : IsLive (made_heap h) (suc h.next_addr)
  unfolding made_heap new_conn
  IsLive-tail = (construct_conn (pos 0) (h.memory (suc h.next_addr)), ground arith)

  made_heap-addr : (made_heap h).next_addr ≡ suc (suc h.next_addr)
  unfolding made_heap new_conn
  made_heap-addr = refl

  made_heap-unused :
      ((a : ℕ) → h.next_addr ≤ a → h.cell a ≡ none)
      → (a : ℕ) → 2 + h.next_addr ≤ a
      → (made_heap h).cell a ≡ none
  unfolding made_heap new_conn
  made_heap-unused unused a le = ground (arith, unused a (omega arith))

  made_heap-kept : (a : ℕ) → a < h.next_addr → (made_heap h).cell a ≡ h.cell a
  unfolding made_heap new_conn
  made_heap-kept a lt = ground arith

put_at : (a : ℕ) (v : Option ℕ) (p : Pointers) → put a v p a ≡ v
put_at a v p = ground arith

-- The sentinels of the empty queue stand at the next two addresses, and all other objects are as before.
pub record Made (h : Heap) (r : ConnQueue × Heap) : Type 0 where
  pub queue : IsQueue [] r.0 r.1
  pub name : r.1.next_addr ≡ 2 + h.next_addr
  pub ends : (r.0.head ≡ h.next_addr) × (r.0.tail ≡ suc h.next_addr)
  pub frame : (a : ℕ) → a < h.next_addr → r.1.cell a ≡ h.cell a

pub new_queue-Made :
    (h : Heap) → ((a : ℕ) → h.next_addr ≤ a → h.cell a ≡ none) → Returns (Made h) (new_queue h)
unfolding new_queue made_heap
new_queue-Made h unused =
    let head = h.next_addr in
    let tail = suc h.next_addr in
    let made = made_heap h in
    Returns->>= _ _ (set_next tail none made) _ (set_next-Relinked tail none made (IsLive-tail h))
      λ a _ ra.
        Returns->>= _ _ (set_prev head none a) _
          (set_prev-Relinked head none a (IsLive-Relinked _ _ made a head ra (IsLive-head h)))
          λ b _ rb.
            let rab = Relinked-trans _ _ _ _ made a b ra rb in
            Returns->>= _ _ (set_next head (some tail) b) _
              (set_next-Relinked head (some tail) b
                (IsLive-Relinked _ _ made b head rab (IsLive-head h)))
              λ c _ rc.
                let rac = Relinked-trans _ _ _ _ made b c rab rc in
                Returns->>= _ _ (set_prev tail (some head) c) _
                  (set_prev-Relinked tail (some head) c
                    (IsLive-Relinked _ _ made c tail rac (IsLive-tail h)))
                  λ d _ rd.
                    let r = Relinked-trans _ _ _ _ made c d rac rd in
                    record {
                      queue = record {
                        chain = (
                          ap (λ f. f head) (rd.next_is ∙ rc.next_is)
                              ∙ put_at head (some tail) (next_of b),
                          ap (λ f. f tail) rd.prev_is ∙ put_at tail (some head) (prev_of c),
                        );
                        single = λ t. ground arith;
                        last =
                            ap (λ f. f tail) (rd.next_is ∙ rc.next_is)
                            ∙ put_apart head (some tail) (next_of b) tail (ground arith)
                            ∙ ap (λ f. f tail) (rb.next_is ∙ ra.next_is)
                            ∙ put_at tail none (next_of made);
                        number = refl;
                        unused = λ x le. bare-none (d.cell x) (
                            r.same x
                            ∙ ap bare (
                                made_heap-unused h unused x
                                  (omega (arith, r.addr, made_heap-addr h, le))));
                      };
                      name = r.addr ∙ made_heap-addr h ∙ omega arith;
                      ends = (refl, refl);
                      frame = λ x lt.
                          Relinked-frame _ _ made d x r
                            (ap (λ f. f x) rc.next_is
                              ∙ put_apart head (some tail) (next_of b) x (ground arith)
                              ∙ ap (λ f. f x) (rb.next_is ∙ ra.next_is)
                              ∙ put_apart tail none (next_of made) x (ground arith))
                            (put_apart tail (some head) (prev_of c) x (ground arith)
                              ∙ ap (λ f. f x) (rc.prev_is ∙ rb.prev_is)
                              ∙ put_apart head none (prev_of a) x (ground arith)
                              ∙ ap (λ f. f x) ra.prev_is)
                          ∙ made_heap-kept h x lt;
                    }
