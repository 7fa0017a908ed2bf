-- ===== src/Conn/Links.antt =====
-- The pointers that `InsertConn` and `DeleteConn` write.
use vs_http_server.Prelude.{
  ℕ, ◌≤◌, ◌≡◌, ap, ap₂, ◌∙◌, none, some, List, [], ◌∷◌, ◌++◌, length, pos, Returns, Returns->>=,
  Returns-map,
}
use vs_http_server.Pool.Counts.{count}
use vs_http_server.Conn.State.{
  Heap, load_conn, set_next, set_prev, ConnQueue, link_conn, unlink_conn,
}
use vs_http_server.Conn.Chain.{put, put_kept, Chain}
use vs_http_server.Conn.Pointers.{
  next_of, prev_of, IsLive, IsLive-next_of, Relinked, IsLive-Relinked, Relinked-trans,
  load_conn-Returns, set_next-Relinked, set_prev-Relinked,
}

-- The queue holds these connections, the newest first.
pub record IsQueue (xs : List ℕ) (q : ConnQueue) (h : Heap) : Type 0 where
  pub chain : Chain (next_of h) (prev_of h) q.head xs q.tail
  pub single : (t : ℕ) → count t (q.head ∷ (xs ++ (q.tail ∷ []))) ≤ 1
  pub last : next_of h q.tail ≡ none
  pub number : q.current_conn_num ≡ pos (length xs)
  pub unused : (a : ℕ) → h.next_addr ≤ a → h.cell a ≡ none

pub link_conn-Relinked :
    (head c first : ℕ) (h : Heap)
    → next_of h head ≡ some first
    → IsLive h c
    → IsLive h first
    → Returns
        (Relinked
          (put head (some c) (put c (next_of h head) (next_of h)))
          (put first (some c) (put c (some head) (prev_of h)))
          h)
        (link_conn head c h)
unfolding link_conn
link_conn-Relinked head c first h e live_c live_first =
    let live_head = IsLive-next_of h head first e in
    Returns->>= _ _ (load_conn h head) _ (load_conn-Returns h head live_head)
      λ m _ (m_next, m_prev).
        Returns->>= _ _ (set_prev c (some head) h) _ (set_prev-Relinked c (some head) h live_c)
          λ h1 _ r1.
            Returns->>= _ _ (load_conn h1 head) _
              (load_conn-Returns h1 head (IsLive-Relinked _ _ h h1 head r1 live_head))
              λ n _ (n_next, n_prev).
                Returns->>= _ _ (set_next c n.next h1) _
                  (set_next-Relinked c n.next h1 (IsLive-Relinked _ _ h h1 c r1 live_c))
                  λ h2 _ r2.
                    let r12 = Relinked-trans _ _ _ _ h h1 h2 r1 r2 in
                    Returns->>= _ _ (set_next head (some c) h2) _
                      (set_next-Relinked head (some c) h2
                        (IsLive-Relinked _ _ h h2 head r12 live_head))
                      λ h3 _ r3.
                        let r13 = Relinked-trans _ _ _ _ h h2 h3 r12 r3 in
                        rw (m_next ∙ e) (
                          Returns-map _ _ (set_prev first (some c) h3)
                            (λ k r. record {
                              next_is =
                                  r.next_is
                                  ∙ r3.next_is
                                  ∙ ap (put head (some c)) (
                                      r2.next_is
                                      ∙ ap₂ (put c) (n_next ∙ ap (λ f. f head) r1.next_is)
                                          r1.next_is);
                              prev_is =
                                  r.prev_is
                                  ∙ ap (put first (some c)) (r3.prev_is ∙ r2.prev_is ∙ r1.prev_is);
                              same = λ a. r.same a ∙ r13.same a;
                              addr = r.addr ∙ r13.addr;
                            })
                            (set_prev-Relinked first (some c) h3
                              (IsLive-Relinked _ _ h h3 first r13 live_first)))

pub unlink_conn-Relinked :
    (c before behind : ℕ) (h : Heap)
    → next_of h c ≡ some behind
    → prev_of h c ≡ some before
    → IsLive h before
    → IsLive h behind
    → Returns
        (Relinked (put before (some behind) (next_of h)) (put behind (some before) (prev_of h)) h)
        (unlink_conn c h)
unfolding unlink_conn
unlink_conn-Relinked c before behind h en ep live_before live_behind =
    let live_c = IsLive-next_of h c behind en in
    Returns->>= _ _ (load_conn h c) _ (load_conn-Returns h c live_c) λ m _ (m_next, m_prev).
      rw (m_prev ∙ ep, m_next ∙ en)
        (Returns->>= _ _ (set_next before (some behind) h) _
          (set_next-Relinked before (some behind) h live_before)
          λ h1 _ r1.
            Returns->>= _ _ (load_conn h1 c) _
              (load_conn-Returns h1 c (IsLive-Relinked _ _ h h1 c r1 live_c))
              λ n _ (n_next, n_prev).
                let again : n.next ≡ some behind =
                  n_next
                  ∙ ap (λ f. f c) r1.next_is
                  ∙ put_kept before c (some behind) (next_of h) en in
                let back : n.prev ≡ some before = n_prev ∙ ap (λ f. f c) r1.prev_is ∙ ep in
                rw (again, back)
                  (Returns-map _ _ (set_prev behind (some before) h1)
                    (λ k r. record {
                      next_is = r.next_is ∙ r1.next_is;
                      prev_is = r.prev_is ∙ ap (put behind (some before)) r1.prev_is;
                      same = λ a. r.same a ∙ r1.same a;
                      addr = r.addr ∙ r1.addr;
                    })
                    (set_prev-Relinked behind (some before) h1
                      (IsLive-Relinked _ _ h h1 behind r1 live_behind))))
