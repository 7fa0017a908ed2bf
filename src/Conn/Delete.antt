-- ===== src/Conn/Delete.antt =====
-- What `DeleteConn` does to the list of connections.
use mathlib.Core.Path.{fun_ext}
use vs_http_server.Prelude.{
  ◌≢◌, ℕ, ◌+◌, ◌<◌, ◌≡◌, refl, ap, sym, subst₂, ◌∙◌, subst, none, some, List, [], ◌∷◌, ◌++◌, arith,
  ◌==◌, if◌then◌else◌, pos, Returns, Returns->>=,
}
use vs_http_server.Pool.Counts.{erase, count, count-append, length-erase}
use vs_http_server.Conn.State.{Heap, delete_cell, ConnQueue, pred_ℤ, unlink_conn, delete_conn}
use vs_http_server.Conn.Chain.{
  put, put_apart, count-last_of, Chain, Chain-put, prev-first, next-last, erase-split, first_of,
  last_of, next-head, prev-last, Chain-remove, Chain-split,
}
use vs_http_server.Conn.Pointers.{next_of, prev_of, bare, IsLive-next_of, IsLive-prev_of, Relinked}
use vs_http_server.Conn.Frame.{objects, unlink-frame}
use vs_http_server.Conn.Links.{IsQueue, unlink_conn-Relinked}
use vs_http_server.Conn.Insert.{bare-none}

-- What a call of `DeleteConn` leaves: the queue without the connection, which is gone, and all others
-- as before but for their pointers.
pub record Deleted (c : ℕ) (xs : List ℕ) (q : ConnQueue) (h : Heap) (r : ConnQueue × Heap)
    : Type 0 where
  pub queue : IsQueue (erase c xs) r.0 r.1
  pub name : r.1.next_addr ≡ h.next_addr
  pub ends : (r.0.head ≡ q.head) × (r.0.tail ≡ q.tail)
  pub gone : r.1.cell c ≡ none
  pub others : (a : ℕ) → a ≢ c → bare (r.1.cell a) ≡ bare (h.cell a)
  pub frame : (a : ℕ) → count a (objects xs q) ≡ 0 → r.1.cell a ≡ h.cell a

module _ (c : ℕ) (k : Heap) where
  delete_cell-next : next_of (delete_cell c k) ≡ put c none (next_of k)
  unfolding delete_cell
  delete_cell-next = fun_ext λ b. ground arith

  delete_cell-prev : prev_of (delete_cell c k) ≡ put c none (prev_of k)
  unfolding delete_cell
  delete_cell-prev = fun_ext λ b. ground arith

delete_cell-frame :
    (c a : ℕ) (k : Heap) → count a (c ∷ []) ≡ 0 → (delete_cell c k).cell a ≡ k.cell a
unfolding delete_cell
delete_cell-frame c a k apart = ground arith

-- Once the connection `c`, between `ys` and `zs`, is unlinked and deleted.
delete_conn-Deleted_at :
    (c : ℕ) (ys zs : List ℕ) (q : ConnQueue) (h k : Heap)
    → IsQueue (ys ++ (c ∷ zs)) q h
    → Relinked
        (put (last_of q.head ys) (some (first_of zs q.tail)) (next_of h))
        (put (first_of zs q.tail) (some (last_of q.head ys)) (prev_of h))
        h
        k
    → erase c (ys ++ (c ∷ zs)) ≡ ys ++ zs
    → Deleted c
        (ys ++ (c ∷ zs))
        q
        h
        (record q { current_conn_num = pred_ℤ q.current_conn_num }, delete_cell c k)
unfolding delete_cell pred_ℤ
delete_conn-Deleted_at c ys zs q h k v r cut =
    let before = last_of q.head ys in
    let behind = first_of zs q.tail in
    let (s, t) = Chain-split (next_of h) (prev_of h) q.head ys c zs q.tail v.chain in
    let unlinked = Chain-remove (next_of h) (prev_of h) q.head ys c zs q.tail s t (λ u. omega (
      arith,
      v.single u,
      count-append u (ys ++ (c ∷ zs)) (q.tail ∷ []),
      count-append u ys (c ∷ zs),
      count-append u ys (c ∷ (zs ++ (q.tail ∷ []))),
      count-append u zs (q.tail ∷ []),
    )) in
    let out : count c (q.head ∷ (ys ++ zs)) + (if q.tail == c then 1 else 0) ≡ 0 = ground (
      arith,
      v.single c,
      count-append c (ys ++ (c ∷ zs)) (q.tail ∷ []),
      count-append c ys (c ∷ zs),
      count-append c ys zs,
    ) in
    record {
      queue = record {
        chain =
            subst₂ (λ n p. Chain n p q.head (erase c (ys ++ (c ∷ zs))) q.tail)
              (sym (delete_cell-next c k ∙ ap (put c none) r.next_is))
              (sym (delete_cell-prev c k ∙ ap (put c none) r.prev_is))
              (rw cut (
                Chain-put _ _ q.head (ys ++ zs) q.tail c c none none unlinked (omega arith)
                  (omega (arith, count-append c (ys ++ zs) (q.tail ∷ [])))));
        single = λ u. rw cut (
            omega (
              arith,
              v.single u,
              count-append u (ys ++ (c ∷ zs)) (q.tail ∷ []),
              count-append u ys (c ∷ zs),
              count-append u (ys ++ zs) (q.tail ∷ []),
              count-append u ys zs,
            ));
        last =
            ap (λ n. n q.tail) (delete_cell-next c k)
            ∙ put_apart c none (next_of k) q.tail (omega (arith, out))
            ∙ ap (λ n. n q.tail) r.next_is
            ∙ put_apart before (some behind) (next_of h) q.tail (
                omega (
                  arith,
                  v.single before,
                  count-last_of q.head ys,
                  count-append before (ys ++ (c ∷ zs)) (q.tail ∷ []),
                  count-append before ys (c ∷ zs),
                ))
            ∙ v.last;
        number = ap pred_ℤ (
            v.number
            ∙ ap pos (
                sym
                  (length-erase c (ys ++ (c ∷ zs)) (ground (arith, count-append c ys (c ∷ zs))))));
        unused = λ a le.
            bare-none ((delete_cell c k).cell a)
              (ground (arith, r.same a, v.unused a (omega (arith, r.addr, le))));
      };
      name = r.addr;
      ends = (refl, refl);
      gone = ground arith;
      frame = λ a m.
          delete_cell-frame c a k (
            omega
              (arith, count-append a (ys ++ (c ∷ zs)) (q.tail ∷ []), count-append a ys (c ∷ zs)))
          ∙ unlink-frame ys zs c q h k r a m;
      others = λ a ne. ground (arith, r.same a);
    }

delete_conn-at :
    (c : ℕ) (ys zs : List ℕ) (q : ConnQueue) (h : Heap)
    → IsQueue (ys ++ (c ∷ zs)) q h
    → erase c (ys ++ (c ∷ zs)) ≡ ys ++ zs
    → Returns (Deleted c (ys ++ (c ∷ zs)) q h) (delete_conn c q h)
unfolding delete_conn
delete_conn-at c ys zs q h v cut =
    let before = last_of q.head ys in
    let behind = first_of zs q.tail in
    let (s, t) = Chain-split (next_of h) (prev_of h) q.head ys c zs q.tail v.chain in
    Returns->>= _ _ (unlink_conn c h) _
      (unlink_conn-Relinked c before behind h (next-head _ _ c zs q.tail t)
        (prev-last _ _ q.head ys c s) (IsLive-next_of h before c (next-last _ _ q.head ys c s))
        (IsLive-prev_of h behind c (prev-first _ _ c zs q.tail t)))
      λ k _ r. delete_conn-Deleted_at c ys zs q h k v r cut

-- A call on a connection of a well-formed queue makes no bad access; it leaves what `Deleted` says.
pub delete_conn-Deleted :
    (c : ℕ) (xs : List ℕ) (q : ConnQueue) (h : Heap)
    → IsQueue xs q h
    → 0 < count c xs
    → Returns (Deleted c xs q h) (delete_conn c q h)
unfolding delete_conn
delete_conn-Deleted c xs q h v m =
    let (ys, zs, whole, cut) = erase-split c xs m in
    subst (λ l. Returns (Deleted c l q h) (delete_conn c q h)) (sym whole)
      (delete_conn-at c ys zs q h (subst (λ l. IsQueue l q h) whole v)
        (ap (erase c) (sym whole) ∙ cut))
