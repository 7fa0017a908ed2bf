-- ===== src/Conn/Insert.antt =====
-- What `InsertConn` does to the list of connections.
use mathlib.Core.Path.{fun_ext}
use vs_http_server.Pool.Counts.{count-append, count-head}
use vs_http_server.Prelude.{
  suc, ◌≢◌, ℕ, ◌<◌, ◌≤◌, ◌≡◌, refl, ap, ap₂, sym, subst₂, ◌∙◌, true, Option, none, some, List, [],
  ◌∷◌, length, arith, lt→ltb, le→ltb, ℤ, pos, ret, Returns, Returns->>=, Returns-map,
}
use vs_http_server.Conn.State.{
  Conn, Heap, load_conn, store_conn, new_conn, construct_conn, ConnQueue, max_open_fd, suc_ℤ,
  is_below, link_conn, insert_conn,
}
use vs_http_server.Conn.Chain.{
  put, Chain, Chain-fresh, put_apart, prev-first, first_of, next-head, Chain-insert,
}
use vs_http_server.Conn.Pointers.{
  next_of, prev_of, next_in, prev_in, bare, IsLive, IsLive-prev_of, Relinked,
}
use vs_http_server.Conn.Frame.{objects, link-frame}
use vs_http_server.Pool.Counts.{count}
use vs_http_server.Conn.Links.{IsQueue, link_conn-Relinked}

-- What a call of `InsertConn` below the limit leaves: the new connection is the first of the queue,
-- with its thread and bufferevent, and all other connections are as before but for their pointers.
pub record Inserted (fd : ℤ) (t bev : ℕ) (xs : List ℕ) (q : ConnQueue) (h : Heap)
    (r : Option ℕ × ConnQueue × Heap) : Type 0 where
  pub made : r.0 ≡ some h.next_addr
  pub queue : IsQueue (h.next_addr ∷ xs) r.1 r.2
  pub name : r.2.next_addr ≡ suc h.next_addr
  pub ends : (r.1.head ≡ q.head) × (r.1.tail ≡ q.tail)
  pub conn :
      bare (r.2.cell h.next_addr)
      ≡ some (record (construct_conn fd (h.memory h.next_addr)) { thread = some t; bev = some bev })
  pub others : (a : ℕ) → a ≢ h.next_addr → bare (r.2.cell a) ≡ bare (h.cell a)
  pub frame : (a : ℕ) → count a (h.next_addr ∷ objects xs q) ≡ 0 → r.2.cell a ≡ h.cell a

-- The heap with the new object, before it is linked.
abbrev with_conn : ℤ → ℕ → ℕ → Heap → Heap
with_conn fd t bev h =
    store_conn (new_conn fd h) h.next_addr
      (record (construct_conn fd (h.memory h.next_addr)) { thread = some t; bev = some bev })

pub bare-none : (u : Option Conn) → bare u ≡ none → u ≡ none
bare-none none e = refl
bare-none (some c) e = cc

module _ (fd : ℤ) (t bev : ℕ) (h : Heap) (new : h.cell h.next_addr ≡ none) where
  with_conn-next : next_of (with_conn fd t bev h) ≡ next_of h
  unfolding store_conn new_conn construct_conn
  with_conn-next = fun_ext λ b. ground (arith, ap next_in new)

  with_conn-prev : prev_of (with_conn fd t bev h) ≡ prev_of h
  unfolding store_conn new_conn construct_conn
  with_conn-prev = fun_ext λ b. ground (arith, ap prev_in new)

  with_conn-cell : (a : ℕ) → a ≢ h.next_addr → (with_conn fd t bev h).cell a ≡ h.cell a
  unfolding store_conn new_conn
  with_conn-cell a ne = ground arith

  with_conn-bare :
      bare ((with_conn fd t bev h).cell h.next_addr)
      ≡ some (record (construct_conn fd (h.memory h.next_addr)) { thread = some t; bev = some bev })
  unfolding store_conn new_conn construct_conn
  with_conn-bare = ground arith

with_conn-addr :
    (fd : ℤ) (t bev : ℕ) (h : Heap) → (with_conn fd t bev h).next_addr ≡ suc h.next_addr
unfolding store_conn new_conn
with_conn-addr fd t bev h = refl

IsLive-put : (a : ℕ) (c : Conn) (h : Heap) → IsLive (store_conn h a c) a
unfolding store_conn
IsLive-put a c h = (c, ground arith)

-- Once the new connection is linked.
insert_conn-IsQueue :
    (fd : ℤ) (t bev : ℕ) (xs : List ℕ) (q : ConnQueue) (h k : Heap)
    → IsQueue xs q h
    → let h0 = with_conn fd t bev h in
      let c = h.next_addr in
      Relinked
        (put q.head (some c) (put c (next_of h0 q.head) (next_of h0)))
        (put (first_of xs q.tail) (some c) (put c (some q.head) (prev_of h0)))
        h0
        k
      → IsQueue (c ∷ xs) (record q { current_conn_num = suc_ℤ q.current_conn_num }) k
unfolding store_conn new_conn suc_ℤ
insert_conn-IsQueue fd t bev xs q h k v r =
    let c = h.next_addr in
    let h0 = with_conn fd t bev h in
    let new = v.unused c (omega arith) in
    let en = with_conn-next fd t bev h new in
    let ep = with_conn-prev fd t bev h new in
    let fresh =
      Chain-fresh (next_of h) (prev_of h) q.head xs q.tail c v.chain (ap next_in new)
        (ap prev_in new) in
    record {
      chain =
          subst₂ (λ n p. Chain n p q.head (c ∷ xs) q.tail)
            (sym
              (r.next_is ∙ ap₂ (λ n u. put q.head (some c) (put c u n)) en (ap (λ f. f q.head) en)))
            (sym
              (r.prev_is ∙ ap (λ p. put (first_of xs q.tail) (some c) (put c (some q.head) p)) ep))
            (Chain-insert (next_of h) (prev_of h) q.head xs q.tail c v.chain v.single fresh);
      single = λ u. ground (arith, v.single u, fresh);
      last =
          ap (λ n. n q.tail) r.next_is
          ∙ put_apart q.head (some c) (put c (next_of h0 q.head) (next_of h0)) q.tail (
              omega (
                arith,
                v.single q.head,
                count-head q.head xs,
                count-append q.head xs (q.tail ∷ []),
              ))
          ∙ put_apart c (next_of h0 q.head) (next_of h0) q.tail
              (omega (arith, fresh, count-append c xs (q.tail ∷ [])))
          ∙ ap (λ n. n q.tail) en
          ∙ v.last;
      number = ap suc_ℤ v.number;
      unused = λ a le. bare-none (k.cell a) (
          r.same a
          ∙ ap bare (
              with_conn-cell fd t bev h new a (omega (arith, r.addr, le))
              ∙ v.unused a (omega (arith, r.addr, le))));
    }

insert_conn-linked :
    (fd : ℤ) (t bev : ℕ) (xs : List ℕ) (q : ConnQueue) (h : Heap)
    → IsQueue xs q h
    → Returns
        (λ k.
          Inserted fd t bev xs q h
            (some h.next_addr, record q { current_conn_num = suc_ℤ q.current_conn_num }, k))
        (link_conn q.head h.next_addr (with_conn fd t bev h))
insert_conn-linked fd t bev xs q h v =
    let c = h.next_addr in
    let h0 = with_conn fd t bev h in
    let new = v.unused c (omega arith) in
    let en = with_conn-next fd t bev h new in
    let ep = with_conn-prev fd t bev h new in
    let first = first_of xs q.tail in
    Returns-map _ _ (link_conn q.head c h0)
      (λ k r. record {
        made = refl;
        queue = insert_conn-IsQueue fd t bev xs q h k v r;
        name = r.addr ∙ with_conn-addr fd t bev h;
        ends = (refl, refl);
        conn = r.same c ∙ with_conn-bare fd t bev h new;
        frame =
            λ a m. link-frame xs q c h0 k r a m ∙ with_conn-cell fd t bev h new a (ground arith);
        others = λ a ne. r.same a ∙ ap bare (with_conn-cell fd t bev h new a ne);
      })
      (link_conn-Relinked q.head c first h0 (ap (λ f. f q.head) en ∙ next-head _ _ _ _ _ v.chain)
        (IsLive-put c _ (new_conn fd h))
        (IsLive-prev_of h0 first q.head (ap (λ f. f first) ep ∙ prev-first _ _ _ _ _ v.chain)))

is_below-pos : (n : ℕ) (z : ℤ) → z ≡ pos n → n < max_open_fd → is_below z max_open_fd ≡ true
unfolding is_below
is_below-pos n z e lt = ap (λ y. is_below y max_open_fd) e ∙ lt→ltb n max_open_fd lt

load_conn-new :
    (fd : ℤ) (h : Heap)
    → load_conn (new_conn fd h) h.next_addr ≡ ret (construct_conn fd (h.memory h.next_addr))
unfolding load_conn new_conn
load_conn-new fd h = ground arith

-- On a well-formed queue below the limit a call makes no bad access, and the new connection is the
-- first of the queue, as `Inserted` says.
pub insert_conn-Inserted :
    (fd : ℤ) (t bev : ℕ) (xs : List ℕ) (q : ConnQueue) (h : Heap)
    → IsQueue xs q h
    → length xs < max_open_fd
    → Returns (Inserted fd t bev xs q h) (insert_conn fd t bev q h)
unfolding insert_conn
insert_conn-Inserted fd t bev xs q h v room =
    rw (is_below-pos (length xs) q.current_conn_num v.number room, load_conn-new fd h)
      (Returns->>= _ (Inserted fd t bev xs q h)
        (link_conn q.head h.next_addr (with_conn fd t bev h)) _
        (insert_conn-linked fd t bev xs q h v) λ k _ i. i)

-- At the limit a call changes nothing and answers NULL.
pub insert_conn-full :
    (fd : ℤ) (t bev : ℕ) (xs : List ℕ) (q : ConnQueue) (h : Heap)
    → IsQueue xs q h
    → max_open_fd ≤ length xs
    → insert_conn fd t bev q h ≡ ret (none, q, h)
unfolding insert_conn is_below
insert_conn-full fd t bev xs q h v full =
    rw (ap (λ z. is_below z max_open_fd) v.number ∙ le→ltb (length xs) max_open_fd full) refl
