-- ===== src/Conn/Frame.antt =====
-- What InsertConn and DeleteConn leave alone: the objects of other queues.
use mathlib.Core.Path.{fun_ext}
use vs_http_server.Prelude.{
  ℕ, ◌<◌, ◌≤◌, ◌≡◌, refl, Returns, ap, sym, ◌∙◌, Option, none, some, List, [], ◌∷◌, ◌++◌, arith,
}
use vs_http_server.Pool.Counts.{count, count-append, count-head}
use vs_http_server.Conn.State.{Conn, Heap, ConnQueue, load_conn, store_conn}
use vs_http_server.Conn.Chain.{
  Pointers, put, put_apart, Chain, first_of, last_of, count-first_of, count-last_of,
}
use vs_http_server.Conn.Pointers.{next_in, prev_in, next_of, prev_of, bare, Relinked}
use vs_http_server.Conn.Links.{IsQueue}

-- The objects of a queue: the sentinels and the connections.
abbrev pub objects : List ℕ → ConnQueue → List ℕ
objects xs q = q.head ∷ (xs ++ (q.tail ∷ []))

relink : Option Conn → Option ℕ → Option ℕ → Option Conn
relink none n p = none
relink (some c) n p = some (record c { next = n; prev = p })

relink-bare : (u : Option Conn) → relink (bare u) (next_in u) (prev_in u) ≡ u
unfolding relink
relink-bare none = refl
relink-bare (some c) = refl

pub cell_ext :
    (u v : Option Conn) → bare u ≡ bare v → next_in u ≡ next_in v → prev_in u ≡ prev_in v → u ≡ v
cell_ext u v b n p =
    sym (relink-bare u)
    ∙ ap (λ w. relink w (next_in u) (prev_in u)) b
    ∙ ap (λ w. relink (bare v) w (prev_in u)) n
    ∙ ap (relink (bare v) (next_in v)) p
    ∙ relink-bare v

pub Relinked-frame :
    (next prev : Pointers) (h k : Heap) (a : ℕ)
    → Relinked next prev h k
    → next a ≡ next_of h a
    → prev a ≡ prev_of h a
    → k.cell a ≡ h.cell a
Relinked-frame next prev h k a r n p =
    cell_ext (k.cell a) (h.cell a) (r.same a) (ap (λ f. f a) r.next_is ∙ n)
      (ap (λ f. f a) r.prev_is ∙ p)

-- An object of the list stands apart from one that is not in it.
apart-of : (b a : ℕ) (xs : List ℕ) → 0 < count b xs → count a xs ≡ 0 → count b (a ∷ []) ≡ 0
apart-of b a xs h k = ground arith

pub put_frame :
    (b : ℕ) (v : Option ℕ) (p : Pointers) (xs : List ℕ) (a : ℕ)
    → 0 < count b xs
    → count a xs ≡ 0
    → put b v p a ≡ p a
put_frame b v p xs a h k = put_apart b v p a (apart-of b a xs h k)

Chain-frame :
    (n p m r : Pointers) (a : ℕ) (xs : List ℕ) (b : ℕ)
    → ((u : ℕ) → 0 < count u (a ∷ (xs ++ (b ∷ []))) → (m u ≡ n u) × (r u ≡ p u))
    → Chain n p a xs b
    → Chain m r a xs b
Chain-frame n p m r a [] b same (e, d) =
    ((same a (ground arith)).0 ∙ e, (same b (ground arith)).1 ∙ d)
Chain-frame n p m r a (x ∷ xs) b same (e, d, rest) = (
  (same a (ground arith)).0 ∙ e,
  (same x (ground arith)).1 ∙ d,
  Chain-frame n p m r x xs b (λ u h. same u (omega arith)) rest,
)

pub link-frame :
    (xs : List ℕ) (q : ConnQueue) (c : ℕ) (h k : Heap)
    → Relinked
        (put q.head (some c) (put c (next_of h q.head) (next_of h)))
        (put (first_of xs q.tail) (some c) (put c (some q.head) (prev_of h)))
        h
        k
    → (a : ℕ) → count a (c ∷ objects xs q) ≡ 0
    → k.cell a ≡ h.cell a
link-frame xs q c h k r a m =
    let new : count a (c ∷ []) ≡ 0 = omega arith in
    let old : count a (objects xs q) ≡ 0 = omega arith in
    Relinked-frame _ _ h k a r
      (put_frame q.head (some c) (put c (next_of h q.head) (next_of h)) (objects xs q) a
          (count-head q.head (xs ++ (q.tail ∷ []))) old
        ∙ put_frame c (next_of h q.head) (next_of h) (c ∷ []) a (count-head c []) new)
      (put_frame (first_of xs q.tail) (some c) (put c (some q.head) (prev_of h))
          (xs ++ (q.tail ∷ [])) a (count-first_of xs q.tail) (omega arith)
        ∙ put_frame c (some q.head) (prev_of h) (c ∷ []) a (count-head c []) new)

pub unlink-frame :
    (ys zs : List ℕ) (c : ℕ) (q : ConnQueue) (h k : Heap)
    → Relinked
        (put (last_of q.head ys) (some (first_of zs q.tail)) (next_of h))
        (put (first_of zs q.tail) (some (last_of q.head ys)) (prev_of h))
        h
        k
    → (a : ℕ) → count a (objects (ys ++ (c ∷ zs)) q) ≡ 0
    → k.cell a ≡ h.cell a
unlink-frame ys zs c q h k r a m =
    let cut = count-append a (ys ++ (c ∷ zs)) (q.tail ∷ []) in
    let more = count-append a ys (c ∷ zs) in
    let end = count-append a zs (q.tail ∷ []) in
    Relinked-frame _ _ h k a r
      (put_frame (last_of q.head ys) (some (first_of zs q.tail)) (next_of h) (q.head ∷ ys) a
        (count-last_of q.head ys) (omega (arith, cut, more)))
      (put_frame (first_of zs q.tail) (some (last_of q.head ys)) (prev_of h) (zs ++ (q.tail ∷ [])) a
        (count-first_of zs q.tail) (omega (arith, cut, more, end)))

-- A heap in which the objects of a queue are the same holds the same queue.
pub IsQueue-frame :
    (xs : List ℕ) (q : ConnQueue) (h k : Heap)
    → IsQueue xs q h
    → ((a : ℕ) → 0 < count a (objects xs q) → k.cell a ≡ h.cell a)
    → ((a : ℕ) → k.next_addr ≤ a → k.cell a ≡ none)
    → IsQueue xs q k
IsQueue-frame xs q h k v same unused = record {
  chain =
      Chain-frame (next_of h) (prev_of h) (next_of k) (prev_of k) q.head xs q.tail
        (λ u m. (ap next_in (same u m), ap prev_in (same u m))) v.chain;
  single = v.single;
  last = ap next_in (same q.tail (ground (arith, count-append q.tail xs (q.tail ∷ [])))) ∙ v.last;
  number = v.number;
  unused = unused;
}

-- A write that leaves the pointers of a connection leaves the queue.
pub IsQueue-store :
    (xs : List ℕ) (q : ConnQueue) (h : Heap) (a : ℕ) (c d : Conn)
    → IsQueue xs q h
    → h.cell a ≡ some c
    → d.next ≡ c.next
    → d.prev ≡ c.prev
    → IsQueue xs q (store_conn h a d)
unfolding store_conn
IsQueue-store xs q h a c d v e n p =
    let next_is : next_of (store_conn h a d) ≡ next_of h = fun_ext λ b. ground (arith, n) in
    let prev_is : prev_of (store_conn h a d) ≡ prev_of h = fun_ext λ b. ground (arith, p) in
    record {
      chain = rw (next_is, prev_is) v.chain;
      single = v.single;
      last = ap (λ f. f q.tail) next_is ∙ v.last;
      number = v.number;
      unused = λ b le. ground (arith, v.unused b le);
    }

pub load_conn-is :
    (h : Heap) (a : ℕ) (c : Conn) → h.cell a ≡ some c → Returns (λ m. m ≡ c) (load_conn h a)
unfolding load_conn
load_conn-is h a c e = rw e refl
