-- ===== src/Conn/Free.antt =====
-- What `~ConnQueue()` does to the objects in memory.
use vs_http_server.Prelude.{
  ℕ, zero, suc, ◌+◌, ◌<◌, ◌≤◌, ◌≡◌, refl, ap, sym, ◌∙◌, subst, Option, none, some, List, [], ◌∷◌,
  ◌++◌, arith, length, length-append, Returns, Returns-map,
}
use vs_http_server.Pool.Counts.{count}
use vs_http_server.Conn.State.{Heap, ConnQueue, load_conn, delete_cell, free_conns, delete_queue}
use vs_http_server.Conn.Chain.{Chain}
use vs_http_server.Conn.Pointers.{next_of, prev_of, next_in, IsLive, IsLive-next_of, IsLive-prev_of}
use vs_http_server.Conn.Links.{IsQueue}

-- The pointers `m_Next` lead from `p` through the objects `xs` to NULL.
abbrev Leads : Heap → Option ℕ → List ℕ → Type 0
Leads h p [] = p ≡ none
Leads h p (x ∷ xs) = (p ≡ some x) × IsLive h x × Leads h (next_of h x) xs

delete_cell-kept : (a x : ℕ) (h : Heap) → count a (x ∷ []) ≡ 0 → (delete_cell a h).cell x ≡ h.cell x
unfolding delete_cell
delete_cell-kept a x h apart = ground arith

Leads-delete_cell :
    (a : ℕ) (xs : List ℕ) (p : Option ℕ) (h : Heap)
    → count a xs ≡ 0
    → Leads h p xs
    → Leads (delete_cell a h) p xs
Leads-delete_cell a [] p h apart l = l
Leads-delete_cell a (x ∷ xs) p h apart (e, (c, live), l) =
    let same = delete_cell-kept a x h (omega arith) in
    (
      e,
      (c, same ∙ live),
      subst (λ q. Leads (delete_cell a h) q xs) (sym (ap next_in same))
          (Leads-delete_cell a xs (next_of h x) h (omega arith) l),
    )

Leads-Chain :
    (a : ℕ) (xs : List ℕ) (b : ℕ) (h : Heap)
    → Chain (next_of h) (prev_of h) a xs b
    → next_of h b ≡ none
    → Leads h (some a) (a ∷ (xs ++ (b ∷ [])))
Leads-Chain a [] b h (n, p) last = (refl, IsLive-next_of h a b n, (n, IsLive-prev_of h b a p, last))
Leads-Chain a (x ∷ xs) b h (n, p, rest) last =
    let (e, live, l) = Leads-Chain x xs b h rest last in
    (refl, IsLive-next_of h a x n, (n, live, l))

-- What is left once the objects `xs` are deleted.
pub record Freed (xs : List ℕ) (h k : Heap) : Type 0 where
  pub gone : (u : ℕ) → 0 < count u xs → k.cell u ≡ none
  pub others : (u : ℕ) → count u xs ≡ 0 → k.cell u ≡ h.cell u

Freed-step :
    (x : ℕ) (xs : List ℕ) (h k : Heap)
    → Freed xs (delete_cell x h) k
    → count x xs ≡ 0
    → Freed (x ∷ xs) h k
unfolding delete_cell
Freed-step x xs h k f once = record {
  gone = λ u m. ground (arith, f.gone u, f.others u);
  others = λ u m. ground (arith, f.others u);
}

free_conns-Freed :
    (xs : List ℕ) (p : Option ℕ) (fuel : ℕ) (h : Heap)
    → Leads h p xs
    → ((u : ℕ) → count u xs ≤ 1)
    → length xs ≤ fuel
    → Returns (Freed xs h) (free_conns fuel p h)
unfolding free_conns load_conn
free_conns-Freed [] p fuel h l once enough =
    rw l (record { gone = λ u m. elim m [ ]; others = λ u m. refl })
free_conns-Freed (x ∷ xs) p zero h l once enough = elim enough [ ]
free_conns-Freed (x ∷ xs) p (suc fuel) h (e, (c, live), l) once enough =
    let alone : count x xs ≡ 0 = ground (arith, once x) in
    let l2 = Leads-delete_cell x xs (next_of h x) h alone l in
    rw (e, live)
      (Returns-map _ _ (free_conns fuel c.next (delete_cell x h))
        (λ k f. Freed-step x xs h k f alone)
        (free_conns-Freed xs c.next fuel (delete_cell x h)
          (subst (λ n. Leads (delete_cell x h) n xs) (ap next_in live) l2)
          (λ u. omega (arith, once u)) (omega arith)))

-- On a well-formed queue, with fuel for a round for each connection and two more, the loop ends
-- with no bad access; the objects of the queue are gone, its two sentinels among them, and all
-- others are as before.
pub delete_queue-Freed :
    (xs : List ℕ) (q : ConnQueue) (h : Heap) (fuel : ℕ)
    → IsQueue xs q h
    → length xs + 2 ≤ fuel
    → Returns (Freed (q.head ∷ (xs ++ (q.tail ∷ []))) h) (delete_queue fuel q h)
unfolding delete_queue
delete_queue-Freed xs q h fuel v enough =
    free_conns-Freed (q.head ∷ (xs ++ (q.tail ∷ []))) (some q.head) fuel h
      (Leads-Chain q.head xs q.tail h v.chain v.last) v.single
      (omega (arith, length-append {0} xs (q.tail ∷ [])))
