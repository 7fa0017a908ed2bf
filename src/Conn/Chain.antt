-- ===== src/Conn/Chain.antt =====
-- Doubly linked chains over two maps of pointers, and what an insertion and a removal do to them.
use vs_http_server.Prelude.{
  ℕ, ◌<◌, ◌≤◌, ◌≡◌, ◌≢◌, ap, ◌∙◌, Option, none, some, List, [], ◌∷◌, ◌++◌, arith, ◌==◌, ==_iff,
  Bool-cases, inl, inr, if◌then◌else◌,
}
use vs_http_server.Pool.Counts.{erase, count, count-append}

abbrev pub Pointers : Type 0
Pointers = ℕ → Option ℕ

-- `p` with the pointer of `a` set to `v`.
abbrev pub put : ℕ → Option ℕ → Pointers → Pointers
put a v p b = if b == a then v else p b

-- The pointers `next` lead from `a` through `xs` to `b`, and `prev` leads back.
abbrev pub Chain : Pointers → Pointers → ℕ → List ℕ → ℕ → Type 0
Chain next prev a [] b = (next a ≡ some b) × (prev b ≡ some a)
Chain next prev a (x ∷ xs) b = (next a ≡ some x) × (prev x ≡ some a) × Chain next prev x xs b

-- The first behind, and the last before.
abbrev pub first_of : List ℕ → ℕ → ℕ
first_of [] b = b
first_of (x ∷ xs) b = x

abbrev pub last_of : ℕ → List ℕ → ℕ
last_of a [] = a
last_of a (x ∷ xs) = last_of x xs

pub put_apart :
    (a : ℕ) (v : Option ℕ) (p : Pointers) (b : ℕ) → count a (b ∷ []) ≡ 0 → put a v p b ≡ p b
put_apart a v p b apart = ground arith

pub next-head :
    (next prev : Pointers) (a : ℕ) (xs : List ℕ) (b : ℕ)
    → Chain next prev a xs b
    → next a ≡ some (first_of xs b)
next-head next prev a [] b c = c.0
next-head next prev a (x ∷ xs) b c = c.0

pub prev-last :
    (next prev : Pointers) (a : ℕ) (xs : List ℕ) (b : ℕ)
    → Chain next prev a xs b
    → prev b ≡ some (last_of a xs)
prev-last next prev a [] b c = c.1
prev-last next prev a (x ∷ xs) b c = prev-last next prev x xs b c.2

pub count-last_of : (a : ℕ) (xs : List ℕ) → 0 < count (last_of a xs) (a ∷ xs)
count-last_of a [] = ground arith
count-last_of a (x ∷ xs) = ground (arith, count-last_of x xs)

pub count-first_of : (xs : List ℕ) (b : ℕ) → 0 < count (first_of xs b) (xs ++ (b ∷ []))
count-first_of [] b = ground arith
count-first_of (x ∷ xs) b = ground arith

put_other : (a b : ℕ) (v : Option ℕ) (p : Pointers) → b ≢ a → put a v p b ≡ p b
put_other a b v p ne = ground arith

-- A write of the value that is there changes nothing there.
pub put_kept : (a b : ℕ) (v : Option ℕ) (p : Pointers) → p b ≡ v → put a v p b ≡ v
put_kept a b v p e = ground arith

-- What stands in a list is none of what does not.
ne_of_count : (p t : ℕ) (xs : List ℕ) → 0 < count t xs → count p xs ≡ 0 → p ≢ t
ne_of_count p t xs h n e = omega (arith, ap (λ u. count u xs) e)

-- A chain survives a write behind a pointer that it does not use.
pub Chain-put :
    (next prev : Pointers) (a : ℕ) (xs : List ℕ) (b p n : ℕ) (v w : Option ℕ)
    → Chain next prev a xs b
    → count p (a ∷ xs) ≡ 0
    → count n (xs ++ (b ∷ [])) ≡ 0
    → Chain (put p v next) (put n w prev) a xs b
Chain-put next prev a [] b p n v w c hp hn = ground arith
Chain-put next prev a (x ∷ xs) b p n v w c hp hn = (
  ground arith,
  ground arith,
  Chain-put next prev x xs b p n v w c.2 (omega (arith, hp)) (omega (arith, hn)),
)

-- A chain in two parts.
pub Chain-split :
    (next prev : Pointers) (a : ℕ) (xs : List ℕ) (c : ℕ) (ys : List ℕ) (b : ℕ)
    → Chain next prev a (xs ++ (c ∷ ys)) b
    → Chain next prev a xs c × Chain next prev c ys b
Chain-split next prev a [] c ys b (h, k, r) = ((h, k), r)
Chain-split next prev a (x ∷ xs) c ys b (h, k, r) =
    let (s, t) = Chain-split next prev x xs c ys b r in ((h, k, s), t)

-- The chain behind an insertion at its front.
pub Chain-insert :
    (next prev : Pointers) (a : ℕ) (xs : List ℕ) (b c : ℕ)
    → Chain next prev a xs b
    → ((t : ℕ) → count t (a ∷ (xs ++ (b ∷ []))) ≤ 1)
    → count c (a ∷ (xs ++ (b ∷ []))) ≡ 0
    → Chain
        (put a (some c) (put c (next a) next))
        (put (first_of xs b) (some c) (put c (some a) prev))
        a
        (c ∷ xs)
        b
Chain-insert next prev a [] b c h single fresh = ground (arith, single a)
Chain-insert next prev a (x ∷ xs) b c (h, k, r) single fresh =
    let behind : count a (x ∷ xs) ≡ 0 = ground (arith, single a, count-append a xs (b ∷ [])) in
    let before : count c (x ∷ xs) ≡ 0 = omega (arith, fresh, count-append c xs (b ∷ [])) in
    (
      ground arith,
      ground arith,
      (
        ground arith,
        ground arith,
        Chain-put (put c (next a) next) (put c (some a) prev) x xs b a x (some c) (some c)
            (Chain-put next prev x xs b c c (next a) (some a) r before (omega (arith, fresh)))
            behind (ground (arith, single x)),
      ),
    )

-- The chain behind the removal of `c`.
pub Chain-remove :
    (next prev : Pointers) (a : ℕ) (xs : List ℕ) (c : ℕ) (ys : List ℕ) (b : ℕ)
    → Chain next prev a xs c
    → Chain next prev c ys b
    → ((t : ℕ) → count t (a ∷ (xs ++ (c ∷ (ys ++ (b ∷ []))))) ≤ 1)
    → Chain
        (put (last_of a xs) (some (first_of ys b)) next)
        (put (first_of ys b) (some (last_of a xs)) prev)
        a
        (xs ++ ys)
        b
Chain-remove next prev a [] c [] b s t single = ground arith
Chain-remove next prev a [] c (y ∷ ys) b s (h, k, r) single = (
  ground arith,
  ground arith,
  Chain-put next prev y ys b a y (some y) (some a) r
      (ground (arith, single a, count-append a ys (b ∷ []))) (ground (arith, single y)),
)
Chain-remove next prev a (x ∷ xs) c ys b (h, k, s) t single =
    let rest = xs ++ (c ∷ (ys ++ (b ∷ []))) in
    let before : count a (x ∷ xs) ≡ 0 =
      ground (arith, single a, count-append a xs (c ∷ (ys ++ (b ∷ [])))) in
    let behind : count x (ys ++ (b ∷ [])) ≡ 0 =
      ground (arith, single x, count-append x xs (c ∷ (ys ++ (b ∷ [])))) in
    (
      put_other (last_of x xs) a (some (first_of ys b)) next
            (ne_of_count a (last_of x xs) (x ∷ xs) (count-last_of x xs) before)
          ∙ h,
      put_other (first_of ys b) x (some (last_of x xs)) prev
            (ne_of_count x (first_of ys b) (ys ++ (b ∷ [])) (count-first_of ys b) behind)
          ∙ k,
      Chain-remove next prev x xs c ys b s t (λ u. omega (arith, single u)),
    )

pub prev-first :
    (next prev : Pointers) (a : ℕ) (xs : List ℕ) (b : ℕ)
    → Chain next prev a xs b
    → prev (first_of xs b) ≡ some a
prev-first next prev a [] b c = c.1
prev-first next prev a (x ∷ xs) b c = c.1

pub next-last :
    (next prev : Pointers) (a : ℕ) (xs : List ℕ) (b : ℕ)
    → Chain next prev a xs b
    → next (last_of a xs) ≡ some b
next-last next prev a [] b c = c.0
next-last next prev a (x ∷ xs) b c = next-last next prev x xs b c.2

-- An address without pointers is in no chain.
pub Chain-fresh :
    (next prev : Pointers) (a : ℕ) (xs : List ℕ) (b c : ℕ)
    → Chain next prev a xs b
    → next c ≡ none
    → prev c ≡ none
    → count c (a ∷ (xs ++ (b ∷ []))) ≡ 0
Chain-fresh next prev a [] b c (h, k) n p = ground arith
Chain-fresh next prev a (x ∷ xs) b c (h, k, r) n p =
    ground (arith, Chain-fresh next prev x xs b c r n p)

-- A list is cut at an item of it.
pub erase-split :
    (c : ℕ) (xs : List ℕ)
    → 0 < count c xs
    → (ys : List ℕ) × (zs : List ℕ) × (xs ≡ ys ++ (c ∷ zs)) × (erase c xs ≡ ys ++ zs)
unfolding erase
erase-split c [] h = elim h [ ]
erase-split c (x ∷ xs) h = elim (Bool-cases (x == c)) [
  | inl e ↦
      ([], xs, ap (λ y. y ∷ xs) ((==_iff x c).0 e), ap (λ b. if b then xs else x ∷ erase c xs) e)
  | inr e ↦
      let (ys, zs, whole, rest) = erase-split c xs (ground arith) in
      (x ∷ ys, zs, ap (◌∷◌ x) whole, ap (λ b. if b then xs else x ∷ erase c xs) e ∙ ap (◌∷◌ x) rest)
]
