-- ===== src/Upstream/Writes.antt =====
-- Writes into bytes that are put together of parts.
use mathlib.Core.List.{append_assoc}
use vs_http_server.Prelude.{
  ℕ, zero, suc, ◌+◌, ◌<◌, ◌≤◌, ◌≡◌, refl, ap, sym, ◌∙◌, [], ◌∷◌, ◌++◌, arith, length, take,
  length-append, length-write_at, write_at-append, write_at,
}
use vs_http_server.CString.{Bytes}

pub split_at :
    (n m : ℕ) (xs : Bytes)
    → length xs ≡ n + m
    → (ys : Bytes) × (zs : Bytes) × (xs ≡ ys ++ zs) × (length ys ≡ n) × (length zs ≡ m)
split_at zero m xs e = ([], xs, refl, refl, omega arith)
split_at (suc n) m [] e = absurd (let no : ⊥ = omega arith in no)
split_at (suc n) m (x ∷ xs) e =
    let (ys, zs, whole, a, b) = split_at n m xs (omega arith) in
    (x ∷ ys, zs, ap (◌∷◌ x) whole, ap suc a, b)

pub write_over : (xs ys vs : Bytes) → length vs ≡ length xs → write_at (xs ++ ys) 0 vs ≡ vs ++ ys
write_over [] [] [] e = refl
write_over [] (y ∷ ys) [] e = refl
write_over [] ys (v ∷ vs) e = absurd (let no : ⊥ = omega arith in no)
write_over (x ∷ xs) ys [] e = absurd (let no : ⊥ = omega arith in no)
write_over (x ∷ xs) ys (v ∷ vs) e = ap (◌∷◌ v) (write_over xs ys vs (omega arith))

pub write_behind :
    (xs : Bytes) (x : ℕ) (ys vs : Bytes)
    → write_at (xs ++ (x ∷ ys)) (suc (length xs)) vs ≡ xs ++ (x ∷ write_at ys 0 vs)
write_behind [] x ys vs = refl
write_behind (z ∷ xs) x ys vs = ap (◌∷◌ z) (write_behind xs x ys vs)

pub write_front :
    (xs ys : Bytes) (i v : ℕ)
    → i < length xs
    → write_at (xs ++ ys) i (v ∷ []) ≡ write_at xs i (v ∷ []) ++ ys
write_front [] ys i v h = elim h [ ]
write_front (x ∷ []) [] zero v h = refl
write_front (x ∷ []) (y ∷ ys) zero v h = refl
write_front (x ∷ z ∷ xs) ys zero v h = refl
write_front (x ∷ xs) ys (suc i) v h = ap (◌∷◌ x) (write_front xs ys i v (omega arith))

pub write_all : (xs vs : Bytes) → length vs ≡ length xs → write_at xs 0 vs ≡ vs
write_all [] [] e = refl
write_all [] (v ∷ vs) e = absurd (let no : ⊥ = omega arith in no)
write_all (x ∷ xs) [] e = absurd (let no : ⊥ = omega arith in no)
write_all (x ∷ xs) (v ∷ vs) e = ap (◌∷◌ v) (write_all xs vs (omega arith))

pub write_nil : (xs : Bytes) → write_at xs 0 [] ≡ xs
write_nil [] = refl
write_nil (x ∷ xs) = refl

pub take_front : (n : ℕ) (xs ys : Bytes) → n ≤ length xs → take n (xs ++ ys) ≡ take n xs
take_front zero xs ys h = refl
take_front (suc n) [] ys h = elim h [ ]
take_front (suc n) (x ∷ xs) ys h = ap (◌∷◌ x) (take_front n xs ys (omega arith))

pub uncons :
    (n : ℕ) (xs : Bytes)
    → length xs ≡ suc n
    → (y : ℕ) × (ys : Bytes) × (xs ≡ y ∷ ys) × (length ys ≡ n)
uncons n [] e = absurd (let no : ⊥ = omega arith in no)
uncons n (x ∷ xs) e = (x, xs, refl, omega arith)

pub take_back : (xs ys : Bytes) → take (length xs) (xs ++ ys) ≡ xs
take_back [] ys = refl
take_back (x ∷ xs) ys = ap (◌∷◌ x) (take_back xs ys)

pub write_nul :
    (xs : Bytes) (z : ℕ) (ys : Bytes)
    → write_at (xs ++ (z ∷ ys)) (length xs) (0 ∷ []) ≡ xs ++ (0 ∷ ys)
write_nul xs z ys = write_at-append xs (z ∷ ys) (0 ∷ []) ∙ ap (λ y. xs ++ (0 ∷ y)) (write_nil ys)

pub take_cut :
    (xs ys zs : Bytes) (i : ℕ)
    → i < length xs
    → take (length xs) ((write_at xs i (0 ∷ []) ++ ys) ++ zs) ≡ write_at xs i (0 ∷ [])
take_cut xs ys zs i h =
    let same = length-write_at xs i (0 ∷ []) in
    ap (λ n. take n ((write_at xs i (0 ∷ []) ++ ys) ++ zs)) (sym same)
    ∙ ap (take (length (write_at xs i (0 ∷ [])))) (append_assoc (write_at xs i (0 ∷ [])) ys zs)
    ∙ take_back (write_at xs i (0 ∷ [])) (ys ++ zs)

pub length-parts :
    (xs : Bytes) (z : ℕ) (ys : Bytes) (r : ℕ) (t : Bytes)
    → length (xs ++ (z ∷ (ys ++ (r ∷ t)))) ≡ length xs + suc (length ys + suc (length t))
length-parts xs z ys r t =
    omega (arith, length-append {0} xs (z ∷ (ys ++ (r ∷ t))), length-append {0} ys (r ∷ t))
