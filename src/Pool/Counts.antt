-- ===== src/Pool/Counts.antt =====
-- Lists of thread ids: `std::find` with `erase`, and how often an id stands in a list.
use vs_http_server.Prelude.{
  ℕ, suc, ◌+◌, ◌-◌, ◌<◌, ◌≡◌, refl, List, [], ◌∷◌, ◌++◌, arith, length, ◌==◌, if◌then◌else◌,
}

-- `find` and, where it finds an item, `erase`: the first occurrence goes.
unfoldable pub erase : ℕ → List ℕ → List ℕ
erase t [] = []
erase t (x ∷ xs) = if x == t then xs else x ∷ erase t xs

abbrev pub count : ℕ → List ℕ → ℕ
count t [] = 0
count t (x ∷ xs) = (if x == t then 1 else 0) + count t xs

pub count-append : (t : ℕ) (xs ys : List ℕ) → count t (xs ++ ys) ≡ count t xs + count t ys
count-append t [] ys = omega arith
count-append t (x ∷ xs) ys = omega (arith, count-append t xs ys)

pub count-erase :
    (t u : ℕ) (xs : List ℕ) → count t (erase u xs) ≡ (if u == t then count t xs - 1 else count t xs)
unfolding erase
count-erase t u [] = ground arith
count-erase t u (x ∷ xs) = ground (arith, count-erase t u xs)

pub length-erase : (t : ℕ) (xs : List ℕ) → 0 < count t xs → suc (length (erase t xs)) ≡ length xs
unfolding erase
length-erase t [] h = omega arith
length-erase t (x ∷ xs) h = ground (arith, length-erase t xs)

pub erase_absent : (t : ℕ) (xs : List ℕ) → count t xs ≡ 0 → erase t xs ≡ xs
unfolding erase
erase_absent t [] h = refl
erase_absent t (x ∷ xs) h = ground (arith, erase_absent t xs)

pub count-head : (t : ℕ) (xs : List ℕ) → 0 < count t (t ∷ xs)
count-head t xs = ground arith
