-- ===== src/Prelude/Lists.antt =====
-- Lists measured and indexed by native numbers, under the library's names. A byte buffer of the
-- program is such a list.
use Prim.Native.Nat.{ℕ, zero, suc, ◌+◌, ◌-◌, ◌≤◌, ◌<◌, min}
use mathlib.Core.Path.{◌≡◌, refl, ap, ◌∙◌}
use mathlib.Core.List.{List, [], ◌∷◌, ◌++◌}
use mathlib.Core.Option.{Option, none, some}
use native.Mathlib.Omega.{arith}

module _ {ℓ} {A : Type ℓ} where
  abbrev pub length : List A → ℕ
  length [] = 0
  length (x ∷ xs) = suc (length xs)

  abbrev pub get_elem? : List A → ℕ → Option A
  get_elem? [] i = none
  get_elem? (x ∷ xs) zero = some x
  get_elem? (x ∷ xs) (suc i) = get_elem? xs i

  -- A write out of bounds changes nothing.
  abbrev pub set : List A → ℕ → A → List A
  set [] i v = []
  set (x ∷ xs) zero v = v ∷ xs
  set (x ∷ xs) (suc i) v = x ∷ set xs i v

  abbrev pub take : ℕ → List A → List A
  take zero xs = []
  take (suc n) [] = []
  take (suc n) (x ∷ xs) = x ∷ take n xs

  abbrev pub drop : ℕ → List A → List A
  drop zero xs = xs
  drop (suc n) [] = []
  drop (suc n) (x ∷ xs) = drop n xs

  abbrev pub replicate : ℕ → A → List A
  replicate zero a = []
  replicate (suc n) a = a ∷ replicate n a

  -- Stores the items from an index on; what does not fit in the list is dropped.
  abbrev pub write_at : List A → ℕ → List A → List A
  write_at [] i vs = []
  write_at (x ∷ xs) (suc i) vs = x ∷ write_at xs i vs
  write_at (x ∷ xs) zero [] = x ∷ xs
  write_at (x ∷ xs) zero (v ∷ vs) = v ∷ write_at xs zero vs

module _ {ℓ} {A : Type ℓ} where
  pub length-append : (xs ys : List A) → length (xs ++ ys) ≡ length xs + length ys
  length-append [] ys = omega arith
  length-append (x ∷ xs) ys = omega (arith, length-append xs ys)

  pub length-set : (xs : List A) (i : ℕ) (v : A) → length (set xs i v) ≡ length xs
  length-set [] i v = refl
  length-set (x ∷ xs) zero v = refl
  length-set (x ∷ xs) (suc i) v = ap suc (length-set xs i v)

  pub length-write_at : (xs : List A) (i : ℕ) (vs : List A) → length (write_at xs i vs) ≡ length xs
  length-write_at [] i vs = refl
  length-write_at (x ∷ xs) (suc i) vs = ap suc (length-write_at xs i vs)
  length-write_at (x ∷ xs) zero [] = refl
  length-write_at (x ∷ xs) zero (v ∷ vs) = ap suc (length-write_at xs zero vs)

  pub length-replicate : (n : ℕ) (a : A) → length (replicate n a) ≡ n
  length-replicate zero a = refl
  length-replicate (suc n) a = ap suc (length-replicate n a)

  pub length-take : (n : ℕ) (xs : List A) → length (take n xs) ≡ min n (length xs)
  length-take zero xs = omega arith
  length-take (suc n) [] = omega arith
  length-take (suc n) (x ∷ xs) = omega (arith, length-take n xs)

  pub get_elem?_lt : (xs : List A) (i : ℕ) → i < length xs → (a : A) × (get_elem? xs i ≡ some a)
  get_elem?_lt [] i h = elim h [ ]
  get_elem?_lt (x ∷ xs) zero h = (x, refl)
  get_elem?_lt (x ∷ xs) (suc i) h = get_elem?_lt xs i (omega arith)

  pub get_elem?-set_self :
      (xs : List A) (i : ℕ) (v : A) → i < length xs → get_elem? (set xs i v) i ≡ some v
  get_elem?-set_self [] i v h = elim h [ ]
  get_elem?-set_self (x ∷ xs) zero v h = refl
  get_elem?-set_self (x ∷ xs) (suc i) v h = get_elem?-set_self xs i v (omega arith)

  pub drop-set_lt : (xs : List A) (i q : ℕ) (v : A) → i < q → drop q (set xs i v) ≡ drop q xs
  drop-set_lt [] i zero v h = refl
  drop-set_lt [] i (suc q) v h = refl
  drop-set_lt (x ∷ xs) i zero v h = elim h [ ]
  drop-set_lt (x ∷ xs) zero (suc q) v h = refl
  drop-set_lt (x ∷ xs) (suc i) (suc q) v h = drop-set_lt xs i q v (omega arith)

  pub drop-set_ge :
      (xs : List A) (k q : ℕ) (v : A) → drop q (set xs (q + k) v) ≡ set (drop q xs) k v
  drop-set_ge xs k zero v = ap (λ n. set xs n v) (omega arith)
  drop-set_ge [] k (suc q) v = refl
  drop-set_ge (x ∷ xs) k (suc q) v =
      ap (λ n. drop (suc q) (set (x ∷ xs) n v)) (let e : suc q + k ≡ suc (q + k) = omega arith in e)
      ∙ drop-set_ge xs k q v

  pub drop-drop : (m n : ℕ) (xs : List A) → drop m (drop n xs) ≡ drop (n + m) xs
  drop-drop m zero xs = ap (λ k. drop k xs) (let e : m ≡ 0 + m = omega arith in e)
  drop-drop zero (suc n) [] = ap (λ k. drop k []) (let e : suc n ≡ suc n + 0 = omega arith in e)
  drop-drop (suc m) (suc n) [] =
      ap (λ k. drop k []) (let e : suc (n + suc m) ≡ suc n + suc m = omega arith in e)
  drop-drop m (suc n) (x ∷ xs) =
      drop-drop m n xs
      ∙ ap (λ k. drop k (x ∷ xs)) (let e : suc (n + m) ≡ suc n + m = omega arith in e)

  pub drop-append : (xs ys : List A) → drop (length xs) (xs ++ ys) ≡ ys
  drop-append [] ys = refl
  drop-append (x ∷ xs) ys = drop-append xs ys

  pub set-append : (xs ys : List A) (y v : A) → set (xs ++ (y ∷ ys)) (length xs) v ≡ xs ++ (v ∷ ys)
  set-append [] ys y v = refl
  set-append (x ∷ xs) ys y v = ap (◌∷◌ x) (set-append xs ys y v)

-- A predicate that holds of all items.
abbrev pub All {ℓ} : {A : Type ℓ} → (A → Type 0) → List A → Type 0
All P [] = Unit
All P (x ∷ xs) = P x × All P xs

module _ {ℓ} {A : Type ℓ} where
  pub write_at-zero :
      (xs vs : List A) → length vs ≤ length xs → write_at xs 0 vs ≡ vs ++ drop (length vs) xs
  write_at-zero [] [] h = refl
  write_at-zero [] (v ∷ vs) h = elim h [ ]
  write_at-zero (x ∷ xs) [] h = refl
  write_at-zero (x ∷ xs) (v ∷ vs) h = ap (◌∷◌ v) (write_at-zero xs vs (omega arith))

  pub write_at-append :
      (zs xs vs : List A) → write_at (zs ++ xs) (length zs) vs ≡ zs ++ write_at xs 0 vs
  write_at-append [] xs vs = refl
  write_at-append (z ∷ zs) xs vs = ap (◌∷◌ z) (write_at-append zs xs vs)

  pub length-drop : (n : ℕ) (xs : List A) → length (drop n xs) ≡ length xs - n
  length-drop zero xs = omega arith
  length-drop (suc n) [] = omega arith
  length-drop (suc n) (x ∷ xs) = omega (arith, length-drop n xs)
