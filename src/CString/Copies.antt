-- ===== src/CString/Copies.antt =====
-- Strings and their copies by `strncpy`.
use vs_http_server.Prelude.{
  sym, ◌⊎◌, ℕ, zero, suc, ◌≡◌, refl, ap, true, false, [], ◌∷◌, ◌++◌, arith, length, take, replicate,
  length-replicate, ret, Returns, Allows, ◌==◌, Bool-cases, inl, inr, >>=-eq-ret,
}
use vs_http_server.CString.{Bytes, strncpy, string_at}
use vs_http_server.CString.Laws.{has_nul}

pub string_at-Returns :
    (m : Bytes) → has_nul m ≡ true → Returns (λ s. has_nul s ≡ false) (string_at m)
unfolding string_at
string_at-Returns [] h = ground arith
string_at-Returns (c ∷ m) h = ground (arith, string_at-Returns m)

-- Memory without a NUL is read past its end.
pub string_at-Allows :
    (m : Bytes) → Allows (has_nul m ≡ false) (λ s. has_nul m ≡ true) (string_at m)
unfolding string_at
string_at-Allows [] = refl
string_at-Allows (c ∷ m) = ground (arith, string_at-Allows m)

-- The string behind a byte other than NUL.
string_at-cons :
    (c : ℕ) (m s : Bytes) → (c == 0) ≡ false → string_at m ≡ ret s → string_at (c ∷ m) ≡ ret (c ∷ s)
unfolding string_at
string_at-cons c m s nz e = rw (nz, e)

-- Behind bytes with no NUL the string goes on.
pub string_at-append :
    (s m t : Bytes) → has_nul s ≡ false → string_at m ≡ ret t → string_at (s ++ m) ≡ ret (s ++ t)
string_at-append [] m t h e = e
string_at-append (c ∷ s) m t h e =
    string_at-cons c (s ++ m) (s ++ t) (ground arith) (string_at-append s m t (ground arith) e)

ret-injective {ℓ} : {A : Type ℓ} (a b : A) → ret a ≡ ret b → a ≡ b
ret-injective a b e = cc

take-nil : (n : ℕ) → take {A = ℕ} n [] ≡ []
take-nil zero = refl
take-nil (suc n) = refl

pub string_at-nul : (m : Bytes) → string_at (0 ∷ m) ≡ ret []
unfolding string_at
string_at-nul m = refl

-- The string at a pointer is empty, or it has a first byte.
string_at_cases :
    (c : ℕ) (m s : Bytes)
    → string_at (c ∷ m) ≡ ret s
    → ((c == 0) ≡ true) × (s ≡ [])
      ⊎ ((t : Bytes) × ((c == 0) ≡ false) × (string_at m ≡ ret t) × (s ≡ c ∷ t))
unfolding string_at
string_at_cases c m s e = elim (Bool-cases (c == 0)) [
  | inl z ↦ inl (z, sym (ret-injective [] s (rw z at e)))
  | inr nz ↦
      let (t, et, es) = >>=-eq-ret (string_at m) (λ t. ret (c ∷ t)) (rw nz at e) in
      inr (t, nz, et, sym (ret-injective (c ∷ t) s es))
]

-- The copy has `n` bytes, and with a NUL behind it holds the first `n` bytes of the string.
pub strncpy_lem :
    (n : ℕ) (m s : Bytes)
    → string_at m ≡ ret s
    → (copied : Bytes) × (strncpy n m ≡ ret copied)
      × (length copied ≡ n)
      × (string_at (copied ++ 0 ∷ []) ≡ ret (take n s))
unfolding strncpy
strncpy_lem zero m s e = ([], refl, refl, string_at-nul [])
strncpy_lem (suc n) [] s e = unfold string_at in cc
strncpy_lem (suc n) (c ∷ m) s e = elim (string_at_cases c m s e) [
  | inl (z, es) ↦
      (replicate (suc n) 0, rw z, length-replicate (suc n) 0, rw (es, take-nil) (string_at-nul _))
  | inr (t, nz, et, es) ↦
      let (copied, ec, en, ek) = strncpy_lem n m t et in
      (c ∷ copied, rw (nz, ec), ap suc en, rw es (string_at-cons c _ _ nz ek))
]
