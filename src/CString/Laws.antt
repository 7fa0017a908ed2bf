-- ===== src/CString/Laws.antt =====
-- No scan of CString runs past the end of an object that holds a NUL from the pointer on.
use vs_http_server.Prelude.{
  ℕ, zero, suc, ◌+◌, ◌<◌, ◌≡◌, refl, Bool, true, false, ◌||◌, Option, none, some, [], ◌∷◌, ◌++◌,
  ◌*◌, ◌-◌, inl, inr, arith, ◌==◌, Returns, Returns-inv, Bool-cases, drop, set, length, ℤ,
}
use vs_http_server.CString.{
  Bytes, strpbrk, strspn, strchr, strcasecmp_eq, strncasecmp_eq, strlen, digits, atol_digits,
  atol_sign, atol, is_space,
}

-- Whether a NUL stands in these bytes.
abbrev pub has_nul : Bytes → Bool
has_nul [] = false
has_nul (c ∷ m) = c == 0 || has_nul m

pub has_nul-append_nul : (xs ys : Bytes) → has_nul (xs ++ (0 ∷ ys)) ≡ true
has_nul-append_nul [] ys = refl
has_nul-append_nul (x ∷ xs) ys = ground (arith, has_nul-append_nul xs ys)

-- What the caller may rely on where a scan has found a byte.
abbrev pub FoundBefore : Bytes → Option ℕ → Type 0
FoundBefore m none = Unit
FoundBefore m (some k) =
    (k < length m) × (has_nul (drop k m) ≡ true) × (has_nul (drop (suc k) m) ≡ true)

abbrev pub FoundAt : Bytes → Option ℕ → Type 0
FoundAt m none = Unit
FoundAt m (some k) = has_nul (drop k m) ≡ true

pub has_nul-drop : (k : ℕ) (m : Bytes) → has_nul (drop k m) ≡ true → k < length m
has_nul-drop zero [] h = ground arith
has_nul-drop zero (c ∷ m) h = omega arith
has_nul-drop (suc k) [] h = ground arith
has_nul-drop (suc k) (c ∷ m) h = omega (arith, has_nul-drop k m h)

pub has_nul-set : (k : ℕ) (m : Bytes) → k < length m → has_nul (set m k 0) ≡ true
has_nul-set k [] h = elim h [ ]
has_nul-set zero (c ∷ m) h = refl
has_nul-set (suc k) (c ∷ m) h = ground (arith, has_nul-set k m)

pub strpbrk-Returns : (m : Bytes) → has_nul m ≡ true → Returns (FoundBefore m) (strpbrk m)
unfolding strpbrk
strpbrk-Returns [] h = ground arith
strpbrk-Returns (c ∷ m) h = ground (arith, strpbrk-Returns m)

pub strspn-Returns :
    (m : Bytes) → has_nul m ≡ true → Returns (λ k. has_nul (drop k m) ≡ true) (strspn m)
unfolding strspn
strspn-Returns [] h = ground arith
strspn-Returns (c ∷ m) h = ground (arith, strspn-Returns m)

pub strchr-Returns : (b : ℕ) (m : Bytes) → has_nul m ≡ true → Returns (FoundAt m) (strchr b m)
unfolding strchr
strchr-Returns b [] h = ground arith
strchr-Returns b (c ∷ m) h = ground (arith, strchr-Returns b m)

-- The run ends, whatever its value.
abbrev pub Done {ℓ} : {A : Type ℓ} → A → Type 0
Done a = Unit {0}

pub strcasecmp_eq-Returns :
    (m lit : Bytes)
    → has_nul m ≡ true
    → has_nul lit ≡ false
    → Returns (Done {A = Bool}) (strcasecmp_eq m lit)
unfolding strcasecmp_eq
strcasecmp_eq-Returns [] lit h l = ground arith
strcasecmp_eq-Returns (c ∷ m) [] h l = tt
strcasecmp_eq-Returns (c ∷ m) (d ∷ lit) h l = ground (arith, strcasecmp_eq-Returns m lit)

-- A match leaves the rest of the string behind the literal.
pub strncasecmp_eq-Returns :
    (m lit : Bytes)
    → has_nul m ≡ true
    → has_nul lit ≡ false
    → Returns (λ b. b ≡ true → has_nul (drop (length lit) m) ≡ true) (strncasecmp_eq m lit)
unfolding strncasecmp_eq
strncasecmp_eq-Returns m [] h l = λ _. h
strncasecmp_eq-Returns [] (d ∷ lit) h l = ground arith
strncasecmp_eq-Returns (c ∷ m) (d ∷ lit) h l = ground (arith, strncasecmp_eq-Returns m lit)

pub strlen-Returns : (m : Bytes) → has_nul m ≡ true → Returns (λ k. k < length m) (strlen m)
unfolding strlen
strlen-Returns [] h = ground arith
strlen-Returns (c ∷ m) h = ground (arith, strlen-Returns m)

digits-Returns : (acc : ℕ) (m : Bytes) → has_nul m ≡ true → Returns (Done {A = ℕ}) (digits acc m)
unfolding digits
digits-Returns acc [] h = ground arith
digits-Returns acc (c ∷ m) h = ground (arith, digits-Returns (acc * 10 + (c - b'0')) m)

atol_digits-Returns :
    (minus : Bool) (m : Bytes) → has_nul m ≡ true → Returns (Done {A = ℤ}) (atol_digits minus m)
unfolding atol_digits
atol_digits-Returns minus m h =
    let (n, e, _) = Returns-inv (Done {A = ℕ}) (digits 0 m) (digits-Returns 0 m h) in rw e tt

atol_sign-Returns : (m : Bytes) → has_nul m ≡ true → Returns (Done {A = ℤ}) (atol_sign m)
unfolding atol_sign
atol_sign-Returns [] h = ground arith
atol_sign-Returns (c ∷ m) h = elim (Bool-cases (c == b'-')) [
  | inl e ↦ rw e (atol_digits-Returns true m (ground arith))
  | inr e ↦ rw e (elim (Bool-cases (c == b'+')) [
    | inl f ↦ rw f (atol_digits-Returns false m (ground arith))
    | inr f ↦ rw f (atol_digits-Returns false (c ∷ m) h)
  ])
]

pub atol-Returns : (m : Bytes) → has_nul m ≡ true → Returns (Done {A = ℤ}) (atol m)
unfolding atol
atol-Returns [] h = ground arith
atol-Returns (c ∷ m) h = elim (Bool-cases (is_space c)) [
  | inl e ↦ rw e (atol-Returns m (ground arith))
  | inr e ↦ rw e (atol_sign-Returns (c ∷ m) h)
]
