-- ===== src/CString/Words.antt =====
-- The scans of CString on a word: bytes without NUL, blanks and line ends.
use vs_http_server.Prelude.{ℕ, ◌≡◌, ◌≢◌, refl, true, some, [], ◌∷◌, ◌++◌, arith, length, ret}
use vs_http_server.CString.{Bytes, strpbrk, strspn, strcasecmp_eq}

-- No NUL, blank, carriage return or line feed.
abbrev pub IsWord : Bytes → Type 0
IsWord [] = Unit
IsWord (c ∷ w) = (c ≢ 0) × (c ≢ b' ') × (c ≢ b'\t') × (c ≢ b'\r') × (c ≢ b'\n') × IsWord w

pub strpbrk-word : (w m : Bytes) → IsWord w → strpbrk (w ++ (b' ' ∷ m)) ≡ ret (some (length w))
unfolding strpbrk
strpbrk-word [] m v = refl
strpbrk-word (c ∷ w) m (nul, space, tab, cr, lf, v) = rw (strpbrk-word w m v) (ground arith)

pub strspn-word : (c : ℕ) (w m : Bytes) → IsWord (c ∷ w) → strspn (c ∷ m) ≡ ret 0
unfolding strspn
strspn-word c w m (nul, space, tab, cr, lf, v) = ground arith

pub strcasecmp_eq-same : (w m : Bytes) → strcasecmp_eq (w ++ (0 ∷ m)) w ≡ ret true
unfolding strcasecmp_eq
strcasecmp_eq-same [] m = refl
strcasecmp_eq-same (c ∷ w) m = ground (arith, strcasecmp_eq-same w m)
