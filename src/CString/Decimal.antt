-- ===== src/CString/Decimal.antt =====
-- The text of `%d`.
use vs_http_server.Prelude.{
  ℕ, zero, suc, ◌+◌, ◌≤◌, ◌≡◌, refl, arith, false, [], ◌∷◌, ◌++◌, length, ℤ, pos, negsuc, ◌/◌, ◌%◌,
}
use vs_http_server.CString.{Bytes, decimal, decimal_onto}
use vs_http_server.CString.Laws.{has_nul}

length-decimal_onto :
    (fuel n : ℕ) (rest : Bytes) → length (decimal_onto fuel n rest) ≤ fuel + length rest
unfolding decimal_onto
length-decimal_onto zero n rest = omega arith
length-decimal_onto (suc fuel) n rest =
    ground (arith, length-decimal_onto fuel (n / 10) ((n % 10 + b'0') ∷ rest))

-- An `int` has a sign and ten digits at most.
pub length-decimal : (z : ℤ) → length (decimal z) ≤ 11
unfolding decimal
length-decimal (pos zero) = omega arith
length-decimal (pos (suc n)) = omega (arith, length-decimal_onto 10 (suc n) [])
length-decimal (negsuc n) = omega (arith, length-decimal_onto 10 (suc n) [])

has_nul-decimal_onto :
    (fuel n : ℕ) (rest : Bytes) → has_nul rest ≡ false → has_nul (decimal_onto fuel n rest) ≡ false
unfolding decimal_onto
has_nul-decimal_onto zero n rest h = h
has_nul-decimal_onto (suc fuel) n rest h =
    ground (arith, has_nul-decimal_onto fuel (n / 10) ((n % 10 + b'0') ∷ rest))

pub has_nul-decimal : (z : ℤ) → has_nul (decimal z) ≡ false
unfolding decimal
has_nul-decimal (pos zero) = refl
has_nul-decimal (pos (suc n)) = has_nul-decimal_onto 10 (suc n) [] refl
has_nul-decimal (negsuc n) = has_nul-decimal_onto 10 (suc n) [] refl

pub has_nul-append :
    (s t : Bytes) → has_nul s ≡ false → has_nul t ≡ false → has_nul (s ++ t) ≡ false
has_nul-append [] t h k = k
has_nul-append (c ∷ s) t h k = ground (arith, has_nul-append s t)
