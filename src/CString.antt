-- ===== src/CString.antt =====
-- The functions of the C library that job.cpp calls on strings, over the bytes from a pointer up to
-- the end of the object that it points into. A scan that meets no NUL before that end is a fault.
pub mod Laws
pub mod Copies
pub mod Decimal
pub mod Words
use Prim.Native.Char.{code}
use Prim.Native.String.{String}
use vs_http_server.Prelude.{
  ℕ, zero, suc, ◌+◌, ◌-◌, ◌*◌, ◌/◌, ◌%◌, ◌^◌, Bool, true, false, ◌&&◌, ◌||◌, Option, none, some,
  List, [], ◌∷◌, ltb, leb, ◌==◌, if◌then◌else◌, Outcome, ret, fault, ◌>>=◌, ℤ, pos, negsuc, sub_ℕ,
  replicate,
}

abbrev pub Bytes : Type 0
Bytes = List ℕ

-- The bytes of a literal, which is ASCII.
abbrev pub codes : String → Bytes
codes String.[] = []
codes (String.◌∷◌ c s) = code c ∷ codes s

-- The accept set " \t".
unfoldable pub is_blank : ℕ → Bool
is_blank c = c == b' ' || c == b'\t'

-- `tolower` in the C locale.
unfoldable pub to_lower : ℕ → ℕ
to_lower c = if leb b'A' c && leb c b'Z' then c + 32 else c

abbrev shift_found : Outcome (Option ℕ) → Outcome (Option ℕ)
shift_found m = m >>= elim [ none ↦ ret none | some k ↦ ret (some (suc k)) ]

-- `strpbrk( s, " \t" )`, as an offset from `s`; `none` is NULL.
unfoldable pub strpbrk : Bytes → Outcome (Option ℕ)
unfolding is_blank
strpbrk [] = fault
strpbrk (c ∷ m) =
    let rest = strpbrk m in
    if c == 0 then ret none else if is_blank c then ret (some 0) else shift_found rest

-- `strspn( s, " \t" )`.
unfoldable pub strspn : Bytes → Outcome ℕ
unfolding is_blank
strspn [] = fault
strspn (c ∷ m) = let rest = strspn m in if is_blank c then (do k ← rest; ret (suc k)) else ret 0

-- `strchr( s, c )`, for a `c` other than NUL.
unfoldable pub strchr : ℕ → Bytes → Outcome (Option ℕ)
strchr b [] = fault
strchr b (c ∷ m) =
    let rest = strchr b m in
    if c == b then ret (some 0) else if c == 0 then ret none else shift_found rest

-- `strcasecmp( s, literal ) == 0`.
unfoldable pub strcasecmp_eq : Bytes → Bytes → Outcome Bool
unfolding to_lower
strcasecmp_eq [] lit = fault
strcasecmp_eq (c ∷ m) [] = ret (c == 0)
strcasecmp_eq (c ∷ m) (d ∷ lit) =
    let rest = strcasecmp_eq m lit in if to_lower c == to_lower d then rest else ret false

-- `strncasecmp( s, literal, strlen( literal ) ) == 0`.
unfoldable pub strncasecmp_eq : Bytes → Bytes → Outcome Bool
unfolding to_lower
strncasecmp_eq m [] = ret true
strncasecmp_eq [] (d ∷ lit) = fault
strncasecmp_eq (c ∷ m) (d ∷ lit) =
    let rest = strncasecmp_eq m lit in if to_lower c == to_lower d then rest else ret false

-- `strlen( s )`.
unfoldable pub strlen : Bytes → Outcome ℕ
strlen [] = fault
strlen (c ∷ m) = let rest = strlen m in if c == 0 then ret 0 else (do k ← rest; ret (suc k))

-- `isspace` in the C locale.
unfoldable pub is_space : ℕ → Bool
is_space c = c == 32 || (leb 9 c && leb c 13)

unfoldable pub is_digit : ℕ → Bool
is_digit c = leb b'0' c && leb c b'9'

unfoldable pub digits : ℕ → Bytes → Outcome ℕ
unfolding is_digit
digits acc [] = fault
digits acc (c ∷ m) =
    let rest = digits (acc * 10 + (c - b'0')) m in if is_digit c then rest else ret acc

abbrev at_most : ℕ → ℕ → ℕ
at_most cap n = if leb n cap then n else cap

-- `atol` on a 64-bit `long`: a value out of range becomes the nearest one in range.
unfoldable pub atol_digits : Bool → Bytes → Outcome ℤ
unfolding digits
atol_digits minus m = do
  n ← digits 0 m
  ret (if minus then sub_ℕ 0 (at_most (2 ^ 63) n) else pos (at_most (2 ^ 63 - 1) n))

-- The sign, then the digits.
unfoldable pub atol_sign : Bytes → Outcome ℤ
unfolding atol_digits
atol_sign [] = fault
atol_sign (c ∷ m) =
    if c == b'-'
    then atol_digits true m
    else if c == b'+'
    then atol_digits false m
    else atol_digits false (c ∷ m)

-- `atol( s )`: leading white space, then the number.
unfoldable pub atol : Bytes → Outcome ℤ
unfolding is_space atol_sign
atol [] = fault
atol (c ∷ m) = let rest = atol m in if is_space c then rest else atol_sign (c ∷ m)

-- The conversion of a `long` to a 32-bit `int`, modulo 2 ^ 32.
unfoldable pub to_int : ℤ → ℤ
to_int (pos n) = let r = n % 2 ^ 32 in if ltb r (2 ^ 31) then pos r else negsuc (2 ^ 32 - r - 1)
to_int (negsuc n) = let r = n % 2 ^ 32 in if ltb r (2 ^ 31) then negsuc r else pos (2 ^ 32 - r - 1)

-- The decimal digits of a number, in front of `rest`, as `%d` prints them.
unfoldable pub decimal_onto : ℕ → ℕ → Bytes → Bytes
decimal_onto zero n rest = rest
decimal_onto (suc fuel) n rest =
    let more = decimal_onto fuel (n / 10) ((n % 10 + b'0') ∷ rest) in if n == 0 then rest else more

-- `%d` of an `int`, which has ten digits at most.
unfoldable pub decimal : ℤ → Bytes
unfolding decimal_onto
decimal (pos zero) = b'0' ∷ []
decimal (pos n) = decimal_onto 10 n []
decimal (negsuc n) = b'-' ∷ decimal_onto 10 (suc n) []

-- `strncpy( d, s, n )`: the `n` bytes that it stores.
unfoldable pub strncpy : ℕ → Bytes → Outcome Bytes
strncpy zero m = ret []
strncpy (suc n) [] = fault
strncpy (suc n) (c ∷ m) =
    let rest = strncpy n m in
    if c == 0 then ret (replicate (suc n) 0) else (do copied ← rest; ret (c ∷ copied))

-- The string at a pointer, without its NUL.
unfoldable pub string_at : Bytes → Outcome Bytes
string_at [] = fault
string_at (c ∷ m) = let rest = string_at m in if c == 0 then ret [] else (do s ← rest; ret (c ∷ s))
