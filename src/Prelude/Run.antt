-- ===== src/Prelude/Run.antt =====
-- What a run of C++ code comes to. `fault` is undefined behaviour: an access outside an object, a
-- NULL dereference, a use of a freed object, a signed overflow, a division by zero. `spent` is a
-- loop of the model that has used up its fuel.
use mathlib.Core.Path.{◌≡◌, refl}
use mathlib.Core.Bool.{Bool, true, false}
use vs_http_server.Prelude.Tests.{if◌then◌else◌}
use mathlib.Core.Option.{Option, none, some}

pub data Outcome {ℓ} (A : Type ℓ) : Type ℓ where
  ret : A → Outcome A
  fault : Outcome A
  spent : Outcome A

infixl 5 ◌>>=◌ ◌>>◌
abbrev pub ◌>>=◌ {ℓ κ} : {A : Type ℓ} {B : Type κ} → Outcome A → (A → Outcome B) → Outcome B
ret a >>= f = f a
fault >>= f = fault
spent >>= f = spent

abbrev pub ◌>>◌ {ℓ κ} : {A : Type ℓ} {B : Type κ} → Outcome A → Outcome B → Outcome B
m >> k = m >>= λ _. k

-- An absent value is a fault.
abbrev pub or_fault {ℓ} : {A : Type ℓ} → Option A → Outcome A
or_fault none = fault
or_fault (some a) = ret a

-- The run ends, and its value satisfies the predicate.
abbrev pub Returns {ℓ} : {A : Type ℓ} → (A → Type 0) → Outcome A → Type 0
Returns P (ret a) = P a
Returns P fault = ⊥
Returns P spent = ⊥

module _ {ℓ} {A : Type ℓ} where
  -- To use a run that returns: its value, with the equation.
  pub Returns-inv : (P : A → Type 0) (m : Outcome A) → Returns P m → (a : A) × (m ≡ ret a) × P a
  Returns-inv P (ret a) h = (a, refl, h)
  Returns-inv P fault h = elim h [ ]
  Returns-inv P spent h = elim h [ ]

  pub Returns-intro : (P : A → Type 0) {m : Outcome A} (a : A) → m ≡ ret a → P a → Returns P m
  Returns-intro P a e h = rw e h

  -- Inversion of a successful sequence.
  pub >>=-eq-ret {κ} :
      {B : Type κ} (m : Outcome A) (f : A → Outcome B) {b : B}
      → (m >>= f) ≡ ret b
      → (a : A) × (m ≡ ret a) × (f a ≡ ret b)
  >>=-eq-ret (ret a) f h = (a, refl, h)
  >>=-eq-ret fault f h = cc
  >>=-eq-ret spent f h = cc

  -- A sequence whose first part is known.
  pub >>=-ret {κ} :
      {B : Type κ} (m : Outcome A) (f : A → Outcome B) (a : A) (r : Outcome B)
      → m ≡ ret a
      → f a ≡ r
      → (m >>= f) ≡ r
  >>=-ret m f a r e h = rw e h

  -- Rules for a test and for a sequence, to prove `Returns` along the code.
  pub Returns-if :
      (P : A → Type 0) (b : Bool) (x y : Outcome A)
      → (b ≡ true → Returns P x)
      → (b ≡ false → Returns P y)
      → Returns P (if b then x else y)
  Returns-if P true x y h k = h refl
  Returns-if P false x y h k = k refl

  pub Returns->>= {κ} :
      {B : Type κ} (Q : B → Type 0) (P : A → Type 0) (m : Outcome B) (f : B → Outcome A)
      → Returns Q m
      → ((b : B) → m ≡ ret b → Q b → Returns P (f b))
      → Returns P (m >>= f)
  Returns->>= Q P (ret b) f h k = k b refl h
  Returns->>= Q P fault f h k = elim h [ ]
  Returns->>= Q P spent f h k = elim h [ ]

  pub Returns-map :
      (P Q : A → Type 0) (m : Outcome A) → ((a : A) → P a → Q a) → Returns P m → Returns Q m
  Returns-map P Q (ret a) f h = f a h
  Returns-map P Q fault f h = h
  Returns-map P Q spent f h = h

-- The run ends: with a value that satisfies the predicate, or by a bad access, and then `F` holds.
abbrev pub Allows {ℓ} : {A : Type ℓ} → Type 0 → (A → Type 0) → Outcome A → Type 0
Allows F P (ret a) = P a
Allows F P fault = F
Allows F P spent = ⊥

module _ {ℓ} {A : Type ℓ} (F : Type 0) where
  pub Allows-if :
      (P : A → Type 0) (b : Bool) (x y : Outcome A)
      → (b ≡ true → Allows F P x)
      → (b ≡ false → Allows F P y)
      → Allows F P (if b then x else y)
  Allows-if P true x y h k = h refl
  Allows-if P false x y h k = k refl

  pub Allows->>= {κ} :
      {B : Type κ} (Q : B → Type 0) (P : A → Type 0) (m : Outcome B) (f : B → Outcome A)
      → Allows F Q m
      → ((b : B) → m ≡ ret b → Q b → Allows F P (f b))
      → Allows F P (m >>= f)
  Allows->>= Q P (ret b) f h k = k b refl h
  Allows->>= Q P fault f h k = h
  Allows->>= Q P spent f h k = elim h [ ]

  pub Returns-Allows : (P : A → Type 0) (m : Outcome A) → Returns P m → Allows F P m
  Returns-Allows P (ret a) h = h
  Returns-Allows P fault h = elim h [ ]
  Returns-Allows P spent h = h

  -- What is known of the bad access may be put another way.
  pub Allows-fault :
      (E : Type 0) (P : A → Type 0) (m : Outcome A)
      → (m ≡ fault → E → F)
      → Allows E P m
      → Allows F P m
  Allows-fault E P (ret a) k h = h
  Allows-fault E P fault k h = k refl h
  Allows-fault E P spent k h = h

-- A sequence in brackets.
pub Returns-assoc {ℓ κ μ} :
    {A : Type ℓ} {B : Type κ} {C : Type μ} (P : C → Type 0) (m : Outcome A) (f : A → Outcome B)
    (g : B → Outcome C)
    → Returns P ((m >>= f) >>= g)
    → Returns P (m >>= λ a. f a >>= g)
Returns-assoc P (ret a) f g h = h
Returns-assoc P fault f g h = h
Returns-assoc P spent f g h = h
