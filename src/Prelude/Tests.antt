-- ===== src/Prelude/Tests.antt =====
-- Boolean tests on the native numbers, the conditional, and results that may be an error.
use Prim.Native.Nat.{ℕ, compare, Ordering}
use mathlib.Core.Path.{◌≡◌, refl}
use mathlib.Core.Logic.{◌↔◌, ◌⊎◌, inl, inr}
use mathlib.Core.Bool.{Bool, true, false}
use mathlib.Core.Option.{Option, none, some}
use native.Mathlib.Omega.{arith}

abbrev pub ltb : ℕ → ℕ → Bool
ltb a b = elim (compare a b) [ Ordering.lt ↦ true | _ ↦ false ]

abbrev pub leb : ℕ → ℕ → Bool
leb a b = elim (compare a b) [ Ordering.gt ↦ false | _ ↦ true ]

infix 50 ◌==◌
abbrev pub ◌==◌ : ℕ → ℕ → Bool
a == b = elim (compare a b) [ Ordering.eq ↦ true | _ ↦ false ]

infix 1 if◌then◌else◌
abbrev pub if◌then◌else◌ {ℓ} : {A : Type ℓ} → Bool → A → A → A
if true then x else y = x
if false then x else y = y

pub ==_iff : (a b : ℕ) → ((a == b) ≡ true) ↔ (a ≡ b)
==_iff a b = ground arith

pub ==-refl : (a : ℕ) → (a == a) ≡ true
==-refl a = ground arith

-- To split on a computed value and keep the equation.
pub Bool-cases : (b : Bool) → (b ≡ true) ⊎ (b ≡ false)
Bool-cases true = inl refl
Bool-cases false = inr refl

pub Option-cases {ℓ} : {A : Type ℓ} (o : Option A) → (o ≡ none) ⊎ ((a : A) × (o ≡ some a))
Option-cases none = inl refl
Option-cases (some a) = inr (a, refl)

abbrev pub is_some {ℓ} : {A : Type ℓ} → Option A → Bool
is_some none = false
is_some (some a) = true

-- Go's pair of a value and an error.
pub data Result {ℓ ε} (E : Type ε) (A : Type ℓ) : Type (ℓ ⊔ ε) where
  ok : (value : A) → Result E A
  err : (problem : E) → Result E A

-- `x, err := r` and `if err != nil { return err }` before the rest.
infixl 5 ◌>>=◌ ◌>>◌
abbrev pub ◌>>=◌ {ℓ ε κ} :
    {E : Type ε} {A : Type ℓ} {B : Type κ} → Result E A → (A → Result E B) → Result E B
err problem >>= rest = err problem
ok x >>= rest = rest x

abbrev pub ◌>>◌ {κ ε} : {E : Type ε} {B : Type κ} → Result E (Unit {0}) → Result E B → Result E B
err problem >> rest = err problem
ok tt >> rest = rest

-- `if bad { return err }`.
abbrev pub reject_if {ε} : {E : Type ε} → Bool → E → Result E (Unit {0})
reject_if bad problem = if bad then err problem else ok tt

pub Result-cases {ℓ ε} :
    {E : Type ε} {A : Type ℓ} (r : Result E A) → ((x : A) × (r ≡ ok x)) ⊎ ((e : E) × (r ≡ err e))
Result-cases (err problem) = inr (problem, refl)
Result-cases (ok x) = inl (x, refl)

-- A chain that succeeds has a first step that does.
pub >>=-eq-ok {ℓ ε κ} :
    {E : Type ε} {A : Type ℓ} {B : Type κ} (first : Result E A) (rest : A → Result E B) {y : B}
    → (first >>= rest) ≡ ok y
    → (x : A) × (first ≡ ok x) × (rest x ≡ ok y)
>>=-eq-ok (err problem) rest done = cc
>>=-eq-ok (ok x) rest done = (x, refl, done)
