-- ===== src/Prelude/Tables.antt =====
-- Go maps as lists of entries with different keys, in the order of their first use.
use mathlib.Core.Bool.{Bool}
use mathlib.Core.Option.{Option, none, some}
use mathlib.Core.List.{List, [], ◌∷◌}
use mathlib.Core.Path.{◌≡◌, refl}
use mathlib.Core.Bool.{true}
use mathlib.Core.Logic.{inl, inr}
use native.Mathlib.Omega.{arith}
use oashttp.Prelude.Tests.{if◌then◌else◌, is_some, Bool-cases}

module _ {ℓ κ} {K : Type κ} {A : Type ℓ} (same : K → K → Bool) where
  unfoldable pub lookup : List (K × A) → K → Option A
  lookup [] key = none
  lookup ((k, a) ∷ table) key = if same k key then some a else lookup table key

  unfoldable pub insert : K → A → List (K × A) → List (K × A)
  insert key a [] = (key, a) ∷ []
  insert key a ((k, b) ∷ table) = if same k key then (k, a) ∷ table else (k, b) ∷ insert key a table

  -- An entry is there under its key, and no key is lost.
  pub insert-has :
      (key : K) (a : A) (table : List (K × A))
      → same key key ≡ true
      → is_some (lookup (insert key a table) key) ≡ true
  unfolding lookup insert
  insert-has key a [] e = rw e refl
  insert-has key a ((k, b) ∷ table) e = elim (Bool-cases (same k key)) [
    | inl h ↦ rw (h, h) refl
    | inr h ↦ rw (h, h) (insert-has key a table e)
  ]

  pub insert-keeps :
      (key j : K) (a : A) (table : List (K × A))
      → is_some (lookup table j) ≡ true
      → is_some (lookup (insert key a table) j) ≡ true
  unfolding lookup insert
  insert-keeps key j a [] e = cc
  insert-keeps key j a ((k, b) ∷ table) e = elim (Bool-cases (same k key)) [
    | inl h ↦ elim (Bool-cases (same k j)) [
      | inl g ↦ rw (h, g) refl
      | inr g ↦ rw (h, g) (ground arith)
    ]
    | inr h ↦ elim (Bool-cases (same k j)) [
      | inl g ↦ rw (h, g) refl
      | inr g ↦ rw (h, g) (insert-keeps key j a table (ground arith))
    ]
  ]
