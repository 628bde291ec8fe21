-- ===== src/Prelude/Keys.antt =====
-- What a table holds after an insertion.
use mathlib.Core.Bool.{Bool, true, false}
use mathlib.Core.Option.{some}
use mathlib.Core.List.{List, [], ◌∷◌}
use mathlib.Core.Path.{◌≡◌, refl}
use mathlib.Core.Logic.{inl, inr}
use oashttp.Prelude.Tests.{Bool-cases}
use oashttp.Prelude.Tables.{insert, lookup}

module _ {ℓ κ} {K : Type κ} {A : Type ℓ} (same : K → K → Bool) where
  pub lookup-insert :
      (key : K) (a : A) (table : List (K × A))
      → same key key ≡ true
      → lookup same (insert same key a table) key ≡ some a
  unfolding lookup insert
  lookup-insert key a [] e = rw e refl
  lookup-insert key a ((k, b) ∷ table) e = elim (Bool-cases (same k key)) [
    | inl h ↦ rw (h, h) refl
    | inr h ↦ rw (h, h) (lookup-insert key a table e)
  ]

  pub lookup-insert_other :
      (key other : K) (a : A) (table : List (K × A))
      → same key other ≡ false
      → ((k : K) → same k key ≡ true → same k other ≡ false)
      → lookup same (insert same key a table) other ≡ lookup same table other
  unfolding lookup insert
  lookup-insert_other key other a [] e apart = rw e refl
  lookup-insert_other key other a ((k, b) ∷ table) e apart = elim (Bool-cases (same k key)) [
    | inl h ↦ rw (h, apart k h) refl
    | inr h ↦ elim (Bool-cases (same k other)) [
      | inl g ↦ rw (h, g) refl
      | inr g ↦ rw (h, g) (lookup-insert_other key other a table e apart)
    ]
  ]
