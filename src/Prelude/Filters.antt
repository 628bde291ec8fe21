-- ===== src/Prelude/Filters.antt =====
-- Filters, counts and members of lists.
use mathlib.Core.Path.{◌≡◌, refl, sym, ap, ◌∙◌}
use mathlib.Core.Logic.{◌↔◌, inl, inr, ◌⊎◌}
use mathlib.Core.Bool.{Bool, true, ◌&&◌, false≢true}
use mathlib.Core.List.{List, [], ◌∷◌, ◌++◌, Memᴰ}
use native.Mathlib.Omega.{arith}
use oashttp.Prelude.Tests.{Bool-cases}
use oashttp.Prelude.Lists.{length, filter, count, any}

module _ {ℓ} {A : Type ℓ} where
  pub Memᴰ-filter :
      (p : A → Bool) (a : A) (xs : List A) → Memᴰ a (filter p xs) ↔ (Memᴰ a xs × (p a ≡ true))
  unfolding filter
  Memᴰ-filter p a [] = (λ m. elim m [ ], λ m. m.0)
  Memᴰ-filter p a (x ∷ xs) =
      let (there, back) = Memᴰ-filter p a xs in
      elim (Bool-cases (p x)) [
        | inl e ↦ rw e (
          λ m. elim m [
            | Memᴰ.head h ↦ (Memᴰ.head h, rw h e)
            | Memᴰ.tail t ↦ (Memᴰ.tail (there t).0, (there t).1)
          ],
          λ m. elim m.0 [ Memᴰ.head h ↦ Memᴰ.head h | Memᴰ.tail t ↦ Memᴰ.tail (back (t, m.1)) ],
        )
        | inr e ↦ rw e (
          λ m. (Memᴰ.tail (there m).0, (there m).1),
          λ m. elim m.0 [
            | Memᴰ.head h ↦ absurd (false≢true (sym e ∙ ap p (sym h) ∙ m.1))
            | Memᴰ.tail t ↦ back (t, m.1)
          ],
        )
      ]

  pub length-filter : (p : A → Bool) (xs : List A) → length (filter p xs) ≡ count p xs
  unfolding filter count
  length-filter p [] = refl
  length-filter p (x ∷ xs) = elim (Bool-cases (p x)) [
    | inl e ↦ rw e (omega (arith, length-filter p xs))
    | inr e ↦ rw e (omega (arith, length-filter p xs))
  ]

  pub count-filter :
      (p q : A → Bool) (xs : List A) → count p (filter q xs) ≡ count (λ x. q x && p x) xs
  unfolding filter count
  count-filter p q [] = refl
  count-filter p q (x ∷ xs) = elim (Bool-cases (q x)) [
    | inl e ↦ rw e (omega (arith, count-filter p q xs))
    | inr e ↦ rw e (omega (arith, count-filter p q xs))
  ]

  pub count-ext : (p q : A → Bool) (xs : List A) → ((x : A) → p x ≡ q x) → count p xs ≡ count q xs
  unfolding count
  count-ext p q [] e = refl
  count-ext p q (x ∷ xs) e = rw (e x) (omega (arith, count-ext p q xs e))

  pub Memᴰ-singleton : (a : A) (xs : List A) → Memᴰ a xs → length xs ≡ 1 → xs ≡ a ∷ []
  Memᴰ-singleton a [] m e = elim m [ ]
  Memᴰ-singleton a (x ∷ []) (Memᴰ.head h) e = ap (λ y. y ∷ []) (sym h)
  Memᴰ-singleton a (x ∷ []) (Memᴰ.tail m) e = elim m [ ]
  Memᴰ-singleton a (x ∷ y ∷ xs) m e = absurd (omega arith)

  pub any-Memᴰ : (p : A → Bool) (a : A) (xs : List A) → Memᴰ a xs → p a ≡ true → any p xs ≡ true
  unfolding any
  any-Memᴰ p a [] m e = elim m [ ]
  any-Memᴰ p a (x ∷ xs) (Memᴰ.head h) e = let here : p x ≡ true = ap p (sym h) ∙ e in ground arith
  any-Memᴰ p a (x ∷ xs) (Memᴰ.tail m) e = ground (arith, any-Memᴰ p a xs m e)

  pub any-witness :
      (p : A → Bool) (xs : List A) → any p xs ≡ true → (a : A) × Memᴰ a xs × (p a ≡ true)
  unfolding any
  any-witness p [] e = cc
  any-witness p (x ∷ xs) e = elim (Bool-cases (p x)) [
    | inl h ↦ (x, Memᴰ.head refl, h)
    | inr h ↦ let (a, m, g) = any-witness p xs (ground arith) in (a, Memᴰ.tail m, g)
  ]

  pub Memᴰ-append : (a : A) (xs ys : List A) → Memᴰ a (xs ++ ys) → Memᴰ a xs ⊎ Memᴰ a ys
  Memᴰ-append a [] ys m = inr m
  Memᴰ-append a (x ∷ xs) ys (Memᴰ.head h) = inl (Memᴰ.head h)
  Memᴰ-append a (x ∷ xs) ys (Memᴰ.tail m) = elim (Memᴰ-append a xs ys m) [
    | inl l ↦ inl (Memᴰ.tail l)
    | inr r ↦ inr r
  ]
