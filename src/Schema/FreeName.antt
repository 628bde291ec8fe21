-- ===== src/Schema/FreeName.antt =====
-- internal/schema/names.go: the loop over the suffixes finds a name.
-- The names that are tried, in their order.
use mathlib.Core.Path.{subst}
use oashttp.Prelude.{
  Bool-cases, List, Option-cases, [], append-nil, append_cancel_left, arith, false, inl, inr,
  is_some, length, lookup, none, refl, some, suc, sym, true, zero, ℕ, ◌++◌, ◌+◌, ◌-◌, ◌<◌, ◌==◌,
  ◌∙◌, ◌≡◌, ◌≢◌,
}
use oashttp.Prelude.Text.{Text, lit, text_eq, text_eq_iff}
use Prim.Native.Nat.{◌^◌}
use mathlib.Core.Bool.{false≢true}
use oashttp.Reflect.Integer.{itoa}
use oashttp.Reflect.Digits.{itoa_injective}
use oashttp.Validation.Plan.{Names}
use oashttp.Schema.Names.{base_name, free_name, is_taken, new_name, package_name, suffixed}
use oashttp.Schema.Pigeons.{not_all_taken}

unfoldable candidate : Names → Text → ℕ → Text
candidate go t zero = package_name go t
candidate go t (suc i) = suffixed go t (i + 2)

pub not_taken :
    (used : List (Text × Text)) (t name other : Text)
    → is_taken used t name ≡ false
    → lookup text_eq used name ≡ some other
    → other ≡ t
unfolding is_taken
not_taken used t name other e h =
    let same : text_eq other t ≡ true = ground arith in (text_eq_iff other t).0 same

taken-key :
    (used : List (Text × Text)) (t name : Text)
    → is_taken used t name ≡ true
    → is_some (lookup text_eq used name) ≡ true
unfolding is_taken
taken-key used t name e = elim (Option-cases (lookup text_eq used name)) [
  | inl h ↦ ground arith
  | inr (other, h) ↦ rw h refl
]

module _ (go : Names) (used : List (Text × Text)) (t : Text) where
  free_name-free :
      (fuel suffix : ℕ) (name found : Text)
      → free_name go used t fuel suffix name ≡ some found
      → is_taken used t found ≡ false
  unfolding free_name
  free_name-free zero suffix name found e = cc
  free_name-free (suc fuel) suffix name found e = elim (Bool-cases (is_taken used t name)) [
    | inl h ↦ free_name-free fuel (suc suffix) (suffixed go t suffix) found (ground arith)
    | inr h ↦
        let same : name ≡ found = ground arith in subst (λ n. is_taken used t n ≡ false) same h
  ]

  pub new_name-free :
      (found : Text) → new_name go used t ≡ some found → is_taken used t found ≡ false
  unfolding new_name
  new_name-free found e = elim (Bool-cases (is_taken used t (base_name go t))) [
    | inl h ↦ free_name-free (suc (length used)) 2 (package_name go t) found (ground arith)
    | inr h ↦
        let same : base_name go t ≡ found = ground arith in
        subst (λ n. is_taken used t n ≡ false) same h
  ]

  -- Where the loop finds nothing, all candidates are taken.
  free_name-none :
      (fuel i : ℕ)
      → free_name go used t fuel (i + 2) (candidate go t i) ≡ none
      → (j : ℕ) → j < fuel
      → is_taken used t (candidate go t (i + j)) ≡ true
  unfolding free_name candidate
  free_name-none zero i e j lt = absurd (omega arith)
  free_name-none (suc fuel) i e j lt = elim (Bool-cases (is_taken used t (candidate go t i))) [
    | inr h ↦ ground arith
    | inl h ↦
        let later : free_name go used t fuel (suc (i + 2)) (suffixed go t (i + 2)) ≡ none =
          ground arith in
        let next : free_name go used t fuel (suc i + 2) (candidate go t (suc i)) ≡ none =
          subst (λ k. free_name go used t fuel k (suffixed go t (i + 2)) ≡ none) (omega arith)
            later in
        elim (Bool-cases (j == 0)) [
          | inl first ↦
              let here : i ≡ i + j = ground arith in
              subst (λ k. is_taken used t (candidate go t k) ≡ true) here h
          | inr further ↦
              let there : suc i + (j - 1) ≡ i + j = ground arith in
              subst (λ k. is_taken used t (candidate go t k) ≡ true) there
                (free_name-none fuel (suc i) next (j - 1) (ground arith))
        ]
  ]

  not_suffixed : (suffix : ℕ) → package_name go t ≢ suffixed go t suffix
  unfolding suffixed lit
  not_suffixed suffix e =
      let rest : [] ≡ lit "_" ++ itoa suffix =
        append_cancel_left (package_name go t) [] (lit "_" ++ itoa suffix)
          (append-nil (package_name go t) ∙ e) in
      cc

  candidate-apart :
      (limit : ℕ)
      → limit < 10 ^ 19
      → (i j : ℕ) → i < limit
      → j < limit
      → candidate go t i ≡ candidate go t j
      → i ≡ j
  unfolding candidate suffixed
  candidate-apart limit few zero zero i< j< e = refl
  candidate-apart limit few zero (suc j) i< j< e = absurd (not_suffixed (j + 2) e)
  candidate-apart limit few (suc i) zero i< j< e = absurd (not_suffixed (i + 2) (sym e))
  candidate-apart limit few (suc i) (suc j) i< j< e =
      let digits : itoa (i + 2) ≡ itoa (j + 2) =
        append_cancel_left (lit "_") _ _ (append_cancel_left (package_name go t) _ _ e) in
      let same = itoa_injective (i + 2) (j + 2) (omega (arith, few)) (omega (arith, few)) digits in
      omega (arith, same)

  -- With fuel for each used name and one more a name is found.
  new_name-none : length used + 1 < 10 ^ 19 → new_name go used t ≢ none
  unfolding new_name candidate
  new_name-none few e = elim (Bool-cases (is_taken used t (base_name go t))) [
    | inr h ↦ ground arith
    | inl h ↦
        let fails : free_name go used t (suc (length used)) (0 + 2) (candidate go t 0) ≡ none =
          ground arith in
        false≢true (
          not_all_taken (candidate go t) (suc (length used))
            (candidate-apart (suc (length used)) (omega (arith, few))) used (omega arith)
            (λ i lt. taken-key used t (candidate go t i) (
              subst (λ k. is_taken used t (candidate go t k) ≡ true) (omega arith)
                (free_name-none (suc (length used)) 0 fails i lt))))
  ]

  pub found_name : length used + 1 < 10 ^ 19 → (name : Text) × (new_name go used t ≡ some name)
  found_name few = elim (Option-cases (new_name go used t)) [
    | inl e ↦ absurd (new_name-none few e)
    | inr (name, e) ↦ (name, e)
  ]
