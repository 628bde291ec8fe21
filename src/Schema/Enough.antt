-- ===== src/Schema/Enough.antt =====
-- internal/schema/jsonfields.go: the way through embedded structs comes to an end.
use oashttp.Prelude.{
  Bool-cases, List, Option-cases, [], any, arith, if◌then◌else◌, inl, inr, is_some, length, lookup,
  none, refl, suc, sym, zero, ℕ, ◌++◌, ◌<◌, ◌∙◌, ◌∷◌, ◌≡◌, ◌≤◌,
}
use oashttp.Prelude.Text.{Text, text_eq}
use oashttp.Reflect.GoType.{StructField, Structs, fields_of}
use oashttp.Reflect.Unvisited.{fields_of-unknown, unvisited, unvisited-all, unvisited-lt}
use oashttp.Schema.JsonFields.{
  JsonField, Runes, collect_field, collect_fields, collect_json_fields, embedded_struct,
}

module _ (unicode : Runes) (structs : Structs) where
  module _ (nest nest₁ : Text → List ℕ → List JsonField)
      (same : (name : Text) (index : List ℕ) → nest name index ≡ nest₁ name index) where
    collect_field-ext :
        (f : StructField) (index : List ℕ)
        → collect_field unicode structs nest f index ≡ collect_field unicode structs nest₁ f index
    unfolding collect_field
    collect_field-ext f index =
        elim (Option-cases (if f.anonymous then embedded_struct f.field_type else none)) [
          | inl e ↦ rw e refl
          | inr (struct, e) ↦ rw (e, same struct index) refl
        ]

    collect_fields-ext :
        (prefix : List ℕ) (i : ℕ) (fs : List StructField)
        → collect_fields unicode structs nest prefix i fs
          ≡ collect_fields unicode structs nest₁ prefix i fs
    unfolding collect_fields
    collect_fields-ext prefix i [] = refl
    collect_fields-ext prefix i (f ∷ fs) =
        rw (collect_field-ext f (prefix ++ i ∷ []), collect_fields-ext prefix (suc i) fs) refl

  collect_fields-nil :
      (nest : Text → List ℕ → List JsonField) (prefix : List ℕ) (fs : List StructField)
      → fs ≡ []
      → collect_fields unicode structs nest prefix 0 fs ≡ []
  unfolding collect_fields
  collect_fields-nil nest prefix fs e = rw (e, collect_fields) refl

  collect_json_fields-stable :
      (fuel more : ℕ) (stack : List Text) (name : Text) (prefix : List ℕ)
      → unvisited stack structs < fuel
      → fuel ≤ more
      → collect_json_fields unicode structs fuel stack name prefix
        ≡ collect_json_fields unicode structs more stack name prefix
  unfolding collect_json_fields
  collect_json_fields-stable zero more stack name prefix few le = absurd (omega arith)
  collect_json_fields-stable (suc fuel) zero stack name prefix few le = absurd (omega arith)
  collect_json_fields-stable (suc fuel) (suc more) stack name prefix few le =
      elim (Bool-cases (any (λ n. text_eq n name) stack)) [
        | inl old ↦ rw old refl
        | inr new ↦ rw new (elim (Bool-cases (is_some (lookup text_eq structs name))) [
          | inr unknown ↦
              let empty = fields_of-unknown structs name unknown in
              collect_fields-nil (collect_json_fields unicode structs fuel (name ∷ stack)) prefix
                (fields_of structs name) empty
              ∙ sym (
                  collect_fields-nil (collect_json_fields unicode structs more (name ∷ stack))
                    prefix (fields_of structs name) empty)
          | inl known ↦
              let smaller = unvisited-lt name stack structs new known in
              collect_fields-ext (collect_json_fields unicode structs fuel (name ∷ stack))
                (collect_json_fields unicode structs more (name ∷ stack))
                (λ n index.
                  collect_json_fields-stable fuel more (name ∷ stack) n index
                    (omega (arith, smaller)) (omega arith))
                prefix 0 (fields_of structs name)
        ])
      ]

  -- Collecting the fields of a struct goes no deeper than through each struct once, also where
  -- structs embed themselves: more rounds than there are structs change nothing.
  pub collect_json_fields_enough :
      (more : ℕ) (name : Text)
      → length structs < more
      → collect_json_fields unicode structs more [] name []
        ≡ collect_json_fields unicode structs (suc (length structs)) [] name []
  unfolding unvisited any
  collect_json_fields_enough more name le = sym (
      collect_json_fields-stable (suc (length structs)) more [] name []
        (omega (arith, unvisited-all structs)) (omega (arith, le)))
