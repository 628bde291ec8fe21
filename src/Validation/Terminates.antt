-- ===== src/Validation/Terminates.antt =====
-- internal/validation/compiler.go: recursive structs come to an end.
use oashttp.Prelude.{
  Bool, Bool-cases, List, Option, Option-cases, Result, Result-cases, [], any, arith, err, inl, inr,
  is_nil, is_some, length, lookup, ok, refl, suc, zero, ℕ, ◌++◌, ◌<◌, ◌∷◌, ◌≡◌, ◌≢◌,
}
use oashttp.Prelude.Text.{Text, lit, text_eq}
use oashttp.Reflect.GoType.{
  ReflectType, StructField, Structs, base_type, fields_of, struct_type, tag_get,
}
use oashttp.Validation.Parse.{parse_tag}
use oashttp.Validation.Plan.{
  FieldRules, Names, PlanError, compile_field, compile_fields, compile_rules, compile_struct,
  json_name, nested_struct, out_of_fuel, own_rules,
}
use oashttp.Reflect.Unvisited.{fields_of-unknown, unvisited, unvisited-all, unvisited-lt}

module _ {F : Type 0} (canonical_float : ℕ → Text → Bool) (parse_float : Text → Option F)
    (names : Names) (structs : Structs) where
  abbrev Ends : Result PlanError (List (FieldRules F)) → Type 0
  Ends r = r ≢ err out_of_fuel

  own_rules-Ends :
      (owner : Text) (f : StructField) (index : List ℕ) (name : Text)
      → Ends (own_rules canonical_float parse_float names structs owner f index name)
  unfolding own_rules
  own_rules-Ends owner f index name e = elim (Bool-cases (is_nil (tag_get f (lit "validate")))) [
    | inl h ↦ ground arith
    | inr h ↦
        elim (Result-cases
          (parse_tag canonical_float parse_float f.field_type (tag_get f (lit "validate")))) [
            | inl (rules, g) ↦ ground arith
            | inr (problem, g) ↦ ground arith
          ]
  ]

  module _ (nest : Text → List ℕ → Result PlanError (List (FieldRules F)))
      (ends : (name : Text) (index : List ℕ) → Ends (nest name index)) (owner : Text) where
    compile_field-Ends :
        (f : StructField) (index : List ℕ)
        → Ends (compile_field canonical_float parse_float names structs nest owner f index)
    unfolding compile_field
    compile_field-Ends f index e = elim (Bool-cases f.exported) [
      | inr h ↦ ground arith
      | inl h ↦ elim (Option-cases (json_name f)) [
        | inl g ↦ ground arith
        | inr (name, g) ↦
            elim (Result-cases
              (own_rules canonical_float parse_float names structs owner f index name)) [
                | inr (problem, k) ↦ ground (arith, own_rules-Ends owner f index name)
                | inl (own, k) ↦ elim (Option-cases (nested_struct names f.field_type)) [
                  | inl m ↦ ground arith
                  | inr (struct, m) ↦ elim (Result-cases (nest struct index)) [
                    | inl (below, l) ↦ ground arith
                    | inr (problem, l) ↦ ground (arith, ends struct index)
                  ]
                ]
              ]
      ]
    ]

    compile_fields-Ends :
        (prefix : List ℕ) (i : ℕ) (fs : List StructField)
        → Ends (compile_fields canonical_float parse_float names structs nest owner prefix i fs)
    unfolding compile_fields
    compile_fields-Ends prefix i [] e = cc
    compile_fields-Ends prefix i (f ∷ fs) e =
        elim (Result-cases (
          compile_field canonical_float parse_float names structs nest owner f
            (prefix ++ i ∷ []))) [
              | inr (problem, g) ↦ ground (arith, compile_field-Ends f (prefix ++ i ∷ []))
              | inl (here, g) ↦
                  elim (Result-cases (
                    compile_fields canonical_float parse_float names structs nest owner prefix
                      (suc i) fs)) [
                        | inr (problem, h) ↦ ground (arith, compile_fields-Ends prefix (suc i) fs)
                        | inl (rest, h) ↦ ground arith
                      ]
            ]

  compile_fields-nil :
      (fuel : ℕ) (stack : List Text) (name : Text) (prefix : List ℕ) (fs : List StructField)
      → fs ≡ []
      → compile_fields canonical_float parse_float names structs
          (compile_struct canonical_float parse_float names structs fuel (name ∷ stack))
          name
          prefix
          0
          fs
        ≡ ok []
  unfolding compile_fields
  compile_fields-nil fuel stack name prefix fs e = rw (e, compile_fields) refl

  compile_struct-Ends :
      (fuel : ℕ) (stack : List Text) (name : Text) (prefix : List ℕ)
      → unvisited stack structs < fuel
      → Ends (compile_struct canonical_float parse_float names structs fuel stack name prefix)
  unfolding compile_struct
  compile_struct-Ends zero stack name prefix few e = omega arith
  compile_struct-Ends (suc fuel) stack name prefix few e =
      elim (Bool-cases (any (λ n. text_eq n name) stack)) [
        | inl old ↦ ground arith
        | inr new ↦ elim (Bool-cases (is_some (lookup text_eq structs name))) [
          | inr unknown ↦
              let empty : fields_of structs name ≡ [] = fields_of-unknown structs name unknown in
              ground
                (arith, compile_fields-nil fuel stack name prefix (fields_of structs name) empty)
          | inl known ↦
              let smaller = unvisited-lt name stack structs new known in
              let fails : compile_fields canonical_float parse_float names structs
                    (compile_struct canonical_float parse_float names structs fuel (name ∷ stack))
                    name prefix 0 (fields_of structs name)
                  ≡ err out_of_fuel =
                ground arith in
              compile_fields-Ends _
                (λ n index.
                  compile_struct-Ends fuel (name ∷ stack) n index (omega (arith, smaller)))
                name prefix 0 (fields_of structs name) fails
        ]
      ]

  compile_base-Ends :
      (t b : ReflectType)
      → base_type t ≡ b
      → Ends (compile_rules canonical_float parse_float names structs t)
  unfolding compile_rules unvisited any
  compile_base-Ends t (struct_type name) is e =
      compile_struct-Ends (suc (length structs)) [] name [] (omega (arith, unvisited-all structs))
        (ground arith)
  compile_base-Ends t _ is e = ground arith

  -- Compiling the rules of a type always ends in a plan or in an error of the type or of a tag, also where
  -- structs hold pointers to themselves: fuel for each struct and one more is enough.
  pub compile_rules_ends :
      (t : ReflectType)
      → compile_rules canonical_float parse_float names structs t ≢ err out_of_fuel
  compile_rules_ends t = compile_base-Ends t (base_type t) refl
