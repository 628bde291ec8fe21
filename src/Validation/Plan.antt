-- ===== src/Validation/Plan.antt =====
-- internal/validation/compiler.go.
use oashttp.Prelude.{
  Bool, List, Option, Result, [], any, err, if◌then◌else◌, is_nil, length, none, not, ok, some, suc,
  zero, ℕ, ◌&&◌, ◌++◌, ◌>>=◌, ◌||◌, ◌∷◌,
}
use oashttp.Prelude.Text.{Text, lit, split, text_eq}
use oashttp.Reflect.GoType.{
  ReflectType, StructField, Structs, base_type, fields_of, struct_type, tag_get,
}
use oashttp.Validation.Parse.{Rule, RuleError, parse_tag}

-- `fieldPlan`: the way to the field, its name in JSON, and its rules.
pub record FieldRules (F : Type 0) : Type 0 where
  pub index : List ℕ
  pub name : Text
  pub rules : List (Rule F)

pub data PlanError : Type 0 where
  not_a_struct out_of_fuel : PlanError
  bad_field : Text → Text → RuleError → PlanError

-- Where a struct's name has its package's path and its name in the package, and whether the type
-- or a pointer to it unmarshals texts.
pub record Names : Type 0 where
  pub pkg_path : Text → Text
  pub plain_name : Text → Text
  pub unmarshals : Text → Bool

abbrev first_part : List Text → Text
first_part [] = []
first_part (s ∷ ss) = s

-- The field's name in JSON, none if it is left out.
unfoldable pub json_name : StructField → Option Text
unfolding tag_get split
json_name f =
    let tag = tag_get f (lit "json") in
    let part = first_part (split b',' tag) in
    if is_nil tag
    then some f.name
    else if text_eq part (lit "-")
    then none
    else if is_nil part
    then some f.name
    else some part

module _ (names : Names) where
  -- A struct that is one value, whose fields are not looked at.
  unfoldable pub is_leaf : Text → Bool
  is_leaf name =
      text_eq (names.pkg_path name) (lit "time")
      || (text_eq (names.pkg_path name) (lit "github.com/sevlumen/oashttp/v2")
            && text_eq (names.plain_name name) (lit "UUID")
          || names.unmarshals name)

  -- The struct to go on with, behind pointers.
  unfoldable pub nested_struct : ReflectType → Option Text
  unfolding base_type is_leaf
  nested_struct t = elim (base_type t) [
    | struct_type name ↦ if is_leaf name then none else some name
    | _ ↦ none
  ]

module _ {F : Type 0} (canonical_float : ℕ → Text → Bool) (parse_float : Text → Option F)
    (names : Names) (structs : Structs) where
  abbrev pub Compiled : Type 0
  Compiled = Result PlanError (List (FieldRules F))

  abbrev pub or_bad_field : {A : Type 0} → Text → Text → Result RuleError A → Result PlanError A
  or_bad_field owner field (err e) = err (bad_field owner field e)
  or_bad_field owner field (ok a) = ok a

  -- The field's own rules, if it has a tag.
  unfoldable pub own_rules : Text → StructField → List ℕ → Text → Compiled
  unfolding tag_get parse_tag
  own_rules owner f index name =
      let tag = tag_get f (lit "validate") in
      if is_nil tag then ok [] else (do
        rules ← or_bad_field owner f.name (parse_tag canonical_float parse_float f.field_type tag)
        ok (record { index = index; name = name; rules = rules } ∷ []))

  -- One round of the loop over the fields; `nest` is the recursive call.
  unfoldable pub compile_field : (Text → List ℕ → Compiled) → Text → StructField → List ℕ → Compiled
  unfolding json_name own_rules nested_struct
  compile_field nest owner f index = if not f.exported then ok [] else elim (json_name f) [
    | none ↦ ok []
    | some name ↦ (do
      own ← own_rules owner f index name
      below ← elim (nested_struct names f.field_type) [
        | none ↦ ok []
        | some struct ↦ nest struct index
      ]
      ok (own ++ below))
  ]

  unfoldable pub compile_fields :
      (Text → List ℕ → Compiled) → Text → List ℕ → ℕ → List StructField → Compiled
  unfolding compile_field
  compile_fields nest owner prefix i [] = ok []
  compile_fields nest owner prefix i (f ∷ fs) = do
    here ← compile_field nest owner f (prefix ++ i ∷ [])
    rest ← compile_fields nest owner prefix (suc i) fs
    ok (here ++ rest)

  -- `compileStruct`; the stack holds the structs around this one.
  unfoldable pub compile_struct : ℕ → List Text → Text → List ℕ → Compiled
  unfolding compile_fields any fields_of
  compile_struct zero stack name prefix = err out_of_fuel
  compile_struct (suc fuel) stack name prefix =
      let fields =
        compile_fields (compile_struct fuel (name ∷ stack)) name prefix 0
          (fields_of structs name) in
      if any (λ n. text_eq n name) stack then ok [] else fields

  -- `Compile`, with fuel for every struct and one more.
  unfoldable pub compile_rules : ReflectType → Compiled
  unfolding base_type compile_struct
  compile_rules t = elim (base_type t) [
    | struct_type name ↦ compile_struct (suc (length structs)) [] name []
    | _ ↦ err not_a_struct
  ]
