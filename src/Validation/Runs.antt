-- ===== src/Validation/Runs.antt =====
-- The plans of validation, at a user who holds a friend of the same type.
use oashttp.Prelude.{
  All, Bool, List, Option, [], err, false, length, ltb, none, ok, refl, true, ℕ, ◌==◌, ◌↔◌, ◌∷◌,
  ◌≡◌, ◌≢◌,
}
use oashttp.Prelude.Text.{Text, lit, texts}
use oashttp.Reflect.GoType.{
  ReflectType, Structs, pointer, string_type, struct_type, supports_length_or_number,
}
use oashttp.Reflect.Integer.{negative, positive}
use oashttp.Reflect.Value.{Values, more_values, nil_value, no_values, struct_value, text_value}
use oashttp.Validation.Parse.{length_rule, max, parse_named, parse_rule, required, required_rule}
use oashttp.Validation.Plan.{FieldRules, Names, compile_rules, out_of_fuel}
use oashttp.Validation.Terminates.{compile_rules_ends}
use oashttp.Validation.Check.{Formats, validate_value}
use oashttp.Validation.Valid.{IsValid, validate_value_iff}

abbrev friendly : Structs
friendly =
    (
      lit "User",
      record {
        name = lit "Name";
        exported = true;
        anonymous = false;
        field_type = string_type;
        tag = (lit "json", lit "name,omitempty") ∷ (lit "validate", lit "required,max=3") ∷ [];
      }
          ∷ record {
            name = lit "Friend";
            exported = true;
            anonymous = false;
            field_type = pointer (struct_type (lit "User"));
            tag = [];
          }
          ∷ [],
    )
    ∷ []

abbrev plain : Names
plain = record { pkg_path = λ n. []; plain_name = λ n. n; unmarshals = λ n. false }

abbrev any_float : ℕ → Text → Bool
any_float bits s = true

abbrev no_float : Text → Option ℕ
no_float s = none

abbrev user : ReflectType
user = struct_type (lit "User")

compile_rules_ends_example : compile_rules any_float no_float plain friendly user ≢ err out_of_fuel
compile_rules_ends_example = compile_rules_ends any_float no_float plain friendly user

abbrev user_rules : List (FieldRules ℕ)
user_rules =
    record { index = 0 ∷ []; name = lit "name"; rules = required ∷ max (positive 3) ∷ [] } ∷ []

rules_run : compile_rules any_float no_float plain friendly user ≡ ok user_rules
unfolding compile_rules texts parse_rule parse_named required_rule length_rule
    supports_length_or_number
rules_run = refl

abbrev numbers : Formats ℕ Text
numbers = record {
  of_integer = λ n. elim n [ positive k ↦ k | negative k ↦ 0 ];
  zero_float = 0;
  less = ltb;
  same = ◌==◌;
  is_zero_float = λ f. f == 0;
  is_zero_other = λ o. false;
  format_float = λ f. [];
  sprint = λ v. [];
  string_of = λ v. [];
  rune_count = length;
  parse_address = λ s. none;
}

abbrev robert : Values ℕ Text
robert = more_values (text_value (lit "Robert")) (more_values nil_value no_values)

check_runs :
    validate_value numbers user_rules (struct_value robert)
    ≡ record { location = lit "body"; field = lit "name"; messages = lit "must be at most 3" ∷ [] }
      ∷ []
unfolding validate_value texts
check_runs = refl

validate_value_iff_example :
    (validate_value numbers user_rules (struct_value robert) ≡ [])
    ↔ All (IsValid numbers (struct_value robert)) user_rules
validate_value_iff_example = validate_value_iff numbers user_rules robert
