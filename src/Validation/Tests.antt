-- ===== src/Validation/Tests.antt =====
-- Tags of the tests, on a pointer to an int and on a string.
use oashttp.Prelude.{ℕ, Bool, false, ◌≡◌, refl, Option, none, List, [], ◌∷◌, All, all, ok, err}
use oashttp.Prelude.Text.{Text, lit, texts}
use oashttp.Reflect.GoType.{
  ReflectType, pointer, int_type, string_type, supports_length_or_number, is_scalar_kind,
}
use oashttp.Reflect.Integer.{positive}
use oashttp.Validation.Parse.{
  Rule, required, min, max, one_of, incompatible, is_scalar_value, parse_rule, parse_named,
  length_rule, text_rule, choice_rule, required_rule, parse_tag,
}
use oashttp.Validation.Tags.{IsCompatible, parse_tag-All}

abbrev canonical : ℕ → Text → Bool
canonical bits s = false

abbrev float : Text → Option ℕ
float s = none

abbrev maybe_int : ReflectType
maybe_int = pointer (int_type 64)

abbrev two_rules : List (Rule ℕ)
two_rules = required ∷ one_of (lit "1" ∷ lit "-20" ∷ []) ∷ []

tag_runs :
    (parse_tag canonical float maybe_int (lit "required, oneof=1 -20") ≡ ok two_rules)
    × (parse_tag canonical float maybe_int (lit "email") ≡ err incompatible)
    × (parse_tag canonical float string_type (lit "min=3,,max=+10")
        ≡ ok (min (positive 3) ∷ max (positive 10) ∷ []))
unfolding parse_tag parse_rule parse_named length_rule text_rule choice_rule required_rule
    supports_length_or_number is_scalar_kind is_scalar_value texts all
tag_runs = (refl, refl, refl)

parse_tag-All_example : All (IsCompatible canonical float maybe_int) two_rules
parse_tag-All_example =
    parse_tag-All canonical float maybe_int (lit "required, oneof=1 -20") two_rules tag_runs.0
