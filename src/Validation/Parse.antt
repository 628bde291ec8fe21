-- ===== src/Validation/Parse.antt =====
-- internal/validationrule/rule.go.
use oashttp.Prelude.{
  ℕ, ◌-◌, Bool, true, false, not, ◌||◌, Option, none, some, List, [], ◌∷◌, Result, ok, err, ◌>>=◌,
  ◌>>◌, reject_if, ◌==◌, if◌then◌else◌, is_nil, all, length,
}
use Prim.Native.Nat.{◌^◌}
use oashttp.Prelude.Text.{Text, lit, text_eq, trim_space, split, fields}
use oashttp.Reflect.Integer.{Integer, magnitude, parse_int, format_int, unsigned}
use oashttp.Reflect.GoType.{
  ReflectType, string_type, bool_type, int_type, uint_type, float_type, base_type, is_string,
  is_numeric_kind, is_scalar_kind, supports_length_or_number,
}

pub data RuleError : Type 0 where
  takes_no_argument requires_argument bad_argument incompatible requires_values bad_choice
        unknown_rule :
      RuleError

-- `Rule`, with the fields that its kind uses; F is float64.
pub data Rule (F : Type 0) : Type 0 where
  required email uuid e164 : Rule F
  min max len : Integer → Rule F
  one_of : List Text → Rule F
  gte lte : F → Rule F

-- strings.SplitN(raw, "=", 2): the name, and the argument, "" where there is no `=`.
unfoldable pub split_name : Text → Text × Text
split_name [] = ([], [])
split_name (c ∷ s) =
    let (name, arg) = split_name s in if c == b'=' then ([], s) else (c ∷ name, arg)

abbrev pub is_format : Text → Option Integer → Bool
is_format text none = false
is_format text (some n) = text_eq (format_int (length text) n) text

module _ (canonical_float : ℕ → Text → Bool) where
  -- Whether `ScalarValue` gives a value; whether a text is the canonical form of a float is a
  -- parameter.
  unfoldable pub is_scalar_value : ReflectType → Text → Bool
  unfolding base_type parse_int format_int
  is_scalar_value t text = elim (base_type t) [
    | string_type ↦ true
    | bool_type ↦ text_eq text (lit "true") || text_eq text (lit "false")
    | int_type bits ↦ is_format text (parse_int (2 ^ (bits - 1)) text)
    | uint_type bits ↦ is_format text (unsigned (magnitude text) (2 ^ bits - 1))
    | float_type bits ↦ canonical_float bits text
    | _ ↦ false
  ]

  module _ {F : Type 0} (parse_float : Text → Option F) where
    unfoldable pub or_bad : {A : Type 0} → Option A → Result RuleError A
    or_bad none = err bad_argument
    or_bad (some a) = ok a

    -- The cases of `switch name`.
    unfoldable pub length_rule : (Integer → Rule F) → ReflectType → Text → Result RuleError (Rule F)
    unfolding parse_int or_bad
    length_rule kind t arg = do
      reject_if (is_nil arg) requires_argument
      n ← or_bad (parse_int (2 ^ 63) arg)
      reject_if (not (supports_length_or_number t)) incompatible
      ok (kind n)

    unfoldable pub text_rule : Rule F → ReflectType → Result RuleError (Rule F)
    text_rule kind t = do reject_if (not (is_string (base_type t))) incompatible; ok kind

    unfoldable pub choice_rule : ReflectType → Text → Result RuleError (Rule F)
    choice_rule t arg = do
      reject_if (is_nil arg) requires_values
      reject_if (not (is_scalar_kind (base_type t))) incompatible
      reject_if (is_nil (fields arg)) requires_values
      reject_if (not (all (is_scalar_value t) (fields arg))) bad_choice
      ok (one_of (fields arg))

    unfoldable pub number_rule : (F → Rule F) → ReflectType → Text → Result RuleError (Rule F)
    unfolding or_bad
    number_rule kind t arg = do
      reject_if (not (is_numeric_kind (base_type t))) incompatible
      n ← or_bad (parse_float arg)
      ok (kind n)

    unfoldable pub required_rule : Text → Result RuleError (Rule F)
    required_rule arg = do reject_if (not (is_nil arg)) takes_no_argument; ok required

    unfoldable pub parse_named : ReflectType → Text → Text → Result RuleError (Rule F)
    parse_named t name arg =
        if text_eq name (lit "required")
        then required_rule arg
        else if text_eq name (lit "min")
        then length_rule min t arg
        else if text_eq name (lit "max")
        then length_rule max t arg
        else if text_eq name (lit "len")
        then length_rule len t arg
        else if text_eq name (lit "email")
        then text_rule email t
        else if text_eq name (lit "uuid")
        then text_rule uuid t
        else if text_eq name (lit "e164")
        then text_rule e164 t
        else if text_eq name (lit "oneof")
        then choice_rule t arg
        else if text_eq name (lit "gte")
        then number_rule gte t arg
        else if text_eq name (lit "lte")
        then number_rule lte t arg
        else err unknown_rule

    unfoldable pub parse_rule : ReflectType → Text → Result RuleError (Rule F)
    unfolding split_name
    parse_rule t raw = let (name, arg) = split_name raw in parse_named t name arg

    -- The loop over the parts of the tag.
    unfoldable pub parse_parts : ReflectType → List Text → Result RuleError (List (Rule F))
    parse_parts t [] = ok []
    parse_parts t (part ∷ parts) =
        let rest = parse_parts t parts in
        if is_nil (trim_space part)
        then rest
        else (do rule ← parse_rule t (trim_space part); rules ← rest; ok (rule ∷ rules))

    unfoldable pub parse_tag : ReflectType → Text → Result RuleError (List (Rule F))
    unfolding parse_parts
    parse_tag t tag = parse_parts t (split b',' tag)
