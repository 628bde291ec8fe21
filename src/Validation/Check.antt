-- ===== src/Validation/Check.antt =====
-- internal/validation/rules.go and validate.go.
use oashttp.Prelude.{
  Bool, List, Option, [], all, any, false, if◌then◌else◌, is_nil, leb, length, none, not, some,
  true, ℕ, ◌&&◌, ◌++◌, ◌==◌, ◌∷◌,
}
use oashttp.Prelude.Text.{Text, join, lit, text_eq, trim_space}
use oashttp.Core.Uuid.{normalize_uuid}
use oashttp.Reflect.Integer.{Integer, format_int, negative, positive}
use oashttp.Reflect.Value.{
  Value, Values, array_value, bool_value, float_value, int_value, interface_value, map_value,
  more_values, nil_value, no_values, other_value, pointer_value, slice_value, struct_value,
  text_value, uint_value, value_at, values_length,
}
use oashttp.Validation.Parse.{Rule, e164, email, gte, len, lte, max, min, one_of, required, uuid}
use oashttp.Route.Constraint.{is_ok}
use oashttp.Validation.Plan.{FieldRules}
use oashttp.Operation.Model.{FieldError}

-- What the rules take of other packages: float64, package fmt, net/mail and utf8.
pub record Formats (F O : Type 0) : Type 0 where
  pub of_integer : Integer → F
  pub zero_float : F
  pub less : F → F → Bool
  pub same : F → F → Bool
  -- `v.IsZero()` of a float and of a value that is kept as it is.
  pub is_zero_float : F → Bool
  pub is_zero_other : O → Bool
  pub format_float : F → Text
  -- fmt.Sprint, and `v.String()` of what is no string.
  pub sprint : Value F O → Text
  pub string_of : Value F O → Text
  pub rune_count : Text → ℕ
  -- The address of mail.ParseAddress, none on an error.
  pub parse_address : Text → Option Text

-- `^\+[1-9][0-9]{7,14}$`.
unfoldable pub is_e164 : Text → Bool
unfolding all
is_e164 (c ∷ d ∷ s) =
    c == b'+'
    && (leb b'1' d
        && leb d b'9'
        && (all (λ x. leb b'0' x && leb x b'9') s && (leb 7 (length s) && leb (length s) 14)))
is_e164 _ = false

module _ {F O : Type 0} (lib : Formats F O) where
  -- `isZero`, and all of the elements or fields.
  unfoldable mutual
    pub is_zero : Value F O → Bool
    is_zero (text_value s) = is_nil s
    is_zero (bool_value b) = not b
    is_zero (int_value (positive n)) = n == 0
    is_zero (int_value (negative n)) = n == 0
    is_zero (uint_value n) = n == 0
    is_zero (float_value f) = lib.is_zero_float f
    is_zero nil_value = true
    is_zero (pointer_value v) = false
    is_zero (interface_value v) = false
    is_zero (slice_value vs) = false
    is_zero (array_value vs) = all_zero vs
    is_zero (map_value ks vs) = false
    is_zero (struct_value vs) = all_zero vs
    is_zero (other_value o) = lib.is_zero_other o

    pub all_zero : Values F O → Bool
    all_zero no_values = true
    all_zero (more_values v vs) = is_zero v && all_zero vs

  -- `isNil`.
  unfoldable pub is_nil_value : Value F O → Bool
  is_nil_value nil_value = true
  is_nil_value _ = false

  -- The loop behind pointers and interfaces.
  unfoldable pub unwrap : Value F O → Value F O
  unwrap (pointer_value v) = unwrap v
  unwrap (interface_value v) = unwrap v
  unwrap v = v

  unfoldable pub numeric : Value F O → F
  numeric (int_value n) = lib.of_integer n
  numeric (uint_value n) = lib.of_integer (positive n)
  numeric (float_value f) = f
  numeric _ = lib.zero_float

  unfoldable pub measure : Value F O → F
  unfolding numeric values_length
  measure (text_value s) = lib.of_integer (positive (lib.rune_count s))
  measure (slice_value vs) = lib.of_integer (positive (values_length vs))
  measure (array_value vs) = lib.of_integer (positive (values_length vs))
  measure (map_value ks vs) = lib.of_integer (positive (values_length vs))
  measure v = numeric v

  -- `v.String()`.
  unfoldable pub string_value : Value F O → Text
  string_value (text_value s) = s
  string_value v = lib.string_of v

  abbrev pub is_address : Text → Option Text → Bool
  is_address s none = false
  is_address s (some address) = text_eq address s

  -- The cases of `switch r.Kind` behind the test for nil; an empty message is no error.
  unfoldable pub kind_message : Value F O → Rule F → Text
  unfolding measure numeric string_value is_e164 any format_int
  kind_message v required = []
  kind_message v (min n) =
      if lib.less (measure v) (lib.of_integer n)
      then lit "must be at least " ++ format_int 20 n
      else []
  kind_message v (max n) =
      if lib.less (lib.of_integer n) (measure v)
      then lit "must be at most " ++ format_int 20 n
      else []
  kind_message v (len n) =
      if lib.same (measure v) (lib.of_integer n)
      then []
      else lit "must have length " ++ format_int 20 n
  kind_message v email =
      let s = trim_space (string_value v) in
      if is_address s (lib.parse_address s) then [] else lit "must be a valid email address"
  kind_message v uuid =
      if is_ok (normalize_uuid (string_value v)) then [] else lit "must be a valid UUID"
  kind_message v e164 =
      if is_e164 (string_value v) then [] else lit "must be a valid E.164 phone number"
  kind_message v (one_of choices) =
      if any (text_eq (lib.sprint v)) choices
      then []
      else lit "must be one of " ++ join (lit ", ") choices
  kind_message v (gte x) =
      if lib.less (numeric v) x
      then lit "must be greater than or equal to " ++ lib.format_float x
      else []
  kind_message v (lte x) =
      if lib.less x (numeric v)
      then lit "must be less than or equal to " ++ lib.format_float x
      else []

  abbrev pub is_required : Rule F → Bool
  is_required required = true
  is_required _ = false

  -- `validateRule`.
  unfoldable pub validate_rule : Value F O → Rule F → Text
  unfolding is_zero is_nil_value unwrap kind_message
  validate_rule v r =
      if is_required r && is_zero v
      then lit "is required"
      else if is_nil_value v
      then []
      else kind_message (unwrap v) r

  -- The loop over the rules of a field.
  unfoldable pub rule_messages : Value F O → List (Rule F) → List Text
  unfolding validate_rule
  rule_messages v [] = []
  rule_messages v (r ∷ rules) =
      let message = validate_rule v r in
      let rest = rule_messages v rules in if is_nil message then rest else message ∷ rest

  -- The pointers on the way, none if one of them is nil.
  unfoldable pub through_pointers : Value F O → Option (Value F O)
  through_pointers (pointer_value v) = through_pointers v
  through_pointers nil_value = none
  through_pointers v = some v

  abbrev pub field_of : Option (Value F O) → ℕ → Option (Value F O)
  field_of (some (struct_value vs)) i = value_at i vs
  field_of _ i = none

  -- `fieldByIndex`.
  unfoldable pub field_by_index : Value F O → List ℕ → Option (Value F O)
  unfolding through_pointers value_at
  field_by_index v [] = some v
  field_by_index v (i ∷ index) = elim (field_of (through_pointers v) i) [
    | none ↦ none
    | some w ↦ field_by_index w index
  ]

  abbrev pub field_failure : Text → List Text → List FieldError
  field_failure name messages =
      if is_nil messages
      then []
      else record { location = lit "body"; field = name; messages = messages } ∷ []

  -- One round of the loop over the fields.
  unfoldable pub field_errors : Value F O → FieldRules F → List FieldError
  unfolding field_by_index rule_messages
  field_errors v f = elim (field_by_index v f.index) [
    | none ↦ []
    | some w ↦ field_failure f.name (rule_messages w f.rules)
  ]

  unfoldable pub all_errors : Value F O → List (FieldRules F) → List FieldError
  unfolding field_errors
  all_errors v [] = []
  all_errors v (f ∷ fs) = field_errors v f ++ all_errors v fs

  -- `Validate`, of a plan's fields.
  unfoldable pub validate_value : List (FieldRules F) → Value F O → List FieldError
  unfolding all_errors
  validate_value fs (pointer_value v) = validate_value fs v
  validate_value fs (interface_value v) = validate_value fs v
  validate_value fs nil_value = []
  validate_value fs (struct_value vs) = all_errors (struct_value vs) fs
  validate_value fs _ =
      record { location = lit "body"; field = []; messages = lit "invalid validation value" ∷ [] }
      ∷ []
