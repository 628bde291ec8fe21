-- ===== src/Route/Constraint.antt =====
-- internal/route/constraint.go, with what it takes of strconv and time.
use oashttp.Prelude.{
  ℕ, ◌+◌, ◌-◌, ◌*◌, Bool, true, false, ◌&&◌, Option, none, some, [], ◌∷◌, Result, ok, err, leb,
  ◌==◌, if◌then◌else◌, any,
}
use oashttp.Prelude.Text.{Text, lit, text_eq}
use oashttp.Core.Uuid.{normalize_uuid}

pub data ConstraintKind : Type 0 where
  string uuid int int64 bool date datetime : ConstraintKind

-- The keys of the map `Constraints`.
unfoldable pub constraint_of : Text → Option ConstraintKind
constraint_of name =
    if text_eq name (lit "string")
    then some string
    else if text_eq name (lit "uuid")
    then some uuid
    else if text_eq name (lit "int")
    then some int
    else if text_eq name (lit "int64")
    then some int64
    else if text_eq name (lit "bool")
    then some bool
    else if text_eq name (lit "date")
    then some date
    else if text_eq name (lit "datetime")
    then some datetime
    else none

-- `JSONType` and `Format` of each constraint.
unfoldable pub json_type : ConstraintKind → Text
json_type int = lit "integer"
json_type int64 = lit "integer"
json_type bool = lit "boolean"
json_type _ = lit "string"

unfoldable pub json_format : ConstraintKind → Text
json_format uuid = lit "uuid"
json_format int = lit "int32"
json_format int64 = lit "int64"
json_format date = lit "date"
json_format datetime = lit "date-time"
json_format _ = []

-- The number of a row of digits; a byte that is no digit makes it none.
unfoldable pub digits_value : ℕ → Text → Option ℕ
digits_value acc [] = some acc
digits_value acc (c ∷ s) =
    let rest = digits_value (acc * 10 + (c - b'0')) s in
    if leb b'0' c && leb c b'9' then rest else none

-- A number of at least one digit that is not above the limit.
unfoldable pub magnitude_fits : ℕ → Text → Bool
unfolding digits_value
magnitude_fits limit [] = false
magnitude_fits limit (c ∷ s) = elim (digits_value 0 (c ∷ s)) [ none ↦ false | some n ↦ leb n limit ]

-- Whether strconv.ParseInt(s, 10, bits) succeeds; `half` is 2 ^ (bits - 1).
unfoldable pub parses_int : ℕ → Text → Bool
unfolding magnitude_fits
parses_int half [] = false
parses_int half (c ∷ s) =
    if c == b'-'
    then magnitude_fits half s
    else if c == b'+'
    then magnitude_fits (half - 1) s
    else magnitude_fits (half - 1) (c ∷ s)

-- Whether strconv.ParseBool succeeds.
unfoldable pub parses_bool : Text → Bool
unfolding any
parses_bool s = any (text_eq s) (
    lit "1"
    ∷ lit "t"
    ∷ lit "T"
    ∷ lit "TRUE"
    ∷ lit "true"
    ∷ lit "True"
    ∷ lit "0"
    ∷ lit "f"
    ∷ lit "F"
    ∷ lit "FALSE"
    ∷ lit "false"
    ∷ lit "False"
    ∷ [])

abbrev pub is_ok {ℓ κ} : {E : Type κ} {A : Type ℓ} → Result E A → Bool
is_ok (ok a) = true
is_ok (err e) = false

-- `Validate` of each constraint: whether it returns no error. What time.Parse accepts, of a date and
-- of RFC 3339, is a parameter.
unfoldable pub satisfies : (Text → Bool) → (Text → Bool) → ConstraintKind → Text → Bool
unfolding parses_int parses_bool
satisfies parses_date parses_datetime string s = true
satisfies parses_date parses_datetime uuid s = is_ok (normalize_uuid s)
satisfies parses_date parses_datetime int s = parses_int 2147483648 s
satisfies parses_date parses_datetime int64 s = parses_int 9223372036854775808 s
satisfies parses_date parses_datetime bool s = parses_bool s
satisfies parses_date parses_datetime date s = parses_date s
satisfies parses_date parses_datetime datetime s = parses_datetime s
