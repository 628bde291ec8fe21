-- ===== src/Binding/TypedTests.antt =====
-- What is bound of `PUT /users/{id:int}` has its type.
use mathlib.Core.Path.{subst}
use oashttp.Prelude.{
  All, Bool, Bool-cases, Result, [], arith, false, if◌then◌else◌, inl, inr, lookup, ok, sym, ℕ, ◌<◌,
  ◌≡◌,
}
use oashttp.Prelude.Text.{Text, lit, text_eq, text_eq_iff}
use oashttp.Reflect.GoType.{
  ReflectType, array, bool_type, defined_type, fields_of, float_type, int_type, map_type,
  other_type, pointer, slice, string_type, struct_type, uint_type,
}
use oashttp.Reflect.Value.{HasType, Value, has_text, text_value}
use oashttp.Reflect.Typed.{IsRanked, value_rank}
use oashttp.Binding.Scalar.{Conversions}
use oashttp.Binding.Bind.{bind}
use oashttp.Binding.Typed.{IsTyped}
use oashttp.Binding.TypedBind.{bind-HasType}
use oashttp.Binding.Samples.{
  checks, input, library, limits, plan_compiles, put_request, put_user, structs, user_plan,
}

-- A decoder of strings, which leaves all else as it is.
unfoldable decode_string :
    Bool → ReflectType → Value Text Text → Text → Value Text Text × Result Text Text
decode_string disallow string_type old read = (text_value read, ok [])
decode_string disallow _ old read = (old, ok [])

abbrev strings : Conversions Text Text
strings = record library { decode_json = decode_string }

decode_string-HasType :
    (disallow : Bool) (t : ReflectType) (old : Value Text Text) (text : Text)
    → HasType structs old t
    → HasType structs (decode_string disallow t old text).0 t
unfolding decode_string
decode_string-HasType disallow string_type old text h = has_text text
decode_string-HasType disallow bool_type old text h = h
decode_string-HasType disallow (int_type bits) old text h = h
decode_string-HasType disallow (uint_type bits) old text h = h
decode_string-HasType disallow (float_type bits) old text h = h
decode_string-HasType disallow (pointer t) old text h = h
decode_string-HasType disallow (slice t) old text h = h
decode_string-HasType disallow (array n t) old text h = h
decode_string-HasType disallow (map_type k t) old text h = h
decode_string-HasType disallow (struct_type name) old text h = h
decode_string-HasType disallow (other_type name) old text h = h
decode_string-HasType disallow (defined_type name t) old text h = h

strings-IsTyped : IsTyped structs strings
strings-IsTyped = record {
  parsed_time = λ layout text v e. cc;
  unmarshalled = λ t unmarshal e. cc;
  decoded = decode_string-HasType;
}

unfoldable rank : Text → ℕ
unfolding text_eq lit
rank name = if text_eq (lit "Input") name then 2 else if text_eq (lit "User") name then 1 else 0

abbrev GoesDown : Text → Type 0
GoesDown name = All (λ f. value_rank rank f.field_type < rank name) (fields_of structs name)

no_struct :
    (name : Text)
    → text_eq (lit "Input") name ≡ false
    → text_eq (lit "User") name ≡ false
    → fields_of structs name ≡ []
unfolding fields_of lookup
no_struct name e h = ground arith

rank-down : (name : Text) → GoesDown name
unfolding rank fields_of lookup value_rank text_eq lit
rank-down name = elim (Bool-cases (text_eq (lit "Input") name)) [
  | inl e ↦ subst GoesDown ((text_eq_iff (lit "Input") name).0 e) (omega arith, (omega arith, tt))
  | inr e ↦ elim (Bool-cases (text_eq (lit "User") name)) [
    | inl h ↦ subst GoesDown ((text_eq_iff (lit "User") name).0 h) (omega arith, tt)
    | inr h ↦
        subst (All (λ f. value_rank rank f.field_type < rank name)) (sym (no_struct name e h)) tt
  ]
]

rank-IsRanked : IsRanked structs rank
unfolding rank
rank-IsRanked = record { few = λ name. ground arith; down = rank-down }

bind-HasType_example :
    HasType structs
      (bind structs strings checks user_plan put_request).0
      (struct_type (lit "Input"))
bind-HasType_example =
    bind-HasType structs rank strings checks rank-IsRanked strings-IsTyped input put_user limits
      user_plan plan_compiles put_request
