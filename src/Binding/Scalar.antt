-- ===== src/Binding/Scalar.antt =====
-- internal/binding/scalar.go: a text, or a row of items, as a value of a field's type.
use oashttp.Prelude.{
  Bool, List, Option, Result, [], any, err, false, if◌then◌else◌, length, none, not, ok, some, ℕ,
  ◌++◌, ◌-◌, ◌==◌, ◌∷◌,
}
use oashttp.Prelude.Text.{Text, lit, text_eq}
use Prim.Native.Nat.{◌^◌}
use oashttp.Reflect.GoType.{
  ReflectType, Structs, array, bool_type, defined_type, float_type, int_type, kind_of, pointer,
  slice, string_type, struct_type, uint_type,
}
use oashttp.Reflect.Integer.{bounded_magnitude, itoa, parse_int}
use oashttp.Reflect.Value.{
  Value, Values, array_value, bool_value, float_value, int_value, more_values, no_values,
  pointer_value, repeated, slice_value, text_value, uint_value, zero_value,
}
use oashttp.Route.Constraint.{parses_bool}

-- What the binding takes of packages that it calls: strconv, time, encoding/json, mime, and the
-- methods of the application's types. A text is the message of an error.
pub record Conversions (F O : Type 0) : Type 0 where
  pub bool_error : Text → Text
  pub int_error : ℕ → Text → Text
  pub uint_error : ℕ → Text → Text
  pub parse_float : ℕ → Text → Result Text F
  pub parse_time : Text → Text → Result Text (Value F O)
  pub unmarshal_text : ReflectType → Option (Value F O → Text → Value F O × Option Text)
  pub type_name : ReflectType → Text
  -- A value from the front of a text, with an error or the rest; `true` disallows unknown fields.
  pub decode_json : Bool → ReflectType → Value F O → Text → Value F O × Result Text Text
  -- The next value behind it: whether there is one, none at the end of the text.
  pub next_json : Text → Option (Result Text (Unit {0}))
  pub media_type : Text → Option Text
  pub zero_float : F
  pub zero_other : Text → Value F O

-- `timeType`.
unfoldable pub is_time : ReflectType → Bool
is_time t = elim t [ struct_type name ↦ text_eq name (lit "time.Time") | _ ↦ false ]

-- The value of strconv.ParseBool.
unfoldable pub true_texts : List Text
true_texts = lit "1" ∷ lit "t" ∷ lit "T" ∷ lit "TRUE" ∷ lit "true" ∷ lit "True" ∷ []

abbrev pub rfc3339 : Text
rfc3339 = lit "2006-01-02T15:04:05Z07:00"

module _ {F O : Type 0} (structs : Structs) (lib : Conversions F O) where
  -- A value, and the error's message if there is one.
  abbrev pub Assigned : Type 0
  Assigned = Value F O × Option Text

  abbrev pub fresh : ReflectType → Value F O
  fresh t = zero_value structs lib.zero_float lib.zero_other (length structs) t

  -- `if target.IsNil() { target.Set(reflect.New(…)) }` and `target.Elem()`.
  unfoldable pub pointee : ReflectType → Value F O → Value F O
  pointee t (pointer_value v) = v
  pointee t _ = fresh t

  abbrev pub set_if : Value F O → Result Text (Value F O) → Assigned
  set_if old (err message) = (old, some message)
  set_if old (ok v) = (v, none)

  abbrev pub or_message : {A : Type 0} → Text → Option A → (A → Value F O) → Result Text (Value F O)
  or_message message none make = err message
  or_message message (some a) make = ok (make a)

  abbrev pub made_float : Result Text F → Result Text (Value F O)
  made_float (err message) = err message
  made_float (ok x) = ok (float_value x)

  -- The cases of `switch target.Kind()`.
  unfoldable pub parse_scalar : ReflectType → Text → Result Text (Value F O)
  unfolding parses_bool any true_texts parse_int
  parse_scalar string_type text = ok (text_value text)
  parse_scalar bool_type text =
      if parses_bool text
      then ok (bool_value (any (text_eq text) true_texts))
      else err (lib.bool_error text)
  parse_scalar (int_type bits) text =
      or_message (lib.int_error bits text) (parse_int (2 ^ (bits - 1)) text) int_value
  parse_scalar (uint_type bits) text =
      or_message (lib.uint_error bits text) (bounded_magnitude bits text) uint_value
  parse_scalar (float_type bits) text = made_float (lib.parse_float bits text)
  parse_scalar t text = err (lit "unsupported scalar type " ++ lib.type_name t)

  -- `setScalar` of what is no pointer, and has no name besides a struct's.
  unfoldable pub set_plain : ReflectType → Value F O → Text → Assigned
  unfolding is_time parse_scalar
  set_plain t old text = elim (lib.unmarshal_text t) [
    | some unmarshal ↦ unmarshal old text
    | none ↦ set_if old (if is_time t then lib.parse_time rfc3339 text else parse_scalar t text)
  ]

  abbrev pub through : Assigned → Assigned
  through (v, e) = (pointer_value v, e)

  -- `setScalar`. Only types with names have methods, so a type that is defined as another one is
  -- asked for its own method and then set like the other one.
  unfoldable pub set_scalar : ReflectType → Value F O → Text → Assigned
  unfolding set_plain pointee
  set_scalar (pointer t) old text = through (set_scalar t (pointee t old) text)
  set_scalar (defined_type name t) old text =
      let plain = set_scalar t old text in
      elim (lib.unmarshal_text (defined_type name t)) [
        | some unmarshal ↦ unmarshal old text
        | none ↦ plain
      ]
  set_scalar t old text = set_plain t old text

  -- `setConstrainedScalar`.
  unfoldable pub set_constrained_scalar : Text → ReflectType → Value F O → Text → Assigned
  unfolding is_time set_scalar pointee
  set_constrained_scalar constraint (pointer t) old text =
      through (set_constrained_scalar constraint t (pointee t old) text)
  set_constrained_scalar constraint t old text =
      if is_time t
      then set_if old (
          lib.parse_time (if text_eq constraint (lit "date") then lit "2006-01-02" else rfc3339)
            text)
      else set_scalar t old text

  -- The loops over the elements: the items one after another, up to an error.
  unfoldable pub set_elements :
      (Value F O → Text → Assigned) → Values F O → List Text → Values F O × Option Text
  set_elements set no_values items = (no_values, none)
  set_elements set (more_values v vs) [] = (more_values v vs, none)
  set_elements set (more_values v vs) (text ∷ items) =
      let (rest, later) = set_elements set vs items in
      let (w, problem) = set v text in
      elim problem [
        | some message ↦ (more_values w vs, some message)
        | none ↦ (more_values w rest, later)
      ]

  unfoldable pub elements : Value F O → Values F O
  elements (array_value vs) = vs
  elements _ = no_values

  abbrev pub assign_slice : Value F O → Values F O × Option Text → Assigned
  assign_slice old (vs, some message) = (old, some message)
  assign_slice old (vs, none) = (slice_value vs, none)

  abbrev pub assign_array : Values F O × Option Text → Assigned
  assign_array (vs, e) = (array_value vs, e)

  -- `setValues` and `setConstrainedValues`, by their way to set one value.
  unfoldable pub set_values_by :
      (ReflectType → Value F O → Text → Assigned) → ReflectType → Value F O → List Text → Assigned
  unfolding kind_of set_elements elements repeated
  set_values_by set t old items = elim (kind_of t) [
    | slice e ↦ assign_slice old (set_elements (set e) (repeated (length items) (fresh e)) items)
    | array n e ↦
        if not (length items == n)
        then (
          old,
          some (lit "expected " ++ (itoa n ++ (lit " values, got " ++ itoa (length items)))),
        )
        else assign_array (set_elements (set e) (elements old) items)
    | _ ↦ elim items [
      | [] ↦ (old, none)
      | text ∷ [] ↦ set t old text
      | _ ∷ _ ∷ _ ↦ (old, some (lit "multiple values are not allowed"))
    ]
  ]

  unfoldable pub set_values : ReflectType → Value F O → List Text → Assigned
  unfolding set_values_by set_scalar
  set_values = set_values_by set_scalar

  unfoldable pub set_constrained_values : Text → ReflectType → Value F O → List Text → Assigned
  unfolding set_values_by set_constrained_scalar
  set_constrained_values constraint = set_values_by (set_constrained_scalar constraint)
