-- ===== src/Binding/TypedBody.antt =====
-- internal/binding/body.go: the value that a body is decoded into keeps its type.
use mathlib.Core.Path.{subst}
use oashttp.Prelude.{
  Bool, Bool-cases, List, Option-cases, Result-cases, arith, inl, inr, is_nil, length, ltb, refl,
  some, suc, zero, ℕ, ◌∷◌, ◌≡◌,
}
use oashttp.Prelude.Text.{Text, lit, trim_space}
use oashttp.Reflect.GoType.{ReflectType, StructField, Structs, fields_of, struct_type}
use oashttp.Reflect.Value.{
  HasType, HaveFields, Value, Values, has_struct, more_fields, more_values, no_fields, replace_at,
  struct_value,
}
use oashttp.Http.Request.{Request}
use oashttp.Http.Header.{header_get}
use oashttp.Binding.Scalar.{Conversions}
use oashttp.Binding.Body.{
  decode_body, decode_data, decode_value, exceeds, is_json, read_body, read_limit,
}
use oashttp.Binding.Typed.{IsTyped}
use oashttp.Binding.Places.{type_at}

module _ {F O : Type 0} (structs : Structs) where
  pub replace_at-HaveFields :
      (i : ℕ) (t : ReflectType) (w : Value F O) (vs : Values F O) (fs : List StructField)
      → HaveFields structs vs fs
      → type_at i fs ≡ some t
      → HasType structs w t
      → HaveFields structs (replace_at i w vs) fs
  unfolding replace_at type_at
  replace_at-HaveFields i t w _ _ no_fields e h = no_fields
  replace_at-HaveFields zero t w (more_values v vs) (f ∷ fs) (more_fields a rest) e h =
      let same : t ≡ f.field_type = ground arith in
      more_fields (subst (HasType structs w) same h) rest
  replace_at-HaveFields (suc i) t w (more_values v vs) (f ∷ fs) (more_fields a rest) e h =
      more_fields a (replace_at-HaveFields i t w vs fs rest e h)

  pub struct_fields-HaveFields :
      {name : Text} {v : Value F O}
      → HasType structs v (struct_type name)
      → (vs : Values F O) × (v ≡ struct_value vs) × HaveFields structs vs (fields_of structs name)
  struct_fields-HaveFields (has_struct {vs = vs} h) = (vs, refl, h)

module _ {F O : Type 0} (structs : Structs) (lib : Conversions F O) (typed : IsTyped structs lib)
    (t : ReflectType) (old : Value F O) (before : HasType structs old t) where
  decode_value-HasType :
      (disallow : Bool) (text : Text) → HasType structs (decode_value lib disallow t old text).0 t
  unfolding decode_value
  decode_value-HasType disallow text = elim (Result-cases (lib.decode_json disallow t old text).1) [
    | inl (rest, e) ↦ rw (e, decode_value) (typed.decoded disallow t old text before)
    | inr (message, e) ↦ rw (e, decode_value) (typed.decoded disallow t old text before)
  ]

  decode_data-HasType :
      (r : Request) (limit : ℕ) (disallow required : Bool) (text : Text)
      → HasType structs (decode_data lib r t old limit disallow required text).0 t
  unfolding decode_data
  decode_data-HasType r limit disallow required text = elim (Bool-cases (ltb limit (length text))) [
    | inl h ↦ rw (h, decode_data) before
    | inr h ↦ elim (Bool-cases (is_nil (trim_space text))) [
      | inl g ↦ rw (h, g, decode_data) before
      | inr g ↦
          elim (Bool-cases (is_json (lib.media_type (header_get r.header (lit "Content-Type"))))) [
            | inl k ↦ rw (h, g, k, decode_data) (decode_value-HasType disallow text)
            | inr k ↦ rw (h, g, k, decode_data) before
          ]
    ]
  ]

  pub decode_body-HasType :
      (r : Request) (limit : ℕ) (disallow required : Bool)
      → HasType structs (decode_body lib r t old limit disallow required).0 t
  unfolding decode_body
  decode_body-HasType r limit disallow required = elim (Option-cases r.body) [
    | inl h ↦ rw (h, decode_body) before
    | inr (stream, h) ↦ elim (Bool-cases (exceeds r.content_length limit)) [
      | inl g ↦ rw (h, g, decode_body) before
      | inr g ↦ elim (Option-cases (read_body stream (read_limit limit))) [
        | inl k ↦ rw (h, g, k, decode_body) before
        | inr (text, k) ↦
            rw (h, g, k, decode_body) (decode_data-HasType r limit disallow required text)
      ]
    ]
  ]
