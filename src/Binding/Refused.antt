-- ===== src/Binding/Refused.antt =====
-- internal/binding/body.go and bind.go: which errors end the binding of a request.
use oashttp.Prelude.{
  Bool, List, Option, Option-cases, [], ap, arith, inl, inr, lookup, none, refl, some, sym, ℕ, ◌∙◌,
  ◌∷◌, ◌≡◌, ◌≢◌, ◌⊎◌,
}
use oashttp.Prelude.Text.{Text, fields, lit, text_eq}
use mathlib.Core.List.{Memᴰ}
use oashttp.Reflect.GoType.{ReflectType, Structs}
use oashttp.Reflect.Value.{Value, Values, value_at}
use oashttp.Http.Header.{header_values}
use oashttp.Http.Request.{Request, path_value}
use oashttp.Route.Constraint.{ConstraintKind}
use oashttp.Binding.Model.{
  FieldPlan, Plan, SourceKind, source_body, source_header, source_path, source_query,
}
use oashttp.Binding.Scalar.{Conversions}
use oashttp.Binding.Body.{
  BodyError, check_rest, decode_body, decode_data, decode_value, no_body, read_body, read_limit,
  refused,
}
use oashttp.Binding.Bind.{
  Binding, assigned, bind, bind_field, bind_fields, bind_path, bind_values, bound_body, go_on,
  or_none, path_problem, target_of,
}
use oashttp.Operation.Model.{FieldError, RequestError}

-- The two statuses of a body that is not read.
abbrev pub IsBodyStatus : ℕ → Type 0
IsBodyStatus status = (status ≡ 413) ⊎ (status ≡ 415)

module _ {F O : Type 0} (structs : Structs) (lib : Conversions F O) where
  decode_value-problem :
      (disallow : Bool) (t : ReflectType) (old : Value F O) (read : Text) (e : RequestError)
      → (decode_value lib disallow t old read).1 ≢ some (refused e)
  unfolding decode_value check_rest
  decode_value-problem disallow t old read e = ground arith

  decode_data-status :
      (r : Request) (t : ReflectType) (old : Value F O) (limit : ℕ) (disallow required : Bool)
      (read : Text) (e : RequestError)
      → (decode_data lib r t old limit disallow required read).1 ≡ some (refused e)
      → IsBodyStatus e.status
  unfolding decode_data no_body
  decode_data-status r t old limit disallow required read e h =
      ground (arith, decode_value-problem disallow t old read e)

  decode_body-status :
      (r : Request) (t : ReflectType) (old : Value F O) (limit : ℕ) (disallow required : Bool)
      (e : RequestError)
      → (decode_body lib r t old limit disallow required).1 ≡ some (refused e)
      → IsBodyStatus e.status
  unfolding decode_body no_body
  decode_body-status r t old limit disallow required e h = elim (Option-cases r.body) [
    | inl g ↦ ground arith
    | inr (stream, g) ↦ elim (Option-cases (read_body stream (read_limit limit))) [
      | inl k ↦ ground arith
      | inr (read, k) ↦ ground (arith, decode_data-status r t old limit disallow required read e)
    ]
  ]

  module _ (satisfies : ConstraintKind → Text → Bool) where
    assigned-goes_on :
        (f : FieldPlan) (location : Text) (vs : Values F O) (es : List FieldError)
        (a : Value F O × Option Text)
        → (assigned structs lib satisfies f location vs es a).1 ≡ none
    unfolding assigned
    assigned-goes_on f location vs es a = ground arith

    bound_body-status :
        (f : FieldPlan) (vs : Values F O) (es : List FieldError) (d : Value F O × Option BodyError)
        (e : RequestError)
        → (bound_body structs lib satisfies f vs es d).1 ≡ some e
        → d.1 ≡ some (refused e)
    unfolding bound_body
    bound_body-status f vs es d e h = ground arith

    module _ (p : Plan) (r : Request) where
      bind_path-goes_on :
          (f : FieldPlan) (target : Value F O) (vs : Values F O) (es : List FieldError)
          → (bind_path structs lib satisfies p r f target vs es).1 ≡ none
      unfolding bind_path
      bind_path-goes_on f target vs es =
          elim (Option-cases (path_problem structs lib satisfies p r f (path_value r f.name))) [
            | inr (_, g) ↦ rw (g, bind_path) refl
            | inl g ↦ rw (g, bind_path) (assigned-goes_on f _ vs es _)
          ]

      bind_values-goes_on :
          (f : FieldPlan) (location : Text) (items : List Text) (target : Value F O)
          (vs : Values F O) (es : List FieldError)
          → (bind_values structs lib satisfies p r f location items target vs es).1 ≡ none
      unfolding bind_values
      bind_values-goes_on f location [] target vs es = refl
      bind_values-goes_on f location (x ∷ items) target vs es = assigned-goes_on f location vs es _

      bind_field-status :
          (f : FieldPlan) (source : SourceKind)
          → f.source ≡ source
          → (target : Value F O) (vs : Values F O) (es : List FieldError) (e : RequestError)
          → (bind_field structs lib satisfies p r f target vs es).1 ≡ some e
          → IsBodyStatus e.status × (f.source ≡ source_body)
      unfolding bind_field
      bind_field-status f source_path g target vs es e h =
          ground (arith, bind_path-goes_on f target vs es)
      bind_field-status f source_query g target vs es e h = ground (
        arith,
        bind_values-goes_on f (lit "query") (or_none (lookup text_eq r.query f.name)) target vs es,
      )
      bind_field-status f source_header g target vs es e h =
          ground (
            arith,
            bind_values-goes_on f (lit "header") (header_values r.header f.name) target vs es,
          )
      bind_field-status f source_body g target vs es e h =
          let body = decode_body lib r f.field_type target p.limit p.disallow_unknown f.required in
          (
            decode_body-status r f.field_type target p.limit p.disallow_unknown f.required e
                (bound_body-status f vs es body e (ground arith)),
            g,
          )

      go_on-cases :
          (b : Binding structs lib satisfies)
          (rest : Values F O → List FieldError → Binding structs lib satisfies)
          → ((e : RequestError) × (b.1 ≡ some e)
              × ((go_on structs lib satisfies p r b rest).1 ≡ some e))
            ⊎ (go_on structs lib satisfies p r b rest ≡ rest b.0 b.2)
      go_on-cases (vs, some e, es) rest = inl (e, refl, refl)
      go_on-cases (vs, none, es) rest = inr refl

      -- A field of the body's source.
      abbrev pub IsBody : FieldPlan → Type 0
      IsBody f = f.source ≡ source_body

      bind_fields-status :
          (fields : List FieldPlan) (vs : Values F O) (es : List FieldError) (e : RequestError)
          → (bind_fields structs lib satisfies p r fields vs es).1 ≡ some e
          → IsBodyStatus e.status × (f : FieldPlan) × Memᴰ f fields × IsBody f
      unfolding bind_fields
      bind_fields-status [] vs es e h = cc
      bind_fields-status (f ∷ fields) vs es e h =
          let target = target_of structs lib satisfies p r (value_at f.index vs) f.field_type in
          let step = bind_field structs lib satisfies p r f target vs es in
          elim (go_on-cases step (bind_fields structs lib satisfies p r fields)) [
            | inl (d, first, last) ↦
                let (status, at_body) =
                  bind_field-status f f.source refl target vs es e (ground arith) in
                (status, f, Memᴰ.head refl, at_body)
            | inr on ↦
                let (status, g, here, at_body) =
                  bind_fields-status fields step.0 step.2 e (ap (λ b. b.1) (sym on) ∙ h) in
                (status, g, Memᴰ.tail here, at_body)
          ]

      -- An error that ends the binding has status 413 or 415, and the plan has a field for the body.
      pub bind-status :
          (e : RequestError)
          → (bind structs lib satisfies p r).1 ≡ some e
          → IsBodyStatus e.status × (f : FieldPlan) × Memᴰ f p.fields × IsBody f
      unfolding bind
      bind-status e h = bind_fields-status p.fields _ [] e h
