-- ===== src/Binding/TypedBind.antt =====
-- internal/binding/bind.go: what Bind makes is a value of the input type.
use mathlib.Core.Path.{subst}
use oashttp.Prelude.{
  All, Bool, Bool-cases, List, Option, Option-cases, [], ap, arith, inl, inr, is_nil, none, ok,
  refl, some, suc, sym, zero, ℕ, ◌∙◌, ◌∷◌, ◌≡◌, ◌⊎◌,
}
use oashttp.Prelude.Text.{Text, lit}
use oashttp.Reflect.GoType.{ReflectType, StructField, Structs, fields_of, kind_of, struct_type}
use oashttp.Reflect.Value.{
  HasType, HaveFields, Value, Values, has_struct, more_fields, more_values, no_fields, struct_value,
  value_at,
}
use oashttp.Reflect.Typed.{HasType-kind_of, IsRanked, kind_of-HasType}
use oashttp.Http.Request.{Request, path_value}
use oashttp.Route.Constraint.{ConstraintKind, satisfies}
use oashttp.Route.{Pattern}
use oashttp.Binding.Model.{
  BindOptions, FieldPlan, Plan, SourceKind, source_body, source_header, source_path, source_query,
}
use oashttp.Binding.Compile.{compile_plan}
use oashttp.Binding.Scalar.{Conversions, fresh}
use oashttp.Binding.Body.{BodyError, invalid, refused}
use oashttp.Binding.Bind.{
  Binding, as_struct, assigned, bind, bind_field, bind_fields, bind_path, bind_values, bound_body,
  go_on, path_problem, struct_fields, target_of,
}
use oashttp.Binding.Typed.{IsTyped, fresh-HasType}
use oashttp.Binding.TypedValues.{set_constrained_values-HasType, set_values-HasType}
use oashttp.Binding.Places.{IsPlace, compile_plan-places, type_at}
use oashttp.Operation.Model.{FieldError}
use oashttp.Binding.TypedBody.{decode_body-HasType, replace_at-HaveFields, struct_fields-HaveFields}

source-cases :
    (s : SourceKind)
    → (s ≡ source_path) ⊎ ((s ≡ source_query) ⊎ ((s ≡ source_header) ⊎ (s ≡ source_body)))
source-cases source_path = inl refl
source-cases source_query = inr (inl refl)
source-cases source_header = inr (inr (inl refl))
source-cases source_body = inr (inr (inr refl))

module _ {F O : Type 0} (structs : Structs) (lib : Conversions F O)
    (satisfies : ConstraintKind → Text → Bool) (typed : IsTyped structs lib) (rank : Text → ℕ)
    (ranked : IsRanked structs rank) (fs : List StructField) where
  abbrev HasFields : Binding structs lib satisfies → Type 0
  HasFields b = HaveFields structs b.0 fs

  assigned-HasFields :
      (f : FieldPlan) (location : Text) (vs : Values F O) (errors : List FieldError)
      (r : Value F O × Option Text)
      → IsPlace fs f
      → HaveFields structs vs fs
      → HasType structs r.0 f.field_type
      → HasFields (assigned structs lib satisfies f location vs errors r)
  unfolding assigned
  assigned-HasFields f location vs errors (v, none) place have h =
      replace_at-HaveFields structs f.index f.field_type v vs fs have place h
  assigned-HasFields f location vs errors (v, some message) place have h =
      replace_at-HaveFields structs f.index f.field_type v vs fs have place h

  bound_body-HasFields :
      (f : FieldPlan) (vs : Values F O) (errors : List FieldError)
      (r : Value F O × Option BodyError)
      → IsPlace fs f
      → HaveFields structs vs fs
      → HasType structs r.0 f.field_type
      → HasFields (bound_body structs lib satisfies f vs errors r)
  unfolding bound_body
  bound_body-HasFields f vs errors (v, none) place have h =
      replace_at-HaveFields structs f.index f.field_type v vs fs have place h
  bound_body-HasFields f vs errors (v, some (refused e)) place have h =
      replace_at-HaveFields structs f.index f.field_type v vs fs have place h
  bound_body-HasFields f vs errors (v, some (invalid message)) place have h =
      replace_at-HaveFields structs f.index f.field_type v vs fs have place h

  module _ (p : Plan) (r : Request) where
    bind_path-HasFields :
        (f : FieldPlan) (target : Value F O) (vs : Values F O) (errors : List FieldError)
        → IsPlace fs f
        → HaveFields structs vs fs
        → HasType structs target f.field_type
        → HasFields (bind_path structs lib satisfies p r f target vs errors)
    unfolding bind_path
    bind_path-HasFields f target vs errors place have h =
        elim (Option-cases (path_problem structs lib satisfies p r f (path_value r f.name))) [
          | inr (message, e) ↦ rw (e, bind_path) have
          | inl e ↦
              rw (e, bind_path)
                (assigned-HasFields f (lit "path") vs errors _ place have (
                  set_constrained_values-HasType structs lib typed rank ranked f.constraint
                    f.field_type target (path_value r f.name ∷ []) h))
        ]

    bind_values-HasFields :
        (f : FieldPlan) (location : Text) (items : List Text) (target : Value F O) (vs : Values F O)
        (errors : List FieldError)
        → IsPlace fs f
        → HaveFields structs vs fs
        → HasType structs target f.field_type
        → HasFields (bind_values structs lib satisfies p r f location items target vs errors)
    unfolding bind_values
    bind_values-HasFields f location items target vs errors place have h =
        elim (Bool-cases (is_nil items)) [
          | inl e ↦ rw (e, bind_values) have
          | inr e ↦
              rw (e, bind_values)
                (assigned-HasFields f location vs errors _ place have
                  (set_values-HasType structs lib typed rank ranked f.field_type target items h))
        ]

    bind_field-HasFields :
        (f : FieldPlan) (target : Value F O) (vs : Values F O) (errors : List FieldError)
        → IsPlace fs f
        → HaveFields structs vs fs
        → HasType structs target f.field_type
        → HasFields (bind_field structs lib satisfies p r f target vs errors)
    unfolding bind_field
    bind_field-HasFields f target vs errors place have h = elim (source-cases f.source) [
      | inl e ↦ rw (e, bind_field) (bind_path-HasFields f target vs errors place have h)
      | inr (inl e) ↦ rw (e, bind_field) (bind_values-HasFields f _ _ target vs errors place have h)
      | inr (inr (inl e)) ↦
          rw (e, bind_field) (bind_values-HasFields f _ _ target vs errors place have h)
      | inr (inr (inr e)) ↦
          rw (e, bind_field)
            (bound_body-HasFields f vs errors _ place have (
              decode_body-HasType structs lib typed f.field_type target h r p.limit
                p.disallow_unknown f.required))
    ]

    target_of-HasType :
        (i : ℕ) (t : ReflectType) (vs : Values F O) (gs : List StructField)
        → HaveFields structs vs gs
        → type_at i gs ≡ some t
        → HasType structs (target_of structs lib satisfies p r (value_at i vs) t) t
    unfolding value_at type_at
    target_of-HasType i t _ _ no_fields e = cc
    target_of-HasType zero t (more_values v vs) (f ∷ gs) (more_fields a rest) e =
        let same : f.field_type ≡ t = ground arith in subst (HasType structs v) same a
    target_of-HasType (suc i) t (more_values v vs) (f ∷ gs) (more_fields a rest) e =
        target_of-HasType i t vs gs rest e

    go_on-HasFields :
        (b : Binding structs lib satisfies)
        (next : Values F O → List FieldError → Binding structs lib satisfies)
        → HasFields b
        → ((vs : Values F O) (errors : List FieldError)
            → HaveFields structs vs fs
            → HasFields (next vs errors))
        → HasFields (go_on structs lib satisfies p r b next)
    go_on-HasFields (vs, some e, errors) next have h = have
    go_on-HasFields (vs, none, errors) next have h = h vs errors have

    bind_fields-HasFields :
        (plans : List FieldPlan) (vs : Values F O) (errors : List FieldError)
        → All (IsPlace fs) plans
        → HaveFields structs vs fs
        → HasFields (bind_fields structs lib satisfies p r plans vs errors)
    unfolding bind_fields
    bind_fields-HasFields [] vs errors places have = have
    bind_fields-HasFields (f ∷ plans) vs errors (place, places) have =
        go_on-HasFields _ (bind_fields structs lib satisfies p r plans)
          (bind_field-HasFields f _ vs errors place have
            (target_of-HasType f.index f.field_type vs fs have place))
          (λ ws later. bind_fields-HasFields plans ws later places)

as_struct-value :
    {F O : Type 0} (structs : Structs) (lib : Conversions F O)
    (satisfies : ConstraintKind → Text → Bool) (p : Plan) (r : Request)
    (b : Binding structs lib satisfies)
    → (as_struct structs lib satisfies p r b).0 ≡ struct_value b.0
as_struct-value structs lib satisfies p r (vs, e, errors) = refl

-- Whatever a request holds, what Bind makes by a plan that Compile returned is a value of the input
-- type: integers fit the bits of their fields and arrays have their lengths. It is one also
-- where binding ends with an error. The conditions are that no struct holds itself by value, and
-- that time.Parse, encoding/json and the unmarshalers leave values of the types that they are
-- called for.
pub bind-HasType :
    {F O : Type 0} (structs : Structs) (rank : Text → ℕ) (lib : Conversions F O)
    (satisfies : ConstraintKind → Text → Bool)
    → IsRanked structs rank
    → IsTyped structs lib
    → (t : ReflectType) (pattern : Pattern) (options : BindOptions) (p : Plan)
    → compile_plan structs t pattern options ≡ ok p
    → (r : Request) → HasType structs (bind structs lib satisfies p r).0 t
unfolding bind struct_fields
bind-HasType structs rank lib satisfies ranked typed t pattern options p e r =
    let (name, is, input, places) = compile_plan-places structs t pattern options p e in
    let start : HasType structs (fresh structs lib p.input_type) (struct_type name) =
      subst (HasType structs (fresh structs lib p.input_type)) (ap kind_of input ∙ is) (
        kind_of-HasType structs p.input_type
          (fresh-HasType structs lib typed rank ranked p.input_type)) in
    let (vs, made, have) = struct_fields-HaveFields structs start in
    let ready : HaveFields structs
        (struct_fields structs lib satisfies p r (fresh structs lib p.input_type))
        (fields_of structs name) =
      subst
        (λ v.
          HaveFields structs (struct_fields structs lib satisfies p r v) (fields_of structs name))
        (sym made) have in
    let bound =
      bind_fields structs lib satisfies p r p.fields
        (struct_fields structs lib satisfies p r (fresh structs lib p.input_type)) [] in
    let done =
      bind_fields-HasFields structs lib satisfies typed rank ranked (fields_of structs name) p r
        p.fields _ [] places ready in
    subst (λ v. HasType structs v t) (sym (as_struct-value structs lib satisfies p r bound))
      (HasType-kind_of structs t
        (subst (HasType structs (struct_value bound.0)) (sym is) (has_struct done)))
