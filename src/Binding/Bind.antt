-- ===== src/Binding/Bind.antt =====
-- internal/binding/bind.go.
use oashttp.Prelude.{Bool, List, Option, [], if◌then◌else◌, is_nil, lookup, none, some, ◌++◌, ◌∷◌}
use oashttp.Prelude.Text.{Text, fields, lit, text_eq}
use oashttp.Reflect.GoType.{ReflectType, Structs}
use oashttp.Reflect.Value.{Value, Values, no_values, replace_at, struct_value, value_at, zero_value}
use oashttp.Http.Header.{header_values}
use oashttp.Http.Request.{Request, path_value}
use oashttp.Route.Constraint.{ConstraintKind, constraint_of}
use oashttp.Route.{Parameter}
use oashttp.Binding.Model.{FieldPlan, Plan, source_body, source_header, source_path, source_query}
use oashttp.Binding.Compile.{route_params}
use oashttp.Binding.Scalar.{Conversions, fresh, set_constrained_values, set_values}
use oashttp.Binding.Body.{BodyError, decode_body, invalid, refused}
use oashttp.Operation.Model.{FieldError, RequestError}

-- The map `constraints`, read at a name.
unfoldable pub constraint_at : List Parameter → Text → Option ConstraintKind
unfolding route_params lookup
constraint_at ps name = elim (lookup text_eq (route_params ps []) name) [
  | none ↦ none
  | some constraint ↦ constraint_of constraint
]

-- `fieldError`.
abbrev pub field_error : Text → Text → Text → FieldError
field_error location field message = record {
  location = location;
  field = field;
  messages = message ∷ [];
}

abbrev pub or_none : Option (List Text) → List Text
or_none none = []
or_none (some vs) = vs

module _ {F O : Type 0} (structs : Structs) (lib : Conversions F O)
    (satisfies : ConstraintKind → Text → Bool) where
  -- What the loop has so far: the fields of the value, an error that stops it, and the errors.
  abbrev pub Binding : Type 0
  Binding = Values F O × Option RequestError × List FieldError

  -- `if setErr != nil`.
  unfoldable pub assigned :
      FieldPlan → Text → Values F O → List FieldError → Value F O × Option Text → Binding
  unfolding replace_at
  assigned f location vs errors (v, none) = (replace_at f.index v vs, none, errors)
  assigned f location vs errors (v, some message) =
      (replace_at f.index v vs, none, errors ++ field_error location f.name message ∷ [])

  -- Behind `decodeBody`.
  unfoldable pub bound_body :
      FieldPlan → Values F O → List FieldError → Value F O × Option BodyError → Binding
  unfolding replace_at
  bound_body f vs errors (v, none) = (replace_at f.index v vs, none, errors)
  bound_body f vs errors (v, some (refused e)) = (replace_at f.index v vs, some e, errors)
  bound_body f vs errors (v, some (invalid message)) =
      (replace_at f.index v vs, none, errors ++ field_error (lit "body") f.name message ∷ [])

  module _ (p : Plan) (r : Request) where
    -- The message of a path value that is not taken.
    unfoldable pub path_problem : FieldPlan → Text → Option Text
    unfolding constraint_at
    path_problem f raw =
        if is_nil raw
        then some (lit "is required")
        else elim (constraint_at p.pattern.parameters f.name) [
          | none ↦ none
          | some kind ↦
              if satisfies kind raw
              then none
              else some (lit "does not satisfy " ++ (f.constraint ++ lit " constraint"))
        ]

    unfoldable pub bind_path : FieldPlan → Value F O → Values F O → List FieldError → Binding
    unfolding path_problem assigned set_constrained_values path_value
    bind_path f target vs errors =
        let raw = path_value r f.name in
        elim (path_problem f raw) [
          | some message ↦ (vs, none, errors ++ field_error (lit "path") f.name message ∷ [])
          | none ↦
              assigned f (lit "path") vs errors
                (set_constrained_values structs lib f.constraint f.field_type target (raw ∷ []))
        ]

    -- Of a query or a header; nothing happens without values.
    unfoldable pub bind_values :
        FieldPlan → Text → List Text → Value F O → Values F O → List FieldError → Binding
    unfolding assigned set_values
    bind_values f location items target vs errors =
        if is_nil items
        then (vs, none, errors)
        else assigned f location vs errors (set_values structs lib f.field_type target items)

    -- One round of the loop; `target` is `value.FieldByIndex(field.index)`.
    unfoldable pub bind_field : FieldPlan → Value F O → Values F O → List FieldError → Binding
    unfolding bind_path bind_values bound_body decode_body lookup
    bind_field f target vs errors = elim f.source [
      | source_path ↦ bind_path f target vs errors
      | source_query ↦
          bind_values f (lit "query") (or_none (lookup text_eq r.query f.name)) target vs errors
      | source_header ↦
          bind_values f (lit "header") (header_values r.header f.name) target vs errors
      | source_body ↦
          bound_body f vs errors
            (decode_body lib r f.field_type target p.limit p.disallow_unknown f.required)
    ]

    abbrev pub target_of : Option (Value F O) → ReflectType → Value F O
    target_of none t = fresh structs lib t
    target_of (some v) t = v

    -- An error of the request leaves the loop.
    abbrev pub go_on : Binding → (Values F O → List FieldError → Binding) → Binding
    go_on (vs, some e, errors) rest = (vs, some e, errors)
    go_on (vs, none, errors) rest = rest vs errors

    unfoldable pub bind_fields : List FieldPlan → Values F O → List FieldError → Binding
    unfolding bind_field value_at
    bind_fields [] vs errors = (vs, none, errors)
    bind_fields (f ∷ fields) vs errors =
        go_on (bind_field f (target_of (value_at f.index vs) f.field_type) vs errors)
          (bind_fields fields)

    unfoldable pub struct_fields : Value F O → Values F O
    struct_fields (struct_value vs) = vs
    struct_fields _ = no_values

    abbrev pub as_struct : Binding → Value F O × Option RequestError × List FieldError
    as_struct (vs, e, errors) = (struct_value vs, e, errors)

    -- `Bind`.
    unfoldable pub bind : Value F O × Option RequestError × List FieldError
    unfolding bind_fields struct_fields zero_value
    bind = as_struct (bind_fields p.fields (struct_fields (fresh structs lib p.input_type)) [])
