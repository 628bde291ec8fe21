-- ===== src/Binding/Compile.antt =====
-- internal/binding/compiler.go: Compile and Documentation.
use oashttp.Prelude.{
  Bool, List, Option, Result, [], any, err, false, if◌then◌else◌, insert, is_nil, is_some, lookup,
  ltb, none, not, ok, reject_if, some, suc, true, ℕ, ◌++◌, ◌==◌, ◌>>=◌, ◌>>◌, ◌∷◌,
}
use oashttp.Prelude.Text.{Text, lit, split, text_eq, trim_space}
use oashttp.Reflect.GoType.{
  ReflectType, StructField, Structs, array, base_type, bool_type, defined_type, fields_of,
  float_type, int_type, kind_of, map_type, other_type, pointer, slice, string_type, struct_type,
  tag_get, tag_lookup, uint_type,
}
use oashttp.Reflect.Integer.{Integer, negative, positive}
use oashttp.Route.{Parameter, Pattern}
use oashttp.Binding.Model.{
  BindOptions, BodyDoc, FieldPlan, ParameterDoc, Plan, PlanError, SourceKind, bad_body_tag,
  duplicate_path, empty_tag, missing_fields, missing_parameter, not_a_struct, pointer_input,
  several_bodies, several_tags, source_body, source_header, source_path, source_query,
  unexported_field, unsupported_body,
}

-- `if options.JSONBodyLimit <= 0`.
unfoldable pub limit_of : Integer → ℕ
limit_of (negative n) = 1048576
limit_of (positive n) = if n == 0 then 1048576 else n

-- The map `routeParams`.
unfoldable pub route_params : List Parameter → List (Text × Text) → List (Text × Text)
unfolding insert
route_params [] table = table
route_params (p ∷ ps) table = route_params ps (insert text_eq p.name p.constraint table)

-- The kinds of `supportedJSONType`, of a type that is no pointer.
unfoldable pub is_json_kind : ReflectType → Bool
is_json_kind string_type = true
is_json_kind bool_type = true
is_json_kind (int_type bits) = true
is_json_kind (uint_type bits) = true
is_json_kind (float_type bits) = true
is_json_kind (pointer t) = false
is_json_kind (slice t) = true
is_json_kind (array n t) = true
is_json_kind (map_type k t) = true
is_json_kind (struct_type name) = true
is_json_kind (other_type name) = false
is_json_kind (defined_type name t) = false

unfoldable pub supported_json_type : ReflectType → Bool
unfolding base_type is_json_kind
supported_json_type t = is_json_kind (base_type t)

unfoldable pub is_pointer : ReflectType → Bool
unfolding kind_of
is_pointer t = elim (kind_of t) [ pointer e ↦ true | _ ↦ false ]

unfoldable pub has_required_rule : Text → Bool
unfolding any
has_required_rule tag = any (λ part. text_eq (trim_space part) (lit "required")) (split b',' tag)

-- What the loop over the fields has built: `p.fields`, `boundPath` and `p.body`.
pub record Building : Type 0 where
  pub fields : List FieldPlan
  pub bound_path : List Text
  pub body : Option FieldPlan

abbrev pub nothing_bound : Building
nothing_bound = record { fields = []; bound_path = []; body = none }

abbrev pub plan_of : StructField → ℕ → Text → SourceKind → FieldPlan
plan_of f i name source = record {
  index = i;
  name = name;
  source = source;
  field_type = f.field_type;
  constraint = [];
  required = has_required_rule (tag_get f (lit "validate"));
}

abbrev pub add_field : Building → FieldPlan → Building
add_field b fp = record b { fields = b.fields ++ fp ∷ [] }

module _ (params : List (Text × Text)) (f : StructField) (i : ℕ) where
  -- `case sourcePath`.
  unfoldable pub add_path : Text → Building → Result PlanError Building
  unfolding lookup any
  add_path name b = elim (lookup text_eq params name) [
    | none ↦ err missing_parameter
    | some constraint ↦ (do
      reject_if (any (λ n. text_eq n name) b.bound_path) duplicate_path
      ok (
          add_field (record b { bound_path = name ∷ b.bound_path })
            (record (plan_of f i name source_path) { constraint = constraint; required = true })))
  ]

  -- `case sourceBody`.
  unfoldable pub add_body : Text → Building → Result PlanError Building
  add_body name b = do
    reject_if (not (text_eq name (lit "json"))) bad_body_tag
    reject_if (is_some b.body) several_bodies
    reject_if (not (supported_json_type f.field_type)) unsupported_body
    let fp = record (plan_of f i name source_body) { required = not (is_pointer f.field_type) }
    ok (add_field (record b { body = some fp }) fp)

  unfoldable pub add_source : SourceKind → Text → Building → Result PlanError Building
  unfolding add_path add_body
  add_source source_path name b = add_path name b
  add_source source_query name b = ok (add_field b (plan_of f i name source_query))
  add_source source_header name b = ok (add_field b (plan_of f i name source_header))
  add_source source_body name b = add_body name b

  -- One round of the loop over the four tags; the number is `found`.
  unfoldable pub add_tag : Text → SourceKind → ℕ × Building → Result PlanError (ℕ × Building)
  unfolding add_source
  add_tag key source (found, b) = elim (tag_lookup f key) [
    | none ↦ ok (found, b)
    | some name ↦ (do
      reject_if (not f.exported) unexported_field
      reject_if (is_nil name) empty_tag
      grown ← add_source source name b
      ok (suc found, grown))
  ]

  unfoldable pub add_tags :
      List (Text × SourceKind) → ℕ × Building → Result PlanError (ℕ × Building)
  unfolding add_tag
  add_tags [] counted = ok counted
  add_tags ((key, source) ∷ tags) counted = add_tag key source counted >>= add_tags tags

abbrev pub binding_tags : List (Text × SourceKind)
binding_tags =
    (lit "path", source_path)
    ∷ (lit "query", source_query)
    ∷ (lit "header", source_header)
    ∷ (lit "body", source_body)
    ∷ []

-- The loop over the fields, from field `i`.
unfoldable pub add_fields :
    List (Text × Text) → ℕ → List StructField → Building → Result PlanError Building
unfolding add_tags
add_fields params i [] b = ok b
add_fields params i (f ∷ fields) b = do
  (found, grown) ← add_tags params f i binding_tags (0, b)
  reject_if (ltb 1 found) several_tags
  add_fields params (suc i) fields grown

-- The names of the parameters that no field binds.
unfoldable pub missing_names : List Text → List (Text × Text) → List Text
unfolding any
missing_names bound [] = []
missing_names bound ((name, constraint) ∷ params) =
    if any (λ n. text_eq n name) bound
    then missing_names bound params
    else name ∷ missing_names bound params

-- The struct of the input type; its fields are those of `structs`.
unfoldable pub struct_name : ReflectType → Result PlanError Text
unfolding kind_of
struct_name t = elim (kind_of t) [
  | pointer e ↦ err pointer_input
  | struct_type name ↦ ok name
  | _ ↦ err not_a_struct
]

unfoldable pub compile_plan : Structs → ReflectType → Pattern → BindOptions → Result PlanError Plan
unfolding limit_of route_params struct_name add_fields missing_names
compile_plan structs t pattern options = do
  name ← struct_name t
  let params = route_params pattern.parameters []
  b ← add_fields params 0 (fields_of structs name) nothing_bound
  let missing = missing_names b.bound_path params
  reject_if (not (is_nil missing)) (missing_fields missing)
  ok (record {
    input_type = t;
    fields = b.fields;
    body = b.body;
    limit = limit_of options.json_body_limit;
    disallow_unknown = options.disallow_unknown_json_fields;
    pattern = pattern;
  })

unfoldable pub parameter_docs : List FieldPlan → List ParameterDoc
parameter_docs [] = []
parameter_docs (f ∷ fields) = elim f.source [
  | source_path ↦
      record {
        name = f.name;
        location = lit "path";
        required = true;
        field_type = f.field_type;
        constraint = f.constraint;
      }
      ∷ parameter_docs fields
  | source_query ↦
      record {
        name = f.name;
        location = lit "query";
        required = f.required;
        field_type = f.field_type;
        constraint = [];
      }
      ∷ parameter_docs fields
  | source_header ↦
      record {
        name = f.name;
        location = lit "header";
        required = f.required;
        field_type = f.field_type;
        constraint = [];
      }
      ∷ parameter_docs fields
  | source_body ↦ parameter_docs fields
]

-- The last field with a body's source; the first argument is the one so far.
unfoldable pub body_doc : Option BodyDoc → List FieldPlan → Option BodyDoc
body_doc found [] = found
body_doc found (f ∷ fields) = elim f.source [
  | source_body ↦
      body_doc (some (record { body_type = f.field_type; required = f.required })) fields
  | _ ↦ body_doc found fields
]

-- `Documentation`.
unfoldable pub documentation : Plan → List ParameterDoc × Option BodyDoc
unfolding parameter_docs body_doc
documentation p = (parameter_docs p.fields, body_doc none p.fields)
