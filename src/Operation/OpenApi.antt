-- ===== src/Operation/OpenApi.antt =====
-- internal/operation/openapi.go.
use oashttp.Prelude.{
  Bool, List, Option, Result, [], any, err, false, if◌then◌else◌, insert, is_nil, is_some, leb,
  lookup, ltb, none, not, ok, reject_if, some, true, ℕ, ◌&&◌, ◌>>=◌, ◌>>◌, ◌||◌, ◌∷◌,
}
use oashttp.Prelude.Text.{Text, lit, text_eq, trim_space}
use oashttp.Core.Status.{status_allows_body}
use oashttp.Http.StatusText.{status_text}
use oashttp.Reflect.GoType.{ReflectType}
use oashttp.Reflect.Integer.{itoa}
use oashttp.Route.Constraint.{ConstraintKind, json_format, json_type}
use oashttp.Route.{Parameter, Pattern}
use oashttp.Oas.{
  Content, OasOperation, OasParameter, RequestBody, Response, Schema, primitive, reference,
}
use oashttp.Binding.Model.{BodyDoc, ParameterDoc, Plan}
use oashttp.Binding.Bind.{constraint_at}
use oashttp.Binding.Compile.{documentation}
use oashttp.Operation.Model.{
  Definition, ResponseSpec, response_custom, response_json, response_problem, response_raw,
}

pub data DocumentError : Type 0 where
  no_registry no_operation_name no_success bad_model bad_parameter bad_request_body : DocumentError

unfoldable pub raw_path_has_validation : List Parameter → Bool
unfolding any
raw_path_has_validation = any (λ p. not (text_eq p.constraint (lit "string")))

unfoldable pub response_description : ℕ → Text → Text
unfolding status_text
response_description status description =
    if not (is_nil description)
    then description
    else if not (is_nil (status_text status))
    then status_text status
    else lit "Response"

-- `status >= 200 && status < 300`.
abbrev pub is_success : ℕ → Bool
is_success status = leb 200 status && ltb status 300

-- `mediaType, _, _ := mime.ParseMediaType(…)`.
abbrev pub or_no_type : Option Text → Text
or_no_type none = []
or_no_type (some media) = media

-- The schema of a path parameter, by its constraint.
unfoldable pub constraint_schema : {S : Type 0} → Option ConstraintKind → Schema S
unfolding json_type json_format
constraint_schema none = primitive [] []
constraint_schema (some kind) = primitive (json_type kind) (json_format kind)

unfoldable pub path_parameter : {S : Type 0} → List Parameter → Text → Bool → OasParameter S
unfolding constraint_schema constraint_at
path_parameter ps name required = record {
  name = name;
  location = lit "path";
  required = required;
  schema = constraint_schema (constraint_at ps name);
}

-- The loop over the pattern's parameters, of a raw operation.
unfoldable pub raw_parameters :
    {S : Type 0} → List Parameter → List Parameter → List (OasParameter S)
unfolding path_parameter
raw_parameters ps [] = []
raw_parameters ps (p ∷ rest) = path_parameter ps p.name true ∷ raw_parameters ps rest

-- `registry.Ref` changes the registry R and gives a schema S, none on an error; a nil type is none.
-- `media_type` is mime.ParseMediaType, and `model_type` the type of a failure's model.
module _ {R S : Type 0} (ref : R → Option ReflectType → Option (S × R))
    (media_type : Text → Option Text) where
  unfoldable pub documented_response :
      R → Text → Text → Option ReflectType → Result DocumentError (Response S × R)
  documented_response registry description content_type t = elim (ref registry t) [
    | none ↦ err bad_model
    | some (schema, grown) ↦ ok (
      record { description = description; content = (content_type, some (reference schema)) ∷ [] },
      grown,
    )
  ]

  -- The responses so far, and the registry.
  abbrev pub Documenting : Type 0
  Documenting = List (Text × Response S) × R

  unfoldable pub add_failure_response :
      Text → Option ReflectType → ℕ → Documenting → Result DocumentError Documenting
  unfolding documented_response lookup insert
  add_failure_response content_type model status (responses, registry) =
      if is_some (lookup text_eq responses (itoa status)) then ok (responses, registry) else (do
        (response, grown) ←
            documented_response registry (response_description status []) content_type model
        ok (insert text_eq (itoa status) response responses, grown))

  module _ {V : Type 0} (def : Definition ReflectType V) (failure_type : Text)
      (failure_model : Option ReflectType) where
    -- The `switch spec.Kind` of a status that allows a body.
    unfoldable pub response_of :
        R → Text → ResponseSpec ReflectType → Result DocumentError (Response S × R)
    unfolding documented_response
    response_of registry description spec = elim spec.kind [
      | response_problem ↦ documented_response registry description failure_type failure_model
      | response_custom ↦
          documented_response registry description
            (or_no_type (media_type (trim_space spec.content_type))) spec.model_type
      | response_raw ↦ ok (record { description = description; content = [] }, registry)
      | response_json ↦
          documented_response registry description (lit "application/json") def.output_type
    ]

    -- One round of the loop over the declared responses.
    unfoldable pub add_response :
        ℕ → ResponseSpec ReflectType → Documenting → Result DocumentError Documenting
    unfolding response_of insert
    add_response status spec (responses, registry) =
        let description = response_description status spec.description in
        (do
          (response, grown) ←
              if status_allows_body status
              then response_of registry description spec
              else ok (record { description = description; content = [] }, registry)
          ok (insert text_eq (itoa status) response responses, grown))

    unfoldable pub add_responses :
        List (ℕ × ResponseSpec ReflectType) → Documenting → Result DocumentError Documenting
    unfolding add_response
    add_responses [] d = ok d
    add_responses ((status, spec) ∷ specs) d = add_response status spec d >>= add_responses specs

    unfoldable pub any_success : List (ℕ × ResponseSpec ReflectType) → Bool
    unfolding any
    any_success = any (λ entry. is_success entry.0)

    -- `if …` before each call of `addFailureResponse`.
    unfoldable pub add_if : Bool → ℕ → Documenting → Result DocumentError Documenting
    unfolding add_failure_response
    add_if needed status d =
        if needed then add_failure_response failure_type failure_model status d else ok d

    -- The failures that the framework may answer with; `typed` is `plan != nil`.
    unfoldable pub add_failures :
        Bool → Bool → List Parameter → Documenting → Result DocumentError Documenting
    unfolding add_if raw_path_has_validation
    add_failures typed has_body ps d =
        let checked = typed || raw_path_has_validation ps in
        (do
          d₁ ← add_if checked 400 d
          d₂ ← add_if (checked && has_body) 413 d₁
          d₃ ← add_if (checked && has_body) 415 d₂
          d₄ ← add_if (not (is_nil def.security_name) || not (is_nil def.feature)) 401 d₃
          d₅ ← add_if (not (is_nil def.feature)) 403 d₄
          add_if true 500 d₅)

    unfoldable pub typed_parameters :
        List Parameter → List ParameterDoc → R → Result DocumentError (List (OasParameter S) × R)
    unfolding path_parameter
    typed_parameters ps [] registry = ok ([], registry)
    typed_parameters ps (p ∷ docs) registry =
        if text_eq p.location (lit "path")
        then (do
          (rest, grown) ← typed_parameters ps docs registry
          ok (path_parameter ps p.name p.required ∷ rest, grown))
        else elim (ref registry (some p.field_type)) [
          | none ↦ err bad_parameter
          | some (schema, grown) ↦ (do
            (rest, last) ← typed_parameters ps docs grown
            let own : OasParameter S = record {
              name = p.name;
              location = p.location;
              required = p.required;
              schema = reference schema;
            }
            ok (own ∷ rest, last))
        ]

    -- `if plan != nil { … } else { … }`.
    unfoldable pub operation_parameters :
        Option Plan → List Parameter → R → Result DocumentError (List (OasParameter S) × R)
    unfolding typed_parameters raw_parameters documentation
    operation_parameters none ps registry = ok (raw_parameters ps ps, registry)
    operation_parameters (some plan) ps registry =
        typed_parameters ps (documentation plan).0 registry

    unfoldable pub body_content :
        Option BodyDoc → R → Result DocumentError (Option (RequestBody S) × R)
    body_content none registry = ok (none, registry)
    body_content (some body) registry = elim (ref registry (some body.body_type)) [
      | none ↦ err bad_request_body
      | some (schema, grown) ↦ ok (
        some (record {
          required = body.required;
          content = (lit "application/json", some (reference schema)) ∷ [];
        }),
        grown,
      )
    ]

    unfoldable pub raw_content : List Text → Content S → Content S
    unfolding insert
    raw_content [] content = content
    raw_content (raw ∷ types) content =
        raw_content types (insert text_eq (or_no_type (media_type (trim_space raw))) none content)

    -- The raw media types replace the body of the plan.
    unfoldable pub request_body :
        Option BodyDoc → R → Result DocumentError (Option (RequestBody S) × R)
    unfolding body_content raw_content
    request_body body registry = do
      (described, grown) ← body_content body registry
      ok (
        if is_nil def.raw_request_media_types
            then described
            else some
                (record { required = false; content = raw_content def.raw_request_media_types [] }),
        grown,
      )

    unfoldable pub security_of : List Text
    security_of =
        if not (is_nil def.security_name)
        then def.security_name ∷ []
        else if not (is_nil def.feature)
        then lit "bearerAuth" ∷ []
        else []

    abbrev pub planned_body : Option Plan → Option BodyDoc
    planned_body none = none
    planned_body (some plan) = (documentation plan).1

    unfoldable pub compile_oas :
        Option Plan → Pattern → Option R → Result DocumentError (OasOperation S × R)
    unfolding add_responses add_failures operation_parameters request_body security_of any_success
        documentation
    compile_oas plan pattern none = err no_registry
    compile_oas plan pattern (some registry) = do
      reject_if (is_nil def.operation_id) no_operation_name
      declared ← add_responses def.responses ([], registry)
      reject_if (not (any_success def.responses)) no_success
      (responses, r₁) ←
          add_failures (is_some plan) (is_some (planned_body plan)) pattern.parameters declared
      (parameters, r₂) ← operation_parameters plan pattern.parameters r₁
      (body, r₃) ← request_body (planned_body plan) r₂
      ok (
        record {
          operation_id = def.operation_id;
          tags = def.tags;
          summary = def.summary;
          description = def.description;
          parameters = parameters;
          request_body = body;
          responses = responses;
          security = security_of;
          extensions = if is_nil def.feature then none else some (def.feature, def.permission);
        },
        r₃,
      )
