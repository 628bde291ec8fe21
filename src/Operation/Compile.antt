-- ===== src/Operation/Compile.antt =====
-- internal/operation/validate.go and compile.go.
use oashttp.Prelude.{
  ℕ, Bool, true, false, not, ◌&&◌, ◌||◌, Option, none, some, List, [], ◌∷◌, Result, ok, err, ◌>>=◌,
  ◌>>◌, reject_if, ltb, leb, if◌then◌else◌, is_nil, is_some, lookup,
}
use oashttp.Prelude.Text.{Text, lit, text_eq, trim_space}
use oashttp.Core.Status.{status_allows_body}
use oashttp.Http.Request.{Request}
use oashttp.Route.{Pattern, parse}
use oashttp.Route.Constraint.{ConstraintKind}
use oashttp.Failure.Types.{Body, Codec, or_default}
use oashttp.Failure.Write.{FormatError, describe}
use oashttp.Operation.Model.{
  Handler, response_custom, ResponseKind, FieldError, ResponseSpec, Definition, Options,
}
use oashttp.Operation.Runtime.{Bound, found, serve, typed_endpoint, raw_endpoint}

pub data CompileError : Type 0 where
  no_operation_id half_policy no_provider not_protected bad_status informational : CompileError
  no_response_model bad_response_type bad_request_type incomplete no_plan no_document : CompileError
  bad_route : oashttp.Route.Error → CompileError
  bad_formatter : FormatError → CompileError

pub record Compiled (D : Type 0) : Type 0 where
  pub pattern : Pattern
  pub handler : Handler
  pub operation : D
  pub protected : Bool
  pub security_name : Text

unfoldable pub is_custom : ResponseKind → Bool
is_custom response_custom = true
is_custom _ = false

module _ {V : Type 0} (codec : Codec V) where
  -- `err != nil || mediaType == ""` of mime.ParseMediaType.
  unfoldable pub is_bad_media_type : Text → Bool
  is_bad_media_type content_type = elim (codec.parse_media_type (trim_space content_type)) [
    | none ↦ true
    | some media ↦ is_nil media
  ]

  -- One round of the loop over the responses; `raw` is `def.RawHandler != nil`.
  unfoldable pub check_response :
      {T : Type 0} → Bool → ℕ → ResponseSpec T → Result CompileError (Unit {0})
  unfolding is_bad_media_type is_custom
  check_response raw status spec = do
    reject_if (ltb status 100 || ltb 599 status) bad_status
    reject_if (not raw && (leb 100 status && ltb status 200)) informational
    if is_custom spec.kind && status_allows_body status
        then (do
          reject_if (not (is_some spec.model_type)) no_response_model
          reject_if (is_bad_media_type spec.content_type) bad_response_type)
        else ok tt

  -- The loops of `validateDefinition`.
  unfoldable pub check_responses :
      {T : Type 0} → Bool → List (ℕ × ResponseSpec T) → Result CompileError (Unit {0})
  check_responses raw [] = ok tt
  check_responses raw ((status, spec) ∷ responses) = do
    check_response raw status spec
    check_responses raw responses

  unfoldable pub check_media_types : List Text → Result CompileError (Unit {0})
  check_media_types [] = ok tt
  check_media_types (t ∷ types) = do
    reject_if (is_bad_media_type t) bad_request_type
    check_media_types types

  unfoldable pub validate_definition :
      {T : Type 0} → Definition T V → Options V → Result CompileError (Unit {0})
  validate_definition def opts = do
    reject_if (is_nil (trim_space def.operation_id)) no_operation_id
    reject_if (if is_nil def.feature then not (is_nil def.permission) else is_nil def.permission)
        half_policy
    reject_if
        (not (is_nil def.security_name)
          && not (is_some (found (lookup text_eq opts.security_providers def.security_name))))
        no_provider
    reject_if
        (not (is_nil def.feature) && (is_nil def.security_name && not (is_some opts.authenticator)))
        not_protected
    check_responses (is_some def.raw_handler) def.responses
    check_media_types def.raw_request_media_types

  -- The Bind and Validate of a typed operation's plans.
  abbrev pub Plans : Type 0
  Plans = (Request → Bound V) × (V → List FieldError)

  -- `satisfies` and `plans` are the constraints' Validate and the compilers of plans, none on an
  -- error.
  module _ {T : Type 0} (satisfies : ConstraintKind → Text → Bool)
      (plans : Definition T V → Pattern → Option Plans) (def : Definition T V) where
    -- `compileRequestPlans`, and the endpoint that `compileRuntimeHandler` makes of its result.
    unfoldable pub typed_handler : Pattern → Result CompileError (Options V → Handler)
    typed_handler pattern = elim def.invoke [
      | none ↦ err incomplete
      | some invoke ↦
          if not (is_some def.input_type) || not (is_some def.output_type)
          then err incomplete
          else elim (plans def pattern) [
            | none ↦ err no_plan
            | some (bind, plan) ↦ ok (λ opts. typed_endpoint codec opts def invoke bind plan)
          ]
    ]

    unfoldable pub endpoint_of : Pattern → Result CompileError (Options V → Handler)
    unfolding typed_handler
    endpoint_of pattern = elim def.raw_handler [
      | some handler ↦ ok (λ opts. raw_endpoint codec opts satisfies handler pattern)
      | none ↦ typed_handler pattern
    ]

  -- `opts` with a formatter, and the media type and model that it declares.
  unfoldable pub with_formatter : Options V → Result CompileError (Options V)
  unfolding describe or_default
  with_formatter opts =
      let used = or_default opts.failure_formatter in
      if is_nil opts.failure_content_type || not (is_some opts.failure_model)
      then (elim (describe codec (some used)) [
        | err e ↦ err (bad_formatter e)
        | ok (media, model) ↦ ok (record opts {
          failure_formatter = some used;
          failure_content_type = media;
          failure_model = some model;
        })
      ])
      else ok (record opts { failure_formatter = some used })

unfoldable pub or_error {ℓ} : {A : Type ℓ} → CompileError → Option A → Result CompileError A
or_error e none = err e
or_error e (some a) = ok a

module _ {T V : Type 0} (def : Definition T V) where
  unfoldable pub parse_route : Result CompileError Pattern
  parse_route = elim (parse def.full_route) [ err e ↦ err (bad_route e) | ok pattern ↦ ok pattern ]

  unfoldable pub effective_security_name : Text
  effective_security_name =
      if is_nil def.security_name && not (is_nil def.feature)
      then lit "bearerAuth"
      else def.security_name

-- `document` is `compileOAS`, none on an error.
unfoldable pub compile :
    {T V D : Type 0}
    → (codec : Codec V) → (ConstraintKind → Text → Bool)
    → (Definition T V → Pattern → Option (Plans codec))
    → (Definition T V → Pattern → Text → Option (Body V) → Option D)
    → Definition T V
    → Options V
    → Result CompileError (Compiled D)
unfolding or_error
compile codec satisfies plans document def opts = do
  validate_definition codec def opts
  pattern ← parse_route def
  endpoint ← endpoint_of codec satisfies plans def pattern
  full ← with_formatter codec opts
  operation ←
      or_error no_document (document def pattern full.failure_content_type full.failure_model)
  ok (record {
    pattern = pattern;
    handler = serve codec full def pattern (endpoint full);
    operation = operation;
    protected = not (is_nil (effective_security_name def));
    security_name = effective_security_name def;
  })
