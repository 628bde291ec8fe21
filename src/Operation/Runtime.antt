-- ===== src/Operation/Runtime.antt =====
-- internal/operation/runtime.go.
use oashttp.Prelude.{
  Bool, not, Option, none, some, List, [], ◌∷◌, ◌++◌, if◌then◌else◌, is_nil, lookup,
}
use oashttp.Prelude.Text.{Text, lit, text_eq}
use oashttp.Core.Carrier.{OperationInfo, Principal, Heap, Context, with_operation_info}
use oashttp.Route.{Pattern}
use oashttp.Route.Constraint.{ConstraintKind}
use oashttp.Http.Header.{header_get}
use oashttp.Http.Writer.{Writer, set_header}
use oashttp.Http.Request.{Request}
use oashttp.Failure.Types.{Failure, Codec, no_failure}
use oashttp.Failure.Write.{on_writer, write_resolved}
use oashttp.HttpResult.{HttpResult, write_http}
use oashttp.Security.{
  SecurityFailure, SecurityProvider, authenticate_and_authorize, authenticate_provider,
  authorize_principal, apply_provider_challenge, www_authenticate,
}
use oashttp.Operation.Fields.{validation_failure, path_errors}
use oashttp.Operation.Model.{
  Served, Handler, Middleware, FieldError, RequestError, Definition, Options,
}

-- `core.Failure{Status: …, Code: …, Detail: …}` of a refusal and of a request that cannot be bound.
unfoldable pub failure_of_security : SecurityFailure → Failure
failure_of_security f = record no_failure { status = f.status; code = f.code; detail = f.detail }

unfoldable pub failure_of_request : RequestError → Failure
failure_of_request e = record no_failure { status = e.status; code = e.code; detail = e.detail }

abbrev pub nil_result : Failure
nil_result = record no_failure {
  status = 500;
  code = lit "NIL_RESULT";
  detail = lit "The operation returned no result";
}

-- `for index := len(def.Middlewares) - 1; index >= 0; index--`: the first is the outermost.
unfoldable pub wrap : List Middleware → Handler → Handler
wrap [] endpoint = endpoint
wrap (m ∷ middlewares) endpoint = m (wrap middlewares endpoint)

-- `if securityFailure.Challenge != ""`.
unfoldable pub set_bearer_challenge : Text → Writer → Writer
set_bearer_challenge challenge w =
    if is_nil challenge then w else set_header www_authenticate challenge w

-- What `Bind` returns: the value, an error of the request, and the errors of fields.
abbrev pub Bound : Type 0 → Type 0
Bound V = V × Option RequestError × List FieldError

-- A provider that the map lacks, or holds as nil, is nil.
abbrev pub found : Option (Option SecurityProvider) → Option SecurityProvider
found none = none
found (some provider) = provider

abbrev pub info_of : {T V : Type 0} → Definition T V → Pattern → OperationInfo
info_of def pattern = record {
  id = def.operation_id;
  method = def.method;
  route = pattern.open_api_path;
}

module _ {V : Type 0} (codec : Codec V) (opts : Options V) where
  -- `writeFailure`.
  unfoldable pub fail_with : Failure → Served → Served
  fail_with item s = record s {
    world = write_resolved codec opts.failure_formatter opts.failure_content_type item s.world;
  }

  -- The headers of a refusal, and then its response.
  unfoldable pub refuse : (Writer → Writer) → SecurityFailure → Served → Served
  unfolding fail_with failure_of_security
  refuse challenge f s =
      fail_with (failure_of_security f) (record s { world = on_writer challenge s.world })

  -- Behind `AuthorizePrincipal` of a named provider.
  unfoldable pub after_authorization :
      Option SecurityProvider
      → Handler
      → Context
      → Request
      → Option SecurityFailure
      → Served
      → Served
  unfolding refuse
  after_authorization provider endpoint ctx r (some f) s =
      refuse (apply_provider_challenge provider (some f)) f s
  after_authorization provider endpoint ctx r none s = endpoint ctx r s

  -- Behind `AuthenticateProvider`.
  unfoldable pub after_provider :
      {T : Type 0}
      → Definition T V
      → Option SecurityProvider
      → Handler
      → Request
      → (Context × Heap) × Option Principal × Option SecurityFailure
      → Served
      → Served
  unfolding after_authorization refuse
  after_provider def provider endpoint r ((ctx, h), principal, some f) s =
      refuse (apply_provider_challenge provider (some f)) f (record s { heap = h })
  after_provider def provider endpoint r ((ctx, h), principal, none) s =
      after_authorization provider endpoint ctx r
        (authorize_principal ctx h principal def.feature def.permission opts.authorizer)
        (record s { heap = h })

  -- Behind `AuthenticateAndAuthorize`.
  unfoldable pub after_bearer :
      Handler → Request → (Context × Heap) × Option SecurityFailure → Served → Served
  unfolding refuse set_bearer_challenge
  after_bearer endpoint r ((ctx, h), some f) s =
      refuse (set_bearer_challenge f.challenge) f (record s { heap = h })
  after_bearer endpoint r ((ctx, h), none) s = endpoint ctx r (record s { heap = h })

  unfoldable pub secure :
      {T : Type 0} → Definition T V → Handler → Context → Request → Served → Served
  unfolding after_provider after_bearer lookup
  secure def endpoint ctx r s =
      if not (is_nil def.security_name)
      then (let provider = found (lookup text_eq opts.security_providers def.security_name) in
          after_provider def provider endpoint r (authenticate_provider ctx s.heap r provider) s)
      else if not (is_nil def.feature)
      then after_bearer endpoint r
          (authenticate_and_authorize ctx s.heap (header_get r.header (lit "Authorization"))
            def.feature def.permission opts.authenticator opts.authorizer)
          s
      else endpoint ctx r s

  -- The handler that `compileRuntimeHandler` returns, around the operation's endpoint.
  unfoldable pub serve : {T : Type 0} → Definition T V → Pattern → Handler → Handler
  unfolding secure wrap
  serve def pattern endpoint ctx r s =
      let (inner, h) = with_operation_info ctx (info_of def pattern) s.heap in
      secure def (wrap def.middlewares endpoint) inner r (record s { heap = h })

  -- The errors of validation: the plan's, then the application's.
  unfoldable pub validate : (V → List FieldError) → Context → Heap → V → List FieldError
  validate plan ctx h input = elim opts.validator [
    | none ↦ plan input
    | some validator ↦ plan input ++ validator ctx h input
  ]

  unfoldable pub invoked : Option (HttpResult V) → Served → Served
  unfolding fail_with
  invoked none s = fail_with nil_result s
  invoked (some result) s = record s {
    world = write_http codec opts.failure_formatter opts.failure_content_type result s.world;
  }

  unfoldable pub run_typed :
      {T : Type 0}
      → Definition T V
      → (Context → Heap → V → Option (HttpResult V))
      → (V → List FieldError)
      → Context
      → Bound V
      → Served
      → Served
  unfolding fail_with failure_of_request validate invoked
  run_typed def invoke plan ctx (input, some e, fields) s = fail_with (failure_of_request e) s
  run_typed def invoke plan ctx (input, none, fields) s =
      if not (is_nil fields)
      then fail_with (validation_failure fields) s
      else (let errors = if def.validation then validate plan ctx s.heap input else [] in
          if not (is_nil errors)
          then fail_with (validation_failure errors) s
          else invoked (invoke ctx s.heap input) s)

  -- `typedEndpoint`: `bind` and `plan` are the compiled plans' Bind and Validate.
  unfoldable pub typed_endpoint :
      {T : Type 0}
      → Definition T V
      → (Context → Heap → V → Option (HttpResult V))
      → (Request → Bound V)
      → (V → List FieldError)
      → Handler
  unfolding run_typed
  typed_endpoint def invoke bind plan ctx r s = run_typed def invoke plan ctx (bind r) s

  -- `satisfies`: the constraints' Validate.
  unfoldable pub raw_endpoint : (ConstraintKind → Text → Bool) → Handler → Pattern → Handler
  unfolding path_errors fail_with
  raw_endpoint satisfies handler pattern ctx r s =
      let errors = path_errors satisfies r pattern.parameters in
      if not (is_nil errors) then fail_with (validation_failure errors) s else handler ctx r s
