-- ===== src/App/Build.antt =====
-- app.go: Build. The values of its maps of registrations only name things in messages, so they are
-- kept as the rows of their keys.
use oashttp.Prelude.{
  Bool, true, not, ◌&&◌, Option, none, some, List, [], ◌∷◌, ◌++◌, Result, ok, err, ◌>>=◌, ◌>>◌,
  reject_if, if◌then◌else◌, is_nil, any,
}
use oashttp.Prelude.Text.{Text, lit, text_eq, trim_space}
use oashttp.Core.Carrier.{with_operation_carrier}
use oashttp.Route.{Pattern}
use oashttp.Route.Constraint.{ConstraintKind}
use oashttp.Failure.Types.{Body, Codec}
use oashttp.Failure.Write.{describe}
use oashttp.Recovery.{guarded}
use oashttp.Operation.Model.{Handler, Middleware, Definition, Options}
use oashttp.Operation.Runtime.{wrap}
use oashttp.Operation.Compile.{Compiled, Plans, compile}
use oashttp.App.Settings.{is_positive, Config, RuntimeConfig}
use oashttp.App.Model.{
  BuildError, no_title, no_version, bad_open_api_version, bad_body_limit, bad_formatter,
  duplicate_operation_id, duplicate_route, documentation_conflict, not_compiled, bad_pattern,
  not_marshalled, bad_swagger, SwaggerUiConfig, SwaggerRegistration, App,
}
use oashttp.App.Document.{Document, new_open_api_document, apply_compiled_operation}

-- What Build calls: the compilers of plans and of the document, the encoding of the document, the
-- handlers of the documentation, and http.ServeMux, as whether Handle panics on a pattern when those
-- given are registered, and as how the registered handlers serve.
pub record Parts (T V D : Type 0) (codec : Codec V) : Type 1 where
  pub satisfies : ConstraintKind → Text → Bool
  pub plans : RuntimeConfig V → Definition T V → Pattern → Option (Plans codec)
  pub document : Definition T V → Pattern → Text → Option (Body V) → Option D
  pub marshal : Document D → Option Text
  pub open_api_handler : Text → Handler
  pub swagger_handler : SwaggerUiConfig → Option Handler
  pub refuses : List Text → Text → Bool
  pub dispatch : List (Text × Handler) → Handler

-- The local variables of `build`; the keys of the mux are those of `registered`.
pub record Building (D : Type 0) : Type 0 where
  pub document : Document D
  pub operation_ids : List Text
  pub registered : List Text
  pub mux : List (Text × Handler)

unfoldable pub check_config : {V : Type 0} → Config V → Result BuildError (Unit {0})
check_config cfg = do
  reject_if (is_nil (trim_space cfg.title)) no_title
  reject_if (is_nil (trim_space cfg.version)) no_version
  reject_if (not (text_eq cfg.open_api_version (lit "3.1.0"))) bad_open_api_version
  reject_if (not (is_positive cfg.json_body_limit)) bad_body_limit

unfoldable pub options_of : {V : Type 0} → Config V → Text → Body V → Options V
options_of cfg media model = record {
  validator = cfg.validator;
  authenticator = cfg.authenticator;
  authorizer = cfg.authorizer;
  security_providers = cfg.security_providers;
  failure_formatter = cfg.failure_formatter;
  failure_content_type = media;
  failure_model = some model;
}

abbrev pub map_error {ℓ κ μ} :
    {E : Type κ} {F : Type μ} {A : Type ℓ} → (E → F) → Result E A → Result F A
map_error f (err e) = err (f e)
map_error f (ok a) = ok a

-- `def.Method + " " + path`.
abbrev pub key_of : Text → Text → Text
key_of method path = method ++ (lit " " ++ path)

unfoldable pub known : Text → List Text → Bool
unfolding any
known key keys = any (text_eq key) keys

unfoldable pub carrier_middleware : Handler → Handler
unfolding with_operation_carrier
carrier_middleware next ctx r s =
    let (c, h) = with_operation_carrier ctx s.heap in next c r (record s { heap = h })

-- `recoverPanics` around a handler that returns: the response is guarded. A handler that panics is
-- the matter of Recovery.
unfoldable pub guard_response : Handler → Handler
guard_response handler ctx r s = handler ctx r (record s { world = guarded s.world })

abbrev pub with_id : {D : Type 0} → Text → Building D → Building D
with_id id b = if is_nil id then b else record b { operation_ids = id ∷ b.operation_ids }

module _ {T V D : Type 0} {codec : Codec V} (parts : Parts T V D codec) where
  -- The registration of a key and its handler, `handleMuxPattern` included.
  unfoldable pub register :
      BuildError → Text → Handler → Building D → Result BuildError (Building D)
  unfolding known
  register taken key handler b = do
    reject_if (known key b.registered) taken
    reject_if (parts.refuses b.registered key) (bad_pattern key)
    ok (record b { registered = key ∷ b.registered; mux = b.mux ++ (key, handler) ∷ [] })

  unfoldable pub with_document : Document D → Building D → Building D
  with_document d b = record b { document = d }

  -- The end of a round of the loop over the operations, behind Compile.
  unfoldable pub add_compiled :
      Config V → Definition T V → Building D → Compiled D → Result BuildError (Building D)
  unfolding with_document
  add_compiled cfg def b compiled = do
    let key = key_of def.method compiled.pattern.serve_mux_path
    b' ← register (duplicate_route key) key compiled.handler b
    document ← apply_compiled_operation b'.document def compiled cfg
    ok (with_document document b')

  unfoldable pub add_operation :
      RuntimeConfig V → Options V → Definition T V → Building D → Result BuildError (Building D)
  add_operation cfg opts def b = do
    reject_if (not (is_nil def.operation_id) && known def.operation_id b.operation_ids)
        (duplicate_operation_id def.operation_id)
    compiled ←
        map_error not_compiled
          (compile codec parts.satisfies (parts.plans cfg) parts.document def opts)
    add_compiled cfg.config def (with_id def.operation_id b) compiled

  unfoldable pub add_operations :
      RuntimeConfig V
      → Options V
      → List (Definition T V)
      → Building D
      → Result BuildError (Building D)
  add_operations cfg opts [] b = ok b
  add_operations cfg opts (def ∷ defs) b = do
    b' ← add_operation cfg opts def b
    add_operations cfg opts defs b'

  unfoldable pub add_open_api : Text → Text → Building D → Result BuildError (Building D)
  add_open_api path bytes b =
      let key = key_of (lit "GET") path in
      if is_nil path
      then ok b
      else register (documentation_conflict key) key (parts.open_api_handler bytes) b

  -- `config.DocumentURL`.
  unfoldable pub with_url : Text → SwaggerUiConfig → SwaggerUiConfig
  with_url open_api_path config =
      if is_nil config.document_url
      then record config {
        document_url = if is_nil open_api_path then lit "/openapi.json" else open_api_path;
      }
      else config

  unfoldable pub add_swagger :
      Text → List SwaggerRegistration → Building D → Result BuildError (Building D)
  unfolding with_url
  add_swagger open_api_path [] b = ok b
  add_swagger open_api_path (r ∷ rs) b =
      elim (parts.swagger_handler (with_url open_api_path r.config)) [
        | none ↦ err bad_swagger
        | some handler ↦ (do
          let key = key_of (lit "GET") r.path
          b' ← register (documentation_conflict key) key handler b
          add_swagger open_api_path rs b')
      ]

  unfoldable pub marshalled : Document D → Result BuildError Text
  marshalled document = elim (parts.marshal document) [
    | none ↦ err not_marshalled
    | some bytes ↦ ok bytes
  ]

  abbrev pub start : Config V → Building D
  start cfg = record {
    document = new_open_api_document cfg;
    operation_ids = [];
    registered = [];
    mux = [];
  }

  -- The middlewares, recovery and the carrier around the mux.
  unfoldable pub finish : Config V → List Middleware → Building D → Handler
  unfolding wrap guard_response carrier_middleware
  finish cfg middlewares b =
      let inner = wrap middlewares (parts.dispatch b.mux) in
      carrier_middleware (if cfg.disable_panic_recovery then inner else guard_response inner)

  -- The work of `build` on what it has copied.
  unfoldable pub assemble : App T V → Result BuildError (Building D)
  unfolding describe
  assemble a = do
    check_config a.config.config
    (media, model) ← map_error bad_formatter (describe codec a.config.config.failure_formatter)
    b ←
        add_operations a.config (options_of a.config.config media model) a.operations
          (start a.config.config)
    bytes ← marshalled b.document
    b' ← add_open_api a.open_api_path bytes b
    add_swagger a.open_api_path a.swagger b'

  unfoldable pub built_handler : App T V → Result BuildError Handler
  built_handler a = do b ← assemble a; ok (finish a.config.config a.middlewares b)

  -- `Build`: `buildOnce` runs `build` the first time, which also freezes the application.
  unfoldable pub build : App T V → Result BuildError Handler × App T V
  build a = elim a.built [
    | some result ↦ (result, a)
    | none ↦
        let result = built_handler a in (result, record a { is_frozen = true; built = some result })
  ]
