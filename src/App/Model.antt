-- ===== src/App/Model.antt =====
-- app.go and group.go: the state of an application. An operation's definition is owned by the
-- application that registers it, and its builder points at it; here the pointer is the place among
-- the operations. Groups are pointed at in the same way.
use oashttp.Prelude.{ℕ, zero, suc, Bool, false, Option, none, some, List, [], ◌∷◌, Result}
use oashttp.Prelude.Text.{Text}
use oashttp.Failure.Write.{FormatError}
use oashttp.Operation.Model.{Handler, Middleware, Definition}
use oashttp.Operation.Compile.{CompileError}
use oashttp.App.Settings.{Config, RuntimeConfig, normalize_config}

pub data AppError : Type 0 where
  nil_middleware nil_group frozen already_mapped no_slash not_static : AppError

pub data BuildError : Type 0 where
  no_title no_version bad_open_api_version bad_body_limit : BuildError
  bad_formatter : FormatError → BuildError
  duplicate_operation_id duplicate_route documentation_conflict : Text → BuildError
  not_compiled : CompileError → BuildError
  bad_pattern unsupported_method : Text → BuildError
  bad_security_scheme : Text → BuildError
  not_marshalled bad_swagger : BuildError

pub record Group : Type 0 where
  pub prefix : Text
  pub middlewares : List Middleware

pub record SwaggerUiConfig : Type 0 where
  pub title : Text
  pub document_url : Text
  pub cdn_version : Text
  pub css_url : Text
  pub bundle_url : Text

pub record SwaggerRegistration : Type 0 where
  pub path : Text
  pub config : SwaggerUiConfig

-- `built` is none before `buildOnce` has run.
pub record App (T V : Type 0) : Type 0 where
  pub config : RuntimeConfig V
  pub is_frozen : Bool
  pub middlewares : List Middleware
  pub operations : List (Definition T V)
  pub groups : List Group
  pub open_api_path : Text
  pub swagger : List SwaggerRegistration
  pub built : Option (Result BuildError Handler)

unfoldable pub new : {T V : Type 0} → Config V → App T V
unfolding normalize_config
new cfg = record {
  config = normalize_config cfg;
  is_frozen = false;
  middlewares = [];
  operations = [];
  groups = [];
  open_api_path = [];
  swagger = [];
  built = none;
}

-- A pointer's target, and its update.
unfoldable pub at {ℓ} : {A : Type ℓ} → List A → ℕ → Option A
at [] p = none
at (x ∷ xs) zero = some x
at (x ∷ xs) (suc p) = at xs p

unfoldable pub put {ℓ} : {A : Type ℓ} → List A → ℕ → A → List A
put [] p a = []
put (x ∷ xs) zero a = a ∷ xs
put (x ∷ xs) (suc p) a = x ∷ put xs p a
