-- ===== src/App/Tests.antt =====
-- The theorems on applications, at one with a raw operation.
use oashttp.Prelude.{
  ℕ, true, false, ◌≡◌, refl, lookup, insert, none, some, List, [], ◌∷◌, Result, ok, err,
}
use oashttp.Prelude.Text.{Text, lit, texts}
use oashttp.Route.{parse, scan, parse_token, check_parts, check_parameter}
use oashttp.Route.Constraint.{constraint_of, satisfies}
use oashttp.Failure.Write.{describe}
use oashttp.Failure.Samples.{codec}
use oashttp.Operation.Model.{Handler, Definition, Options}
use oashttp.Operation.Compile.{
  validate_definition, parse_route, endpoint_of, with_formatter, or_error, effective_security_name,
  compile, check_responses, check_media_types,
}
use oashttp.App.Settings.{pos, Config, normalize_config}
use oashttp.App.Model.{BuildError, App, new, at, put}
use oashttp.App.Builder.{require_security, with_operation_id, edit}
use oashttp.App.Register.{blank_definition, app_group, map_handler, mutate_operation}
use oashttp.App.Document.{
  apply_compiled_operation, set_path_operation, apply_security, new_open_api_document,
}
use oashttp.App.Build.{
  Parts, build, built_handler, assemble, add_operations, add_operation, add_compiled, register,
  marshalled, add_open_api, add_swagger, check_config, known, with_document, options_of,
}
use oashttp.Group.{normalize_prefix, join_paths}
use oashttp.App.Edited.{IsSameOperation, edit-IsSameOperation}
use oashttp.App.Frozen.{
  Call, call, groups, maps_handler, edits, uses, builds, run_calls, IsKept, build_once,
}
use oashttp.App.Built.{IsConfigured, IsRegistered, built_handler-IsRegistered}

abbrev config : Config Text
config = record {
  title = lit "Users";
  version = lit "1";
  description = [];
  open_api_version = [];
  json_body_limit = pos 0;
  allow_unknown_json_fields = false;
  servers = [];
  validator = none;
  has_error_handler = false;
  authenticator = none;
  authorizer = none;
  security_providers = [];
  failure_formatter = none;
  disable_panic_recovery = false;
}

abbrev says_ok : Handler
says_ok ctx r s = s

abbrev first_handler : List (Text × Handler) → Handler
first_handler [] = says_ok
first_handler ((key, handler) ∷ mux) = handler

abbrev parts : Parts ℕ Text Text codec
parts = record {
  satisfies = satisfies (λ s. true) (λ s. true);
  plans = λ cfg def pattern. none;
  document = λ def pattern media model. some def.operation_id;
  marshal = λ d. some d.title;
  open_api_handler = λ bytes. says_ok;
  swagger_handler = λ c. some says_ok;
  refuses = λ keys key. false;
  dispatch = first_handler;
}

abbrev registrations : List (Call ℕ Text)
registrations =
    groups (lit "/v1")
    ∷ maps_handler (some 0) (lit "GET") (lit "/users/{id:int}") (some says_ok)
    ∷ edits 0 (with_operation_id (lit "getUser"))
    ∷ []

abbrev users : App ℕ Text
users = run_calls parts registrations (new config)

abbrev handler_of : Result BuildError Handler → Handler
handler_of (ok handler) = handler
handler_of (err e) = says_ok

users_unbuilt : users.built ≡ none
unfolding run_calls new call mutate_operation at map_handler app_group normalize_prefix texts
users_unbuilt = refl

build_once_example :
    let (r, a') = build parts users in
    let later = run_calls parts (uses (some (λ h. h)) ∷ builds ∷ registrations) a' in
    IsKept a' later × (build parts later ≡ (r, later))
build_once_example =
    build_once parts users (uses (some (λ h. h)) ∷ builds ∷ registrations) users_unbuilt

users_built : built_handler parts users ≡ ok (handler_of (built_handler parts users))
unfolding run_calls new call mutate_operation at map_handler app_group normalize_prefix texts
    built_handler assemble check_config add_operations put add_operation edit known compile
    validate_definition check_responses check_media_types parse_route parse join_paths scan
    parse_token check_parts check_parameter constraint_of endpoint_of describe with_formatter
    or_error effective_security_name add_compiled register with_document apply_compiled_operation
    set_path_operation apply_security lookup insert marshalled add_open_api add_swagger
    normalize_config options_of new_open_api_document
users_built = refl

built_handler-IsRegistered_example :
    IsConfigured parts users
    × (opts : Options Text) × IsRegistered parts users.config opts users.operations
built_handler-IsRegistered_example =
    built_handler-IsRegistered parts users (handler_of (built_handler parts users)) users_built

abbrev mapped : Definition ℕ Text
mapped = blank_definition (lit "GET") (lit "/v1/me")

edit-IsSameOperation_example :
    IsSameOperation mapped (edit (require_security (lit " session ")) mapped).1
edit-IsSameOperation_example = edit-IsSameOperation (require_security (lit " session ")) mapped
