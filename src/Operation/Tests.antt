-- ===== src/Operation/Tests.antt =====
-- The theorems on operations, at an operation that is protected by a named provider.
use oashttp.Prelude.{
  Result, ok, err, ℕ, Bool, true, false, ◌&&◌, ◌≡◌, refl, ◌⊎◌, Option, none, some, List, [], ◌∷◌,
  All, is_nil, lookup,
}
use oashttp.Prelude.Text.{Text, lit, text_eq, texts}
use oashttp.Core.Carrier.{Principal, Heap, Context, blank, deref}
use oashttp.Route.{Pattern, parse, scan, parse_token, check_parts, check_parameter}
use oashttp.Route.Constraint.{ConstraintKind, constraint_of, satisfies}
use oashttp.Http.Request.{Request}
use oashttp.Reflect.Integer.{positive}
use oashttp.Failure.Samples.{codec, fresh}
use oashttp.Failure.Types.{Body, value}
use oashttp.HttpResult.{HttpResult}
use oashttp.HttpResult.Sent.{IsSent}
use oashttp.Security.{SecurityProvider}
use oashttp.Operation.Model.{FieldError, Served, Handler, Definition, Options}
use oashttp.Operation.Fields.{or_empty, validation_failure, path_errors}
use oashttp.Operation.Runtime.{Bound, fail_with, wrap, serve, typed_endpoint, raw_endpoint}
use oashttp.Operation.Compile.{
  CompileError, Compiled, Plans, validate_definition, check_responses, check_media_types,
  parse_route, endpoint_of, with_formatter, or_error, effective_security_name, compile,
}
use oashttp.Operation.Sealed.{Asks, compiled-Guards}
use oashttp.Operation.Sound.{IsCompiled, compile-IsCompiled}
use oashttp.Failure.Write.{describe}
use oashttp.Operation.Guarded.{Guards, Passes, Stops, routed, serve-Guards}
use oashttp.Operation.Grouped.{messages_for, validation_failure-messages}
use oashttp.Operation.Answered.{IsGood, typed_endpoint-IsSent, raw_endpoint-cases}

abbrev bob : Principal
bob = record { subject = lit "bob"; features = []; permissions = [] }

abbrev session : SecurityProvider
session = record {
  security_scheme = record {
    kind = lit "apiKey";
    scheme = [];
    bearer_format = [];
    name = lit "sid";
    place = lit "cookie";
  };
  authenticate = λ ctx h r. (some bob, false);
}

abbrev options : Options Text
options = record {
  validator = none;
  authenticator = none;
  authorizer = none;
  security_providers = (lit "session", some session) ∷ [];
  failure_formatter = none;
  failure_content_type = lit "application/problem+json";
  failure_model = none;
}

abbrev get_user : Definition ℕ Text
get_user = record {
  method = lit "GET";
  user_route = lit "/users/{id:int}";
  full_route = lit "/users/{id:int}";
  input_type = some 0;
  output_type = some 1;
  invoke = none;
  raw_handler = none;
  raw_request_media_types = [];
  operation_id = lit "getUser";
  tags = [];
  summary = [];
  description = [];
  responses = [];
  validation = false;
  feature = [];
  permission = [];
  security_name = lit "session";
  middlewares = [];
}

abbrev users_route : Pattern
users_route = record {
  user_path = lit "/users/{id:int}";
  serve_mux_path = lit "/users/{id}";
  open_api_path = lit "/users/{id}";
  parameters = record { name = lit "id"; constraint = lit "int" } ∷ [];
}

abbrev request : Request
request = record {
  header = [];
  path_values = (lit "id", lit "x") ∷ [];
  query = [];
  body = none;
  content_length = positive 0;
}

abbrev arrived : Served
arrived = record { heap = blank ∷ []; world = fresh }

first_live : deref arrived.heap 0 ≡ some blank
unfolding deref
first_live = refl

named : is_nil get_user.security_name && is_nil get_user.feature ≡ false
unfolding lit
named = refl

serve-Guards_example :
    Guards codec options get_user
      (wrap get_user.middlewares)
      (routed codec options get_user users_route (some 0) arrived).0
      request
      (record arrived { heap = (routed codec options get_user users_route (some 0) arrived).1 })
      (λ endpoint. serve codec options get_user users_route endpoint (some 0) request arrived)
serve-Guards_example =
    serve-Guards codec options get_user users_route (some 0) request arrived (blank, first_live)
      named

abbrev get_name : Context → Heap → Text → Option (HttpResult Text)
get_name ctx h input = some (record {
  status = 200;
  headers = [];
  body = some (value input);
  content_type = lit "application/json";
  failure = none;
  no_store = false;
})

abbrev bind_name : Request → Bound Text
bind_name r = (lit "bob", none, [])

typed_endpoint-IsSent_example :
    IsSent fresh.writer
      (typed_endpoint codec options get_user get_name bind_name
        (λ input. [])
        (some 0)
        request
        arrived).world.writer
typed_endpoint-IsSent_example =
    typed_endpoint-IsSent codec options get_user get_name (λ input. []) (some 0) bind_name request
      arrived refl

abbrev says_ok : Handler
says_ok ctx r s = s

abbrev checks : ConstraintKind → Text → Bool
checks = satisfies (λ s. true) (λ s. true)

raw_endpoint-cases_example :
    (All (IsGood codec options checks request) users_route.parameters
      × (raw_endpoint codec options checks says_ok users_route (some 0) request arrived
          ≡ says_ok (some 0) request arrived))
    ⊎ ((¬ All (IsGood codec options checks request) users_route.parameters)
        × (raw_endpoint codec options checks says_ok users_route (some 0) request arrived
            ≡ fail_with codec options
                (validation_failure (path_errors checks request users_route.parameters))
                arrived))
raw_endpoint-cases_example =
    raw_endpoint-cases codec options checks request says_ok users_route (some 0) arrived

abbrev two_errors : List FieldError
two_errors =
    record { location = lit "query"; field = lit "page"; messages = lit "too small" ∷ [] }
    ∷ record { location = []; field = []; messages = lit "odd" ∷ [] }
    ∷ record { location = lit "query"; field = lit "page"; messages = lit "not even" ∷ [] }
    ∷ []

grouped_runs :
    (validation_failure two_errors).errors
    ≡ (lit "query.page", lit "too small" ∷ lit "not even" ∷ [])
      ∷ (lit "request", lit "odd" ∷ [])
      ∷ []
unfolding validation_failure texts
grouped_runs = refl

validation_failure-messages_example :
    or_empty (lookup text_eq (validation_failure two_errors).errors (lit "query.page"))
    ≡ messages_for (lit "query.page") two_errors
validation_failure-messages_example = validation_failure-messages two_errors (lit "query.page")

abbrev raw_user : Definition ℕ Text
raw_user = record get_user { raw_handler = some says_ok; invoke = none }

abbrev no_plans : Definition ℕ Text → Pattern → Option (Plans codec)
no_plans def pattern = none

abbrev id_document : Definition ℕ Text → Pattern → Text → Option (Body Text) → Option Text
id_document def pattern media model = some def.operation_id

abbrev no_pattern : Pattern
no_pattern = record { user_path = []; serve_mux_path = []; open_api_path = []; parameters = [] }

abbrev compiled_of : Result CompileError (Compiled Text) → Compiled Text
compiled_of (ok c) = c
compiled_of (err e) = record {
  pattern = no_pattern;
  handler = says_ok;
  operation = [];
  protected = false;
  security_name = [];
}

abbrev compiled_user : Compiled Text
compiled_user = compiled_of (compile codec checks no_plans id_document raw_user options)

user_compiles : compile codec checks no_plans id_document raw_user options ≡ ok compiled_user
unfolding compile validate_definition check_responses check_media_types parse_route parse scan
    parse_token check_parts check_parameter constraint_of endpoint_of describe with_formatter
    or_error effective_security_name lookup texts
user_compiles = refl

compile-IsCompiled_example :
    IsCompiled codec raw_user options checks no_plans id_document compiled_user
compile-IsCompiled_example =
    compile-IsCompiled codec raw_user options checks no_plans id_document compiled_user
      user_compiles

user_protected : compiled_user.protected ≡ true
unfolding compile validate_definition check_responses check_media_types parse_route parse scan
    parse_token check_parts check_parameter constraint_of endpoint_of describe with_formatter
    or_error effective_security_name lookup texts
user_protected = refl

compiled-Guards_example :
    (full : Options Text) × (endpoint : Handler) × Asks options full
    × (compiled_user.handler ≡ serve codec full raw_user compiled_user.pattern endpoint)
    × (Passes codec full raw_user
          (wrap raw_user.middlewares)
          (routed codec full raw_user compiled_user.pattern (some 0) arrived).0
          request
          (record arrived {
            heap = (routed codec full raw_user compiled_user.pattern (some 0) arrived).1;
          })
          (λ e. serve codec full raw_user compiled_user.pattern e (some 0) request arrived)
        ⊎ ((stop : Stops codec full raw_user
              (record arrived {
                heap = (routed codec full raw_user compiled_user.pattern (some 0) arrived).1;
              })
              (λ e. serve codec full raw_user compiled_user.pattern e (some 0) request arrived))
            × ((stop.failure.status ≡ 401) ⊎ (stop.failure.status ≡ 403))))
compiled-Guards_example =
    compiled-Guards codec raw_user options checks no_plans id_document compiled_user (some 0)
      request arrived user_compiles user_protected (blank, first_live)
