-- ===== src/Operation/TypedTests.antt =====
-- The document and the responses of a typed operation, `PUT /users/{id:int}` with a body.
use oashttp.Prelude.{
  Bool, List, Option, Result, [], err, false, none, ok, refl, some, suc, true, ℕ, ◌∷◌, ◌≡◌,
}
use oashttp.Prelude.Text.{Text, lit, texts}
use oashttp.Core.Carrier.{Context, Heap}
use oashttp.Reflect.GoType.{ReflectType, fields_of, tag_lookup}
use oashttp.Reflect.Integer.{itoa}
use oashttp.Reflect.Value.{Value}
use oashttp.Route.Constraint.{constraint_of, satisfies}
use oashttp.Route.{check_parameter, check_parts, parse, parse_token, scan}
use oashttp.Failure.Types.{Body, Codec, value}
use oashttp.Failure.Write.{describe}
use oashttp.HttpResult.{HttpResult}
use oashttp.Oas.{OasOperation}
use oashttp.Binding.Compile.{supported_json_type}
use oashttp.Binding.Samples.{input, library, limits, put_user, structs}
use oashttp.Operation.Model.{Definition, FieldError, Options, response_json}
use oashttp.Operation.Compile.{
  CompileError, Compiled, check_media_types, check_response, check_responses, compile,
  effective_security_name, endpoint_of, or_error, parse_route, validate_definition, with_formatter,
}
use oashttp.Operation.Plans.{document_of, request_plans}
use oashttp.Operation.Documented.{Documents, compiled-Documents, document, plans}
use oashttp.Core.Status.{status_allows_body}

abbrev values : Codec (Value Text Text)
values = record { marshal = λ v. some []; parse_media_type = λ s. some s }

abbrev echo : Context → Heap → Value Text Text → Option (HttpResult (Value Text Text))
echo ctx h v = some (record {
  status = 200;
  headers = [];
  body = some (value v);
  content_type = lit "application/json";
  failure = none;
  no_store = false;
})

abbrev update_user : Definition ReflectType (Value Text Text)
update_user = record {
  method = lit "PUT";
  user_route = lit "/users/{id:int}";
  full_route = lit "/users/{id:int}";
  input_type = some input;
  output_type = some input;
  invoke = some echo;
  raw_handler = none;
  raw_request_media_types = [];
  operation_id = lit "updateUser";
  tags = [];
  summary = [];
  description = [];
  responses =
      (200, record { kind = response_json; description = []; content_type = []; model_type = none })
      ∷ [];
  validation = false;
  feature = [];
  permission = [];
  security_name = [];
  middlewares = [];
}

abbrev no_options : Options (Value Text Text)
no_options = record {
  validator = none;
  authenticator = none;
  authorizer = none;
  security_providers = [];
  failure_formatter = none;
  failure_content_type = [];
  failure_model = none;
}

-- The registry is the number of the types so far, and a schema the number of its type.
abbrev numbered : ℕ → Option ReflectType → Option (ℕ × ℕ)
numbered n t = some (n, suc n)

abbrev any_text : Text → Bool
any_text s = true

abbrev nothing : ReflectType → Option (Value Text Text → List FieldError)
nothing t = none

abbrev no_model : Option (Body (Value Text Text)) → Option ReflectType
no_model b = none

abbrev compiled : Result CompileError (Compiled (OasOperation ℕ × ℕ))
compiled =
    compile values (satisfies any_text any_text)
      (plans structs library any_text any_text limits nothing values numbered no_model (some 0)
        update_user no_options)
      (document structs library any_text any_text limits nothing values numbered no_model (some 0)
        update_user no_options)
      update_user no_options

abbrev compiled_or :
    Result CompileError (Compiled (OasOperation ℕ × ℕ)) → Compiled (OasOperation ℕ × ℕ)
compiled_or (ok c) = c
compiled_or (err e) = record {
  pattern = put_user;
  handler = λ ctx r s. s;
  operation = (
    record {
      operation_id = [];
      tags = [];
      summary = [];
      description = [];
      parameters = [];
      request_body = none;
      responses = [];
      security = [];
      extensions = none;
    },
    0,
  );
  protected = false;
  security_name = [];
}

update_compiles : compiled ≡ ok (compiled_or compiled)
unfolding compile texts validate_definition check_responses check_response check_media_types
    parse_route parse scan parse_token check_parts check_parameter constraint_of endpoint_of
    request_plans fields_of tag_lookup supported_json_type with_formatter describe or_error
    effective_security_name document_of itoa status_allows_body
update_compiles = refl

compiled-Documents_example :
    Documents structs library any_text any_text limits nothing values numbered no_model
      (some 0)
      update_user
      no_options
      (compiled_or compiled)
compiled-Documents_example =
    compiled-Documents structs library any_text any_text limits nothing values numbered no_model
      (some 0) update_user no_options (compiled_or compiled) update_compiles
