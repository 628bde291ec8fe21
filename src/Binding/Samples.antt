-- ===== src/Binding/Samples.antt =====
-- An input type for the tests: `PUT /users/{id:int}` with a body of one string.
use oashttp.Prelude.{Bool, Result, [], err, false, none, ok, refl, some, true, ◌∷◌, ◌≡◌}
use oashttp.Prelude.Text.{Text, lit, texts}
use oashttp.Reflect.GoType.{
  ReflectType, StructField, Structs, fields_of, int_type, string_type, struct_type, tag_lookup,
}
use oashttp.Reflect.Integer.{positive}
use oashttp.Reflect.Value.{Value, more_values, nil_value, no_values, struct_value, text_value}
use oashttp.Route.Constraint.{ConstraintKind, satisfies}
use oashttp.Route.{Pattern}
use oashttp.Http.Request.{Request}
use oashttp.Binding.Model.{BindOptions, Plan, PlanError}
use oashttp.Binding.Compile.{compile_plan, supported_json_type}
use oashttp.Binding.Scalar.{Conversions}

abbrev pub id_field : StructField
id_field = record {
  name = lit "ID";
  exported = true;
  anonymous = false;
  field_type = int_type 32;
  tag = (lit "path", lit "id") ∷ [];
}

abbrev pub name_field : StructField
name_field = record {
  name = lit "Name";
  exported = true;
  anonymous = false;
  field_type = string_type;
  tag = (lit "json", lit "name") ∷ (lit "validate", lit "required") ∷ [];
}

abbrev pub body_field : StructField
body_field = record {
  name = lit "Body";
  exported = true;
  anonymous = false;
  field_type = struct_type (lit "User");
  tag = (lit "body", lit "json") ∷ [];
}

abbrev pub structs : Structs
structs = (lit "Input", id_field ∷ body_field ∷ []) ∷ (lit "User", name_field ∷ []) ∷ []

abbrev pub input : ReflectType
input = struct_type (lit "Input")

abbrev pub put_user : Pattern
put_user = record {
  user_path = lit "/users/{id:int}";
  serve_mux_path = lit "/users/{id}";
  open_api_path = lit "/users/{id}";
  parameters = record { name = lit "id"; constraint = lit "int" } ∷ [];
}

abbrev pub limits : BindOptions
limits = record { json_body_limit = positive 4; disallow_unknown_json_fields = true }

-- A body is the user's name as it stands.
unfoldable pub decode_name :
    Bool → ReflectType → Value Text Text → Text → Value Text Text × Result Text Text
decode_name disallow t old read = (struct_value (more_values (text_value read) no_values), ok [])

abbrev pub library : Conversions Text Text
library = record {
  bool_error = λ s. s;
  int_error = λ bits s. s;
  uint_error = λ bits s. s;
  parse_float = λ bits s. ok s;
  parse_time = λ layout s. err s;
  unmarshal_text = λ t. none;
  type_name = λ t. [];
  decode_json = decode_name;
  next_json = λ s. none;
  media_type = λ s. some s;
  zero_float = [];
  zero_other = λ name. nil_value;
}

abbrev pub put_request : Request
put_request = record {
  header = (lit "Content-Type", lit "application/json" ∷ []) ∷ [];
  path_values = (lit "id", lit "7") ∷ [];
  query = [];
  body = some (record { bytes = lit "Bob"; broken = false });
  content_length = positive 3;
}

abbrev pub checks : ConstraintKind → Text → Bool
checks = satisfies (λ s. true) (λ s. true)

abbrev pub plan_or : Result PlanError Plan → Plan
plan_or (ok p) = p
plan_or (err e) = record {
  input_type = input;
  fields = [];
  body = none;
  limit = 0;
  disallow_unknown = false;
  pattern = put_user;
}

abbrev pub user_plan : Plan
user_plan = plan_or (compile_plan structs input put_user limits)

pub plan_compiles : compile_plan structs input put_user limits ≡ ok user_plan
unfolding compile_plan texts fields_of tag_lookup supported_json_type
plan_compiles = refl
