-- ===== src/Failure/Types.antt =====
-- internal/core/failure.go and problem.go, and what the program takes from packages it only calls.
use oashttp.Prelude.{ℕ, Option, none, some, List, []}
use oashttp.Prelude.Text.{Text, lit}

-- `map[string][]string`, with its keys in the order of their first use.
abbrev pub Errors : Type 0
Errors = List (Text × List Text)

pub record Failure : Type 0 where
  pub kind : Text
  pub title : Text
  pub status : ℕ
  pub detail : Text
  pub instance_of : Text
  pub code : Text
  pub trace_id : Text
  pub errors : Errors

pub record ProblemDetails : Type 0 where
  pub kind : Text
  pub title : Text
  pub status : ℕ
  pub detail : Text
  pub instance_of : Text
  pub code : Text
  pub trace_id : Text
  pub errors : Errors

-- A Go value: Problem Details, or one of the application's.
pub data Body (V : Type 0) : Type 0 where
  problem : ProblemDetails → Body V
  value : V → Body V

-- encoding/json, `none` on an error, and the media type of mime.ParseMediaType, without its
-- parameters. Nothing is assumed of them.
pub record Codec (V : Type 0) : Type 0 where
  pub marshal : Body V → Option Text
  pub parse_media_type : Text → Option Text

-- A call of application code: it returns, or it panics.
pub data Outcome {ℓ} (A : Type ℓ) : Type ℓ where
  returns : A → Outcome A
  panics : Outcome A

-- `FailureFormatter`; a nil interface value is `none`.
pub record Formatter (V : Type 0) : Type 0 where
  pub content_type : Outcome Text
  pub model : Outcome (Option (Body V))
  pub format : Failure → Outcome (Option (Body V))

abbrev pub problem_json : Text
problem_json = lit "application/problem+json"

abbrev pub no_problem : ProblemDetails
no_problem = record {
  kind = [];
  title = [];
  status = 0;
  detail = [];
  instance_of = [];
  code = [];
  trace_id = [];
  errors = [];
}

abbrev pub no_failure : Failure
no_failure = record {
  kind = [];
  title = [];
  status = 0;
  detail = [];
  instance_of = [];
  code = [];
  trace_id = [];
  errors = [];
}

-- `ProblemDetailsFormatter.Format`.
unfoldable pub to_problem : Failure → ProblemDetails
to_problem f = record {
  kind = f.kind;
  title = f.title;
  status = f.status;
  detail = f.detail;
  instance_of = f.instance_of;
  code = f.code;
  trace_id = f.trace_id;
  errors = f.errors;
}

unfoldable pub problem_details_formatter : (V : Type 0) → Formatter V
unfolding to_problem
problem_details_formatter V = record {
  content_type = returns problem_json;
  model = returns (some (problem no_problem));
  format = λ f. returns (some (problem (to_problem f)));
}

-- `if formatter == nil { formatter = core.ProblemDetailsFormatter{} }`.
unfoldable pub or_default : {V : Type 0} → Option (Formatter V) → Formatter V
unfolding problem_details_formatter
or_default {V} none = problem_details_formatter V
or_default (some f) = f
