-- ===== src/HttpResult.antt =====
-- result.go and problem.go: the results of typed handlers, and how they are written.
mod Tests
pub mod Sent
pub mod Encoded
use oashttp.Prelude.{
  ℕ, Bool, true, false, not, ◌&&◌, ◌||◌, Option, none, some, List, [], ◌∷◌, ◌++◌, Result, ok, err,
  leb, ltb, ◌==◌, if◌then◌else◌, is_nil,
}
use oashttp.Prelude.Text.{Text, lit}
use oashttp.Core.Status.{status_allows_body}
use oashttp.Http.Header.{Header, header_add}
use oashttp.Http.Writer.{Writer, set_header, add_header, write_header}
use oashttp.Failure.Types.{Failure, Body, value, Codec, Formatter, no_failure}
use oashttp.Failure.Write.{
  Report, bad_status, result_not_encoded, result_not_written, World, report, on_writer, write_body,
  bytes_of, write_resolved,
}

-- `Result[T]`; a nil header map adds nothing, as an empty one.
pub record HttpResult (V : Type 0) : Type 0 where
  pub status : ℕ
  pub headers : Header
  pub body : Option (Body V)
  pub content_type : Text
  pub failure : Option Failure
  pub no_store : Bool

module _ {V : Type 0} where
  pub json : ℕ → Option (Body V) → HttpResult V
  json status body = record {
    status = status;
    headers = [];
    body = body;
    content_type = lit "application/json";
    failure = none;
    no_store = false;
  }

  pub error_json : ℕ → Option (Body V) → HttpResult V
  unfolding json
  error_json status body = record (json status body) { no_store = true }

  pub success : Option (Body V) → HttpResult V
  unfolding json
  success = json 200

  pub created : Option (Body V) → HttpResult V
  unfolding json
  created = json 201

  pub accepted : Option (Body V) → HttpResult V
  unfolding json
  accepted = json 202

  pub with_header : Text → Text → HttpResult V → HttpResult V
  with_header name v r = record r { headers = header_add r.headers name v }

pub no_content : (V : Type 0) → HttpResult V
no_content V = record {
  status = 204;
  headers = [];
  body = none;
  content_type = [];
  failure = none;
  no_store = false;
}

pub fail : (V : Type 0) → Failure → HttpResult V
fail V failure = record {
  status = failure.status;
  headers = [];
  body = none;
  content_type = [];
  failure = some failure;
  no_store = false;
}

pub failure_result : (V : Type 0) → ℕ → Text → Text → Text → HttpResult V
unfolding fail
failure_result V status title code detail =
    fail V (record no_failure { title = title; status = status; code = code; detail = detail })

pub bad_request : (V : Type 0) → Text → Text → HttpResult V
unfolding failure_result
bad_request V code detail = failure_result V 400 (lit "Bad Request") code detail

pub unauthorized : (V : Type 0) → Text → Text → HttpResult V
unfolding failure_result
unauthorized V code detail = failure_result V 401 (lit "Unauthorized") code detail

pub forbidden : (V : Type 0) → Text → Text → HttpResult V
unfolding failure_result
forbidden V code detail = failure_result V 403 (lit "Forbidden") code detail

pub not_found : (V : Type 0) → Text → Text → HttpResult V
unfolding failure_result
not_found V code detail = failure_result V 404 (lit "Not Found") code detail

pub conflict : (V : Type 0) → Text → Text → HttpResult V
unfolding failure_result
conflict V code detail = failure_result V 409 (lit "Conflict") code detail

pub internal_error : (V : Type 0) → Text → Text → HttpResult V
unfolding failure_result
internal_error V code detail = failure_result V 500 (lit "Internal Server Error") code detail

-- `for _, value := range values { w.Header().Add(key, value) }`.
unfoldable pub add_values : Text → List Text → Writer → Writer
add_values key [] w = w
add_values key (v ∷ vs) w = add_values key vs (add_header key v w)

unfoldable pub add_headers : Header → Writer → Writer
unfolding add_values
add_headers [] w = w
add_headers ((key, vs) ∷ h) w = add_headers h (add_values key vs w)

abbrev pub unserializable : Failure
unserializable = record no_failure {
  status = 500;
  code = lit "RESPONSE_SERIALIZATION_FAILED";
  detail = lit "The response could not be serialized";
}

-- The headers of the last part, each under its test.
unfoldable pub result_headers : {V : Type 0} → ℕ → HttpResult V → Writer → Writer
result_headers status r w =
    let typed =
      if not (is_nil r.content_type) && status_allows_body status
      then set_header (lit "X-Content-Type-Options") (lit "nosniff")
          (set_header (lit "Content-Type") r.content_type w)
      else w in
    if r.no_store then set_header (lit "Cache-Control") (lit "no-store") typed else typed

abbrev pub effective_status : ℕ → ℕ
effective_status status = if status == 0 then 200 else status

module _ {V : Type 0} (codec : Codec V) (formatter : Option (Formatter V))
    (failure_type : Text) where
  -- The body's bytes, none where the status or the result has no body; `none` on an error.
  unfoldable pub payload_of : ℕ → Option (Body V) → Option Text
  payload_of status none = some []
  payload_of status (some body) = if status_allows_body status then codec.marshal body else some []

  unfoldable pub write_payload : ℕ → HttpResult V → Option Text → World → World
  write_payload status r none w =
      write_resolved codec formatter failure_type unserializable (report result_not_encoded w)
  write_payload status r (some payload) w =
      write_body result_not_written payload
        (on_writer (λ v. write_header status (result_headers status r v)) w)

  unfoldable pub write_outcome : ℕ → HttpResult V → Option Failure → World → World
  unfolding write_payload payload_of
  write_outcome status r none w = write_payload status r (payload_of status r.body) w
  write_outcome status r (some failure) w =
      write_resolved codec formatter failure_type
        (if failure.status == 0 then record failure { status = status } else failure) w

  -- `WriteHTTPWithFailureFormatter`.
  unfoldable pub write_http : HttpResult V → World → World
  unfolding write_outcome
  write_http r w =
      let status = effective_status r.status in
      if ltb status 200 || ltb 599 status
      then write_resolved codec formatter failure_type unserializable (report (bad_status status) w)
      else write_outcome status r r.failure (on_writer (add_headers r.headers) w)
