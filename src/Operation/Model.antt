-- ===== src/Operation/Model.antt =====
-- internal/operation/definition.go, internal/core/types.go, internal/binding/errors.go, and the
-- state that handlers work on.
use oashttp.Prelude.{ℕ, Bool, Option, List}
use oashttp.Prelude.Text.{Text}
use oashttp.Core.Carrier.{Heap, Context}
use oashttp.Http.Request.{Request}
use oashttp.Failure.Types.{Body, Formatter}
use oashttp.Failure.Write.{World}
use oashttp.HttpResult.{HttpResult}
use oashttp.Security.{Authenticator, Authorizer, SecurityProvider}

-- The carriers of all requests, and the response of this one.
pub record Served : Type 0 where
  pub heap : Heap
  pub world : World

-- http.Handler, on the request's context.
abbrev pub Handler : Type 0
Handler = Context → Request → Served → Served

abbrev pub Middleware : Type 0
Middleware = Handler → Handler

pub data ResponseKind : Type 0 where
  response_json response_problem response_custom response_raw : ResponseKind

pub record FieldError : Type 0 where
  pub location : Text
  pub field : Text
  pub messages : List Text

pub record RequestError : Type 0 where
  pub status : ℕ
  pub code : Text
  pub detail : Text

-- T is reflect.Type, V the values of Go types.
pub record ResponseSpec (T : Type 0) : Type 0 where
  pub kind : ResponseKind
  pub description : Text
  pub content_type : Text
  pub model_type : Option T

-- `Definition`; what is nil in the source is `none`.
pub record Definition (T V : Type 0) : Type 0 where
  pub method : Text
  pub user_route : Text
  pub full_route : Text
  pub input_type : Option T
  pub output_type : Option T
  pub invoke : Option (Context → Heap → V → Option (HttpResult V))
  pub raw_handler : Option Handler
  pub raw_request_media_types : List Text
  pub operation_id : Text
  pub tags : List Text
  pub summary : Text
  pub description : Text
  pub responses : List (ℕ × ResponseSpec T)
  pub validation : Bool
  pub feature : Text
  pub permission : Text
  pub security_name : Text
  pub middlewares : List Middleware

-- `Options`, less the schema registry and the binding's options. Whether the error handler is nil
-- is part of `World`. A value of the failures' type stands for the type.
pub record Options (V : Type 0) : Type 0 where
  pub validator : Option (Context → Heap → V → List FieldError)
  pub authenticator : Option Authenticator
  pub authorizer : Option Authorizer
  pub security_providers : List (Text × Option SecurityProvider)
  pub failure_formatter : Option (Formatter V)
  pub failure_content_type : Text
  pub failure_model : Option (Body V)
