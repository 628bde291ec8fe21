-- ===== src/Lib.antt =====
-- oashttp: the request path of the oashttp framework, a Go HTTP library that
-- documents itself as OpenAPI.
--
-- Operations are mapped in groups, which have a prefix and middlewares; mapping one
-- joins the prefix with its route. Build compiles every operation: it parses the
-- route and makes a handler that checks security and runs the endpoint; recovery and
-- the application's middlewares stand around all of them. A request gets a carrier, on which
-- routing and authentication record what they find; its handler returns a
-- result, or a failure that the failure writer turns into a problem document.
--
-- Prelude         the shared types: Bool tests on the native ℕ, lists, results,
--                 and text, which is the list of its bytes as a Go string is
-- Core            internal/core/uuid.go, internal/core/operation.go and
--                 internal/httpsem/status.go; Public is uuid.go and
--                 operation_context.go. The carriers of all requests are
--                 a heap, a context the pointer it carries.
-- Route           internal/route/parser.go and constraint.go
-- Group           normalizePrefix and joinPaths of group.go
-- Http            the header map and the response writer that net/http gives,
--                 and responseState of recovery.go, which guards it
-- Failure         internal/failure/writer.go, internal/core/failure.go and
--                 problem.go
-- HttpResult      result.go and problem.go
-- Recovery        recoverPanics of recovery.go
-- Security        internal/security/middleware.go, internal/core/security.go and
--                 internal/operation/security_challenge.go
-- Reflect         Go's types and values as data, and the texts of integers
-- Binding         internal/binding: Compile is compiler.go, Scalar is scalar.go, Body
--                 is body.go and Bind is bind.go
-- Schema          internal/schema: JsonFields is jsonfields.go, Names is names.go
-- Docs            internal/docs: Serve is openapi.go and ServeHTTP of swagger.go, Page is
--                 NewSwaggerHandler
-- Oas             internal/oas31/model.go, the parts of an operation
-- Operation       internal/operation: Model is definition.go, Fields and Runtime
--                 are runtime.go, Compile is validate.go and compile.go, OpenApi is
--                 openapi.go; Plans joins Compile with the packages it calls
-- Validation      internal/validationrule/rule.go in Parse; internal/validation in
--                 Plan (compiler.go) and Check (rules.go and validate.go)
-- App             Settings is config.go; Model and Register are app.go, group.go,
--                 group_registration.go, docs.go and map.go; Builder is
--                 operation.go, raw.go and security.go; Document is
--                 openapi_build.go; Build is build of app.go
--
-- App.Register holds what can be called on an application; App.Build compiles each
-- operation with Operation.Compile, which parses its route with Route and
-- makes its handler with Operation.Runtime; that handler calls Security and
-- writes with Failure and HttpResult.
--
-- encoding/json, mime.ParseMediaType, the application's failure formatter and its
-- error handler are parameters. A formatter that panics is one of the outcomes
-- a formatter may have. http.ServeMux, time.Parse, the authenticator, the authorizer,
-- the security providers and the validator are parameters too, and nothing is
-- assumed of any of them, but in one theorem, on the types of what is bound: there
-- time.Parse, encoding/json and the unmarshalers are taken to leave values of the types
-- that they are called for. A response is the list of the calls that reach the
-- client, an error report the list of the reported messages, and both are passed
-- along. ParseFloat and FormatFloat of strconv are parameters as well.
-- So are encoding/json's decoder, the messages of strconv, net/mail, utf8, float64 and
-- the unmarshalers of the application's types. The registry of schemas is a state that
-- the OpenAPI operation passes along, and its Ref a parameter. So are sha256, net/url and
-- html/template.
-- Loops over text are recursion on the text. Fuel is used for the digits of a number,
-- 20 for 64 bits or the length of the text that it is compared with; for the zero
-- value of a type, the number of the structs, which a nesting without a cycle does not
-- exceed; and for the structs in a struct whose rules are compiled or whose JSON fields
-- are collected, one more than there are structs, of which Validation.Terminates and
-- Schema.Enough show that it is enough. The search for a component's name has fuel for
-- each used name and one more, which is enough by Schema.FreeName.
--
-- The plans, the OpenAPI operation and the handlers of the documentation pages are
-- arguments of Build and of Operation.Compile; Operation.Plans gives the plans and the
-- operation. In Operation and App a handler is a function on the state, and one
-- that panics is not among them; in Recovery a handler is the row of its calls. A type
-- with a name that is no struct is told from the type that it is defined as only by
-- its method to unmarshal a text.
--
-- Not modelled: the rest of schema generation, which makes a schema of a type, the
-- encoding of the OpenAPI document, and the template of the documentation page.

mod Prelude
pub mod Core
pub mod Route
pub mod Group
pub mod Http
pub mod Failure
pub mod Security
pub mod HttpResult
pub mod Recovery
pub mod Reflect
pub mod Validation
pub mod Binding
pub mod Oas
pub mod Schema
pub mod Docs
pub mod Operation
pub mod App
