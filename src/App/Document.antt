-- ===== src/App/Document.antt =====
-- openapi_build.go: the parts of the OpenAPI document that the application fills in itself.
use oashttp.Prelude.{
  not, ◌&&◌, ◌||◌, Option, none, some, List, [], ◌∷◌, Result, ok, err, ◌>>=◌, ◌>>◌, reject_if,
  if◌then◌else◌, is_nil, any, lookup, insert,
}
use oashttp.Prelude.Text.{Text, lit, text_eq, trim_space, equal_fold}
use oashttp.Security.{SecurityScheme, SecurityProvider}
use oashttp.Operation.Model.{Definition}
use oashttp.Operation.Compile.{Compiled}
use oashttp.App.Settings.{Config}
use oashttp.App.Model.{BuildError, unsupported_method, bad_security_scheme}

pub record PathItem (D : Type 0) : Type 0 where
  pub get : Option D
  pub post : Option D
  pub put : Option D
  pub patch : Option D
  pub delete : Option D
  pub options : Option D
  pub head : Option D
  pub trace : Option D

-- `oas31.Document`, less its schemas, which come from the registry.
pub record Document (D : Type 0) : Type 0 where
  pub title : Text
  pub version : Text
  pub description : Text
  pub servers : List (Text × Text)
  pub paths : List (Text × PathItem D)
  pub security_schemes : List (Text × SecurityScheme)

unfoldable pub new_open_api_document : {V D : Type 0} → Config V → Document D
new_open_api_document cfg = record {
  title = cfg.title;
  version = cfg.version;
  description = cfg.description;
  servers = cfg.servers;
  paths = [];
  security_schemes = [];
}

abbrev pub no_item : {D : Type 0} → PathItem D
no_item = record {
  get = none;
  post = none;
  put = none;
  patch = none;
  delete = none;
  options = none;
  head = none;
  trace = none;
}

unfoldable pub set_path_operation :
    {D : Type 0} → PathItem D → Text → D → Result BuildError (PathItem D)
set_path_operation item method operation =
    if text_eq method (lit "GET")
    then ok (record item { get = some operation })
    else if text_eq method (lit "POST")
    then ok (record item { post = some operation })
    else if text_eq method (lit "PUT")
    then ok (record item { put = some operation })
    else if text_eq method (lit "PATCH")
    then ok (record item { patch = some operation })
    else if text_eq method (lit "DELETE")
    then ok (record item { delete = some operation })
    else if text_eq method (lit "OPTIONS")
    then ok (record item { options = some operation })
    else if text_eq method (lit "HEAD")
    then ok (record item { head = some operation })
    else if text_eq method (lit "TRACE")
    then ok (record item { trace = some operation })
    else err (unsupported_method method)

unfoldable pub trim_scheme : SecurityScheme → SecurityScheme
trim_scheme scheme = record {
  kind = trim_space scheme.kind;
  scheme = trim_space scheme.scheme;
  bearer_format = trim_space scheme.bearer_format;
  name = trim_space scheme.name;
  place = trim_space scheme.place;
}

-- `switch result.Type`.
unfoldable pub check_scheme : Text → SecurityScheme → Result BuildError (Unit {0})
unfolding any
check_scheme name s =
    if text_eq s.kind (lit "http")
    then (do
      reject_if (is_nil s.scheme) (bad_security_scheme name)
      reject_if (not (is_nil s.name) || not (is_nil s.place)) (bad_security_scheme name)
      reject_if (not (is_nil s.bearer_format) && not (equal_fold s.scheme (lit "bearer")))
          (bad_security_scheme name))
    else if text_eq s.kind (lit "apiKey")
    then (do
      reject_if (is_nil s.name) (bad_security_scheme name)
      reject_if (not (any (text_eq s.place) (lit "header" ∷ lit "query" ∷ lit "cookie" ∷ [])))
          (bad_security_scheme name)
      reject_if (not (is_nil s.scheme) || not (is_nil s.bearer_format)) (bad_security_scheme name))
    else err (bad_security_scheme name)

unfoldable pub open_api_security_scheme :
    Text → Option SecurityProvider → Result BuildError SecurityScheme
unfolding trim_scheme
open_api_security_scheme name none = err (bad_security_scheme name)
open_api_security_scheme name (some provider) =
    let s = trim_scheme provider.security_scheme in check_scheme name s >> ok s

abbrev pub bearer_scheme : SecurityScheme
bearer_scheme = record {
  kind = lit "http";
  scheme = lit "bearer";
  bearer_format = lit "JWT";
  name = [];
  place = [];
}

abbrev pub item_or_none : {D : Type 0} → Option (PathItem D) → PathItem D
item_or_none none = no_item
item_or_none (some item) = item

abbrev pub provider_of : Option (Option SecurityProvider) → Option SecurityProvider
provider_of none = none
provider_of (some p) = p

abbrev pub add_scheme : {D : Type 0} → Text → SecurityScheme → Document D → Document D
add_scheme name s document = record document {
  security_schemes = insert text_eq name s document.security_schemes;
}

-- `applyCompiledOperation` behind the paths.
unfoldable pub apply_security :
    {T V D : Type 0}
    → Document D
    → Definition T V
    → Compiled D
    → Config V
    → Result BuildError (Document D)
unfolding open_api_security_scheme insert lookup
apply_security document def compiled cfg =
    if is_nil compiled.security_name
    then ok document
    else if is_nil def.security_name
    then ok (add_scheme (lit "bearerAuth") bearer_scheme document)
    else (do
      scheme ←
          open_api_security_scheme compiled.security_name
            (provider_of (lookup text_eq cfg.security_providers compiled.security_name))
      ok (add_scheme compiled.security_name scheme document))

unfoldable pub apply_compiled_operation :
    {T V D : Type 0}
    → Document D
    → Definition T V
    → Compiled D
    → Config V
    → Result BuildError (Document D)
unfolding insert lookup
apply_compiled_operation document def compiled cfg = do
  item ←
      set_path_operation
        (item_or_none (lookup text_eq document.paths compiled.pattern.open_api_path)) def.method
        compiled.operation
  apply_security
      (record document {
        paths = insert text_eq compiled.pattern.open_api_path item document.paths;
      })
      def compiled cfg
