-- ===== src/App/Builder.antt =====
-- operation.go, raw.go and security.go: the builders of operations. What a builder does is data, and
-- its effect on the definition a function; both kinds of builder share them.
use oashttp.Prelude.{
  ℕ, Bool, true, false, not, ◌&&◌, ◌||◌, Option, none, some, List, [], ◌∷◌, ◌++◌, ◌==◌, leb,
  if◌then◌else◌, is_nil, all, insert,
}
use oashttp.Prelude.Text.{Text, lit, text_eq, trim_space}
use oashttp.Http.StatusText.{status_text}
use oashttp.Failure.Types.{Outcome, returns, panics}
use oashttp.Operation.Model.{
  Middleware, ResponseKind, response_json, response_problem, response_custom, response_raw,
  ResponseSpec, Definition,
}

unfoldable pub is_component_byte : ℕ → Bool
is_component_byte c =
    leb b'a' c && leb c b'z'
    || leb b'A' c && leb c b'Z'
    || leb b'0' c && leb c b'9'
    || c == b'.'
    || c == b'-'
    || c == b'_'

-- The loop is over runes in the source. A rune above 127 fails each test, as its bytes do.
unfoldable pub is_open_api_component_name : Text → Bool
unfolding is_component_byte all
is_open_api_component_name [] = false
is_open_api_component_name (c ∷ name) = all is_component_byte (c ∷ name)

unfoldable pub normalize_security_name : Text → Outcome Text
normalize_security_name name =
    let trimmed = trim_space name in
    if is_nil trimmed
    then panics
    else if text_eq trimmed (lit "bearerAuth")
    then panics
    else if not (is_open_api_component_name trimmed)
    then panics
    else returns trimmed

-- The methods of `OperationBuilder` and `RawOperationBuilder`.
pub data Edit (T : Type 0) : Type 0 where
  with_operation_id with_summary with_description require_security : Text → Edit T
  with_validation : Edit T
  with_tags consumes : List Text → Edit T
  use_all : List (Option Middleware) → Edit T
  produces produces_raw produces_problem : ℕ → Edit T
  produces_json : ℕ → Text → Edit T
  produces_response : ℕ → Text → Text → Option T → Edit T
  require_feature_and_permission : Text → Text → Edit T

abbrev pub spec_of : {T : Type 0} → ResponseKind → Text → ResponseSpec T
spec_of kind description = record {
  kind = kind;
  description = description;
  content_type = [];
  model_type = none;
}

module _ {T V : Type 0} where
  -- The loop of `Use`: it panics at the first nil, and keeps what it has appended.
  unfoldable pub append_middlewares :
      List (Option Middleware) → Definition T V → Outcome (Unit {0}) × Definition T V
  append_middlewares [] d = (returns tt, d)
  append_middlewares (none ∷ ms) d = (panics, d)
  append_middlewares (some m ∷ ms) d =
      append_middlewares ms (record d { middlewares = d.middlewares ++ m ∷ [] })

  abbrev pub respond : ℕ → ResponseSpec T → Definition T V → Definition T V
  respond status spec d = record d { responses = insert ◌==◌ status spec d.responses }

  unfoldable pub named : Outcome Text → Definition T V → Outcome (Unit {0}) × Definition T V
  named panics d = (panics, d)
  named (returns name) d = (returns tt, record d { security_name = name })

  -- What a builder's method does to the definition, and whether it panics.
  unfoldable pub edit : Edit T → Definition T V → Outcome (Unit {0}) × Definition T V
  unfolding append_middlewares normalize_security_name named insert
  edit (with_operation_id value) d = (returns tt, record d { operation_id = value })
  edit (with_summary value) d = (returns tt, record d { summary = value })
  edit (with_description value) d = (returns tt, record d { description = value })
  edit (require_security name) d = named (normalize_security_name name) d
  edit with_validation d = (returns tt, record d { validation = true })
  edit (with_tags values) d = (returns tt, record d { tags = values })
  edit (consumes types) d = (returns tt, record d { raw_request_media_types = types })
  edit (use_all ms) d = append_middlewares ms d
  edit (produces status) d =
      (returns tt, respond status (spec_of response_json (status_text status)) d)
  edit (produces_raw status) d =
      (returns tt, respond status (spec_of response_raw (status_text status)) d)
  edit (produces_problem status) d =
      (returns tt, respond status (spec_of response_problem (status_text status)) d)
  edit (produces_json status description) d =
      (returns tt, respond status (spec_of response_json description) d)
  edit (produces_response status description content_type model) d = (
    returns tt,
    respond status
        (record {
          kind = response_custom;
          description = description;
          content_type = content_type;
          model_type = model;
        })
        d,
  )
  edit (require_feature_and_permission feature permission) d =
      (returns tt, record d { feature = feature; permission = permission })
