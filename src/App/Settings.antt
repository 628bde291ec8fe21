-- ===== src/App/Settings.antt =====
-- config.go.
use oashttp.Prelude.{
  ℕ, zero, suc, Bool, true, false, not, Option, none, some, List, if◌then◌else◌, is_nil,
}
use oashttp.Prelude.Text.{Text, lit}
use oashttp.Core.Carrier.{Heap, Context}
use oashttp.Failure.Types.{Formatter, problem_details_formatter}
use oashttp.Security.{Authenticator, Authorizer, SecurityProvider}
use oashttp.Operation.Model.{FieldError}

-- Go's signed integers, which here are only tested for their sign.
pub data ℤ : Type 0 where
  pos negsuc : ℕ → ℤ

abbrev pub is_positive : ℤ → Bool
is_positive (pos (suc n)) = true
is_positive _ = false

-- `if cfg.JSONBodyLimit == 0 { cfg.JSONBodyLimit = 1 << 20 }`.
unfoldable pub limit_or_default : ℤ → ℤ
limit_or_default (pos zero) = pos 1048576
limit_or_default n = n

-- The handler of errors is the application's; what matters is whether it is nil.
pub record Config (V : Type 0) : Type 0 where
  pub title : Text
  pub version : Text
  pub description : Text
  pub open_api_version : Text
  pub json_body_limit : ℤ
  pub allow_unknown_json_fields : Bool
  pub servers : List (Text × Text)
  pub validator : Option (Context → Heap → V → List FieldError)
  pub has_error_handler : Bool
  pub authenticator : Option Authenticator
  pub authorizer : Option Authorizer
  pub security_providers : List (Text × Option SecurityProvider)
  pub failure_formatter : Option (Formatter V)
  pub disable_panic_recovery : Bool

pub record RuntimeConfig (V : Type 0) : Type 0 where
  pub config : Config V
  pub disallow_unknown_json_fields : Bool

abbrev pub formatter_or_default : {V : Type 0} → Option (Formatter V) → Option (Formatter V)
formatter_or_default {V} none = some (problem_details_formatter V)
formatter_or_default (some f) = some f

-- A clone of a slice or a map is the same list here. The default handler of errors logs.
unfoldable pub normalize_config : {V : Type 0} → Config V → RuntimeConfig V
unfolding limit_or_default
normalize_config cfg = record {
  config = record cfg {
    open_api_version = if is_nil cfg.open_api_version then lit "3.1.0" else cfg.open_api_version;
    json_body_limit = limit_or_default cfg.json_body_limit;
    has_error_handler = true;
    failure_formatter = formatter_or_default cfg.failure_formatter;
  };
  disallow_unknown_json_fields = not cfg.allow_unknown_json_fields;
}
