-- ===== src/Binding/Model.antt =====
-- internal/binding/compiler.go: the plan that binds a request.
use oashttp.Prelude.{Bool, List, Option, ℕ}
use oashttp.Prelude.Text.{Text}
use oashttp.Reflect.GoType.{ReflectType}
use oashttp.Reflect.Integer.{Integer}
use oashttp.Route.{Pattern}

-- `Options`; the limit is an int64.
pub record BindOptions : Type 0 where
  pub json_body_limit : Integer
  pub disallow_unknown_json_fields : Bool

pub data SourceKind : Type 0 where
  source_path source_query source_header source_body : SourceKind

-- `fieldPlan`; its index has one number, the field's place in the input type.
pub record FieldPlan : Type 0 where
  pub index : ℕ
  pub name : Text
  pub source : SourceKind
  pub field_type : ReflectType
  pub constraint : Text
  pub required : Bool

-- `Plan`, with the limit as Compile leaves it.
pub record Plan : Type 0 where
  pub input_type : ReflectType
  pub fields : List FieldPlan
  pub body : Option FieldPlan
  pub limit : ℕ
  pub disallow_unknown : Bool
  pub pattern : Pattern

pub data PlanError : Type 0 where
  pointer_input not_a_struct unexported_field empty_tag missing_parameter duplicate_path : PlanError
  bad_body_tag several_bodies unsupported_body several_tags : PlanError
  missing_fields : List Text → PlanError

pub record ParameterDoc : Type 0 where
  pub name : Text
  pub location : Text
  pub required : Bool
  pub field_type : ReflectType
  pub constraint : Text

pub record BodyDoc : Type 0 where
  pub body_type : ReflectType
  pub required : Bool
