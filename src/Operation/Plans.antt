-- ===== src/Operation/Plans.antt =====
-- internal/operation/validate.go and compile.go: the plans and the document of an operation, with
-- the packages that make them.
use oashttp.Prelude.{Bool, List, Option, Result, [], err, if◌then◌else◌, is_some, none, ok, some}
use oashttp.Prelude.Text.{Text}
use oashttp.Reflect.GoType.{ReflectType, Structs}
use oashttp.Reflect.Value.{Value}
use oashttp.Http.Request.{Request}
use oashttp.Route.Constraint.{ConstraintKind}
use oashttp.Route.{Pattern}
use oashttp.Failure.Types.{Body}
use oashttp.Oas.{OasOperation}
use oashttp.Binding.Model.{BindOptions, Plan, PlanError}
use oashttp.Binding.Compile.{compile_plan}
use oashttp.Binding.Scalar.{Conversions}
use oashttp.Binding.Bind.{bind}
use oashttp.Operation.Model.{Definition, FieldError}
use oashttp.Operation.Runtime.{Bound}
use oashttp.Operation.OpenApi.{DocumentError, compile_oas}

module _ {F O : Type 0} (structs : Structs) (lib : Conversions F O)
    (satisfies : ConstraintKind → Text → Bool) (options : BindOptions)
    (validation : ReflectType → Option (Value F O → List FieldError)) where
  abbrev pub value_or_none : Result PlanError Plan → Option Plan
  value_or_none (err e) = none
  value_or_none (ok p) = some p

  -- `binding.Compile(def.InputType, …)`.
  unfoldable pub binding_plan : Definition ReflectType (Value F O) → Pattern → Option Plan
  unfolding compile_plan
  binding_plan def pattern = elim def.input_type [
    | none ↦ none
    | some t ↦ value_or_none (compile_plan structs t pattern options)
  ]

  -- `if def.Validation`; `validation` is Compile of the validation plans with their Validate. Without
  -- it the plan is nil, and is not used.
  unfoldable pub validation_of :
      Definition ReflectType (Value F O) → Option (Value F O → List FieldError)
  validation_of def = elim def.input_type [
    | none ↦ none
    | some t ↦ if def.validation then validation t else some (λ input. [])
  ]

  abbrev pub both_plans :
      Option Plan
      → Option (Value F O → List FieldError)
      → Option ((Request → Bound (Value F O)) × (Value F O → List FieldError))
  both_plans (some p) (some check) = some (bind structs lib satisfies p, check)
  both_plans _ _ = none

  -- `compileRequestPlans`, for Compile of an operation.
  unfoldable pub request_plans :
      Definition ReflectType (Value F O)
      → Pattern
      → Option ((Request → Bound (Value F O)) × (Value F O → List FieldError))
  unfolding binding_plan validation_of
  request_plans def pattern = both_plans (binding_plan def pattern) (validation_of def)

  -- The plan that the document is made of, nil for a raw operation.
  unfoldable pub planned : Definition ReflectType (Value F O) → Pattern → Option Plan
  unfolding binding_plan
  planned def pattern = if is_some def.raw_handler then none else binding_plan def pattern

  abbrev pub document_or_none : {A : Type 0} → Result DocumentError A → Option A
  document_or_none (err e) = none
  document_or_none (ok d) = some d

  -- `compileOAS`, for Compile of an operation; the registry goes along with the document.
  unfoldable pub document_of :
      {R S : Type 0}
      → (R → Option ReflectType → Option (S × R))
      → (Text → Option Text)
      → (Option (Body (Value F O)) → Option ReflectType)
      → Option R
      → Definition ReflectType (Value F O)
      → Pattern
      → Text
      → Option (Body (Value F O))
      → Option (OasOperation S × R)
  unfolding compile_oas planned
  document_of ref media_type model_type registry def pattern failure_type model = document_or_none (
      compile_oas ref media_type def failure_type (model_type model) (planned def pattern) pattern
        registry)
