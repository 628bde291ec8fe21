-- ===== src/Operation/Documented.antt =====
-- internal/operation: the failures that the framework answers with are documented.
use mathlib.Core.Path.{subst}
use oashttp.Prelude.{
  All, Bool, Bool-cases, List, Option, Option-cases, ap, arith, false, inl, inr, is_nil, is_some,
  none, ok, refl, some, sym, true, ℕ, ◌∙◌, ◌≡◌, ◌⊎◌,
}
use oashttp.Prelude.Text.{Text}
use oashttp.Core.Carrier.{Context, Heap}
use oashttp.Reflect.GoType.{ReflectType, Structs}
use oashttp.Reflect.Value.{Value}
use oashttp.Route.Constraint.{ConstraintKind, satisfies}
use oashttp.Route.{Pattern}
use oashttp.Http.Request.{Request, path_value}
use oashttp.Failure.Types.{Body, Codec, Failure}
use oashttp.HttpResult.{HttpResult, success}
use oashttp.Oas.{OasOperation}
use oashttp.Binding.Model.{BindOptions, Plan}
use oashttp.Binding.Compile.{body_doc, documentation}
use oashttp.Binding.Scalar.{Conversions}
use oashttp.Binding.Bind.{bind}
use oashttp.Binding.Refused.{bind-status}
use oashttp.Operation.Model.{Definition, FieldError, Handler, Options, ResponseSpec, Served}
use oashttp.Operation.Fields.{validation_failure}
use oashttp.Operation.Runtime.{
  fail_with, failure_of_request, invoked, raw_endpoint, typed_endpoint, wrap,
}
use oashttp.Operation.Answered.{raw_endpoint-cases}
use oashttp.Operation.Compile.{Compiled, Plans, compile, endpoint_of, typed_handler}
use oashttp.Operation.Sound.{compile-IsCompiled}
use oashttp.Operation.OpenApi.{compile_oas, planned_body, raw_path_has_validation}
use oashttp.Operation.Plans.{binding_plan, document_of, planned, request_plans, validation_of}
use oashttp.Operation.Declared.{HasFailures, HasStatus, compile_oas-HasFailures}
use oashttp.Operation.Endings.{EndsIn, serve-EndsIn}
use oashttp.Operation.Cases.{strings-IsGood, body_doc-Memᴰ, run_typed-cases}

module _ {F O R S : Type 0} (structs : Structs) (lib : Conversions F O)
    (parses_date parses_datetime : Text → Bool) (options : BindOptions)
    (validation : ReflectType → Option (Value F O → List FieldError)) (codec : Codec (Value F O))
    (ref : R → Option ReflectType → Option (S × R))
    (model_type : Option (Body (Value F O)) → Option ReflectType) (registry : Option R)
    (def : Definition ReflectType (Value F O)) (opts : Options (Value F O)) where
  abbrev kinds : ConstraintKind → Text → Bool
  kinds = satisfies parses_date parses_datetime

  abbrev pub plans : Definition ReflectType (Value F O) → Pattern → Option (Plans codec)
  plans = request_plans structs lib kinds options validation

  abbrev pub document :
      Definition ReflectType (Value F O)
      → Pattern
      → Text
      → Option (Body (Value F O))
      → Option (OasOperation S × R)
  document =
      document_of structs lib kinds options validation ref codec.parse_media_type model_type
        registry

  -- What the application's own code gives: a raw handler its response, an operation its result.
  abbrev pub IsOwn : Options (Value F O) → Context → Request → Served → Served → Type 0
  IsOwn full ctx r s out =
      ((handler : Handler) × (def.raw_handler ≡ some handler) × (out ≡ handler ctx r s))
      ⊎ ((invoke : Context → Heap → Value F O → Option (HttpResult (Value F O))) × (input : Value F
            O)
          × (result : HttpResult (Value F O)) × (def.invoke ≡ some invoke)
          × (invoke ctx s.heap input ≡ some result)
          × (out ≡ invoked codec full (some result) s))

  -- A failure whose status the document of the operation has.
  abbrev pub IsDocumented : Options (Value F O) → OasOperation S → Served → Type 0
  IsDocumented full op out =
      (item : Failure) × (s : Served) × HasStatus op.responses item.status
      × (out ≡ fail_with codec full item s)

  -- The responses of a compiled operation: its handler hands the request to the middlewares around
  -- the endpoint, or fails with a documented status; and the endpoint gives the application's own
  -- response, or fails with a documented status.
  pub record Documents (c : Compiled (OasOperation S × R)) : Type 0 where
    pub full : Options (Value F O)
    pub endpoint : Handler
    pub declared :
        All
          (λ (entry : ℕ × ResponseSpec ReflectType). HasStatus c.operation.0.responses entry.0)
          def.responses
    pub handler :
        (ctx : Context) (r : Request) (s : Served)
        → EndsIn codec full
            (HasStatus c.operation.0.responses)
            (λ inner t. wrap def.middlewares endpoint inner r t)
            (c.handler ctx r s)
    pub own :
        (ctx : Context) (r : Request) (s : Served)
        → All (λ p. is_nil (path_value r p.name) ≡ false) c.pattern.parameters
        → IsOwn full ctx r s (endpoint ctx r s) ⊎ IsDocumented full c.operation.0 (endpoint ctx r s)

  document-ok :
      (pattern : Pattern) (failure_type : Text) (model : Option (Body (Value F O)))
      (op : OasOperation S) (grown : R)
      → document def pattern failure_type model ≡ some (op, grown)
      → compile_oas ref codec.parse_media_type def failure_type
          (model_type model)
          (planned structs lib kinds options validation def pattern)
          pattern
          registry
        ≡ ok (op, grown)
  unfolding document_of
  document-ok pattern failure_type model op grown e = ground arith

  module _ (full : Options (Value F O)) (pattern : Pattern) (op : OasOperation S) (ctx : Context)
      (r : Request) (s : Served) where
    raw-IsOwn :
        (handler : Handler)
        → def.raw_handler ≡ some handler
        → (raw_path_has_validation pattern.parameters ≡ true → HasStatus op.responses 400)
        → All (λ p. is_nil (path_value r p.name) ≡ false) pattern.parameters
        → IsOwn full ctx r s (raw_endpoint codec full kinds handler pattern ctx r s)
          ⊎ IsDocumented full op (raw_endpoint codec full kinds handler pattern ctx r s)
    unfolding validation_failure
    raw-IsOwn handler is_raw bad there =
        elim (raw_endpoint-cases codec full kinds r handler pattern ctx s) [
          | inl (good, runs) ↦ inl (inl (handler, is_raw, runs))
          | inr (not_good, fails) ↦ elim (Bool-cases (raw_path_has_validation pattern.parameters)) [
            | inl checked ↦ inr (_, s, bad checked, fails)
            | inr free ↦ absurd (
                not_good (
                  strings-IsGood codec full def parses_date parses_datetime r pattern.parameters
                    free there))
          ]
        ]

    typed-IsOwn :
        (invoke : Context → Heap → Value F O → Option (HttpResult (Value F O)))
        (check : Value F O → List FieldError) (p : Plan)
        → def.invoke ≡ some invoke
        → HasStatus op.responses 400
        → HasStatus op.responses 500
        → (is_some (body_doc none p.fields) ≡ true
            → HasStatus op.responses 413 × HasStatus op.responses 415)
        → IsOwn full ctx r s
            (typed_endpoint codec full def invoke (bind structs lib kinds p) check ctx r s)
          ⊎ IsDocumented full op
              (typed_endpoint codec full def invoke (bind structs lib kinds p) check ctx r s)
    unfolding typed_endpoint failure_of_request invoked validation_failure
    typed-IsOwn invoke check p is_typed bad broken body =
        elim (run_typed-cases codec full def invoke check ctx (bind structs lib kinds p r) s) [
          | inl (e, refused_by, fails) ↦
              let (status, f, here, at_body) = bind-status structs lib kinds p r e refused_by in
              let (large, media) = body (body_doc-Memᴰ none f p.fields here at_body) in
              elim status [
                | inl is ↦ inr (_, s, subst (HasStatus op.responses) (sym is) large, fails)
                | inr is ↦ inr (_, s, subst (HasStatus op.responses) (sym is) media, fails)
              ]
          | inr (inl (errors, fails)) ↦ inr (_, s, bad, fails)
          | inr (inr runs) ↦
              elim (Option-cases (invoke ctx s.heap (bind structs lib kinds p r).0)) [
                | inl nothing ↦ inr (_, s, broken, runs ∙ ap (λ o. invoked codec full o s) nothing)
                | inr (result, gives) ↦ inl (
                    inr (
                      invoke,
                      _,
                      result,
                      is_typed,
                      gives,
                      runs ∙ ap (λ o. invoked codec full o s) gives,
                    ))
              ]
        ]

    endpoint_of-raw :
        (endpoint : Options (Value F O) → Handler) (handler : Handler)
        → def.raw_handler ≡ some handler
        → endpoint_of codec kinds plans def pattern ≡ ok endpoint
        → (λ o. raw_endpoint codec o kinds handler pattern) ≡ endpoint
    unfolding endpoint_of
    endpoint_of-raw endpoint handler is_raw made = ground arith

    endpoint_of-typed :
        (endpoint : Options (Value F O) → Handler)
        → def.raw_handler ≡ none
        → endpoint_of codec kinds plans def pattern ≡ ok endpoint
        → (invoke : Context → Heap → Value F O → Option (HttpResult (Value F O))) × (p : Plan)
          × (check : Value F O → List FieldError) × (def.invoke ≡ some invoke)
          × (binding_plan structs lib kinds options validation def pattern ≡ some p)
          × ((λ o. typed_endpoint codec o def invoke (bind structs lib kinds p) check) ≡ endpoint)
    unfolding endpoint_of typed_handler request_plans
    endpoint_of-typed endpoint not_raw made = elim (Option-cases def.invoke) [
      | inl nothing ↦ ground arith
      | inr (invoke, is_typed) ↦
          elim (Option-cases (binding_plan structs lib kinds options validation def pattern)) [
            | inl nothing ↦ ground arith
            | inr (p, planned) ↦
                elim (Option-cases (validation_of structs lib kinds options validation def)) [
                  | inl nothing ↦ ground arith
                  | inr (check, checked) ↦ (invoke, p, check, is_typed, planned, ground arith)
                ]
          ]
    ]

    endpoint-IsOwn :
        (failure_type : Text) (failure_model : Option ReflectType)
        (endpoint : Options (Value F O) → Handler) (plan : Option Plan)
        → planned structs lib kinds options validation def pattern ≡ plan
        → endpoint_of codec kinds plans def pattern ≡ ok endpoint
        → HasFailures ref codec.parse_media_type def failure_type failure_model
            (is_some plan)
            (is_some (planned_body ref codec.parse_media_type def failure_type failure_model plan))
            pattern.parameters
            op.responses
        → All (λ p. is_nil (path_value r p.name) ≡ false) pattern.parameters
        → IsOwn full ctx r s (endpoint full ctx r s) ⊎ IsDocumented full op (endpoint full ctx r s)
    unfolding planned documentation
    endpoint-IsOwn failure_type failure_model endpoint plan is_plan made has there =
        elim (Option-cases def.raw_handler) [
          | inr (handler, is_raw) ↦
              let is_endpoint = endpoint_of-raw endpoint handler is_raw made in
              subst
                (λ (e : Options (Value F O) → Handler).
                  IsOwn full ctx r s (e full ctx r s) ⊎ IsDocumented full op (e full ctx r s))
                is_endpoint (raw-IsOwn handler is_raw (λ e. has.bad (ground arith)) there)
          | inl not_raw ↦
              let (invoke, p, check, is_typed, is_bound, is_endpoint) =
                endpoint_of-typed endpoint not_raw made in
              let typed : some p ≡ plan = ground arith in
              subst
                (λ (e : Options (Value F O) → Handler).
                  IsOwn full ctx r s (e full ctx r s) ⊎ IsDocumented full op (e full ctx r s))
                is_endpoint
                (typed-IsOwn invoke check p is_typed (has.bad (ground arith)) has.broken λ body. (
                  has.large (ground arith) (ground arith),
                  has.media (ground arith) (ground arith),
                ))
        ]

  -- In an operation that compiles, everything is documented: the declared responses, and the status
  -- of each failure that security, binding, validation or a missing result leads to, as far as
  -- the router gives no empty value for a path parameter.
  pub compiled-Documents :
      (c : Compiled (OasOperation S × R))
      → compile codec kinds plans document def opts ≡ ok c
      → Documents c
  compiled-Documents c e =
      let k = compile-IsCompiled codec def opts kinds plans document c e in
      let plan = planned structs lib kinds options validation def c.pattern in
      let made =
        document-ok c.pattern k.full.failure_content_type k.full.failure_model c.operation.0
          c.operation.1 k.documented in
      let (declared, success, has) =
        compile_oas-HasFailures ref codec.parse_media_type def k.full.failure_content_type
          (model_type k.full.failure_model) plan c.pattern registry c.operation.0 c.operation.1
          made in
      record {
        full = k.full;
        endpoint = k.endpoint k.full;
        declared = declared;
        handler = λ ctx r s.
            subst
              (λ (h : Handler).
                EndsIn codec k.full (HasStatus c.operation.0.responses)
                  (λ inner t. wrap def.middlewares (k.endpoint k.full) inner r t) (h ctx r s))
              (sym k.handler)
              (serve-EndsIn codec k.full (HasStatus c.operation.0.responses) def c.pattern
                (k.endpoint k.full) k.configured.paired has.broken has.unknown has.forbidden ctx r
                s);
        own = λ ctx r s there.
            endpoint-IsOwn k.full c.pattern c.operation.0 ctx r s k.full.failure_content_type
              (model_type k.full.failure_model) k.endpoint plan refl k.compiled has there;
      }
