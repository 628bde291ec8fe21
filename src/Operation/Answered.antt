-- ===== src/Operation/Answered.antt =====
-- internal/operation/runtime.go: the responses of typed and raw endpoints.
use mathlib.Core.Bool.{false≢true}
use oashttp.Prelude.{
  sym, ap, ◌∙◌, Option-cases, Bool, true, false, ◌≡◌, refl, ◌↔◌, ◌⊎◌, inl, inr, Option, none, some,
  List, [], ◌∷◌, All, is_nil, is_nil_iff, append-nil_iff, arith, Bool-cases, if◌then◌else◌,
}
use oashttp.Prelude.Text.{Text}
use oashttp.Core.Carrier.{Heap, Context}
use oashttp.Route.{Parameter, Pattern}
use oashttp.Route.Constraint.{ConstraintKind, constraint_of}
use oashttp.Http.Request.{Request, path_value}
use oashttp.Http.Writer.Open.{is_open}
use oashttp.Failure.Types.{Codec}
use oashttp.HttpResult.{HttpResult}
use oashttp.HttpResult.Sent.{IsSent, failure-IsSent, write_http-IsSent}
use oashttp.Operation.Model.{FieldError, Served, Handler, Definition, Options}
use oashttp.Operation.Fields.{validation_failure, check_path_value, path_errors}
use oashttp.Operation.Runtime.{
  Bound, fail_with, validate, invoked, run_typed, typed_endpoint, raw_endpoint,
}

module _ {V : Type 0} (codec : Codec V) (opts : Options V) where
  invoked-IsSent :
      (result : Option (HttpResult V)) (s : Served)
      → is_open s.world.writer.guard ≡ true
      → IsSent s.world.writer (invoked codec opts result s).world.writer
  unfolding invoked
  invoked-IsSent none s o = failure-IsSent codec _ _ _ s.world o
  invoked-IsSent (some result) s o = write_http-IsSent codec _ _ result s.world o

  module _ {T : Type 0} (def : Definition T V) (invoke : Context → Heap → V → Option (HttpResult V))
      (plan : V → List FieldError) (ctx : Context) where
    run-IsSent :
        (bound : Bound V) (s : Served)
        → is_open s.world.writer.guard ≡ true
        → IsSent s.world.writer (run_typed codec opts def invoke plan ctx bound s).world.writer
    unfolding run_typed
    run-IsSent (input, some e, fields) s o = failure-IsSent codec _ _ _ s.world o
    run-IsSent (input, none, f ∷ fields) s o = failure-IsSent codec _ _ _ s.world o
    run-IsSent (input, none, []) s o =
        elim (Bool-cases
          (is_nil (if def.validation then validate codec opts plan ctx s.heap input else []))) [
            | inl e ↦ rw (e, run_typed) (invoked-IsSent (invoke ctx s.heap input) s o)
            | inr e ↦ rw (e, run_typed) (failure-IsSent codec _ _ _ s.world o)
          ]

    -- A typed operation answers every request with one response: whatever binding, validation and
    -- the handler give, one header with a status from 200 to 599 is sent, and at most one body.
    pub typed_endpoint-IsSent :
        (bind : Request → Bound V) (r : Request) (s : Served)
        → is_open s.world.writer.guard ≡ true
        → IsSent s.world.writer
            (typed_endpoint codec opts def invoke bind plan ctx r s).world.writer
    unfolding typed_endpoint
    typed_endpoint-IsSent bind r s o = run-IsSent (bind r) s o

  module _ (satisfies : ConstraintKind → Text → Bool) (r : Request) where
    abbrev pub Meets : Option ConstraintKind → Text → Type 0
    Meets none raw = Unit
    Meets (some kind) raw = satisfies kind raw ≡ true

    -- The value of a path parameter is there, and is as its constraint demands.
    abbrev pub IsGood : Parameter → Type 0
    IsGood p =
        (is_nil (path_value r p.name) ≡ false)
        × Meets (constraint_of p.constraint) (path_value r p.name)

    check_iff : (p : Parameter) → (check_path_value satisfies r p ≡ []) ↔ IsGood p
    unfolding check_path_value
    check_iff p = elim (Option-cases (constraint_of p.constraint)) [
      | inl e ↦ rw e (ground arith)
      | inr (kind, e) ↦ rw e (ground arith)
    ]

    path_errors_iff : (ps : List Parameter) → (path_errors satisfies r ps ≡ []) ↔ All IsGood ps
    unfolding path_errors
    path_errors_iff [] = (λ _. tt, λ _. refl)
    path_errors_iff (p ∷ ps) = (
      λ e.
          let (here, there) = (append-nil_iff _ _).0 e in
          ((check_iff p).0 here, (path_errors_iff ps).0 there),
      λ good. (append-nil_iff _ _).1 ((check_iff p).1 good.0, (path_errors_iff ps).1 good.1),
    )

    -- A raw handler runs exactly if every path parameter has a value, as its constraint demands;
    -- otherwise the response is the failure of the fields' errors, and the handler does not run.
    pub raw_endpoint-cases :
        (handler : Handler) (pattern : Pattern) (ctx : Context) (s : Served)
        → (All IsGood pattern.parameters
            × (raw_endpoint codec opts satisfies handler pattern ctx r s ≡ handler ctx r s))
          ⊎ ((¬ All IsGood pattern.parameters)
              × (raw_endpoint codec opts satisfies handler pattern ctx r s
                  ≡ fail_with codec opts
                      (validation_failure (path_errors satisfies r pattern.parameters))
                      s))
    unfolding raw_endpoint
    raw_endpoint-cases handler pattern ctx s =
        elim (Bool-cases (is_nil (path_errors satisfies r pattern.parameters))) [
          | inl e ↦ inl ((path_errors_iff pattern.parameters).0 ((is_nil_iff _).0 e), rw e refl)
          | inr e ↦ inr (
            λ good. false≢true (sym e ∙ ap is_nil ((path_errors_iff pattern.parameters).1 good)),
            rw e refl,
          )
        ]
