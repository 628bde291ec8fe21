-- ===== src/Operation/Declared.antt =====
-- internal/operation/openapi.go: the responses that an operation's document has.
use mathlib.Core.Path.{subst}
use oashttp.Prelude.{
  >>=-eq-ok, All, All-map, Bool, Bool-cases, List, Option, Result-cases, [], all, arith, false,
  if◌then◌else◌, inl, inr, insert, insert-has, insert-keeps, is_nil, is_some, lookup, none, not, ok,
  refl, some, true, ℕ, ◌&&◌, ◌||◌, ◌∷◌, ◌≡◌,
}
use oashttp.Prelude.Text.{Text, text_eq, text_eq_refl}
use oashttp.Core.Status.{status_allows_body}
use oashttp.Reflect.GoType.{ReflectType}
use oashttp.Reflect.Integer.{itoa}
use oashttp.Route.{Parameter, Pattern}
use oashttp.Oas.{OasOperation, Response}
use oashttp.Binding.Model.{Plan}
use oashttp.Operation.Model.{Definition, ResponseSpec}
use oashttp.Operation.OpenApi.{
  add_failure_response, add_failures, add_if, add_response, add_responses, any_success, compile_oas,
  documented_response, operation_parameters, planned_body, raw_path_has_validation, request_body,
  response_description, response_of,
}

abbrev pub HasStatus : {S : Type 0} → List (Text × Response S) → ℕ → Type 0
HasStatus responses status = is_some (lookup text_eq responses (itoa status)) ≡ true

module _ {R S : Type 0} (ref : R → Option ReflectType → Option (S × R))
    (media_type : Text → Option Text) where
  -- A step that loses no status.
  Keeps : List (Text × Response S) × R → List (Text × Response S) × R → Type 0
  Keeps d e = (n : ℕ) → HasStatus d.0 n → HasStatus e.0 n

  add_failure_response-Keeps :
      (content_type : Text) (model : Option ReflectType) (status : ℕ)
      (d e : List (Text × Response S) × R)
      → add_failure_response ref media_type content_type model status d ≡ ok e
      → HasStatus e.0 status × Keeps d e
  unfolding add_failure_response Keeps
  add_failure_response-Keeps content_type model status (responses, registry) e h =
      elim (Bool-cases (is_some (lookup text_eq responses (itoa status)))) [
        | inl here ↦
            let same : (responses, registry) ≡ e = ground arith in
            subst
              (λ (e : List (Text × Response S) × R).
                HasStatus e.0 status × ((n : ℕ) → HasStatus responses n → HasStatus e.0 n))
              same (here, λ n x. x)
        | inr new ↦
            elim (Result-cases (
              documented_response ref media_type registry (response_description status [])
                content_type model)) [
                  | inr (_, g) ↦ ground arith
                  | inl ((response, grown), g) ↦
                      let same : (insert text_eq (itoa status) response responses, grown) ≡ e =
                        ground arith in
                      subst
                        (λ (e : List (Text × Response S) × R).
                          HasStatus e.0 status
                          × ((n : ℕ) → HasStatus responses n → HasStatus e.0 n))
                        same
                        (
                          insert-has text_eq (itoa status) response responses
                              (text_eq_refl (itoa status)),
                          λ n x. insert-keeps text_eq (itoa status) (itoa n) response responses x,
                        )
                ]
      ]

  Keeps-trans : (d e f : List (Text × Response S) × R) → Keeps d e → Keeps e f → Keeps d f
  unfolding Keeps
  Keeps-trans d e f k l n x = l n (k n x)

  module _ {V : Type 0} (def : Definition ReflectType V) (failure_type : Text)
      (failure_model : Option ReflectType) where
    add_response-Keeps :
        (status : ℕ) (spec : ResponseSpec ReflectType) (d e : List (Text × Response S) × R)
        → add_response ref media_type def failure_type failure_model status spec d ≡ ok e
        → HasStatus e.0 status × Keeps d e
    unfolding add_response Keeps
    add_response-Keeps status spec (responses, registry) e h =
        elim (Result-cases (
          if status_allows_body status
          then response_of ref media_type def failure_type failure_model registry
              (response_description status spec.description) spec
          else ok (
            record { description = response_description status spec.description; content = [] },
            registry,
          ))) [
            | inr (_, g) ↦ ground arith
            | inl ((response, grown), g) ↦
                let same : (insert text_eq (itoa status) response responses, grown) ≡ e =
                  ground arith in
                subst
                  (λ (e : List (Text × Response S) × R).
                    HasStatus e.0 status × ((n : ℕ) → HasStatus responses n → HasStatus e.0 n))
                  same
                  (
                    insert-has text_eq (itoa status) response responses
                        (text_eq_refl (itoa status)),
                    λ n x. insert-keeps text_eq (itoa status) (itoa n) response responses x,
                  )
          ]

    add_responses-Keeps :
        (specs : List (ℕ × ResponseSpec ReflectType)) (d e : List (Text × Response S) × R)
        → add_responses ref media_type def failure_type failure_model specs d ≡ ok e
        → All (λ (entry : ℕ × ResponseSpec ReflectType). HasStatus e.0 entry.0) specs × Keeps d e
    unfolding add_responses Keeps
    add_responses-Keeps [] d e h =
        let same : d ≡ e = ground arith in
        (tt, λ n x. subst (λ (e : List (Text × Response S) × R). HasStatus e.0 n) same x)
    add_responses-Keeps ((status, spec) ∷ specs) d e h =
        elim (Result-cases
          (add_response ref media_type def failure_type failure_model status spec d)) [
            | inr (_, g) ↦ ground arith
            | inl (f, g) ↦
                let (here, first) = add_response-Keeps status spec d f g in
                let (there, rest) = add_responses-Keeps specs f e (ground arith) in
                ((rest status here, there), λ n x. rest n (first n x))
          ]

    add_if-Keeps :
        (needed : Bool) (status : ℕ) (d e : List (Text × Response S) × R)
        → add_if ref media_type def failure_type failure_model needed status d ≡ ok e
        → (needed ≡ true → HasStatus e.0 status) × Keeps d e
    unfolding add_if Keeps
    add_if-Keeps true status d e h =
        let (here, keeps) = add_failure_response-Keeps failure_type failure_model status d e h in
        (λ _. here, keeps)
    add_if-Keeps false status d e h =
        let same : d ≡ e = ground arith in
        (λ n. cc, λ n x. subst (λ (e : List (Text × Response S) × R). HasStatus e.0 n) same x)

    -- The statuses of the failures that the framework answers with.
    pub record HasFailures (typed has_body : Bool) (ps : List Parameter)
        (responses : List (Text × Response S)) : Type 0 where
      pub bad : (typed || raw_path_has_validation ps) ≡ true → HasStatus responses 400
      pub large : typed ≡ true → has_body ≡ true → HasStatus responses 413
      pub media : typed ≡ true → has_body ≡ true → HasStatus responses 415
      pub unknown :
          (not (is_nil def.security_name) || not (is_nil def.feature)) ≡ true
          → HasStatus responses 401
      pub forbidden : is_nil def.feature ≡ false → HasStatus responses 403
      pub broken : HasStatus responses 500

    add_failures-HasFailures :
        (typed has_body : Bool) (ps : List Parameter) (d e : List (Text × Response S) × R)
        → add_failures ref media_type def failure_type failure_model typed has_body ps d ≡ ok e
        → HasFailures typed has_body ps e.0 × Keeps d e
    unfolding add_failures Keeps
    add_failures-HasFailures typed has_body ps d e h =
        let checked = typed || raw_path_has_validation ps in
        let (d₁, h₁, k₁) =
          >>=-eq-ok (add_if ref media_type def failure_type failure_model checked 400 d) _ h in
        let (d₂, h₂, k₂) =
          >>=-eq-ok
            (add_if ref media_type def failure_type failure_model (checked && has_body) 413 d₁) _
            k₁ in
        let (d₃, h₃, k₃) =
          >>=-eq-ok
            (add_if ref media_type def failure_type failure_model (checked && has_body) 415 d₂) _
            k₂ in
        let (d₄, h₄, k₄) =
          >>=-eq-ok
            (add_if ref media_type def failure_type failure_model
              (not (is_nil def.security_name) || not (is_nil def.feature)) 401 d₃)
            _ k₃ in
        let (d₅, h₅, h₆) =
          >>=-eq-ok
            (add_if ref media_type def failure_type failure_model (not (is_nil def.feature)) 403 d₄)
            _ k₄ in
        let (n₁, l₁) = add_if-Keeps _ 400 d d₁ h₁ in
        let (n₂, l₂) = add_if-Keeps _ 413 d₁ d₂ h₂ in
        let (n₃, l₃) = add_if-Keeps _ 415 d₂ d₃ h₃ in
        let (n₄, l₄) = add_if-Keeps _ 401 d₃ d₄ h₄ in
        let (n₅, l₅) = add_if-Keeps _ 403 d₄ d₅ h₅ in
        let (n₆, l₆) = add_if-Keeps true 500 d₅ e h₆ in
        (
          record {
            bad = λ c. l₆ 400 (l₅ 400 (l₄ 400 (l₃ 400 (l₂ 400 (n₁ c)))));
            large = λ t b. l₆ 413 (l₅ 413 (l₄ 413 (l₃ 413 (n₂ (ground arith)))));
            media = λ t b. l₆ 415 (l₅ 415 (l₄ 415 (n₃ (ground arith))));
            unknown = λ c. l₆ 401 (l₅ 401 (n₄ c));
            forbidden = λ c. l₆ 403 (n₅ (ground arith));
            broken = n₆ refl;
          },
          λ n x. l₆ n (l₅ n (l₄ n (l₃ n (l₂ n (l₁ n x))))),
        )

    -- The document of an operation has its declared responses, one of which is a success, and
    -- the failures of the framework: 400 if it is typed or a parameter has a constraint, 413 and 415 with a
    -- body, 401 if it is protected, 403 with a feature, and 500 always.
    pub compile_oas-HasFailures :
        (plan : Option Plan) (pattern : Pattern) (registry : Option R) (op : OasOperation S)
        (grown : R)
        → compile_oas ref media_type def failure_type failure_model plan pattern registry
          ≡ ok (op, grown)
        → All
            (λ (entry : ℕ × ResponseSpec ReflectType). HasStatus op.responses entry.0)
            def.responses
          × (any_success ref media_type def failure_type failure_model def.responses ≡ true)
          × HasFailures
              (is_some plan)
              (is_some (planned_body ref media_type def failure_type failure_model plan))
              pattern.parameters
              op.responses
    unfolding compile_oas Keeps
    compile_oas-HasFailures plan pattern none op grown h = cc
    compile_oas-HasFailures plan pattern (some registry) op grown h =
        let has_body = is_some (planned_body ref media_type def failure_type failure_model plan) in
        elim (Result-cases (
          add_responses ref media_type def failure_type failure_model def.responses
            ([], registry))) [
              | inr (_, g) ↦ ground arith
              | inl (declared, h₁) ↦
                  elim (Result-cases (
                    add_failures ref media_type def failure_type failure_model (is_some plan)
                      has_body pattern.parameters declared)) [
                        | inr (_, g) ↦ ground arith
                        | inl ((responses, r₁), h₂) ↦
                            elim (Result-cases (
                              operation_parameters ref media_type def failure_type failure_model
                                plan pattern.parameters r₁)) [
                                  | inr (_, g) ↦ ground arith
                                  | inl ((parameters, r₂), h₃) ↦
                                      elim (Result-cases (
                                        request_body ref media_type def failure_type failure_model
                                          (planned_body ref media_type def failure_type
                                            failure_model plan)
                                          r₂)) [
                                            | inr (_, g) ↦ ground arith
                                            | inl ((body, r₃), h₄) ↦
                                                let same : responses ≡ op.responses =
                                                  ground arith in
                                                let (all, _) =
                                                  add_responses-Keeps def.responses ([], registry)
                                                    declared h₁ in
                                                let (failures, keeps) =
                                                  add_failures-HasFailures (is_some plan) has_body
                                                    pattern.parameters declared (responses, r₁)
                                                    h₂ in
                                                (
                                                  subst
                                                      (λ rs.
                                                        All
                                                          (λ (entry : ℕ × ResponseSpec ReflectType).
                                                            HasStatus rs entry.0)
                                                          def.responses)
                                                      same
                                                      (All-map
                                                        (λ (entry : ℕ × ResponseSpec ReflectType).
                                                          HasStatus declared.0 entry.0)
                                                        (λ (entry : ℕ × ResponseSpec ReflectType).
                                                          HasStatus responses entry.0)
                                                        def.responses (λ entry. keeps entry.0) all),
                                                  ground arith,
                                                  subst
                                                      (λ rs.
                                                        HasFailures (is_some plan) has_body
                                                          pattern.parameters rs)
                                                      same failures,
                                                )
                                          ]
                                ]
                      ]
            ]
