-- ===== src/Operation/Sound.antt =====
-- internal/operation/validate.go and compile.go: what a compiled operation can rely on.
use mathlib.Core.Path.{subst}
use oashttp.Prelude.{
  some, ℕ, ◌≤◌, Bool, true, false, not, ◌&&◌, ◌≡◌, Option, List, [], ◌∷◌, ok, Result-cases, inl,
  inr, is_nil, is_some, lookup, All, arith,
}
use oashttp.Prelude.Text.{Text, lit, text_eq, trim_space}
use oashttp.Route.{Pattern, parse}
use oashttp.Route.Constraint.{ConstraintKind}
use oashttp.Failure.Types.{Body, Codec}
use oashttp.Operation.Model.{Handler, ResponseSpec, Definition, Options}
use oashttp.Operation.Runtime.{found, serve}
use oashttp.Operation.Compile.{
  CompileError, Compiled, check_response, check_responses, validate_definition, Plans, parse_route,
  effective_security_name, compile, with_formatter, endpoint_of, or_error, no_document,
}

module _ {T V : Type 0} (codec : Codec V) (def : Definition T V) (opts : Options V) where
  -- What `validateDefinition` makes sure of.
  pub record IsConfigured : Type 0 where
    pub identified : is_nil (trim_space def.operation_id) ≡ false
    pub paired : is_nil def.feature ≡ is_nil def.permission
    pub provided :
        is_nil def.security_name ≡ false
        → is_some (found (lookup text_eq opts.security_providers def.security_name)) ≡ true
    pub judged :
        is_nil def.security_name ≡ true
        → is_nil def.feature ≡ false
        → is_some opts.authenticator ≡ true
    pub responses :
        All
          (λ (entry : ℕ × ResponseSpec T).
            (100 ≤ entry.0) × (entry.0 ≤ 599) × (is_some def.raw_handler ≡ false → 200 ≤ entry.0))
          def.responses

  check_response-status :
      (status : ℕ) (spec : ResponseSpec T)
      → check_response codec (is_some def.raw_handler) status spec ≡ ok tt
      → (100 ≤ status) × (status ≤ 599) × (is_some def.raw_handler ≡ false → 200 ≤ status)
  unfolding check_response
  check_response-status status spec e = (ground arith, ground arith, λ r. ground arith)

  check_responses-statuses :
      (responses : List (ℕ × ResponseSpec T))
      → check_responses codec (is_some def.raw_handler) responses ≡ ok tt
      → All
          (λ (entry : ℕ × ResponseSpec T).
            (100 ≤ entry.0) × (entry.0 ≤ 599) × (is_some def.raw_handler ≡ false → 200 ≤ entry.0))
          responses
  unfolding check_responses
  check_responses-statuses [] e = tt
  check_responses-statuses ((status, spec) ∷ responses) e = (
    check_response-status status spec (ground arith),
    check_responses-statuses responses (ground arith),
  )

  validate_definition-IsConfigured : validate_definition codec def opts ≡ ok tt → IsConfigured
  unfolding validate_definition
  validate_definition-IsConfigured e = record {
    identified = ground arith;
    paired = ground arith;
    provided = λ h. ground arith;
    judged = λ h g. ground arith;
    responses = check_responses-statuses def.responses (ground arith);
  }

  -- What compiling took of the operation.
  pub record IsCompiled {D : Type 0} (satisfies : ConstraintKind → Text → Bool)
      (plans : Definition T V → Pattern → Option (Plans codec))
      (document : Definition T V → Pattern → Text → Option (Body V) → Option D) (c : Compiled D)
      : Type 0 where
    pub configured : IsConfigured
    pub route : parse def.full_route ≡ ok c.pattern
    pub protected : c.protected ≡ not (is_nil def.security_name && is_nil def.feature)
    pub full : Options V
    pub providers : full.security_providers ≡ opts.security_providers
    pub authenticator : full.authenticator ≡ opts.authenticator
    pub authorizer : full.authorizer ≡ opts.authorizer
    pub validator : full.validator ≡ opts.validator
    pub documented :
        document def c.pattern full.failure_content_type full.failure_model ≡ some c.operation
    pub endpoint : Options V → Handler
    pub compiled : endpoint_of codec satisfies plans def c.pattern ≡ ok endpoint
    pub handler : c.handler ≡ serve codec full def c.pattern (endpoint full)

  parse_route-ok :
      (pattern : Pattern) → parse_route def ≡ ok pattern → parse def.full_route ≡ ok pattern
  unfolding parse_route
  parse_route-ok pattern e = ground arith

  effective_security_name-is_nil :
      is_nil (effective_security_name def) ≡ (is_nil def.security_name && is_nil def.feature)
  unfolding effective_security_name lit
  effective_security_name-is_nil = ground arith

  or_error-ok :
      {A : Type 0} (e : CompileError) (o : Option A) (a : A) → or_error e o ≡ ok a → o ≡ some a
  unfolding or_error
  or_error-ok e o a h = ground arith

  with_formatter-security :
      (full : Options V)
      → with_formatter codec opts ≡ ok full
      → (full.security_providers ≡ opts.security_providers)
        × (full.authenticator ≡ opts.authenticator)
        × (full.authorizer ≡ opts.authorizer)
        × (full.validator ≡ opts.validator)
  unfolding with_formatter
  with_formatter-security full e = (ground arith, ground arith, ground arith, ground arith)

  -- An operation that Compile accepts has an operation ID, a feature if and only if it has a
  -- permission, a security provider or an authenticator if it needs one, and responses from 100 to
  -- 599, from 200 if it is typed; its route parses to the pattern; it counts as protected exactly if
  -- it has a security name or a feature; and its handler is that of the runtime, with the same
  -- providers, authenticator, authorizer and validator; and its operation is the document that was made of the definition and the pattern.
  pub compile-IsCompiled :
      {D : Type 0} (satisfies : ConstraintKind → Text → Bool)
      (plans : Definition T V → Pattern → Option (Plans codec))
      (document : Definition T V → Pattern → Text → Option (Body V) → Option D) (c : Compiled D)
      → compile codec satisfies plans document def opts ≡ ok c
      → IsCompiled satisfies plans document c
  unfolding compile
  compile-IsCompiled {D} satisfies plans document c e =
      elim (Result-cases (validate_definition codec def opts)) [
        | inr (_, h₁) ↦ ground arith
        | inl (_, h₁) ↦ elim (Result-cases (parse_route def)) [
          | inr (_, h₂) ↦ ground arith
          | inl (pattern, h₂) ↦
              elim (Result-cases (endpoint_of codec satisfies plans def pattern)) [
                | inr (_, h₃) ↦ ground arith
                | inl (endpoint, h₃) ↦ elim (Result-cases (with_formatter codec opts)) [
                  | inr (_, h₄) ↦ ground arith
                  | inl (full, h₄) ↦
                      elim (Result-cases (
                        or_error no_document
                          (document def pattern full.failure_content_type full.failure_model))) [
                            | inr (_, h₅) ↦ ground arith
                            | inl (operation, h₅) ↦ record {
                              configured = validate_definition-IsConfigured h₁;
                              route = ground (arith, parse_route-ok pattern h₂);
                              protected = ground (arith, effective_security_name-is_nil);
                              full = full;
                              providers = (with_formatter-security full h₄).0;
                              authenticator = (with_formatter-security full h₄).1;
                              authorizer = (with_formatter-security full h₄).2;
                              validator = (with_formatter-security full h₄).3;
                              documented =
                                  subst
                                    (λ (x : Pattern × D).
                                      document def x.0 full.failure_content_type full.failure_model
                                      ≡ some x.1)
                                    (let built : (pattern, operation) ≡ (c.pattern, c.operation) =
                                        ground arith in
                                      built)
                                    (or_error-ok no_document _ operation h₅);
                              endpoint = endpoint;
                              compiled = ground arith;
                              handler = ground arith;
                            }
                          ]
                ]
              ]
        ]
      ]
