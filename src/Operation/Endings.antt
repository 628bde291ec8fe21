-- ===== src/Operation/Endings.antt =====
-- internal/operation/runtime.go: a handler ends in code of the application, or in a failure of the
-- framework.
use mathlib.Core.Path.{subst}
use oashttp.Prelude.{
  Bool-cases, Option, Option-cases, ap, arith, false, inl, inr, is_nil, lookup, none, not, refl,
  some, sym, true, ℕ, ◌||◌, ◌∙◌, ◌≡◌, ◌⊎◌,
}
use oashttp.Prelude.Text.{Text, lit, text_eq}
use oashttp.Core.Carrier.{Context, Heap, Principal, with_operation_info}
use oashttp.Security.{
  Authenticator, SecurityFailure, SecurityProvider, accepted, apply_provider_challenge,
  authenticate_and_authorize, authenticate_provider, authorize_by, authorize_principal, identify,
}
use oashttp.Security.Entry.{IsRefusal, authenticate_and_authorize-cases, authorize_principal-status}
use oashttp.Route.{Pattern}
use oashttp.Http.Header.{header_get}
use oashttp.Http.Writer.{Writer}
use oashttp.Http.Request.{Request}
use oashttp.Failure.Types.{Codec, Failure}
use oashttp.Operation.Model.{Definition, Handler, Options, Served}
use oashttp.Operation.Runtime.{
  after_authorization, after_bearer, after_provider, fail_with, failure_of_security, found, info_of,
  refuse, secure, serve, set_bearer_challenge, wrap,
}

module _ {V : Type 0} (codec : Codec V) (opts : Options V) (P : ℕ → Type 0) where
  -- The result is that of `run`, or a failure whose status P allows.
  abbrev pub EndsIn : (Context → Served → Served) → Served → Type 0
  EndsIn run result =
      ((ctx : Context) × (s : Served) × (result ≡ run ctx s))
      ⊎ ((item : Failure) × (s : Served) × P item.status × (result ≡ fail_with codec opts item s))

  refuse-EndsIn :
      (run : Context → Served → Served) (challenge : Writer → Writer) (f : SecurityFailure)
      (s : Served)
      → P f.status
      → EndsIn run (refuse codec opts challenge f s)
  unfolding refuse failure_of_security
  refuse-EndsIn run challenge f s p = inr (failure_of_security f, _, p, refl)

  module _ {T : Type 0} (def : Definition T V) (endpoint : Handler) (r : Request) where
    abbrev goes_on : Context → Served → Served
    goes_on ctx s = endpoint ctx r s

    after_authorization-EndsIn :
        (provider : Option SecurityProvider) (ctx : Context) (judged : Option SecurityFailure)
        (s : Served)
        → ((f : SecurityFailure) → judged ≡ some f → P f.status)
        → EndsIn goes_on (after_authorization codec opts provider endpoint ctx r judged s)
    unfolding after_authorization
    after_authorization-EndsIn provider ctx none s p = inl (ctx, s, refl)
    after_authorization-EndsIn provider ctx (some f) s p =
        refuse-EndsIn goes_on (apply_provider_challenge provider (some f)) f s (p f refl)

    authorize_principal-statuses :
        (ctx : Context) (h : Heap) (who : Option Principal) (f : SecurityFailure)
        → is_nil def.feature ≡ is_nil def.permission
        → authorize_principal ctx h who def.feature def.permission opts.authorizer ≡ some f
        → ((f.status ≡ 401) ⊎ (f.status ≡ 403)) × (is_nil def.feature ≡ false)
    unfolding authorize_principal authorize_by
    authorize_principal-statuses ctx h none f paired e = (ground arith, ground arith)
    authorize_principal-statuses ctx h (some p) f paired e = (
      inr (authorize_principal-status ctx h p def.feature def.permission opts.authorizer f e).0,
      ground arith,
    )

    module _ (paired : is_nil def.feature ≡ is_nil def.permission) (broken : P 500)
        (unknown : (not (is_nil def.security_name) || not (is_nil def.feature)) ≡ true → P 401)
        (forbidden : is_nil def.feature ≡ false → P 403) where
      after_provider-EndsIn :
          (provider : Option SecurityProvider)
          (a : (Context × Heap) × Option Principal × Option SecurityFailure) (s : Served)
          → ((f : SecurityFailure) → a.2 ≡ some f → P f.status)
          → EndsIn goes_on (after_provider codec opts def provider endpoint r a s)
      unfolding after_provider
      after_provider-EndsIn provider ((ctx, h), who, some f) s p =
          refuse-EndsIn goes_on (apply_provider_challenge provider (some f)) f
            (record s { heap = h }) (p f refl)
      after_provider-EndsIn provider ((ctx, h), who, none) s p =
          after_authorization-EndsIn provider ctx _ _ λ f e.
            let (status, featured) = authorize_principal-statuses ctx h who f paired e in
            elim status [
              | inl is ↦ subst P (sym is) (unknown (ground arith))
              | inr is ↦ subst P (sym is) (forbidden featured)
            ]

      authenticate_provider-statuses :
          (ctx : Context) (h : Heap) (provider : Option SecurityProvider) (f : SecurityFailure)
          → (authenticate_provider ctx h r provider).2 ≡ some f
          → (f.status ≡ 500) ⊎ (f.status ≡ 401)
      unfolding authenticate_provider identify
      authenticate_provider-statuses ctx h none f e = ground arith
      authenticate_provider-statuses ctx h (some provider) f e =
          elim (Option-cases (accepted (provider.authenticate ctx h r))) [
            | inl g ↦ ground arith
            | inr (who, g) ↦ ground arith
          ]

      after_bearer-EndsIn :
          (b : (Context × Heap) × Option SecurityFailure) (s : Served)
          → ((f : SecurityFailure) → b.1 ≡ some f → P f.status)
          → EndsIn goes_on (after_bearer codec opts endpoint r b s)
      unfolding after_bearer
      after_bearer-EndsIn ((ctx, h), none) s p = inl (ctx, record s { heap = h }, refl)
      after_bearer-EndsIn ((ctx, h), some f) s p =
          refuse-EndsIn goes_on (set_bearer_challenge f.challenge) f (record s { heap = h })
            (p f refl)

      IsRefusal-statuses :
          (authenticator : Option Authenticator) (f : SecurityFailure)
          → IsRefusal authenticator f
          → (f.status ≡ 500) ⊎ ((f.status ≡ 401) ⊎ (f.status ≡ 403))
      IsRefusal-statuses none f refusal = inl refusal.0
      IsRefusal-statuses (some a) f refusal = inr refusal.0

      bearer-statuses :
          (ctx : Context) (h : Heap) (header : Text) (f : SecurityFailure)
          → (authenticate_and_authorize ctx h header def.feature def.permission opts.authenticator
              opts.authorizer).1
            ≡ some f
          → (f.status ≡ 500) ⊎ ((f.status ≡ 401) ⊎ (f.status ≡ 403))
      bearer-statuses ctx h header f e =
          elim (authenticate_and_authorize-cases ctx h header def.feature def.permission
            opts.authorizer opts.authenticator) [
              | inl (who, enters, is) ↦
                  let nothing : none ≡ some f = ap (λ a. a.1) (sym is) ∙ e in ground arith
              | inr (g, refusal, is) ↦
                  let same : g ≡ f = ground arith in
                  IsRefusal-statuses opts.authenticator f
                    (subst (IsRefusal opts.authenticator) same refusal)
            ]

      named-EndsIn :
          (provider : Option SecurityProvider) (ctx : Context) (s : Served)
          → is_nil def.security_name ≡ false
          → EndsIn goes_on (
              after_provider codec opts def provider endpoint r
                (authenticate_provider ctx s.heap r provider)
                s)
      named-EndsIn provider ctx s named =
          let protected : (not (is_nil def.security_name) || not (is_nil def.feature)) ≡ true =
            ground arith in
          after_provider-EndsIn provider (authenticate_provider ctx s.heap r provider) s λ f e.
            elim (authenticate_provider-statuses ctx s.heap provider f e) [
              | inl is ↦ subst P (sym is) broken
              | inr is ↦ subst P (sym is) (unknown protected)
            ]

      bearer-EndsIn :
          (header : Text) (ctx : Context) (s : Served)
          → is_nil def.feature ≡ false
          → EndsIn goes_on (
              after_bearer codec opts endpoint r
                (authenticate_and_authorize ctx s.heap header def.feature def.permission
                  opts.authenticator opts.authorizer)
                s)
      bearer-EndsIn header ctx s featured =
          let protected : (not (is_nil def.security_name) || not (is_nil def.feature)) ≡ true =
            ground arith in
          after_bearer-EndsIn
            (authenticate_and_authorize ctx s.heap header def.feature def.permission
              opts.authenticator opts.authorizer)
            s
            λ f e. elim (bearer-statuses ctx s.heap header f e) [
              | inl is ↦ subst P (sym is) broken
              | inr (inl is) ↦ subst P (sym is) (unknown protected)
              | inr (inr is) ↦ subst P (sym is) (forbidden featured)
            ]

      pub secure-EndsIn :
          (ctx : Context) (s : Served) → EndsIn goes_on (secure codec opts def endpoint ctx r s)
      unfolding secure
      secure-EndsIn ctx s = elim (Bool-cases (is_nil def.security_name)) [
        | inr named ↦
            rw (named, secure)
              (named-EndsIn (found (lookup text_eq opts.security_providers def.security_name)) ctx s
                named)
        | inl unnamed ↦ elim (Bool-cases (is_nil def.feature)) [
          | inl free ↦ rw (unnamed, free, secure) (inl (ctx, s, refl))
          | inr featured ↦
              rw (unnamed, featured, secure)
                (bearer-EndsIn (header_get r.header (lit "Authorization")) ctx s featured)
        ]
      ]

  module _ {T : Type 0} (def : Definition T V) (pattern : Pattern) (endpoint : Handler)
      (paired : is_nil def.feature ≡ is_nil def.permission) (broken : P 500)
      (unknown : (not (is_nil def.security_name) || not (is_nil def.feature)) ≡ true → P 401)
      (forbidden : is_nil def.feature ≡ false → P 403) where
    -- A handler of the runtime goes on to the middlewares, or refuses the request.
    pub serve-EndsIn :
        (ctx : Context) (r : Request) (s : Served)
        → EndsIn
            (λ inner t. wrap def.middlewares endpoint inner r t)
            (serve codec opts def pattern endpoint ctx r s)
    unfolding serve
    serve-EndsIn ctx r s =
        secure-EndsIn def (wrap def.middlewares endpoint) r paired broken unknown forbidden
          (with_operation_info ctx (info_of def pattern) s.heap).0
          (record s { heap = (with_operation_info ctx (info_of def pattern) s.heap).1 })
