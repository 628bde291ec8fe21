-- ===== src/Operation/Sealed.antt =====
-- internal/operation/compile.go and runtime.go: a protected operation that compiles has somebody to
-- ask, and its handler lets nobody pass.
use mathlib.Core.Bool.{false≢true}
use oashttp.Prelude.{
  Bool, true, false, not, ◌&&◌, ◌≡◌, refl, sym, ap, ◌∙◌, ◌⊎◌, inl, inr, Option, is_some, ok, is_nil,
  lookup,
}
use oashttp.Prelude.Text.{Text, text_eq}
use oashttp.Core.Carrier.{Context}
use oashttp.Core.Carrier.Visible.{IsLive}
use oashttp.Route.{Pattern}
use oashttp.Route.Constraint.{ConstraintKind}
use oashttp.Http.Request.{Request}
use oashttp.Failure.Types.{Body, Codec}
use oashttp.Operation.Model.{Served, Handler, Definition, Options}
use oashttp.Operation.Runtime.{wrap, found, serve}
use oashttp.Operation.Compile.{Compiled, Plans, compile}
use oashttp.Operation.Sound.{IsConfigured, compile-IsCompiled}
use oashttp.Operation.Guarded.{Passes, Stops, IsUnconfigured, routed, featured, serve-Guards}

unprotected_not : (b : Bool) → not b ≡ true → b ≡ false
unprotected_not true e = cc
unprotected_not false e = refl

-- The same are asked who sends a request, and whether that is permitted.
pub record Asks {V : Type 0} (opts full : Options V) : Type 0 where
  pub providers : full.security_providers ≡ opts.security_providers
  pub authenticator : full.authenticator ≡ opts.authenticator
  pub authorizer : full.authorizer ≡ opts.authorizer

module _ {T V : Type 0} (codec : Codec V) (def : Definition T V) (opts : Options V) where
  configured-asks :
      (full : Options V)
      → IsConfigured codec def opts
      → full.security_providers ≡ opts.security_providers
      → full.authenticator ≡ opts.authenticator
      → is_nil def.security_name && is_nil def.feature ≡ false
      → ¬ IsUnconfigured codec full def
  configured-asks full good providers authenticator protected (inl (named, nobody)) = false≢true (
      sym (ap is_some nobody)
      ∙ ap (λ ps. is_some (found (lookup text_eq ps def.security_name))) providers
      ∙ good.provided named)
  configured-asks full good providers authenticator protected (inr (unnamed, nobody)) = false≢true (
      sym (ap is_some nobody)
      ∙ ap is_some authenticator
      ∙ good.judged unnamed (featured codec full def unnamed protected))

  -- A protected operation that compiles: its handler asks the providers, the authenticator and the
  -- authorizer that are configured, lets a request through to the middlewares and
  -- the endpoint only as a principal who is vouched for and permitted, and refuses any other with 401
  -- or 403; it never fails for want of a provider or an authenticator.
  pub compiled-Guards :
      {D : Type 0} (satisfies : ConstraintKind → Text → Bool)
      (plans : Definition T V → Pattern → Option (Plans codec))
      (document : Definition T V → Pattern → Text → Option (Body V) → Option D) (c : Compiled D)
      (ctx : Context) (r : Request) (s : Served)
      → compile codec satisfies plans document def opts ≡ ok c
      → c.protected ≡ true
      → IsLive s.heap ctx
      → (full : Options V) × (endpoint : Handler) × Asks opts full
        × (c.handler ≡ serve codec full def c.pattern endpoint)
        × (Passes codec full def
              (wrap def.middlewares)
              (routed codec full def c.pattern ctx s).0
              r
              (record s { heap = (routed codec full def c.pattern ctx s).1 })
              (λ e. serve codec full def c.pattern e ctx r s)
            ⊎ ((stop : Stops codec full def
                  (record s { heap = (routed codec full def c.pattern ctx s).1 })
                  (λ e. serve codec full def c.pattern e ctx r s))
                × ((stop.failure.status ≡ 401) ⊎ (stop.failure.status ≡ 403))))
  compiled-Guards satisfies plans document c ctx r s compiles is_protected live =
      let k = compile-IsCompiled codec def opts satisfies plans document c compiles in
      let protected = unprotected_not _ (sym k.protected ∙ is_protected) in
      (
        k.full,
        k.endpoint k.full,
        record {
          providers = k.providers;
          authenticator = k.authenticator;
          authorizer = k.authorizer;
        },
        k.handler,
        elim (serve-Guards codec k.full def c.pattern ctx r s live protected) [
          | inl passes ↦ inl passes
          | inr stop ↦ inr (
            stop,
            elim stop.status [
              | inl e ↦ inl e
              | inr (inl e) ↦ inr e
              | inr (inr (_, nobody)) ↦
                  absurd (
                    configured-asks k.full k.configured k.providers k.authenticator protected
                      nobody)
            ],
          )
        ],
      )
