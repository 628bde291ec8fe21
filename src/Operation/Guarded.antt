-- ===== src/Operation/Guarded.antt =====
-- internal/operation/runtime.go: nobody gets past the security of an operation.
use oashttp.Prelude.{
  true, false, ◌&&◌, ◌≡◌, refl, ◌⊎◌, inl, inr, Option, none, some, Bool-cases, [], is_nil, lookup,
  arith,
}
use oashttp.Prelude.Text.{Text, lit, text_eq}
use oashttp.Core.Carrier.{
  Principal, Heap, Context, with_principal, with_operation_info, principal_from_context,
}
use oashttp.Core.Carrier.Visible.{IsLive, with_principal-visible, with_operation_info-IsLive}
use oashttp.Route.{Pattern}
use oashttp.Http.Header.{header_get}
use oashttp.Http.Writer.{Writer, set_header}
use oashttp.Http.Request.{Request}
use oashttp.Failure.Types.{Codec}
use oashttp.HttpResult.Sent.{SameCalls}
use oashttp.Security.{
  Authenticator, SecurityFailure, SecurityProvider, accepted, authorize_principal,
  authenticate_provider, apply_provider_challenge, identify, unauthorized, not_configured,
}
use oashttp.Security.Entry.{
  Permits, authorize_principal_iff, authorize_principal-status, Enters, accepted_iff,
  authenticate_and_authorize-cases, IsRefusal,
}
use oashttp.Operation.Model.{Served, Handler, Definition, Options}
use oashttp.Operation.Runtime.{
  wrap, set_bearer_challenge, found, info_of, refuse, after_authorization, after_provider,
  after_bearer, secure, serve,
}

provider_challenge-SameCalls :
    (provider : Option SecurityProvider) (f : Option SecurityFailure) (w : Writer)
    → SameCalls w (apply_provider_challenge provider f w)
unfolding apply_provider_challenge set_header
provider_challenge-SameCalls provider f w = ground arith

bearer_challenge-SameCalls : (c : Text) (w : Writer) → SameCalls w (set_bearer_challenge c w)
unfolding set_bearer_challenge set_header
bearer_challenge-SameCalls c w = ground arith

module _ {T V : Type 0} (codec : Codec V) (opts : Options V) (def : Definition T V) where
  -- Who the request is from: a named provider says so, or a bearer token.
  abbrev pub IsKnown : Context → Heap → Request → Principal → Type 0
  IsKnown ctx h r who =
      ((p : SecurityProvider) × (found (lookup text_eq opts.security_providers def.security_name)
          ≡ some p)
        × (p.authenticate ctx h r ≡ (some who, false)))
      ⊎ ((is_nil def.security_name ≡ true)
          × Enters ctx h (header_get r.header (lit "Authorization")) def.feature def.permission
              opts.authenticator opts.authorizer who)

  -- The request goes on to the middlewares and the endpoint, as `who`.
  pub record Passes (inner : Handler → Handler) (ctx : Context) (r : Request) (s : Served)
      (run : Handler → Served) : Type 0 where
    pub who : Principal
    pub known : IsKnown ctx s.heap r who
    pub judged_in : Context
    pub judged_heap : Heap
    pub permitted : Permits judged_in judged_heap who def.feature def.permission opts.authorizer
    pub context : Context
    pub heap : Heap
    pub judged :
        ((judged_in ≡ ctx) × (judged_heap ≡ s.heap))
        ⊎ ((judged_in ≡ context) × (judged_heap ≡ heap))
    pub identity : principal_from_context context heap ≡ (some who, true)
    pub goes_on :
        (endpoint : Handler) → run endpoint ≡ inner endpoint context r (record s { heap = heap })

  -- There is nobody to ask: no provider of the name, or no name and no authenticator.
  abbrev pub IsUnconfigured : Type 0
  IsUnconfigured =
      ((is_nil def.security_name ≡ false)
        × (found (lookup text_eq opts.security_providers def.security_name) ≡ none))
      ⊎ ((is_nil def.security_name ≡ true) × (opts.authenticator ≡ none))

  -- The request is refused, and the endpoint has no part in it.
  pub record Stops (s : Served) (run : Handler → Served) : Type 0 where
    pub failure : SecurityFailure
    pub status :
        (failure.status ≡ 401)
        ⊎ ((failure.status ≡ 403) ⊎ ((failure.status ≡ 500) × IsUnconfigured))
    pub challenge : Writer → Writer
    pub quiet : (w : Writer) → SameCalls w (challenge w)
    pub heap : Heap
    pub ends :
        (endpoint : Handler)
        → run endpoint ≡ refuse codec opts challenge failure (record s { heap = heap })

  -- The two ends that a guarded run may have.
  abbrev pub Guards : (Handler → Handler) → Context → Request → Served → (Handler → Served) → Type 0
  Guards inner ctx r s run = Passes inner ctx r s run ⊎ Stops s run

  pub featured :
      is_nil def.security_name ≡ true
      → is_nil def.security_name && is_nil def.feature ≡ false
      → is_nil def.feature ≡ false
  featured unnamed protected = ground arith

  module _ (inner : Handler → Handler) (ctx : Context) (r : Request) (s : Served)
      (live : IsLive s.heap ctx) where
    judged-Guards :
        (p : SecurityProvider) (who : Principal) (c : Context) (g : Heap)
        → IsKnown ctx s.heap r who
        → principal_from_context c g ≡ (some who, true)
        → (o : Option SecurityFailure)
        → authorize_principal c g (some who) def.feature def.permission opts.authorizer ≡ o
        → Guards inner ctx r s (λ endpoint.
          after_authorization codec opts (some p) (inner endpoint) c r o (record s { heap = g }))
    unfolding after_authorization
    judged-Guards p who c g known identity none e = inl (record {
      who = who;
      known = known;
      judged_in = c;
      judged_heap = g;
      permitted = (authorize_principal_iff c g who def.feature def.permission opts.authorizer).0 e;
      context = c;
      heap = g;
      judged = inr (refl, refl);
      identity = identity;
      goes_on = λ endpoint. refl;
    })
    judged-Guards p who c g known identity (some f) e =
        let (status, _) =
          authorize_principal-status c g who def.feature def.permission opts.authorizer f e in
        inr (record {
          failure = f;
          status = inr (inl status);
          challenge = apply_provider_challenge (some p) (some f);
          quiet = provider_challenge-SameCalls (some p) (some f);
          heap = g;
          ends = λ endpoint. refl;
        })

    named-Guards :
        (p : SecurityProvider)
        → found (lookup text_eq opts.security_providers def.security_name) ≡ some p
        → (o : Option Principal) → accepted (p.authenticate ctx s.heap r) ≡ o
        → Guards inner ctx r s (λ endpoint.
          after_provider codec opts def (some p) (inner endpoint) r (identify ctx s.heap o) s)
    unfolding after_provider identify
    named-Guards p e none nobody = inr (record {
      failure = unauthorized (lit "Authentication failed") [];
      status = inl refl;
      challenge =
          apply_provider_challenge (some p) (some (unauthorized (lit "Authentication failed") []));
      quiet = provider_challenge-SameCalls (some p) _;
      heap = s.heap;
      ends = λ endpoint. refl;
    })
    named-Guards p e (some who) known =
        let (c, g) = with_principal ctx (some who) s.heap in
        judged-Guards p who c g (inl (p, e, accepted_iff (p.authenticate ctx s.heap r) who known))
          (with_principal-visible ctx s.heap who live) _ refl

    provider-Guards :
        (provider : Option SecurityProvider)
        → found (lookup text_eq opts.security_providers def.security_name) ≡ provider
        → is_nil def.security_name ≡ false
        → Guards inner ctx r s (λ endpoint.
          after_provider codec opts def provider
            (inner endpoint)
            r
            (authenticate_provider ctx s.heap r provider)
            s)
    unfolding after_provider authenticate_provider
    provider-Guards none e named = inr (record {
      failure = not_configured (lit "Security provider is not configured");
      status = inr (inr (refl, inl (named, e)));
      challenge =
          apply_provider_challenge none
            (some (not_configured (lit "Security provider is not configured")));
      quiet = provider_challenge-SameCalls none _;
      heap = s.heap;
      ends = λ endpoint. refl;
    })
    provider-Guards (some p) e named =
        named-Guards p e (accepted (p.authenticate ctx s.heap r)) refl

    refusal-status :
        (authenticator : Option Authenticator) (f : SecurityFailure)
        → opts.authenticator ≡ authenticator
        → IsRefusal authenticator f
        → is_nil def.security_name ≡ true
        → (f.status ≡ 401) ⊎ ((f.status ≡ 403) ⊎ ((f.status ≡ 500) × IsUnconfigured))
    refusal-status none f e (status, _) unnamed = inr (inr (status, inr (unnamed, e)))
    refusal-status (some a) f e (inl status, _) unnamed = inl status
    refusal-status (some a) f e (inr status, _) unnamed = inr (inl status)

    -- `result` is what `AuthenticateAndAuthorize` gives.
    bearer-Guards :
        (result : (Context × Heap) × Option SecurityFailure)
        → ((who : Principal) × Enters ctx s.heap
              (header_get r.header (lit "Authorization"))
              def.feature
              def.permission
              opts.authenticator
              opts.authorizer
              who
            × (result ≡ (with_principal ctx (some who) s.heap, none)))
          ⊎ ((f : SecurityFailure) × IsRefusal opts.authenticator f
              × (result ≡ ((ctx, s.heap), some f)))
        → is_nil def.security_name ≡ true
        → Guards inner ctx r s (λ endpoint. after_bearer codec opts (inner endpoint) r result s)
    unfolding after_bearer
    bearer-Guards result (inl (who, known, e)) unnamed =
        let (c, g) = with_principal ctx (some who) s.heap in
        inl (record {
          who = who;
          known = inr (unnamed, known);
          judged_in = ctx;
          judged_heap = s.heap;
          permitted = known.permitted;
          context = c;
          heap = g;
          judged = inl (refl, refl);
          identity = with_principal-visible ctx s.heap who live;
          goes_on = λ endpoint. rw e refl;
        })
    bearer-Guards result (inr (f, refusal, e)) unnamed = inr (record {
      failure = f;
      status = refusal-status opts.authenticator f refl refusal unnamed;
      challenge = set_bearer_challenge f.challenge;
      quiet = bearer_challenge-SameCalls f.challenge;
      heap = s.heap;
      ends = λ endpoint. rw e refl;
    })

    secure-Guards :
        is_nil def.security_name && is_nil def.feature ≡ false
        → Guards inner ctx r s (λ endpoint. secure codec opts def (inner endpoint) ctx r s)
    unfolding secure
    secure-Guards protected = elim (Bool-cases (is_nil def.security_name)) [
      | inr named ↦ rw (named, secure) (provider-Guards _ refl named)
      | inl unnamed ↦
          rw (unnamed, featured unnamed protected, secure)
            (bearer-Guards _
              (authenticate_and_authorize-cases ctx s.heap _ def.feature def.permission
                opts.authorizer opts.authenticator)
              unnamed)
    ]

  -- What `serve` hands to the security check: the context with the operation recorded.
  abbrev pub routed : Pattern → Context → Served → Context × Heap
  routed pattern ctx s = with_operation_info ctx (info_of def pattern) s.heap

  -- For an operation with a security name or a feature, the request either goes on to the
  -- middlewares and the endpoint, as a principal whom the provider or the authenticator vouches
  -- for, whom the policy permits and who is in the context; or it is refused as 401 or 403, or as
  -- 500 where there is no provider or authenticator to ask, and then neither the middlewares nor
  -- the endpoint run.
  pub serve-Guards :
      (pattern : Pattern) (ctx : Context) (r : Request) (s : Served)
      → IsLive s.heap ctx
      → is_nil def.security_name && is_nil def.feature ≡ false
      → Guards
          (wrap def.middlewares)
          (routed pattern ctx s).0
          r
          (record s { heap = (routed pattern ctx s).1 })
          (λ endpoint. serve codec opts def pattern endpoint ctx r s)
  unfolding serve
  serve-Guards pattern ctx r s live protected =
      secure-Guards (wrap def.middlewares) (routed pattern ctx s).0 r
        (record s { heap = (routed pattern ctx s).1 })
        (with_operation_info-IsLive ctx s.heap (info_of def pattern) live) protected
