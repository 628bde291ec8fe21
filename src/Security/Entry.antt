-- ===== src/Security/Entry.antt =====
-- internal/security/middleware.go: who may enter, and what is refused.
use mathlib.Core.Path.{subst}
use oashttp.Prelude.{
  true, false, not, ◌≡◌, refl, ◌↔◌, ◌⊎◌, inl, inr, Option, none, some, Option-cases, List, [], ◌∷◌,
  arith, is_nil, Bool-cases, ◌||◌,
}
use oashttp.Prelude.Text.{Text, lit, has_prefix, fields, equal_fold}
use oashttp.Core.Carrier.{Principal, Heap, Context, with_principal}
use oashttp.Security.{
  SecurityFailure, Authentication, Authenticator, Authorizer, accepted, member, authorize_principal,
  authorize_accepted, token, refused, Credential, credential, authenticate_credential,
  authenticate_and_authorize,
}

-- The policy of an operation: no demand, or the authorizer's consent, or without an authorizer the
-- feature and the permission among the principal's own.
abbrev pub Permits : Context → Heap → Principal → Text → Text → Option Authorizer → Type 0
Permits ctx h p feature permission (some authorizer) =
    ((feature ≡ []) × (permission ≡ [])) ⊎ (authorizer ctx h p feature permission ≡ false)
Permits ctx h p feature permission none =
    ((feature ≡ []) × (permission ≡ []))
    ⊎ ((member feature p.features ≡ true) × (member permission p.permissions ≡ true))

pub authorize_principal_iff :
    (ctx : Context) (h : Heap) (p : Principal) (feature permission : Text)
    (authorizer : Option Authorizer)
    → (authorize_principal ctx h (some p) feature permission authorizer ≡ none)
      ↔ Permits ctx h p feature permission authorizer
unfolding authorize_principal
authorize_principal_iff ctx h p [] [] none = (λ _. inl (refl, refl), λ _. refl)
authorize_principal_iff ctx h p [] [] (some a) = (λ _. inl (refl, refl), λ _. refl)
authorize_principal_iff ctx h p [] (c ∷ s) none = ground arith
authorize_principal_iff ctx h p [] (c ∷ s) (some a) = ground arith
authorize_principal_iff ctx h p (c ∷ s) permission none = ground arith
authorize_principal_iff ctx h p (c ∷ s) permission (some a) = ground arith

-- A failure of authorization.
pub authorize_principal-status :
    (ctx : Context) (h : Heap) (p : Principal) (feature permission : Text)
    (authorizer : Option Authorizer) (f : SecurityFailure)
    → authorize_principal ctx h (some p) feature permission authorizer ≡ some f
    → (f.status ≡ 403) × (f.challenge ≡ lit "Bearer error=\"insufficient_scope\"")
unfolding authorize_principal
authorize_principal-status ctx h p feature permission none f e = ground arith
authorize_principal-status ctx h p feature permission (some a) f e = ground arith

-- What opens the door: a bearer token that the authenticator takes for a principal whom the policy
-- permits.
pub record Enters (ctx : Context) (h : Heap) (header feature permission : Text)
    (authenticator : Option Authenticator) (authorizer : Option Authorizer) (who : Principal)
    : Type 0 where
  pub judge : Authenticator
  pub configured : authenticator ≡ some judge
  pub scheme : Text
  pub token : Text
  pub parts : fields header ≡ scheme ∷ token ∷ []
  pub bearer : equal_fold scheme (lit "Bearer") ≡ true
  pub not_empty : is_nil token ≡ false
  pub known : judge ctx h token ≡ (some who, false)
  pub permitted : Permits ctx h who feature permission authorizer

-- How a request is refused.
abbrev pub IsRefusal : Option Authenticator → SecurityFailure → Type 0
IsRefusal none f = (f.status ≡ 500) × (f.challenge ≡ [])
IsRefusal (some a) f =
    ((f.status ≡ 401) ⊎ (f.status ≡ 403)) × (has_prefix f.challenge (lit "Bearer") ≡ true)

pub accepted_iff :
    (a : Authentication) (p : Principal) → (accepted a ≡ some p) → (a ≡ (some p, false))
unfolding accepted
accepted_iff (o, true) p e = cc
accepted_iff (o, false) p e = cc

module _ (ctx : Context) (h : Heap) (header feature permission : Text)
    (authorizer : Option Authorizer) where
  -- What the two functions may give.
  abbrev Verdict :
      (Principal → Type 0)
      → (SecurityFailure → Type 0)
      → (Context × Heap) × Option SecurityFailure
      → Type 0
  Verdict In Out result =
      ((who : Principal) × (In who) × (result ≡ (with_principal ctx (some who) h, none)))
      ⊎ ((f : SecurityFailure) × (Out f) × (result ≡ ((ctx, h), some f)))

  credential-token :
      (parts : List Text) (t : Text)
      → credential parts ≡ token t
      → (scheme : Text) × (parts ≡ scheme ∷ t ∷ [])
        × (equal_fold scheme (lit "Bearer") ≡ true)
        × (is_nil t ≡ false)
  unfolding credential
  credential-token [] t e = cc
  credential-token (s ∷ []) t e = cc
  credential-token (s ∷ u ∷ []) t e = (s, ground arith, ground arith, ground arith)
  credential-token (s ∷ u ∷ _ ∷ _) t e = cc

  -- A refusal for want of a token.
  abbrev IsUnnamed : Credential → Type 0
  IsUnnamed (token t) = Unit
  IsUnnamed (refused f) = (f.status ≡ 401) × (has_prefix f.challenge (lit "Bearer") ≡ true)

  credential-IsUnnamed : (parts : List Text) → IsUnnamed (credential parts)
  unfolding credential has_prefix lit
  credential-IsUnnamed [] = (refl, refl)
  credential-IsUnnamed (s ∷ []) = (refl, refl)
  credential-IsUnnamed (s ∷ t ∷ []) =
      elim (Bool-cases (not (equal_fold s (lit "Bearer")) || is_nil t)) [
        | inl e ↦ rw e (refl, refl)
        | inr e ↦ rw e tt
      ]
  credential-IsUnnamed (s ∷ t ∷ _ ∷ _) = (refl, refl)

  authorize_accepted-cases :
      (o : Option Principal)
      → Verdict
          (λ who. (o ≡ some who) × Permits ctx h who feature permission authorizer)
          (λ f.
            ((f.status ≡ 401) ⊎ (f.status ≡ 403)) × (has_prefix f.challenge (lit "Bearer") ≡ true))
          (authorize_accepted ctx h o feature permission authorizer)
  unfolding authorize_accepted has_prefix lit
  authorize_accepted-cases none = inr (_, (inl refl, refl), refl)
  authorize_accepted-cases (some p) =
      elim (Option-cases (authorize_principal ctx h (some p) feature permission authorizer)) [
        | inl e ↦
            inl
              (p, (refl, (authorize_principal_iff ctx h p feature permission authorizer).0 e), rw e)
        | inr (f, e) ↦
            let (st, ch) = authorize_principal-status ctx h p feature permission authorizer f e in
            inr (f, (inr st, rw ch refl), rw e)
      ]

  entry_by :
      (a : Authenticator) (c : Credential)
      → credential (fields header) ≡ c
      → Verdict
          (Enters ctx h header feature permission (some a) authorizer)
          (IsRefusal (some a))
          (authenticate_credential ctx h c feature permission a authorizer)
  unfolding authenticate_credential
  entry_by a (refused f) e =
      let (status, challenge) = subst IsUnnamed e (credential-IsUnnamed (fields header)) in
      inr (f, (inl status, challenge), refl)
  entry_by a (token t) e =
      let (scheme, parts, bearer, not_empty) = credential-token (fields header) t e in
      elim (authorize_accepted-cases (accepted (a ctx h t))) [
        | inl (who, (known, permitted), result) ↦ inl (
          who,
          record {
            judge = a;
            configured = refl;
            scheme = scheme;
            token = t;
            parts = parts;
            bearer = bearer;
            not_empty = not_empty;
            known = accepted_iff (a ctx h t) who known;
            permitted = permitted;
          },
          result,
        )
        | inr refusal ↦ inr refusal
      ]

  -- A request enters as the principal whom the authenticator accepts and the policy permits, and
  -- then that principal is recorded; or it is refused, with nothing recorded: as 500 without an
  -- authenticator, and otherwise as 401 or 403 with a Bearer challenge.
  pub authenticate_and_authorize-cases :
      (authenticator : Option Authenticator)
      → ((who : Principal) × Enters ctx h header feature permission authenticator authorizer who
          × (authenticate_and_authorize ctx h header feature permission authenticator authorizer
              ≡ (with_principal ctx (some who) h, none)))
        ⊎ ((f : SecurityFailure) × IsRefusal authenticator f
            × (authenticate_and_authorize ctx h header feature permission authenticator authorizer
                ≡ ((ctx, h), some f)))
  unfolding authenticate_and_authorize
  authenticate_and_authorize-cases none = inr (_, (refl, refl), refl)
  authenticate_and_authorize-cases (some a) = entry_by a (credential (fields header)) refl

  entry_through :
      (a : Authenticator) (scheme t : Text) (who : Principal)
      → fields header ≡ scheme ∷ t ∷ []
      → equal_fold scheme (lit "Bearer") ≡ true
      → is_nil t ≡ false
      → a ctx h t ≡ (some who, false)
      → authorize_principal ctx h (some who) feature permission authorizer ≡ none
      → authenticate_and_authorize ctx h header feature permission (some a) authorizer
        ≡ (with_principal ctx (some who) h, none)
  unfolding authenticate_and_authorize credential accepted
  entry_through a scheme t who parts bearer not_empty known permitted =
      rw (parts, bearer, not_empty, known, permitted)

  -- Nothing but the conditions of entry is asked.
  pub Enters-recorded :
      (authenticator : Option Authenticator) (who : Principal)
      → Enters ctx h header feature permission authenticator authorizer who
      → authenticate_and_authorize ctx h header feature permission authenticator authorizer
        ≡ (with_principal ctx (some who) h, none)
  Enters-recorded authenticator who e = rw e.configured (
      entry_through e.judge e.scheme e.token who e.parts e.bearer e.not_empty e.known
        ((authorize_principal_iff ctx h who feature permission authorizer).1 e.permitted))
