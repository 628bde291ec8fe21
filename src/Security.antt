-- ===== src/Security.antt =====
-- internal/security/middleware.go, internal/core/security.go and
-- internal/operation/security_challenge.go.
mod Tests
pub mod Entry
use oashttp.Prelude.{
  ℕ, Bool, true, false, not, ◌&&◌, ◌||◌, Option, none, some, List, [], ◌∷◌, ◌==◌, if◌then◌else◌,
  is_nil, any,
}
use oashttp.Prelude.Text.{Text, lit, text_eq, trim_space, fields, equal_fold}
use oashttp.Core.Carrier.{Principal, Heap, Context, with_principal}
use oashttp.Http.Request.{Request}
use oashttp.Http.Writer.{Writer, set_header}

pub record SecurityFailure : Type 0 where
  pub status : ℕ
  pub code : Text
  pub detail : Text
  pub challenge : Text

pub record SecurityScheme : Type 0 where
  pub kind : Text
  pub scheme : Text
  pub bearer_format : Text
  pub name : Text
  pub place : Text

-- What an authenticator returns: the principal, which may be nil, and whether there is an error.
abbrev pub Authentication : Type 0
Authentication = Option Principal × Bool

-- The interfaces are the application's. They may read the context. An authorizer's result is
-- whether there is an error.
abbrev pub Authenticator : Type 0
Authenticator = Context → Heap → Text → Authentication

abbrev pub Authorizer : Type 0
Authorizer = Context → Heap → Principal → Text → Text → Bool

pub record SecurityProvider : Type 0 where
  pub security_scheme : SecurityScheme
  pub authenticate : Context → Heap → Request → Authentication

-- `if err != nil || principal == nil`.
unfoldable pub accepted : Authentication → Option Principal
accepted (principal, true) = none
accepted (principal, false) = principal

abbrev pub not_configured : Text → SecurityFailure
not_configured detail = record {
  status = 500;
  code = lit "SECURITY_NOT_CONFIGURED";
  detail = detail;
  challenge = [];
}

abbrev pub unauthorized : Text → Text → SecurityFailure
unauthorized detail challenge = record {
  status = 401;
  code = lit "UNAUTHORIZED";
  detail = detail;
  challenge = challenge;
}

abbrev pub insufficient : Text
insufficient = lit "Bearer error=\"insufficient_scope\""

abbrev pub forbidden : Text → SecurityFailure
forbidden detail = record {
  status = 403;
  code = lit "FORBIDDEN";
  detail = detail;
  challenge = insufficient;
}

-- A key of one of the principal's sets.
unfoldable pub member : Text → List Text → Bool
unfolding any
member name = any (λ n. text_eq n name)

abbrev pub no_permission : SecurityFailure
no_permission = forbidden (lit "The principal does not have the required permission")

abbrev pub no_feature : SecurityFailure
no_feature = forbidden (lit "The principal does not have the required feature")

-- `AuthorizePrincipal` behind the tests for an empty policy and for a nil principal.
unfoldable pub authorize_by :
    Context → Heap → Principal → Text → Text → Option Authorizer → Option SecurityFailure
unfolding member
authorize_by ctx h principal feature permission (some authorizer) =
    if authorizer ctx h principal feature permission then some no_permission else none
authorize_by ctx h principal feature permission none =
    if not (member feature principal.features)
    then some no_feature
    else if not (member permission principal.permissions)
    then some no_permission
    else none

unfoldable pub authorize_principal :
    Context → Heap → Option Principal → Text → Text → Option Authorizer → Option SecurityFailure
unfolding authorize_by
authorize_principal ctx h principal feature permission authorizer =
    if is_nil feature && is_nil permission then none else elim principal [
      | none ↦ some (unauthorized (lit "Authentication failed") [])
      | some p ↦ authorize_by ctx h p feature permission authorizer
    ]

-- The end of `AuthenticateAndAuthorize`; a nil failure is `none`.
unfoldable pub enter :
    Context → Heap → Principal → Option SecurityFailure → (Context × Heap) × Option SecurityFailure
enter ctx h principal (some failure) = ((ctx, h), some failure)
enter ctx h principal none = (with_principal ctx (some principal) h, none)

-- `AuthenticateAndAuthorize` from the call of the authenticator.
unfoldable pub authorize_accepted :
    Context
    → Heap
    → Option Principal
    → Text
    → Text
    → Option Authorizer
    → (Context × Heap) × Option SecurityFailure
unfolding enter
authorize_accepted ctx h none feature permission authorizer = (
  (ctx, h),
  some (unauthorized (lit "The bearer token is invalid") (lit "Bearer error=\"invalid_token\"")),
)
authorize_accepted ctx h (some p) feature permission authorizer =
    enter ctx h p (authorize_principal ctx h (some p) feature permission authorizer)

abbrev pub malformed : SecurityFailure
malformed =
    unauthorized (lit "The Authorization header is malformed")
      (lit "Bearer error=\"invalid_request\"")

-- The token of `parts := strings.Fields(header)`, or the failure.
pub data Credential : Type 0 where
  token : Text → Credential
  refused : SecurityFailure → Credential

unfoldable pub credential : List Text → Credential
credential [] = refused (unauthorized (lit "A bearer token is required") (lit "Bearer"))
credential (scheme ∷ t ∷ []) =
    if not (equal_fold scheme (lit "Bearer")) || is_nil t then refused malformed else token t
credential (_ ∷ []) = refused malformed
credential (_ ∷ _ ∷ _ ∷ _) = refused malformed

unfoldable pub authenticate_credential :
    Context
    → Heap
    → Credential
    → Text
    → Text
    → Authenticator
    → Option Authorizer
    → (Context × Heap) × Option SecurityFailure
unfolding authorize_accepted
authenticate_credential ctx h (refused failure) feature permission authenticator authorizer =
    ((ctx, h), some failure)
authenticate_credential ctx h (token t) feature permission authenticator authorizer =
    authorize_accepted ctx h (accepted (authenticator ctx h t)) feature permission authorizer

unfoldable pub authenticate_and_authorize :
    Context
    → Heap
    → Text
    → Text
    → Text
    → Option Authenticator
    → Option Authorizer
    → (Context × Heap) × Option SecurityFailure
unfolding authenticate_credential credential
authenticate_and_authorize ctx h header feature permission none authorizer =
    ((ctx, h), some (not_configured (lit "Authenticator is not configured")))
authenticate_and_authorize ctx h header feature permission (some authenticator) authorizer =
    authenticate_credential ctx h (credential (fields header)) feature permission authenticator
      authorizer

-- The end of `AuthenticateProvider`.
unfoldable pub identify :
    Context → Heap → Option Principal → (Context × Heap) × Option Principal × Option SecurityFailure
identify ctx h none = ((ctx, h), none, some (unauthorized (lit "Authentication failed") []))
identify ctx h (some p) = (with_principal ctx (some p) h, some p, none)

unfoldable pub authenticate_provider :
    Context
    → Heap
    → Request
    → Option SecurityProvider
    → (Context × Heap) × Option Principal × Option SecurityFailure
unfolding identify
authenticate_provider ctx h r none =
    ((ctx, h), none, some (not_configured (lit "Security provider is not configured")))
authenticate_provider ctx h r (some provider) =
    identify ctx h (accepted (provider.authenticate ctx h r))

-- `httpScheme`.
unfoldable pub http_scheme : Text → Text
http_scheme scheme =
    let trimmed = trim_space scheme in
    if equal_fold trimmed (lit "bearer") then lit "Bearer" else trimmed

-- `switch failure.Status`.
unfoldable pub challenge_of : ℕ → Text → Option Text
challenge_of status scheme =
    if status == 401
    then some scheme
    else if status == 403 && equal_fold scheme (lit "Bearer")
    then some insufficient
    else none

abbrev pub www_authenticate : Text
www_authenticate = lit "WWW-Authenticate"

abbrev pub set_challenge : Option Text → Writer → Writer
set_challenge none w = w
set_challenge (some value) w = set_header www_authenticate value w

-- `applyProviderChallenge`, with a provider and a failure that are not nil.
unfoldable pub provider_challenge : SecurityScheme → SecurityFailure → Writer → Writer
unfolding http_scheme challenge_of
provider_challenge scheme failure w =
    if not (text_eq scheme.kind (lit "http")) || is_nil (trim_space scheme.scheme)
    then w
    else set_challenge (challenge_of failure.status (http_scheme scheme.scheme)) w

unfoldable pub apply_provider_challenge :
    Option SecurityProvider → Option SecurityFailure → Writer → Writer
unfolding provider_challenge
apply_provider_challenge none failure w = w
apply_provider_challenge (some provider) none w = w
apply_provider_challenge (some provider) (some failure) w =
    provider_challenge provider.security_scheme failure w
