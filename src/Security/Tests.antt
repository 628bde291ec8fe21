-- ===== src/Security/Tests.antt =====
-- Who may enter, at bearer tokens of an application with one user.
use oashttp.Prelude.{true, false, ◌≡◌, refl, ◌⊎◌, inr, none, some, [], ◌∷◌, if◌then◌else◌}
use oashttp.Prelude.Text.{Text, lit, text_eq, texts}
use oashttp.Core.Carrier.{Principal, Heap, blank, with_principal}
use oashttp.Security.{
  SecurityFailure, Authentication, Authenticator, authenticate_and_authorize, accepted,
  authorize_principal, no_permission, member,
}
use oashttp.Security.Entry.{Enters, IsRefusal, authenticate_and_authorize-cases}

abbrev alice : Principal
alice = record { subject = lit "alice"; features = lit "users" ∷ []; permissions = lit "read" ∷ [] }

abbrev knows_alice : Text → Authentication
knows_alice t = if text_eq t (lit "secret") then (some alice, false) else (none, true)

abbrev judge : Authenticator
judge ctx h t = knows_alice t

abbrev one_request : Heap
one_request = blank ∷ []

entry_runs :
    (authenticate_and_authorize
        (some 0)
        one_request
        (lit "bearer  secret")
        (lit "users")
        (lit "read")
        (some judge)
        none
      ≡ (with_principal (some 0) (some alice) one_request, none))
    × (authenticate_and_authorize
          (some 0)
          one_request
          (lit "Bearer secret")
          (lit "users")
          (lit "write")
          (some judge)
          none
        ≡ ((some 0, one_request), some no_permission))
unfolding authenticate_and_authorize texts accepted authorize_principal
entry_runs = (refl, refl)

authenticate_and_authorize-cases_example :
    ((who : Principal) × Enters
        (some 0)
        one_request
        (lit "Bearer secret")
        (lit "users")
        (lit "read")
        (some judge)
        none
        who
      × (authenticate_and_authorize
            (some 0)
            one_request
            (lit "Bearer secret")
            (lit "users")
            (lit "read")
            (some judge)
            none
          ≡ (with_principal (some 0) (some who) one_request, none)))
    ⊎ ((f : SecurityFailure) × IsRefusal (some judge) f
        × (authenticate_and_authorize
              (some 0)
              one_request
              (lit "Bearer secret")
              (lit "users")
              (lit "read")
              (some judge)
              none
            ≡ ((some 0, one_request), some f)))
authenticate_and_authorize-cases_example =
    authenticate_and_authorize-cases (some 0) one_request (lit "Bearer secret") (lit "users")
      (lit "read") none (some judge)

alice-Enters :
    Enters
      (some 0)
      one_request
      (lit "Bearer secret")
      (lit "users")
      (lit "read")
      (some judge)
      none
      alice
unfolding texts member
alice-Enters = record {
  judge = judge;
  configured = refl;
  scheme = lit "Bearer";
  token = lit "secret";
  parts = refl;
  bearer = refl;
  not_empty = refl;
  known = refl;
  permitted = inr (refl, refl);
}
