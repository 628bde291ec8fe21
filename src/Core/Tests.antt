-- ===== src/Core/Tests.antt =====
-- Runs of internal/core, and the theorems at inputs of its tests.
use oashttp.Prelude.{true, ◌≡◌, refl, ◌↔◌, none, some, [], ◌∷◌, map, ok, err}
use oashttp.Prelude.Text.{Text, lit, to_lower}
use oashttp.Core.Uuid.{bad_length, bad_hyphen, bad_digit, normalize_uuid}
use oashttp.Core.Public.{marshal_text, unmarshal_text}
use oashttp.Core.Uuid.Spec.{IsUuid, normalize_uuid_iff}
use oashttp.Core.Carrier.{
  OperationInfo, Principal, Heap, blank, deref, with_operation_carrier, with_operation_info,
  with_principal, operation_from_context, principal_from_context,
}
use oashttp.Core.Carrier.Visible.{SameReads, recorded_is_visible, other_requests_unaffected}

abbrev upper : Text
upper = lit "A0EEBC99-9C0B-4EF8-BB6D-6BB9BD380A11"

abbrev lower : Text
lower = lit "a0eebc99-9c0b-4ef8-bb6d-6bb9bd380a11"

uuid_runs :
    (normalize_uuid upper ≡ ok lower)
    × (normalize_uuid (lit "a0eebc99") ≡ err bad_length)
    × (normalize_uuid (lit "a0eebc9909c0b-4ef8-bb6d-6bb9bd380a11") ≡ err bad_hyphen)
    × (normalize_uuid (lit "g0eebc99-9c0b-4ef8-bb6d-6bb9bd380a11") ≡ err bad_digit)
unfolding normalize_uuid lit
uuid_runs = (refl, refl, refl, refl)

-- A UUID is the same when it is marshalled and unmarshalled again.
uuid_texts_run :
    (unmarshal_text [] upper ≡ (lower, none))
    × (unmarshal_text upper (marshal_text lower) ≡ (lower, none))
    × (unmarshal_text lower (lit "a0eebc99") ≡ (lower, some bad_length))
unfolding unmarshal_text marshal_text normalize_uuid lit
uuid_texts_run = (refl, refl, refl)

normalize_uuid_iff_example :
    (normalize_uuid upper ≡ ok lower) ↔ (IsUuid upper × (lower ≡ map to_lower upper))
normalize_uuid_iff_example = normalize_uuid_iff upper lower

abbrev users_get : OperationInfo
users_get = record { id = lit "getUser"; method = lit "GET"; route = lit "/users/{id}" }

abbrev alice : Principal
alice = record { subject = lit "alice"; features = []; permissions = [] }

abbrev two_requests : Heap
two_requests = blank ∷ blank ∷ []

first_live : deref two_requests 0 ≡ some blank
unfolding deref
first_live = refl

second_live : deref two_requests 1 ≡ some blank
unfolding deref
second_live = refl

recorded_is_visible_example :
    let (ctx, h₁) = with_operation_carrier (some 1) two_requests in
    let (ctx₂, h₂) = with_operation_info ctx users_get h₁ in
    let (ctx₃, h₃) = with_principal ctx₂ (some alice) h₂ in
    (ctx₃ ≡ ctx)
    × (operation_from_context ctx h₃ ≡ (users_get, true))
    × (principal_from_context ctx h₃ ≡ (some alice, true))
recorded_is_visible_example =
    recorded_is_visible (some 1) two_requests users_get alice (blank, second_live)

other_requests_unaffected_example :
    SameReads (some 0) two_requests (with_operation_info (some 1) users_get two_requests).1
    × SameReads (some 0) two_requests (with_principal (some 1) (some alice) two_requests).1
    × SameReads (some 0) two_requests (with_operation_carrier (some 1) two_requests).1
other_requests_unaffected_example =
    other_requests_unaffected (some 1) 0 two_requests users_get (some alice) (blank, first_live)
      (λ e. cc)
