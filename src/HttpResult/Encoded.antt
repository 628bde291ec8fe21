-- ===== src/HttpResult/Encoded.antt =====
-- result.go: what the response to a result holds.
use oashttp.Prelude.{
  ℕ, ◌≤◌, true, false, ◌||◌, ◌≡◌, refl, ap, ◌∙◌, Option, none, some, [], ◌∷◌, ◌++◌, arith, ltb,
  is_nil, Bool-cases, inl, inr,
}
use oashttp.Prelude.Text.{Text, lit, text_eq}
use oashttp.Core.Status.{status_allows_body}
use oashttp.Http.Header.{
  Header, header_set, header_values, canonical, values-set_self, values-set_ne,
}
use oashttp.Http.Writer.{send_header, Writer, set_header}
use oashttp.Http.Writer.Open.{is_open, body_calls}
use oashttp.Failure.Types.{Failure, Body, Codec, Formatter}
use oashttp.Failure.Write.{World, on_writer}
use oashttp.HttpResult.{
  HttpResult, add_headers, result_headers, effective_status, payload_of, write_payload,
  write_outcome, write_http,
}
use oashttp.HttpResult.Sent.{add_headers-SameCalls, payload-calls}

cache-ne-content :
    (text_eq (canonical (lit "Cache-Control")) (canonical (lit "Content-Type")) ≡ false)
    × (text_eq (canonical (lit "X-Content-Type-Options")) (canonical (lit "Content-Type")) ≡ false)
unfolding canonical text_eq lit
cache-ne-content = (refl, refl)

typed_content :
    (h : Header) (t : Text)
    → header_values
        (header_set
          (header_set h (lit "Content-Type") t)
          (lit "X-Content-Type-Options")
          (lit "nosniff"))
        (lit "Content-Type")
      ≡ t ∷ []
typed_content h t = values-set_ne _ _ _ _ cache-ne-content.1 ∙ values-set_self h _ t

-- The media type is the result's, whatever the handler put into the headers.
result_headers-content :
    {V : Type 0} (status : ℕ) (r : HttpResult V) (w : Writer)
    → is_nil r.content_type ≡ false
    → status_allows_body status ≡ true
    → header_values (result_headers status r w).header (lit "Content-Type") ≡ r.content_type ∷ []
unfolding result_headers set_header
result_headers-content status r w t a = elim (Bool-cases r.no_store) [
  | inl stored ↦
      rw (t, a, stored)
        (values-set_ne _ _ _ _ cache-ne-content.0 ∙ typed_content w.header r.content_type)
  | inr free ↦ rw (t, a, free) (typed_content w.header r.content_type)
]

module _ {V : Type 0} (codec : Codec V) (formatter : Option (Formatter V))
    (failure_type : Text) where
  outcome_step :
      (status : ℕ) (r : HttpResult V) (f : Option Failure) (w : World)
      → f ≡ none
      → write_outcome codec formatter failure_type status r f w
        ≡ write_payload codec formatter failure_type status r
            (payload_of codec formatter failure_type status r.body)
            w
  unfolding write_outcome
  outcome_step status r none w e = refl
  outcome_step status r (some failure) w e = cc

  payload_step :
      (status : ℕ) (b : Option (Body V)) (body : Body V) (payload : Text)
      → b ≡ some body
      → status_allows_body status ≡ true
      → codec.marshal body ≡ some payload
      → payload_of codec formatter failure_type status b ≡ some payload
  unfolding payload_of
  payload_step status b body payload e a m = rw (e, a) m

  in_range :
      (status : ℕ)
      → (200 ≤ status) × (status ≤ 599)
      → (effective_status status ≡ status) × ((ltb status 200 || ltb 599 status) ≡ false)
  in_range status h = ground arith

  write_http_steps :
      (r : HttpResult V) (body : Body V) (payload : Text) (w : World)
      → r.failure ≡ none
      → (200 ≤ r.status) × (r.status ≤ 599)
      → status_allows_body r.status ≡ true
      → r.body ≡ some body
      → codec.marshal body ≡ some payload
      → write_http codec formatter failure_type r w
        ≡ write_payload codec formatter failure_type r.status r
            (some payload)
            (on_writer (add_headers r.headers) w)
  unfolding write_http
  write_http_steps r body payload w ok_result valid allows has_body encoded =
      let (same, range) = in_range r.status valid in
      rw (same, range)
        (outcome_step r.status r r.failure (on_writer (add_headers r.headers) w) ok_result
          ∙ ap
              (λ p.
                write_payload codec formatter failure_type r.status r p
                  (on_writer (add_headers r.headers) w))
              (payload_step r.status r.body body payload has_body allows encoded))

  -- A result with a valid status that allows a body and a body that is encoded: the response has
  -- that status, those bytes as its body, and the result's media type as its only Content-Type.
  pub write_http-encoded :
      (r : HttpResult V) (body : Body V) (payload : Text) (w : World)
      → is_open w.writer.guard ≡ true
      → r.failure ≡ none
      → (200 ≤ r.status) × (r.status ≤ 599)
      → status_allows_body r.status ≡ true
      → is_nil r.content_type ≡ false
      → r.body ≡ some body
      → codec.marshal body ≡ some payload
      → (h : Header) × ((write_http codec formatter failure_type r w).writer.calls
          ≡ w.writer.calls ++ send_header r.status h ∷ body_calls payload)
        × (header_values h (lit "Content-Type") ≡ r.content_type ∷ [])
  write_http-encoded r body payload w o ok_result valid allows typed has_body encoded =
      let added = add_headers r.headers w.writer in
      let (calls, guard) = add_headers-SameCalls r.headers w.writer in
      (
        (result_headers r.status r added).header,
        ap (λ (u : World). u.writer.calls)
              (write_http_steps r body payload w ok_result valid allows has_body encoded)
            ∙ payload-calls codec formatter failure_type r.status r payload
                (on_writer (add_headers r.headers) w) (ap is_open guard ∙ o) valid.0
            ∙ ap
                (λ l.
                  l
                  ++ send_header r.status (result_headers r.status r added).header
                    ∷ body_calls payload)
                calls,
        result_headers-content r.status r added typed allows,
      )
