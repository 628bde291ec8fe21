-- ===== src/Docs/Answers.antt =====
-- internal/docs: what the handlers of the document and of the page answer.
use oashttp.Prelude.{
  Bool-cases, List, [], ap, append_assoc, arith, false, if◌then◌else◌, inl, inr, refl, sym, true, ℕ,
  ◌++◌, ◌↔◌, ◌∙◌, ◌∷◌, ◌≡◌, ◌≢◌, ◌⊎◌,
}
use oashttp.Prelude.Text.{Text, lit, text_eq, text_eq_iff}
use oashttp.Http.Header.{
  Header, canonical, header_get, header_values, values-set_ne, values-set_self,
}
use oashttp.Http.Writer.{
  Call, Writer, is_informational, send, send_header, set_header, write_header,
}
use oashttp.Http.Writer.Open.{final-status, is_open, write-calls, write_header-IsBegun}
use oashttp.Http.Request.{Request}
use oashttp.Http.StatusText.{status_text}
use oashttp.Docs.Serve.{
  JsonHandler, http_error, not_allowed, open_api_headers, refuses, serve_open_api,
  write_unless_head,
}
use mathlib.Core.Bool.{false≢true}

-- One header with the status and these values of a key, and the calls behind it.
pub record Answers (w served : Writer) (status : ℕ) (key : Text) (value : Text) (behind : List Call)
    : Type 0 where
  pub header : Header
  pub calls : served.calls ≡ w.calls ++ send_header status header ∷ behind
  pub values : header_values header key ≡ value ∷ []

abbrev pub body_unless_head : Text → Text → List Call
body_unless_head method payload = if text_eq method (lit "HEAD") then [] else send payload ∷ []

sent_calls :
    (method payload : Text) (status : ℕ) (v : Writer)
    → is_open v.guard ≡ true
    → is_informational status ≡ false
    → (write_unless_head method payload (write_header status v)).calls
      ≡ v.calls ++ send_header status v.header ∷ body_unless_head method payload
unfolding write_unless_head
sent_calls method payload status v o final =
    let begun = write_header-IsBegun status v o final in
    elim (Bool-cases (text_eq method (lit "HEAD"))) [
      | inl e ↦ rw e begun.calls
      | inr e ↦ rw e (
          ap (λ u. u.calls) (write-calls payload (write_header status v) begun.settled)
          ∙ ap (λ c. c ++ send payload ∷ []) begun.calls
          ∙ append_assoc v.calls (send_header status v.header ∷ []) (send payload ∷ []))
    ]

allow-ne :
    (text_eq (canonical (lit "X-Content-Type-Options")) (canonical (lit "Allow")) ≡ false)
    × (text_eq (canonical (lit "Content-Type")) (canonical (lit "Allow")) ≡ false)
unfolding canonical text_eq lit
allow-ne = (refl, refl)

etag-ne : text_eq (canonical (lit "X-Content-Type-Options")) (canonical (lit "ETag")) ≡ false
unfolding canonical text_eq lit
etag-ne = refl

not_allowed-Answers :
    (w : Writer)
    → is_open w.guard ≡ true
    → Answers w
        (not_allowed w)
        405
        (lit "Allow")
        (lit "GET, HEAD")
        (send (status_text 405 ++ 10 ∷ []) ∷ [])
unfolding not_allowed http_error set_header write_unless_head text_eq lit
not_allowed-Answers w o = record {
  header = _;
  calls = sent_calls [] (status_text 405 ++ 10 ∷ []) 405 _ o (final-status 405 (omega arith));
  values =
      values-set_ne _ _ _ _ allow-ne.0
      ∙ values-set_ne _ _ _ _ allow-ne.1
      ∙ values-set_self w.header (lit "Allow") (lit "GET, HEAD");
}

fresh-Answers :
    (h : JsonHandler) (method : Text) (w : Writer)
    → is_open w.guard ≡ true
    → Answers w
        (write_unless_head method h.json_data (write_header 200 (open_api_headers h w)))
        200
        (lit "ETag")
        h.etag
        (body_unless_head method h.json_data)
unfolding open_api_headers set_header
fresh-Answers h method w o = record {
  header = _;
  calls =
      sent_calls method h.json_data 200 (open_api_headers h w) o (final-status 200 (omega arith));
  values = values-set_ne _ _ _ _ etag-ne ∙ values-set_self _ (lit "ETag") h.etag;
}

unchanged-Answers :
    (h : JsonHandler) (w : Writer)
    → is_open w.guard ≡ true
    → Answers w (write_header 304 (open_api_headers h w)) 304 (lit "ETag") h.etag []
unfolding open_api_headers set_header
unchanged-Answers h w o =
    let begun =
      write_header-IsBegun 304 (open_api_headers h w) o (final-status 304 (omega arith)) in
    record {
      header = _;
      calls = begun.calls;
      values = values-set_ne _ _ _ _ etag-ne ∙ values-set_self _ (lit "ETag") h.etag;
    }

refuses_iff :
    (method : Text) → (refuses method ≡ true) ↔ ((method ≢ lit "GET") × (method ≢ lit "HEAD"))
unfolding refuses
refuses_iff method = (
  λ e. (
    λ h. ground (arith, text_eq_iff method (lit "GET")),
    λ h. ground (arith, text_eq_iff method (lit "HEAD")),
  ),
  λ n. ground (arith, text_eq_iff method (lit "GET"), text_eq_iff method (lit "HEAD"), n.0, n.1),
)

allows : (method : Text) → refuses method ≡ false → (method ≡ lit "GET") ⊎ (method ≡ lit "HEAD")
unfolding refuses
allows method e = elim (Bool-cases (text_eq method (lit "GET"))) [
  | inl h ↦ inl ((text_eq_iff method (lit "GET")).0 h)
  | inr h ↦ inr ((text_eq_iff method (lit "HEAD")).0 (ground arith))
]

-- The OpenAPI document's handler answers a request on a response that is not begun with one header:
-- with 405 and the methods that are allowed, for a method besides GET and HEAD; with 304 and
-- no body, if the request has the document's tag in If-None-Match; and else with 200, and with
-- the document exactly if the method is not HEAD. The answers 200 and 304 have the tag.
pub serve_open_api-cases :
    (h : JsonHandler) (method : Text) (r : Request) (w : Writer)
    → is_open w.guard ≡ true
    → ((method ≢ lit "GET")
        × (method ≢ lit "HEAD")
        × Answers w
            (serve_open_api h method r w)
            405
            (lit "Allow")
            (lit "GET, HEAD")
            (send (status_text 405 ++ 10 ∷ []) ∷ []))
      ⊎ ((((method ≡ lit "GET") ⊎ (method ≡ lit "HEAD"))
            × (header_get r.header (lit "If-None-Match") ≡ h.etag)
            × Answers w (serve_open_api h method r w) 304 (lit "ETag") h.etag [])
          ⊎ (((method ≡ lit "GET") ⊎ (method ≡ lit "HEAD"))
              × (header_get r.header (lit "If-None-Match") ≢ h.etag)
              × Answers w
                  (serve_open_api h method r w)
                  200
                  (lit "ETag")
                  h.etag
                  (body_unless_head method h.json_data)))
unfolding serve_open_api
serve_open_api-cases h method r w o =
    let sent = header_get r.header (lit "If-None-Match") in
    elim (Bool-cases (refuses method)) [
      | inl e ↦
          let (not_get, not_head) = (refuses_iff method).0 e in
          inl (not_get, not_head, rw (e, serve_open_api) (not_allowed-Answers w o))
      | inr e ↦ elim (Bool-cases (text_eq sent h.etag)) [
        | inl same ↦ inr (
            inl (
              allows method e,
              (text_eq_iff sent h.etag).0 same,
              rw (e, same, serve_open_api) (unchanged-Answers h w o),
            ))
        | inr other ↦ inr (
            inr (
              allows method e,
              λ is. false≢true (sym other ∙ (text_eq_iff sent h.etag).1 is),
              rw (e, other, serve_open_api) (fresh-Answers h method w o),
            ))
      ]
    ]
