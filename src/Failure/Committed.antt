-- ===== src/Failure/Committed.antt =====
-- internal/failure/writer.go: a failure response is always written, and only one.
use mathlib.Core.Path.{subst}
use oashttp.Prelude.{
  ℕ, ◌≤◌, true, false, ◌≡◌, refl, sym, ap, ◌∙◌, ◌⊎◌, inl, inr, Option, [], ◌∷◌, ◌++◌, append_assoc,
  append-nil, Result, ok, err, arith,
}
use oashttp.Prelude.Text.{Text, lit, text_eq}
use oashttp.Http.Header.{Header, canonical, values-set_self, values-set_ne}
use oashttp.Http.Writer.{send_header, Writer, set_header, write_header}
use oashttp.Http.Writer.Open.{
  is_open, is_settled, body_calls, write_header-IsBegun, final-status, write-calls,
  HasFailureHeaders,
}
use oashttp.Failure.Types.{Failure, problem, Codec, Formatter, problem_json}
use oashttp.Failure.Write.{
  FormatError, Report, failure_not_written, format_failed, World, report, write_body,
  failure_headers, write_failure, bytes_of, fallback, normalize, write_fallback, finish,
  write_resolved,
}

set_header-header : (key v : Text) (w : Writer) → (set_header key v w).calls ≡ w.calls
unfolding set_header
set_header-header key v w = refl

distinct-keys :
    (text_eq (canonical (lit "X-Content-Type-Options")) (canonical (lit "Cache-Control")) ≡ false)
    × (text_eq (canonical (lit "X-Content-Type-Options")) (canonical (lit "Content-Type")) ≡ false)
    × (text_eq (canonical (lit "Cache-Control")) (canonical (lit "Content-Type")) ≡ false)
unfolding canonical text_eq lit
distinct-keys = (refl, refl, refl)

failure_headers-values :
    (content_type : Text) (w : Writer)
    → HasFailureHeaders content_type (failure_headers content_type w).header
unfolding set_header
failure_headers-values content_type w = record {
  content =
      values-set_ne _ _ _ _ distinct-keys.1
      ∙ values-set_ne _ _ _ _ distinct-keys.2
      ∙ values-set_self w.header _ _;
  cache = values-set_ne _ _ _ _ distinct-keys.0 ∙ values-set_self _ _ _;
  sniff = values-set_self _ _ _;
}

pub write_body-calls :
    (e : Report) (payload : Text) (w : World)
    → is_settled w.writer.guard ≡ true
    → (write_body e payload w).writer.calls ≡ w.writer.calls ++ body_calls payload
unfolding write_body report
write_body-calls e [] w s = sym (append-nil w.writer.calls)
write_body-calls e (c ∷ p) w s = ground (arith, write-calls (c ∷ p) w.writer s)

-- One response was written behind the calls of `w`: one header and its body.
pub record IsResponse (status : ℕ) (content_type payload : Text) (w w' : Writer) : Type 0 where
  pub header : Header
  pub calls : w'.calls ≡ w.calls ++ send_header status header ∷ body_calls payload
  pub headers : HasFailureHeaders content_type header

pub write_failure-IsResponse :
    (status : ℕ) (content_type payload : Text) (w : World)
    → is_open w.writer.guard ≡ true
    → 200 ≤ status
    → IsResponse status content_type payload w.writer
        (write_failure status content_type payload w).writer
unfolding write_failure set_header
write_failure-IsResponse status content_type payload w o final =
    let v = failure_headers content_type w.writer in
    let b = write_header-IsBegun status v o (final-status status final) in
    record {
      header = v.header;
      calls =
          write_body-calls failure_not_written payload (record w { writer = write_header status v })
            b.settled
          ∙ ap (λ l. l ++ body_calls payload) b.calls
          ∙ append_assoc w.writer.calls (send_header status v.header ∷ []) (body_calls payload);
      headers = failure_headers-values content_type w.writer;
    }

pub report-writer : (e : Report) (w : World) → (report e w).writer ≡ w.writer
unfolding report
report-writer e w = ground arith

pub normalize-status :
    (item : Failure) → (400 ≤ (normalize item).status) × ((normalize item).status ≤ 599)
unfolding normalize
normalize-status item = ground arith

module _ {V : Type 0} (codec : Codec V) where
  pub write_fallback-IsResponse :
      (e : FormatError) (w : World)
      → is_open w.writer.guard ≡ true
      → IsResponse 500 problem_json
          (bytes_of (codec.marshal (problem fallback)))
          w.writer
          (write_fallback codec e w).writer
  unfolding write_fallback
  write_fallback-IsResponse e w o =
      let payload = bytes_of (codec.marshal (problem fallback)) in
      let same = report-writer (format_failed e) w in
      subst
        (λ v.
          IsResponse 500 problem_json payload v
            (write_failure 500 problem_json payload (report (format_failed e) w)).writer)
        same
        (write_failure-IsResponse 500 problem_json payload (report (format_failed e) w)
          (ap (λ (v : Writer). is_open v.guard) same ∙ o) (omega arith))

  finish-IsResponse :
      (status : ℕ) (content_type : Text) (r : Result FormatError Text) (w : World)
      → is_open w.writer.guard ≡ true
      → 400 ≤ status
      → status ≤ 599
      → (sent : ℕ) × (media : Text) × (payload : Text) × (400 ≤ sent)
        × (sent ≤ 599)
        × ((sent ≡ status) ⊎ (sent ≡ 500))
        × IsResponse sent media payload w.writer (finish codec status content_type r w).writer
  unfolding finish
  finish-IsResponse status content_type (ok payload) w o low high = (
    status,
    content_type,
    payload,
    low,
    high,
    inl refl,
    write_failure-IsResponse status content_type payload w o (omega arith),
  )
  finish-IsResponse status content_type (err e) w o low high = (
    500,
    problem_json,
    bytes_of (codec.marshal (problem fallback)),
    omega arith,
    omega arith,
    inr refl,
    write_fallback-IsResponse e w o,
  )

  -- Whatever the formatter does (it may panic, return nil, or return what cannot be encoded) and
  -- whatever the status of the failure is, WriteResolved on a response that is not begun sends one
  -- header and at most one body behind it, with the three headers and a status from 400 to 599: that
  -- of the failure after `normalize`, or 500.
  pub write_resolved-IsResponse :
      (formatter : Option (Formatter V)) (content_type : Text) (item : Failure) (w : World)
      → is_open w.writer.guard ≡ true
      → (sent : ℕ) × (media : Text) × (payload : Text) × (400 ≤ sent)
        × (sent ≤ 599)
        × ((sent ≡ (normalize item).status) ⊎ (sent ≡ 500))
        × IsResponse sent media payload w.writer
            (write_resolved codec formatter content_type item w).writer
  unfolding write_resolved
  write_resolved-IsResponse formatter content_type item w o =
      let (low, high) = normalize-status item in
      finish-IsResponse (normalize item).status content_type _ w o low high
