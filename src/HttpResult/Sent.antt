-- ===== src/HttpResult/Sent.antt =====
-- result.go: one response for every result.
use mathlib.Core.Bool.{false≢true}
use oashttp.Prelude.{
  ℕ, ◌≤◌, true, false, ◌||◌, ◌≡◌, refl, sym, ap, ◌∙◌, ◌⊎◌, inl, inr, Option, none, some, List, [],
  ◌∷◌, ◌++◌, append_assoc, Bool-cases, Option-cases, arith, ltb,
}
use oashttp.Prelude.Text.{Text}
use oashttp.Core.Status.{status_allows_body}
use oashttp.Http.Header.{Header}
use oashttp.Http.Writer.{send_header, Writer, set_header, add_header, write_header}
use oashttp.Http.Writer.Open.{is_open, body_calls, write_header-IsBegun, final-status}
use oashttp.Failure.Types.{Failure, Body, Codec, Formatter}
use oashttp.Failure.Write.{
  Report, bad_status, result_not_encoded, result_not_written, World, report, on_writer,
  write_resolved,
}
use oashttp.Failure.Committed.{write_resolved-IsResponse, write_body-calls, report-writer}
use oashttp.HttpResult.{
  HttpResult, add_values, add_headers, unserializable, result_headers, effective_status, payload_of,
  write_payload, write_outcome, write_http,
}

-- The statuses whose responses have no body.
abbrev pub IsBodiless : ℕ → Type 0
IsBodiless status =
    ((100 ≤ status) × (status ≤ 199)) ⊎ ((status ≡ 204) ⊎ ((status ≡ 205) ⊎ (status ≡ 304)))

status_allows_body-bodiless : (status : ℕ) → IsBodiless status → status_allows_body status ≡ false
unfolding status_allows_body
status_allows_body-bodiless status h = ground arith

-- One header was sent behind the calls of `w`, and its body; where the status has no body, none.
pub record IsSent (w w' : Writer) : Type 0 where
  pub status : ℕ
  pub header : Header
  pub payload : Text
  pub calls : w'.calls ≡ w.calls ++ send_header status header ∷ body_calls payload
  pub low : 200 ≤ status
  pub high : status ≤ 599
  pub bodiless : IsBodiless status → payload ≡ []

-- Two writers that a response would not tell apart, but for the headers set so far.
abbrev pub SameCalls : Writer → Writer → Type 0
SameCalls w v = (v.calls ≡ w.calls) × (v.guard ≡ w.guard)

add_values-SameCalls :
    (key : Text) (vs : List Text) (w : Writer) → SameCalls w (add_values key vs w)
unfolding add_values add_header
add_values-SameCalls key [] w = (refl, refl)
add_values-SameCalls key (v ∷ vs) w = add_values-SameCalls key vs (add_header key v w)

pub add_headers-SameCalls : (h : Header) (w : Writer) → SameCalls w (add_headers h w)
unfolding add_headers
add_headers-SameCalls [] w = (refl, refl)
add_headers-SameCalls ((key, vs) ∷ h) w =
    let (c, g) = add_headers-SameCalls h (add_values key vs w) in
    let (c', g') = add_values-SameCalls key vs w in (c ∙ c', g ∙ g')

pub result_headers-SameCalls :
    {V : Type 0} (status : ℕ) (r : HttpResult V) (w : Writer)
    → SameCalls w (result_headers status r w)
unfolding result_headers set_header
result_headers-SameCalls status r w = ground arith

status_allows-failure : (status : ℕ) → 400 ≤ status → status_allows_body status ≡ true
unfolding status_allows_body
status_allows-failure status h = ground arith

IsSent-same : {w v w' : Writer} → SameCalls w v → IsSent v w' → IsSent w w'
IsSent-same {w} (same, _) s = record {
  status = s.status;
  header = s.header;
  payload = s.payload;
  calls = s.calls ∙ ap (λ l. l ++ send_header s.status s.header ∷ body_calls s.payload) same;
  low = s.low;
  high = s.high;
  bodiless = s.bodiless;
}

module _ {V : Type 0} (codec : Codec V) (formatter : Option (Formatter V))
    (failure_type : Text) where
  pub failure-IsSent :
      (item : Failure) (w : World)
      → is_open w.writer.guard ≡ true
      → IsSent w.writer (write_resolved codec formatter failure_type item w).writer
  failure-IsSent item w o =
      let (sent, media, payload, low, high, _, r) =
        write_resolved-IsResponse codec formatter failure_type item w o in
      record {
        status = sent;
        header = r.header;
        payload = payload;
        calls = r.calls;
        low = omega arith;
        high = high;
        bodiless = λ e. absurd (
            false≢true (sym (status_allows_body-bodiless sent e) ∙ status_allows-failure sent low));
      }

  payload_of-bodiless :
      (status : ℕ) (body : Option (Body V)) (payload : Text)
      → payload_of codec formatter failure_type status body ≡ some payload
      → status_allows_body status ≡ false
      → payload ≡ []
  unfolding payload_of
  payload_of-bodiless status none payload h e = ground arith
  payload_of-bodiless status (some body) payload h e = ground arith

  reported-IsSent :
      (e : Report) (item : Failure) (w : World)
      → is_open w.writer.guard ≡ true
      → IsSent w.writer (write_resolved codec formatter failure_type item (report e w)).writer
  reported-IsSent e item w o =
      let same = report-writer e w in
      IsSent-same (ap (λ (v : Writer). v.calls) same, ap (λ (v : Writer). v.guard) same)
        (failure-IsSent item (report e w) (ap (λ (v : Writer). is_open v.guard) same ∙ o))

  pub payload-calls :
      (status : ℕ) (r : HttpResult V) (payload : Text) (w : World)
      → is_open w.writer.guard ≡ true
      → 200 ≤ status
      → (write_payload codec formatter failure_type status r (some payload) w).writer.calls
        ≡ w.writer.calls
          ++ send_header status (result_headers status r w.writer).header ∷ body_calls payload
  unfolding write_payload
  payload-calls status r payload w o low =
      let v = result_headers status r w.writer in
      let (calls, guard) = result_headers-SameCalls status r w.writer in
      let b = write_header-IsBegun status v (ap is_open guard ∙ o) (final-status status low) in
      write_body-calls result_not_written payload (record w { writer = write_header status v })
        b.settled
      ∙ ap (λ l. l ++ body_calls payload)
          (b.calls ∙ ap (λ l. l ++ send_header status v.header ∷ []) calls)
      ∙ append_assoc w.writer.calls (send_header status v.header ∷ []) (body_calls payload)

  payload-IsSent :
      (status : ℕ) (r : HttpResult V) (payload : Text) (w : World)
      → is_open w.writer.guard ≡ true
      → 200 ≤ status
      → status ≤ 599
      → (status_allows_body status ≡ false → payload ≡ [])
      → IsSent w.writer
          (write_payload codec formatter failure_type status r (some payload) w).writer
  payload-IsSent status r payload w o low high bodiless = record {
    status = status;
    header = (result_headers status r w.writer).header;
    payload = payload;
    calls = payload-calls status r payload w o low;
    low = low;
    high = high;
    bodiless = λ e. bodiless (status_allows_body-bodiless status e);
  }

  outcome-IsSent :
      (status : ℕ) (r : HttpResult V) (f : Option Failure) (w : World)
      → is_open w.writer.guard ≡ true
      → 200 ≤ status
      → status ≤ 599
      → IsSent w.writer (write_outcome codec formatter failure_type status r f w).writer
  unfolding write_outcome
  outcome-IsSent status r (some failure) w o low high = failure-IsSent _ w o
  outcome-IsSent status r none w o low high =
      elim (Option-cases (payload_of codec formatter failure_type status r.body)) [
        | inl failed ↦
            rw (failed, write_payload) (reported-IsSent result_not_encoded unserializable w o)
        | inr (payload, found) ↦ rw found (
            payload-IsSent status r payload w o low high
              (payload_of-bodiless status r.body payload found))
      ]

  -- Every result, written to a response that is not begun, sends one header with a status from 200
  -- to 599 and at most one body behind it, and no body where the status does not allow one.
  pub write_http-IsSent :
      (r : HttpResult V) (w : World)
      → is_open w.writer.guard ≡ true
      → IsSent w.writer (write_http codec formatter failure_type r w).writer
  unfolding write_http
  write_http-IsSent r w o =
      let status = effective_status r.status in
      elim (Bool-cases (ltb status 200 || ltb 599 status)) [
        | inl bad ↦ rw bad (reported-IsSent (bad_status status) unserializable w o)
        | inr good ↦
            let same = add_headers-SameCalls r.headers w.writer in
            rw good (
              IsSent-same same (
                outcome-IsSent status r r.failure (on_writer (add_headers r.headers) w)
                  (ap is_open same.1 ∙ o) (ground arith) (ground arith)))
      ]
