-- ===== src/Failure/Write.antt =====
-- internal/failure/writer.go.
use oashttp.Prelude.{
  ℕ, Bool, ◌||◌, Option, none, some, List, [], ◌∷◌, ◌++◌, Result, ok, err, ltb, if◌then◌else◌,
  is_nil,
}
use oashttp.Prelude.Text.{Text, lit, trim_space}
use oashttp.Http.StatusText.{status_text}
use oashttp.Http.Writer.{Writer, set_header, write_header, write}
use oashttp.Failure.Types.{
  Failure, ProblemDetails, Body, problem, Codec, Outcome, returns, panics, Formatter, problem_json,
  no_problem, or_default,
}

pub data FormatError : Type 0 where
  panicked no_content_type bad_content_type no_model nil_body not_encoded : FormatError

-- What the handlers of errors are told.
pub data Report : Type 0 where
  format_failed : FormatError → Report
  failure_not_written : Report
  bad_status : ℕ → Report
  result_not_encoded : Report
  result_not_written : Report
  recovered : Report

-- A response being written, and what `onError` has been told; `handled` is whether it is not nil.
pub record World : Type 0 where
  pub writer : Writer
  pub handled : Bool
  pub reports : List Report

-- `report`.
unfoldable pub report : Report → World → World
report e w = if w.handled then record w { reports = w.reports ++ e ∷ [] } else w

abbrev pub on_writer : (Writer → Writer) → World → World
on_writer f w = record w { writer = f w.writer }

-- The end of `write`: the body, and a report if it is not accepted.
unfoldable pub write_body : Report → Text → World → World
unfolding report
write_body e payload w =
    if is_nil payload
    then w
    else let (written, accepted) = write payload w.writer in
      let w' = record w { writer = written } in if accepted then w' else report e w'

abbrev pub failure_headers : Text → Writer → Writer
failure_headers content_type w = set_header (lit "X-Content-Type-Options") (lit "nosniff") (
    set_header (lit "Cache-Control") (lit "no-store")
      (set_header (lit "Content-Type") content_type w))

unfoldable pub write_failure : ℕ → Text → Text → World → World
unfolding write_body
write_failure status content_type payload w =
    write_body failure_not_written payload
      (on_writer (λ v. write_header status (failure_headers content_type v)) w)

-- A failed Marshal gives no bytes.
abbrev pub bytes_of : Option Text → Text
bytes_of none = []
bytes_of (some s) = s

abbrev pub fallback : ProblemDetails
fallback = record no_problem {
  title = status_text 500;
  status = 500;
  code = lit "FAILURE_FORMATTING_FAILED";
  detail = lit "The error response could not be formatted";
}

-- `if item.Status < 400 || item.Status > 599`.
unfoldable pub fix_status : Failure → Failure
fix_status item =
    if ltb item.status 400 || ltb 599 item.status
    then record item {
      status = 500;
      code = lit "INVALID_FAILURE_STATUS";
      detail = lit "The failure status was invalid";
    }
    else item

unfoldable pub title_of : ℕ → Text
title_of status = if is_nil (status_text status) then lit "Error" else status_text status

unfoldable pub normalize : Failure → Failure
unfolding fix_status title_of
normalize item =
    let fixed = fix_status item in
    if is_nil (trim_space fixed.title)
    then record fixed { title = title_of fixed.status }
    else fixed

module _ {V : Type 0} (codec : Codec V) where
  unfoldable pub write_fallback : FormatError → World → World
  unfolding write_failure report
  write_fallback e w =
      write_failure 500 problem_json (bytes_of (codec.marshal (problem fallback)))
        (report (format_failed e) w)

  -- `format`, and the test for a nil body.
  unfoldable pub formatted : Outcome (Option (Body V)) → Result FormatError (Body V)
  formatted panics = err panicked
  formatted (returns none) = err nil_body
  formatted (returns (some body)) = ok body

  unfoldable pub encode : Result FormatError (Body V) → Result FormatError Text
  encode (err e) = err e
  encode (ok body) = elim (codec.marshal body) [ none ↦ err not_encoded | some s ↦ ok s ]

  unfoldable pub finish : ℕ → Text → Result FormatError Text → World → World
  unfolding write_failure write_fallback
  finish status content_type (ok payload) w = write_failure status content_type payload w
  finish status content_type (err e) w = write_fallback e w

  unfoldable pub write_resolved : Option (Formatter V) → Text → Failure → World → World
  unfolding finish formatted encode normalize or_default
  write_resolved formatter content_type item w =
      let used = or_default formatter in
      let fixed = normalize item in
      finish fixed.status content_type (encode (formatted (used.format fixed))) w

  -- The checks of `Describe`, in its order; a panic of either call is an error.
  described_model : Text → Outcome (Option (Body V)) → Result FormatError (Text × Body V)
  described_model media panics = err panicked
  described_model media (returns none) = err no_model
  described_model media (returns (some body)) = ok (media, body)

  described_type : Formatter V → Text → Result FormatError (Text × Body V)
  unfolding described_model
  described_type formatter declared =
      if is_nil declared then err no_content_type else elim (codec.parse_media_type declared) [
        | none ↦ err bad_content_type
        | some media ↦ described_model media formatter.model
      ]

  -- The media type and a value of the model's type.
  unfoldable pub describe : Option (Formatter V) → Result FormatError (Text × Body V)
  unfolding described_type or_default
  describe formatter =
      let used = or_default formatter in
      elim used.content_type [
        | panics ↦ err panicked
        | returns declared ↦ described_type used (trim_space declared)
      ]

  -- `Write`.
  unfoldable pub write_described :
      Option (Formatter V) → Failure → Result FormatError (Text × Body V) → World → World
  unfolding write_resolved write_fallback
  write_described formatter item (err e) w = write_fallback e w
  write_described formatter item (ok (media, model)) w = write_resolved formatter media item w

  unfoldable pub write_any : Option (Formatter V) → Failure → World → World
  unfolding write_described describe
  write_any formatter item w = write_described formatter item (describe formatter) w
