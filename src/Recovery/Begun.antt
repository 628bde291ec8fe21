-- ===== src/Recovery/Begun.antt =====
-- recovery.go: whether a handler has begun its response, by the calls that it made.
use oashttp.Prelude.{
  Bool, Bool-cases, List, Option, Result, [], any, ap, append-nil, append_assoc, arith, err, false,
  if◌then◌else◌, inl, inr, is_nil, leb, ltb, none, ok, refl, some, sym, true, ℕ, ◌&&◌, ◌++◌, ◌==◌,
  ◌||◌, ◌∙◌, ◌∷◌, ◌≡◌,
}
use oashttp.Prelude.Text.{Text}
use oashttp.Http.Writer.{Guard, Writer, add_header, flush, hijack, set_header, write, write_header}
use oashttp.Failure.Types.{Codec, Failure, Formatter, problem, problem_json}
use oashttp.Failure.Write.{
  FormatError, Report, World, bytes_of, failure_headers, failure_not_written, fallback, finish,
  format_failed, on_writer, report, write_body, write_failure, write_fallback, write_resolved,
}
use oashttp.Recovery.{
  Action, act, adds, can_flush, can_hijack, capability_writer, flushes, has_written, hijacks, run,
  sets, writes, writes_header,
}

-- Whether a call on the writer begins the response: a status that is no 1xx besides 101, a Write, a
-- Flush where the server's writer can flush, and a Hijack that succeeds.
abbrev pub begins : Bool → Bool → Action → Bool
begins has_flusher has_hijacker (sets key v) = false
begins has_flusher has_hijacker (adds key v) = false
begins has_flusher has_hijacker (writes_header status) =
    ltb status 100 || (leb 200 status || status == 101)
begins has_flusher has_hijacker (writes payload) = true
begins has_flusher has_hijacker flushes = has_flusher
begins has_flusher has_hijacker (hijacks succeeds) = has_hijacker && succeeds

abbrev is_counted : Option Guard → Bool
is_counted none = false
is_counted (some g) = true

module _ (has_flusher has_hijacker : Bool) where
  can_flush-capability_writer : can_flush (capability_writer has_flusher has_hijacker) ≡ has_flusher
  unfolding can_flush capability_writer
  can_flush-capability_writer = ground arith

  can_hijack-capability_writer :
      can_hijack (capability_writer has_flusher has_hijacker) ≡ has_hijacker
  unfolding can_hijack capability_writer
  can_hijack-capability_writer = ground arith

  act-has_written :
      (a : Action) (w : Writer)
      → is_counted w.guard ≡ true
      → let w' = act (capability_writer has_flusher has_hijacker) a w in
        (is_counted w'.guard ≡ true)
        × (has_written w'.guard ≡ (begins has_flusher has_hijacker a || has_written w.guard))
  unfolding act set_header add_header write_header write flush hijack
  act-has_written (sets key v) w g = (g, refl)
  act-has_written (adds key v) w g = (g, refl)
  act-has_written (writes_header status) w g = (ground arith, ground arith)
  act-has_written (writes payload) w g = (ground arith, ground arith)
  act-has_written flushes w g = rw can_flush-capability_writer (ground arith, ground arith)
  act-has_written (hijacks succeeds) w g =
      rw can_hijack-capability_writer (ground arith, ground arith)

  pub run-has_written :
      (actions : List Action) (w : Writer)
      → is_counted w.guard ≡ true
      → has_written (run (capability_writer has_flusher has_hijacker) actions w).guard
        ≡ (any (begins has_flusher has_hijacker) actions || has_written w.guard)
  unfolding run any
  run-has_written [] w g = refl
  run-has_written (a ∷ actions) w g =
      let (counted, step) = act-has_written a w g in
      ground (
        arith,
        run-has_written actions (act (capability_writer has_flusher has_hijacker) a w) counted,
        step,
      )

-- What is reported goes behind the reports before.
abbrev pub Adds : World → World → Type 0
Adds w w' = (more : List Report) × (w'.reports ≡ w.reports ++ more)

Adds-trans : (u v w : World) → Adds u v → Adds v w → Adds u w
Adds-trans u v w (some_more, e) (more, e') =
    (some_more ++ more, e' ∙ ap (λ l. l ++ more) e ∙ append_assoc u.reports some_more more)

Adds-refl : (w : World) → Adds w w
Adds-refl w = ([], sym (append-nil w.reports))

report-Adds : (e : Report) (w : World) → Adds w (report e w)
unfolding report
report-Adds e w = elim (Bool-cases w.handled) [
  | inl h ↦ (e ∷ [], rw (h, report) refl)
  | inr h ↦ ([], rw (h, report, append-nil) refl)
]

unless-Adds :
    (accepted : Bool) (e : Report) (w : World) (v : Writer)
    → Adds w (if accepted then record w { writer = v } else report e (record w { writer = v }))
unless-Adds true e w v = Adds-refl w
unless-Adds false e w v = report-Adds e (record w { writer = v })

write_body-Adds : (e : Report) (payload : Text) (w : World) → Adds w (write_body e payload w)
unfolding write_body
write_body-Adds e payload w = elim (Bool-cases (is_nil payload)) [
  | inl h ↦ rw (h, write_body) (Adds-refl w)
  | inr h ↦
      rw (h, write_body) (unless-Adds (write payload w.writer).1 e w (write payload w.writer).0)
]

write_failure-Adds :
    (status : ℕ) (content_type payload : Text) (w : World)
    → Adds w (write_failure status content_type payload w)
unfolding write_failure
write_failure-Adds status content_type payload w =
    write_body-Adds failure_not_written payload
      (on_writer (λ v. write_header status (failure_headers content_type v)) w)

module _ {V : Type 0} (codec : Codec V) where
  finish-Adds :
      (status : ℕ) (content_type : Text) (r : Result FormatError Text) (w : World)
      → Adds w (finish codec status content_type r w)
  unfolding finish write_fallback
  finish-Adds status content_type (ok payload) w = write_failure-Adds status content_type payload w
  finish-Adds status content_type (err e) w =
      Adds-trans w (report (format_failed e) w)
        (write_failure 500 problem_json (bytes_of (codec.marshal (problem fallback)))
          (report (format_failed e) w))
        (report-Adds (format_failed e) w)
        (write_failure-Adds 500 problem_json (bytes_of (codec.marshal (problem fallback)))
          (report (format_failed e) w))

  pub write_resolved-Adds :
      (formatter : Option (Formatter V)) (content_type : Text) (item : Failure) (w : World)
      → Adds w (write_resolved codec formatter content_type item w)
  unfolding write_resolved
  write_resolved-Adds formatter content_type item w = finish-Adds _ content_type _ w
