-- ===== src/Failure/Formatted.antt =====
-- internal/failure/writer.go: which body is sent, and who is told of a failed formatter.
use oashttp.Prelude.{
  ℕ, true, false, ◌≡◌, ◌∙◌, ◌⊎◌, inl, inr, refl, Option, none, some, [], ◌∷◌, ◌++◌, err, arith,
}
use oashttp.Prelude.Text.{Text}
use oashttp.Http.Writer.{Writer, write, set_header, write_header}
use oashttp.Http.Writer.Open.{is_open}
use oashttp.Failure.Types.{
  Failure, Body, problem, Codec, Outcome, panics, returns, Formatter, problem_json, or_default,
}
use oashttp.Failure.Write.{
  FormatError, panicked, nil_body, not_encoded, Report, format_failed, World, report, write_body,
  write_failure, bytes_of, fallback, normalize, write_fallback, formatted, encode, finish,
  write_resolved,
}
use oashttp.Failure.Committed.{
  IsResponse, write_failure-IsResponse, write_fallback-IsResponse, normalize-status,
}

write_header-broken : (status : ℕ) (w : Writer) → (write_header status w).broken ≡ w.broken
unfolding write_header
write_header-broken status w = ground arith

write_body-reports :
    (e : Report) (payload : Text) (w : World)
    → w.writer.broken ≡ false
    → (write_body e payload w).reports ≡ w.reports
unfolding write_body write
write_body-reports e payload w h = ground arith

write_failure-reports :
    (status : ℕ) (content_type payload : Text) (w : World)
    → w.writer.broken ≡ false
    → (write_failure status content_type payload w).reports ≡ w.reports
unfolding write_failure set_header
write_failure-reports status content_type payload w h =
    write_body-reports _ payload _ (write_header-broken status _ ∙ h)

report-reports :
    (e : Report) (w : World) → w.handled ≡ true → (report e w).reports ≡ w.reports ++ e ∷ []
unfolding report
report-reports e w h = ground arith

report-broken : (e : Report) (w : World) → (report e w).writer.broken ≡ w.writer.broken
unfolding report
report-broken e w = ground arith

module _ {V : Type 0} (codec : Codec V) where
  fallback-reports :
      (e : FormatError) (w : World)
      → w.writer.broken ≡ false
      → w.handled ≡ true
      → (write_fallback codec e w).reports ≡ w.reports ++ format_failed e ∷ []
  unfolding write_fallback
  fallback-reports e w accepts told =
      write_failure-reports 500 problem_json _ (report (format_failed e) w)
        (report-broken (format_failed e) w ∙ accepts)
      ∙ report-reports (format_failed e) w told

  -- A formatter that returns a body which can be encoded: the response has the failure's status
  -- after `normalize`, the media type given, and those bytes, and nothing is reported.
  pub write_resolved-formatted :
      (formatter : Formatter V) (content_type payload : Text) (item : Failure) (body : Body V)
      (w : World)
      → is_open w.writer.guard ≡ true
      → w.writer.broken ≡ false
      → formatter.format (normalize item) ≡ returns (some body)
      → codec.marshal body ≡ some payload
      → IsResponse
          (normalize item).status
          content_type
          payload
          w.writer
          (write_resolved codec (some formatter) content_type item w).writer
        × ((write_resolved codec (some formatter) content_type item w).reports ≡ w.reports)
  unfolding write_resolved or_default
  write_resolved-formatted formatter content_type payload item body w o accepts f m =
      let (low, high) = normalize-status item in
      rw (f, formatted, m, encode)
        (
          write_failure-IsResponse (normalize item).status content_type payload w o (omega arith),
          write_failure-reports (normalize item).status content_type payload w accepts,
        )

  -- How a formatter fails, by what it does.
  abbrev pub Fails : Outcome (Option (Body V)) → FormatError → Type 0
  Fails outcome e =
      ((outcome ≡ panics) × (e ≡ panicked))
      ⊎ (((outcome ≡ returns none) × (e ≡ nil_body))
          ⊎ ((body : Body V) × (outcome ≡ returns (some body))
              × (codec.marshal body ≡ none)
              × (e ≡ not_encoded)))

  Fails-encode :
      (outcome : Outcome (Option (Body V))) (e : FormatError)
      → Fails outcome e
      → encode codec (formatted codec outcome) ≡ err e
  unfolding encode formatted
  Fails-encode outcome e (inl (o, is)) = rw (o, is) refl
  Fails-encode outcome e (inr (inl (o, is))) = rw (o, is) refl
  Fails-encode outcome e (inr (inr (body, o, m, is))) = rw (o, is, formatted, encode, m) refl

  -- A formatter that panics, returns nil, or returns what cannot be encoded: the response is the
  -- fallback, 500 Problem Details, and the handler of errors is told of it, and of nothing else.
  pub write_resolved-fallback :
      (formatter : Formatter V) (content_type : Text) (item : Failure) (e : FormatError) (w : World)
      → is_open w.writer.guard ≡ true
      → w.writer.broken ≡ false
      → w.handled ≡ true
      → Fails (formatter.format (normalize item)) e
      → IsResponse 500 problem_json
          (bytes_of (codec.marshal (problem fallback)))
          w.writer
          (write_resolved codec (some formatter) content_type item w).writer
        × ((write_resolved codec (some formatter) content_type item w).reports
            ≡ w.reports ++ format_failed e ∷ [])
  unfolding write_resolved or_default finish
  write_resolved-fallback formatter content_type item e w o accepts told failed =
      rw (Fails-encode (formatter.format (normalize item)) e failed)
        (write_fallback-IsResponse codec e w o, fallback-reports e w accepts told)
