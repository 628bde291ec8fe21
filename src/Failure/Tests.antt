-- ===== src/Failure/Tests.antt =====
-- The theorems on failure responses at a small application: its values are texts, a formatter that
-- returns one, and one that panics.
use oashttp.Prelude.{ℕ, ◌≤◌, ◌≡◌, refl, ◌⊎◌, inl, some, [], ◌∷◌, ◌++◌}
use oashttp.Prelude.Text.{Text, lit}
use oashttp.Failure.Types.{
  Failure, value, problem, returns, panics, Formatter, no_failure, problem_json,
}
use oashttp.Failure.Samples.{marshal_text, codec, fresh}
use oashttp.Failure.Write.{panicked, normalize, write_resolved, bytes_of, fallback, format_failed}
use oashttp.Failure.Committed.{IsResponse, write_resolved-IsResponse}
use oashttp.Failure.Formatted.{write_resolved-formatted, write_resolved-fallback}

abbrev kind : Formatter Text
kind = record {
  content_type = returns (lit "application/json");
  model = returns (some (value []));
  format = λ f. returns (some (value f.code));
}

abbrev broken_formatter : Formatter Text
broken_formatter = record {
  content_type = returns (lit "application/json");
  model = panics;
  format = λ f. panics;
}

abbrev gone : Failure
gone = record no_failure { status = 410; code = lit "GONE" }

write_resolved-IsResponse_example :
    (sent : ℕ) × (media : Text) × (payload : Text) × (400 ≤ sent)
    × (sent ≤ 599)
    × ((sent ≡ (normalize gone).status) ⊎ (sent ≡ 500))
    × IsResponse sent media payload fresh.writer
        (write_resolved codec (some broken_formatter) problem_json gone fresh).writer
write_resolved-IsResponse_example =
    write_resolved-IsResponse codec (some broken_formatter) problem_json gone fresh refl

marshalled : codec.marshal (value (normalize gone).code) ≡ some (normalize gone).code
unfolding marshal_text
marshalled = refl

write_resolved-formatted_example :
    IsResponse
      (normalize gone).status
      problem_json
      (normalize gone).code
      fresh.writer
      (write_resolved codec (some kind) problem_json gone fresh).writer
    × ((write_resolved codec (some kind) problem_json gone fresh).reports ≡ fresh.reports)
write_resolved-formatted_example =
    write_resolved-formatted codec kind problem_json (normalize gone).code gone
      (value (normalize gone).code) fresh refl refl refl marshalled

write_resolved-fallback_example :
    IsResponse 500 problem_json
      (bytes_of (codec.marshal (problem fallback)))
      fresh.writer
      (write_resolved codec (some broken_formatter) problem_json gone fresh).writer
    × ((write_resolved codec (some broken_formatter) problem_json gone fresh).reports
        ≡ fresh.reports ++ format_failed panicked ∷ [])
write_resolved-fallback_example =
    write_resolved-fallback codec broken_formatter problem_json gone panicked fresh refl refl refl
      (inl (refl, refl))
