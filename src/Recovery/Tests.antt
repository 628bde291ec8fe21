-- ===== src/Recovery/Tests.antt =====
-- The theorems on recovery at handlers that panic before and after the header.
use oashttp.Prelude.{List, [], any, false, none, true, ◌++◌, ◌+◌, ◌∷◌, ◌≡◌, ◌≤◌, ◌⊎◌}
use oashttp.Prelude.Text.{lit}
use oashttp.Failure.Samples.{codec, fresh}
use oashttp.Recovery.{
  Action, capability_writer, flushes, guarded, panicked, recover_panics, returned, run, sets,
  writes, writes_header,
}
use oashttp.Failure.Write.{Report, on_writer}
use oashttp.Recovery.Begun.{begins}
use oashttp.Recovery.Panic.{Is500, recover_panics_cases, told}
use oashttp.Recovery.Once.{finals, recover_panics_once}

abbrev early_hints : List Action
early_hints =
    sets (lit "Link") (lit "</style.css>")
    ∷ writes_header 103
    ∷ writes (lit "a")
    ∷ writes_header 404
    ∷ flushes
    ∷ []

recover_panics_once_example :
    finals
      (recover_panics codec none
        (lit "application/problem+json")
        true
        false
        early_hints
        panicked
        fresh).writer.calls
    ≤ finals fresh.writer.calls + 1
recover_panics_once_example =
    recover_panics_once codec none (lit "application/problem+json") true false early_hints panicked
      fresh

recover_panics_cases_example :
    let recovered_with =
      recover_panics codec none (lit "application/problem+json") true false early_hints in
    let out = recovered_with panicked fresh in
    let u = on_writer (run (capability_writer true false) early_hints) (guarded fresh) in
    (recovered_with returned fresh ≡ u)
    × (((any (begins true false) early_hints ≡ true)
          × (out.writer ≡ u.writer)
          × (out.reports ≡ fresh.reports ++ told fresh))
        ⊎ ((any (begins true false) early_hints ≡ false)
            × Is500 u.writer out.writer
            × ((more : List Report) × (out.reports ≡ (fresh.reports ++ told fresh) ++ more))))
recover_panics_cases_example =
    recover_panics_cases codec none (lit "application/problem+json") true false early_hints fresh
