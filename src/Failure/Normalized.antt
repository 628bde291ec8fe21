-- ===== src/Failure/Normalized.antt =====
-- internal/failure/writer.go: `normalize`.
use oashttp.Prelude.{◌≤◌, ◌<◌, true, false, ◌≡◌, ◌⊎◌, arith, is_nil}
use oashttp.Prelude.Text.{lit, trim_space}
use oashttp.Failure.Types.{Failure}
use oashttp.Failure.Write.{title_of, normalize}

-- What a failure is sent as: a status from 400 to 599 stays with its code and detail, any other
-- becomes 500; a title that is not blank stays, a blank one becomes the name of the status.
pub normalize-fields :
    (item : Failure)
    → ((400 ≤ item.status) × (item.status ≤ 599)
        → ((normalize item).status ≡ item.status)
          × ((normalize item).code ≡ item.code)
          × ((normalize item).detail ≡ item.detail))
      × ((item.status < 400) ⊎ (599 < item.status)
          → ((normalize item).status ≡ 500)
            × ((normalize item).code ≡ lit "INVALID_FAILURE_STATUS"))
      × (is_nil (trim_space item.title) ≡ false → (normalize item).title ≡ item.title)
      × (is_nil (trim_space item.title) ≡ true
          → (normalize item).title ≡ title_of (normalize item).status)
      × ((normalize item).errors ≡ item.errors)
unfolding normalize
normalize-fields item = ground arith

-- A failure that was normalized once is not changed by a second time.
pub normalize_idem : (item : Failure) → normalize (normalize item) ≡ normalize item
unfolding normalize
normalize_idem item = ground arith
