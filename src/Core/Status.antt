-- ===== src/Core/Status.antt =====
-- internal/httpsem/status.go.
use oashttp.Prelude.{ℕ, Bool, true, false, ◌&&◌, ◌||◌, leb, ltb, ◌==◌, if◌then◌else◌}

-- Status codes are naturals; the tests of the source treat a negative one like 1.
unfoldable pub status_allows_body : ℕ → Bool
status_allows_body status =
    if leb 100 status && ltb status 200
    then false
    else if status == 204 || status == 205 || status == 304
    then false
    else true
