-- ===== src/Recovery.antt =====
-- recovery.go. A handler is the row of calls that it makes on its writer, and how it ends.
mod Tests
pub mod Once
pub mod Begun
pub mod Panic
use oashttp.Prelude.{
  ℕ, Bool, true, false, not, ◌&&◌, Option, none, some, List, [], ◌∷◌, if◌then◌else◌,
}
use oashttp.Prelude.Text.{Text, lit}
use oashttp.Http.Writer.{Writer, Guard, set_header, add_header, write_header, write, flush, hijack}
use oashttp.Failure.Types.{Failure, Codec, Formatter, no_failure}
use oashttp.Failure.Write.{World, report, on_writer, write_resolved, recovered}

pub data Action : Type 0 where
  sets adds : Text → Text → Action
  writes_header : ℕ → Action
  writes : Text → Action
  flushes : Action
  hijacks : Bool → Action

pub data Ending : Type 0 where
  returned panicked : Ending

-- The wrappers that `capabilityWriter` chooses from.
pub data Capability : Type 0 where
  plain flusher hijacker flusher_hijacker : Capability

unfoldable pub capability_writer : Bool → Bool → Capability
capability_writer has_flusher has_hijacker =
    if has_flusher && has_hijacker
    then flusher_hijacker
    else if has_flusher
    then flusher
    else if has_hijacker
    then hijacker
    else plain

-- Whether the wrapper has the method, which the handler asks by a type assertion.
unfoldable pub can_flush : Capability → Bool
can_flush flusher = true
can_flush flusher_hijacker = true
can_flush _ = false

unfoldable pub can_hijack : Capability → Bool
can_hijack hijacker = true
can_hijack flusher_hijacker = true
can_hijack _ = false

unfoldable pub act : Capability → Action → Writer → Writer
act c (sets key v) w = set_header key v w
act c (adds key v) w = add_header key v w
act c (writes_header status) w = write_header status w
act c (writes payload) w = (write payload w).0
act c flushes w = if can_flush c then flush w else w
act c (hijacks succeeds) w = if can_hijack c then hijack succeeds w else w

unfoldable pub run : Capability → List Action → Writer → Writer
run c [] w = w
run c (a ∷ actions) w = run c actions (act c a w)

abbrev pub unexpected : Failure
unexpected = record no_failure {
  status = 500;
  code = lit "INTERNAL_SERVER_ERROR";
  detail = lit "An unexpected error occurred";
}

-- `&responseState{ResponseWriter: w}`.
abbrev pub guarded : World → World
guarded = on_writer (λ w. record w { guard = some (record { wrote_header = false; status = 0 }) })

abbrev pub has_written : Option Guard → Bool
has_written none = false
has_written (some g) = g.wrote_header

module _ {V : Type 0} (codec : Codec V) (formatter : Option (Formatter V))
    (failure_type : Text) where
  -- The deferred function.
  unfoldable pub recover : Ending → World → World
  recover returned w = w
  recover panicked w =
      let told = report recovered w in
      if has_written told.writer.guard
      then told
      else write_resolved codec formatter failure_type unexpected told

  -- `has_flusher` and `has_hijacker` are what the underlying writer can do.
  unfoldable pub recover_panics : Bool → Bool → List Action → Ending → World → World
  recover_panics has_flusher has_hijacker actions ending w =
      recover ending
        (on_writer (run (capability_writer has_flusher has_hijacker) actions) (guarded w))
