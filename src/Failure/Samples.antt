-- ===== src/Failure/Samples.antt =====
-- A small application for the tests: its values are texts, and they are their own encoding.
use oashttp.Prelude.{Option, none, some, [], true, false}
use oashttp.Prelude.Text.{Text}
use oashttp.Failure.Types.{Body, value, problem, Codec}
use oashttp.Failure.Write.{World}

unfoldable pub marshal_text : Body Text → Option Text
marshal_text (problem p) = some p.code
marshal_text (value v) = some v

abbrev pub codec : Codec Text
codec = record { marshal = marshal_text; parse_media_type = λ s. some s }

abbrev pub fresh : World
fresh = record {
  writer = record { header = []; calls = []; broken = false; guard = none };
  handled = true;
  reports = [];
}
