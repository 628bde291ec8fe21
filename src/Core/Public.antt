-- ===== src/Core/Public.antt =====
-- uuid.go and operation_context.go: what the package offers of internal/core.
use oashttp.Prelude.{Option, Result, err, none, ok, some, ◌>>=◌}
use oashttp.Prelude.Text.{Text}
use oashttp.Core.Uuid.{Error, normalize_uuid}
use oashttp.Core.Carrier.{Context, Heap, operation_from_context}

-- A UUID is the text that it is a type of, as String and MarshalText give it.
unfoldable pub parse_uuid : Text → Result Error Text
unfolding normalize_uuid
parse_uuid value = do normalized ← normalize_uuid value; ok normalized

unfoldable pub marshal_text : Text → Text
marshal_text u = u

-- `UnmarshalText` of a UUID that is `old`: what it is afterwards, and the error.
unfoldable pub unmarshal_text : Text → Text → Text × Option Error
unfolding parse_uuid
unmarshal_text old text = elim (parse_uuid text) [
  | err problem ↦ (old, some problem)
  | ok value ↦ (value, none)
]

unfoldable pub operation_id : Context → Heap → Text
unfolding operation_from_context
operation_id ctx heap = (operation_from_context ctx heap).0.id

unfoldable pub route_pattern : Context → Heap → Text
unfolding operation_from_context
route_pattern ctx heap = (operation_from_context ctx heap).0.route
