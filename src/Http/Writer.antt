-- ===== src/Http/Writer.antt =====
-- http.ResponseWriter as a record of its calls, and recovery.go's `responseState` around it.
pub mod Open
use oashttp.Prelude.{
  ℕ, Bool, true, false, not, ◌&&◌, Option, none, some, List, [], ◌∷◌, ◌++◌, ◌==◌, leb, ltb,
  if◌then◌else◌,
}
use oashttp.Prelude.Text.{Text}
use oashttp.Http.Header.{Header, header_set, header_add}

-- A call that reaches the underlying writer. A WriteHeader sends the header map as it is then.
pub data Call : Type 0 where
  send_header : ℕ → Header → Call
  send : Text → Call
  flushed : Call
  hijacked : Call

-- The fields that `responseState` adds to the writer.
pub record Guard : Type 0 where
  pub wrote_header : Bool
  pub status : ℕ

-- `broken`: every Write to the underlying writer returns an error.
pub record Writer : Type 0 where
  pub header : Header
  pub calls : List Call
  pub broken : Bool
  pub guard : Option Guard

abbrev pub push : Writer → Call → Writer
push w c = record w { calls = w.calls ++ c ∷ [] }

-- `w.Header().Set` and `w.Header().Add`; `responseState` embeds the writer's Header.
unfoldable pub set_header : Text → Text → Writer → Writer
set_header key v w = record w { header = header_set w.header key v }

unfoldable pub add_header : Text → Text → Writer → Writer
add_header key v w = record w { header = header_add w.header key v }

-- 1xx other than 101: sent at once, and not the response.
unfoldable pub is_informational : ℕ → Bool
is_informational status = leb 100 status && ltb status 200 && not (status == 101)

-- `responseState.WriteHeader`.
unfoldable pub guarded_write_header : Guard → ℕ → Writer → Writer
unfolding is_informational
guarded_write_header g status w =
    if g.wrote_header
    then w
    else if is_informational status
    then push w (send_header status w.header)
    else record w {
      calls = w.calls ++ send_header status w.header ∷ [];
      guard = some (record { wrote_header = true; status = status });
    }

-- WriteHeader of the writer at hand.
unfoldable pub write_header : ℕ → Writer → Writer
unfolding guarded_write_header
write_header status w = elim w.guard [
  | none ↦ push w (send_header status w.header)
  | some g ↦ guarded_write_header g status w
]

-- `if !w.wroteHeader { w.WriteHeader(http.StatusOK) }` of `responseState`.
unfoldable pub ensure_header : Writer → Writer
unfolding guarded_write_header
ensure_header w = elim w.guard [
  | none ↦ w
  | some g ↦ if not g.wrote_header then guarded_write_header g 200 w else w
]

-- Write of the writer at hand; the flag is whether it returned no error.
unfoldable pub write : Text → Writer → Writer × Bool
unfolding ensure_header
write payload w = (push (ensure_header w) (send payload), not w.broken)

-- `responseState.flush` and `hijack`, where the underlying writer can do it. A hijack that succeeds
-- counts as a header.
unfoldable pub flush : Writer → Writer
unfolding ensure_header
flush w = push (ensure_header w) flushed

unfoldable pub hijack : Bool → Writer → Writer
hijack succeeds w = elim w.guard [
  | none ↦ push w hijacked
  | some g ↦ elim succeeds [
    | true ↦ record (push w hijacked) { guard = some (record g { wrote_header = true }) }
    | false ↦ push w hijacked
  ]
]
