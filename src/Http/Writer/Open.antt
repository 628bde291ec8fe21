-- ===== src/Http/Writer/Open.antt =====
-- A writer whose response is not begun, and one whose header is sent.
use oashttp.Prelude.{
  ℕ, ◌≤◌, Bool, true, false, not, ◌≡◌, Option, none, some, List, [], ◌∷◌, ◌++◌, arith,
  if◌then◌else◌, is_nil,
}
use oashttp.Prelude.Text.{Text, lit}
use oashttp.Http.Header.{Header, header_values}
use oashttp.Http.Writer.{
  Call, send_header, send, Guard, Writer, push, is_informational, write_header, ensure_header,
  write,
}

-- No header was counted yet; an unguarded writer counts none.
abbrev pub is_open : Option Guard → Bool
is_open none = true
is_open (some g) = not g.wrote_header

-- A further Write adds no header.
abbrev pub is_settled : Option Guard → Bool
is_settled none = true
is_settled (some g) = g.wrote_header

-- What is called for a body.
abbrev pub body_calls : Text → List Call
body_calls payload = if is_nil payload then [] else send payload ∷ []

-- What the first header that is no 1xx does to a writer.
pub record IsBegun (status : ℕ) (w w' : Writer) : Type 0 where
  pub calls : w'.calls ≡ w.calls ++ send_header status w.header ∷ []
  pub settled : is_settled w'.guard ≡ true
  pub broken : w'.broken ≡ w.broken

pub write_header-IsBegun :
    (status : ℕ) (w : Writer)
    → is_open w.guard ≡ true
    → is_informational status ≡ false
    → IsBegun status w (write_header status w)
unfolding write_header
write_header-IsBegun status w o final = record {
  calls = ground arith;
  settled = ground arith;
  broken = ground arith;
}

pub final-status : (status : ℕ) → 200 ≤ status → is_informational status ≡ false
unfolding is_informational
final-status status h = ground arith

settled_same : (w : Writer) → is_settled w.guard ≡ true → ensure_header w ≡ w
unfolding ensure_header
settled_same w s = ground arith

pub write-calls :
    (payload : Text) (w : Writer)
    → is_settled w.guard ≡ true
    → (write payload w).0 ≡ push w (send payload)
unfolding write
write-calls payload w s = rw (settled_same w s)

-- The three headers of a failure response.
pub record HasFailureHeaders (content_type : Text) (h : Header) : Type 0 where
  pub content : header_values h (lit "Content-Type") ≡ content_type ∷ []
  pub cache : header_values h (lit "Cache-Control") ≡ lit "no-store" ∷ []
  pub sniff : header_values h (lit "X-Content-Type-Options") ≡ lit "nosniff" ∷ []
