-- ===== src/Core/Uuid.antt =====
-- internal/core/uuid.go.
pub mod Spec
use oashttp.Prelude.{
  ℕ, ◌+◌, ◌-◌, Bool, ◌&&◌, ◌||◌, List, [], ◌∷◌, Result, ok, err, ◌>>=◌, leb, ◌==◌, if◌then◌else◌,
  length,
}
use oashttp.Prelude.Text.{Text}

pub data Error : Type 0 where
  bad_length bad_hyphen bad_digit : Error

-- `case 8, 13, 18, 23`.
unfoldable pub is_hyphen_place : ℕ → Bool
is_hyphen_place i = i == 8 || i == 13 || i == 18 || i == 23

-- One round of the loop: the byte that is left at index i. The sum stays below 256.
unfoldable pub normalize_byte : ℕ → ℕ → Result Error ℕ
unfolding is_hyphen_place
normalize_byte i c =
    if is_hyphen_place i
    then (if c == b'-' then ok c else err bad_hyphen)
    else if leb b'0' c && leb c b'9' || leb b'a' c && leb c b'f'
    then ok c
    else if leb b'A' c && leb c b'F'
    then ok (c + (b'a' - b'A'))
    else err bad_digit

unfoldable pub normalize_from : ℕ → Text → Result Error Text
unfolding normalize_byte
normalize_from i [] = ok []
normalize_from i (c ∷ s) = do d ← normalize_byte i c; ds ← normalize_from (i + 1) s; ok (d ∷ ds)

unfoldable pub normalize_uuid : Text → Result Error Text
unfolding normalize_from
normalize_uuid value = if length value == 36 then normalize_from 0 value else err bad_length
