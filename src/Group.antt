-- ===== src/Group.antt =====
-- group.go: the paths of groups.
mod Tests
pub mod Prefix
pub mod Mount
pub mod Nested
use oashttp.Prelude.{
  ℕ, Bool, true, false, not, ◌||◌, List, [], ◌∷◌, ◌++◌, Result, ok, err, ◌>>=◌, ◌>>◌, reject_if,
  if◌then◌else◌, is_nil,
}
use oashttp.Prelude.Text.{
  Text, lit, text_eq, has_prefix, contains, contains_any, trim_prefix_byte, trim_suffix_byte,
}

pub data Error : Type 0 where
  no_slash bad_character empty_segment : Error

unfoldable pub normalize_prefix : Text → Result Error Text
normalize_prefix prefix = if is_nil prefix || text_eq prefix (lit "/") then ok [] else do
  reject_if (not (has_prefix prefix (lit "/"))) no_slash
  reject_if (contains_any prefix (b'{' ∷ b'}' ∷ b'?' ∷ b'#' ∷ 0 ∷ [])) bad_character
  reject_if (contains prefix (lit "//")) empty_segment
  ok (trim_suffix_byte prefix b'/')

unfoldable pub join_paths : Text → Text → Text
join_paths prefix path =
    if is_nil prefix
    then (if is_nil path then lit "/" else path)
    else if is_nil path || text_eq path (lit "/")
    then prefix
    else prefix ++ (lit "/" ++ trim_prefix_byte path b'/')
