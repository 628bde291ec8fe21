-- ===== src/Route.antt =====
-- internal/route/parser.go, with the constraint names of internal/route/constraint.go.
mod Tests
pub mod Constraint
pub mod Token
pub mod Grammar
pub mod Parsed
pub mod Normal
use oashttp.Prelude.{
  ℕ, Bool, true, false, not, ◌&&◌, ◌||◌, List, [], ◌∷◌, ◌++◌, Option, none, some, is_some, Result,
  ok, err, ◌>>=◌, ◌>>◌, reject_if, leb, ◌==◌, if◌then◌else◌, is_nil, any, all,
}
use oashttp.Prelude.Text.{Text, lit, text_eq, has_prefix, has_suffix, contains, contains_any, split}
use Constraint.{constraint_of}

pub record Parameter : Type 0 where
  pub name : Text
  pub constraint : Text

pub record Pattern : Type 0 where
  pub user_path : Text
  pub serve_mux_path : Text
  pub open_api_path : Text
  pub parameters : List Parameter

pub data Error : Type 0 where
  no_slash bad_character empty_segment unmatched_close unmatched_open : Error
  invalid_parameter invalid_name unknown_constraint repeated : Error

abbrev pub is_letter : ℕ → Bool
is_letter c = leb b'a' c && leb c b'z' || leb b'A' c && leb c b'Z' || c == b'_'

abbrev pub is_digit : ℕ → Bool
is_digit c = leb b'0' c && leb c b'9'

unfoldable pub is_name_byte : ℕ → Bool
is_name_byte c = is_letter c || is_digit c

-- The loop is over runes in the source. A rune above 127 fails each test, as its bytes do.
unfoldable pub valid_parameter_name : Text → Bool
unfolding is_name_byte all
valid_parameter_name [] = false
valid_parameter_name (c ∷ s) = is_letter c && all is_name_byte s

-- The part of the loop between `name, constraint := …` and the growth of `parameters`; the set
-- `seen` holds the names of the parameters so far.
unfoldable pub check_parameter : List Parameter → Text → Text → Result Error Parameter
unfolding valid_parameter_name any
check_parameter seen name constraint = do
  reject_if (not (valid_parameter_name name)) invalid_name
  reject_if (not (is_some (constraint_of constraint))) unknown_constraint
  reject_if (any (λ p. text_eq p.name name) seen) repeated
  ok (record { name = name; constraint = constraint })

-- `parts := strings.Split(token, ":")` and the tests on it.
unfoldable pub check_parts : List Parameter → List Text → Result Error Parameter
check_parts seen [] = err invalid_parameter
check_parts seen (name ∷ []) =
    if is_nil name then err invalid_parameter else check_parameter seen name (lit "string")
check_parts seen (name ∷ constraint ∷ []) =
    if is_nil name then err invalid_parameter else check_parameter seen name constraint
check_parts seen (_ ∷ _ ∷ _ ∷ _) = err invalid_parameter

unfoldable pub parse_token : List Parameter → Text → Result Error Parameter
parse_token seen token = do
  reject_if (is_nil token || contains_any token (lit "{}")) invalid_parameter
  check_parts seen (split b':' token)

-- What the loop has built: the output and the parameters.
abbrev pub Built : Type 0
Built = Text × List Parameter

abbrev pub push : Text → List Parameter → Built → Built
push out ps (rest, more) = (out ++ rest, ps ++ more)

-- The loop. `some token` is the search for `}` behind a `{`, with the bytes passed so far. The
-- results are the output and the parameters of the rest of the path.
unfoldable pub scan : List Parameter → Option Text → Text → Result Error Built
scan seen none [] = ok ([], [])
scan seen none (c ∷ s) =
    let opened = scan seen (some []) s in
    let plain = (do b ← scan seen none s; ok (push (c ∷ []) [] b)) in
    if c == b'}' then err unmatched_close else if c == b'{' then opened else plain
scan seen (some token) [] = err unmatched_open
scan seen (some token) (c ∷ s) =
    let longer = scan seen (some (token ++ c ∷ [])) s in
    let closed = (do
      p ← parse_token seen token
      b ← scan (seen ++ p ∷ []) none s
      ok (push (b'{' ∷ (p.name ++ b'}' ∷ [])) (p ∷ []) b)) in
    if c == b'}' then closed else longer

unfoldable pub parse : Text → Result Error Pattern
parse path = do
  reject_if (is_nil path || not (has_prefix path (lit "/"))) no_slash
  reject_if (contains_any path (b'?' ∷ b'#' ∷ 0 ∷ [])) bad_character
  reject_if (contains path (lit "//")) empty_segment
  (normalized, parameters) ← scan [] none path
  ok (record {
    user_path = path;
    serve_mux_path =
        if has_suffix normalized (lit "/") then normalized ++ lit "{$}" else normalized;
    open_api_path = normalized;
    parameters = parameters;
  })
