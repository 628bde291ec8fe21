-- ===== src/Route/Normal.antt =====
-- internal/route/parser.go: the OpenAPI path is a route of its own, which parses to itself.
use mathlib.Core.List.{map-append}
use oashttp.Prelude.{
  ℕ, true, false, ◌≡◌, ◌≢◌, refl, ◌∙◌, List, [], ◌∷◌, ◌++◌, map, is_some, ok, arith, is_nil, any,
  all,
}
use oashttp.Prelude.Text.{
  Text, lit, text_eq, text_eq_refl, has_prefix, has_byte, contains, contains_any, split,
}
use oashttp.Prelude.Slashes.{contains_any-append, contains-slashes, not-contains-right}
use oashttp.Route.{
  Parameter, Pattern, is_name_byte, valid_parameter_name, check_parameter, check_parts, parse_token,
  parse,
}
use oashttp.Route.Constraint.{constraint_of}
use oashttp.Route.Token.{parse_token_iff}
use oashttp.Route.Grammar.{Reads, stop, plain, token}
use oashttp.Route.Parsed.{parse_iff, special, IsAccepted, IsToken-IsAccepted}

-- A parameter as its name in braces reads: a string.
abbrev pub as_string : Parameter → Parameter
as_string p = record { name = p.name; constraint = lit "string" }

known-string : is_some (constraint_of (lit "string")) ≡ true
unfolding constraint_of
known-string = rw text_eq_refl

name-byte :
    (c : ℕ)
    → is_name_byte c ≡ true
    → (c ≢ b':') × (c ≢ b'{') × (c ≢ b'}') × (c ≢ b'/') × (c ≢ b'?') × (c ≢ b'#') × (c ≢ 0)
unfolding is_name_byte
name-byte c h = ground arith

all-name :
    (s : Text) → valid_parameter_name s ≡ true → (all is_name_byte s ≡ true) × (is_nil s ≡ false)
unfolding valid_parameter_name all is_name_byte
all-name [] h = cc
all-name (c ∷ s) h = ground arith

split-name : (s : Text) → all is_name_byte s ≡ true → split b':' s ≡ s ∷ []
unfolding split all
split-name [] h = refl
split-name (c ∷ s) h = ground (arith, split-name s, name-byte c)

has_byte-name :
    (b : ℕ) (s : Text)
    → ((c : ℕ) → is_name_byte c ≡ true → c ≢ b)
    → all is_name_byte s ≡ true
    → has_byte b s ≡ false
unfolding has_byte all
has_byte-name b [] ne h = refl
has_byte-name b (c ∷ s) ne h = ground (arith, ne c, has_byte-name b s ne)

contains_any-name :
    (chars s : Text)
    → ((c : ℕ) → is_name_byte c ≡ true → has_byte c chars ≡ false)
    → all is_name_byte s ≡ true
    → contains_any s chars ≡ false
unfolding contains_any all
contains_any-name chars [] ne h = refl
contains_any-name chars (c ∷ s) ne h = ground (arith, ne c, contains_any-name chars s ne)

braces-name : (c : ℕ) → is_name_byte c ≡ true → has_byte c (lit "{}") ≡ false
unfolding has_byte lit
braces-name c h = ground (arith, name-byte c)

special-name : (c : ℕ) → is_name_byte c ≡ true → has_byte c special ≡ false
unfolding has_byte
special-name c h = ground (arith, name-byte c)

any-as_string :
    (seen : List Parameter) (n : Text)
    → any (λ q. text_eq q.name n) (map as_string seen) ≡ any (λ q. text_eq q.name n) seen
unfolding any
any-as_string [] n = refl
any-as_string (q ∷ seen) n = rw (any-as_string seen n)

-- A name alone is a token, if it is new.
parse_token-name :
    (seen : List Parameter) (p : Parameter)
    → IsAccepted seen p
    → parse_token (map as_string seen) p.name ≡ ok (as_string p)
unfolding parse_token check_parts check_parameter
parse_token-name seen p good =
    let (every, nonempty) = all-name p.name good.named in
    rw (
      contains_any-name (lit "{}") p.name braces-name every,
      split-name p.name every,
      nonempty,
      good.named,
      known-string,
      any-as_string seen p.name,
      good.fresh,
    )

Reads-as_string :
    {seen : List Parameter} {s out : Text} {ps : List Parameter}
    → Reads seen s out ps
    → Reads (map as_string seen) out out (map as_string ps)
Reads-as_string stop = stop
Reads-as_string (plain c h h' r) = plain c h h' (Reads-as_string r)
Reads-as_string {seen} (token t p h e r) =
    let good = IsToken-IsAccepted e in
    let (every, nonempty) = all-name p.name good.named in
    token p.name (as_string p) (has_byte-name b'}' p.name (λ c n. (name-byte c n).2) every)
      ((parse_token_iff (map as_string seen) p.name (as_string p)).0 (parse_token-name seen p good))
      (rw map-append at (Reads-as_string r))

-- A slash at the front stays there.
pub slash-prefix :
    {seen : List Parameter} {s out : Text} {ps : List Parameter}
    → Reads seen s out ps
    → has_prefix out (lit "/") ≡ has_prefix s (lit "/")
unfolding has_prefix lit
slash-prefix stop = refl
slash-prefix (plain c h h' r) = refl
slash-prefix (token t p h e r) = refl

no_special-token :
    (t s name out : Text)
    → all is_name_byte name ≡ true
    → contains_any (b'{' ∷ (t ++ b'}' ∷ s)) special ≡ false
    → (contains_any s special ≡ false → contains_any out special ≡ false)
    → contains_any (b'{' ∷ (name ++ b'}' ∷ out)) special ≡ false
unfolding contains_any has_byte
no_special-token t s name out every h ih = ground (
  arith,
  contains_any-append t (b'}' ∷ s) special,
  contains_any-append name (b'}' ∷ out) special,
  contains_any-name special name special-name every,
)

no_special-plain :
    (c : ℕ) (s out : Text)
    → contains_any (c ∷ s) special ≡ false
    → (contains_any s special ≡ false → contains_any out special ≡ false)
    → contains_any (c ∷ out) special ≡ false
unfolding contains_any
no_special-plain c s out h ih = ground arith

no_special-Reads :
    {seen : List Parameter} {s out : Text} {ps : List Parameter}
    → Reads seen s out ps
    → contains_any s special ≡ false
    → contains_any out special ≡ false
no_special-Reads stop h = h
no_special-Reads (plain c _ _ r) h = no_special-plain c _ _ h (no_special-Reads r)
no_special-Reads (token t p b e r) h =
    no_special-token t _ p.name _ (all-name p.name (IsToken-IsAccepted e).named).0 h
      (no_special-Reads r)

no_slashes-name :
    (name out : Text)
    → all is_name_byte name ≡ true
    → contains out (lit "//") ≡ false
    → contains (name ++ b'}' ∷ out) (lit "//") ≡ false
unfolding all
no_slashes-name [] out every h = rw (contains-slashes b'}' out) h
no_slashes-name (c ∷ name) out every h =
    rw (contains-slashes c (name ++ b'}' ∷ out))
      (ground (arith, name-byte c, no_slashes-name name out))

contains-rest :
    (t s : Text)
    → contains (b'{' ∷ (t ++ b'}' ∷ s)) (lit "//") ≡ false
    → contains s (lit "//") ≡ false
contains-rest t s h = not-contains-right (b'}' ∷ []) s (not-contains-right (b'{' ∷ t) (b'}' ∷ s) h)

no_empty-Reads :
    {seen : List Parameter} {s out : Text} {ps : List Parameter}
    → Reads seen s out ps
    → contains s (lit "//") ≡ false
    → contains out (lit "//") ≡ false
no_empty-Reads stop h = h
no_empty-Reads (plain {s = s} {out = out} c _ _ r) h =
    rw (contains-slashes c out, slash-prefix r)
      (ground (arith, contains-slashes c s, no_empty-Reads r))
no_empty-Reads (token {s = s} {out = out} t p b e r) h =
    rw (contains-slashes b'{' (p.name ++ b'}' ∷ out)) (
      no_slashes-name p.name out (all-name p.name (IsToken-IsAccepted e).named).0
        (no_empty-Reads r (contains-rest t s h)))

-- The OpenAPI path that Parse returns is itself a route that Parse accepts: it reads to itself, with
-- the same parameter names in the same order, each now a string, and the same ServeMux path.
pub parse-open_api_path :
    (path : Text) (q : Pattern)
    → parse path ≡ ok q
    → parse q.open_api_path
      ≡ ok (record q { user_path = q.open_api_path; parameters = map as_string q.parameters })
parse-open_api_path path q h =
    let p = (parse_iff path q).0 h in
    (parse_iff q.open_api_path _).1 (record {
      rooted = slash-prefix p.reads ∙ p.rooted;
      no_special = no_special-Reads p.reads p.no_special;
      no_empty = no_empty-Reads p.reads p.no_empty;
      reads = Reads-as_string p.reads;
      user = refl;
      mux = p.mux;
    })
