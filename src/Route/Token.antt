-- ===== src/Route/Token.antt =====
-- internal/route/parser.go: the grammar of a token in braces.
use oashttp.Prelude.{
  All, Bool-cases, List, [], all, any, ap, arith, false, if◌then◌else◌, inl, inr, is_nil, is_some,
  ok, refl, sym, true, ℕ, ◌++◌, ◌==◌, ◌↔◌, ◌∙◌, ◌∷◌, ◌≡◌, ◌≢◌, ◌≤◌, ◌⊎◌,
}
use oashttp.Prelude.Text.{Text, contains_any, has_byte, lit, split, text_eq, text_eq_iff}
use oashttp.Route.{
  Parameter, check_parameter, check_parts, is_name_byte, parse_token, valid_parameter_name,
}
use oashttp.Route.Constraint.{constraint_of}

-- A letter or an underscore, and a digit.
abbrev pub IsLetter : ℕ → Type 0
IsLetter c = ((b'a' ≤ c) × (c ≤ b'z')) ⊎ (((b'A' ≤ c) × (c ≤ b'Z')) ⊎ (c ≡ b'_'))

abbrev pub IsNameByte : ℕ → Type 0
IsNameByte c = IsLetter c ⊎ ((b'0' ≤ c) × (c ≤ b'9'))

abbrev pub IsName : Text → Type 0
IsName [] = ⊥
IsName (c ∷ s) = IsLetter c × All IsNameByte s

-- The seven constraints.
abbrev pub IsConstraint : Text → Type 0
IsConstraint s =
    (s ≡ lit "string")
    ⊎ ((s ≡ lit "uuid")
        ⊎ ((s ≡ lit "int")
            ⊎ ((s ≡ lit "int64") ⊎ ((s ≡ lit "bool") ⊎ ((s ≡ lit "date") ⊎ (s ≡ lit "datetime"))))))

-- A name that none of the parameters before has, alone for a string, or with a colon and a
-- constraint.
pub record IsToken (seen : List Parameter) (t : Text) (p : Parameter) : Type 0 where
  pub named : IsName p.name
  pub known : IsConstraint p.constraint
  pub fresh : All (λ q. q.name ≢ p.name) seen
  pub shape : ((t ≡ p.name) × (p.constraint ≡ lit "string")) ⊎ (t ≡ p.name ++ b':' ∷ p.constraint)

name_bytes_iff : (s : Text) → (all is_name_byte s ≡ true) ↔ All IsNameByte s
unfolding all is_name_byte
name_bytes_iff [] = (λ e. tt, λ e. refl)
name_bytes_iff (c ∷ s) = ground (arith, name_bytes_iff s)

pub valid_parameter_name_iff : (s : Text) → (valid_parameter_name s ≡ true) ↔ IsName s
unfolding valid_parameter_name
valid_parameter_name_iff [] = (λ e. cc, λ e. absurd e)
valid_parameter_name_iff (c ∷ s) = ground (arith, name_bytes_iff s)

pub known_iff : (s : Text) → (is_some (constraint_of s) ≡ true) ↔ IsConstraint s
unfolding constraint_of
known_iff s = ground (
  arith,
  text_eq_iff s (lit "string"),
  text_eq_iff s (lit "uuid"),
  text_eq_iff s (lit "int"),
  text_eq_iff s (lit "int64"),
  text_eq_iff s (lit "bool"),
  text_eq_iff s (lit "date"),
  text_eq_iff s (lit "datetime"),
)

pub fresh_iff :
    (seen : List Parameter) (name : Text)
    → (any (λ q. text_eq q.name name) seen ≡ false) ↔ All (λ q. q.name ≢ name) seen
unfolding any
fresh_iff [] name = (λ e. tt, λ a. refl)
fresh_iff (q ∷ seen) name = ground (arith, fresh_iff seen name, text_eq_iff q.name name)

-- A part of a token: not empty, and without the signs that part and close tokens.
record IsPart (s : Text) : Type 0 where
  whole : has_byte b':' s ≡ false
  inside : contains_any s (lit "{}") ≡ false
  filled : is_nil s ≡ false

name_bytes-plain :
    (s : Text) → All IsNameByte s → (has_byte b':' s ≡ false) × (contains_any s (lit "{}") ≡ false)
unfolding has_byte contains_any lit
name_bytes-plain [] a = (refl, refl)
name_bytes-plain (c ∷ s) (a, rest) = ground (arith, name_bytes-plain s rest)

IsName-IsPart : (s : Text) → IsName s → IsPart s
unfolding has_byte contains_any lit
IsName-IsPart [] n = absurd n
IsName-IsPart (c ∷ s) (first, rest) =
    let (whole, inside) = name_bytes-plain s rest in
    record { whole = ground arith; inside = ground arith; filled = refl }

IsConstraint-IsPart : (s : Text) → IsConstraint s → IsPart s
unfolding has_byte contains_any lit
IsConstraint-IsPart s (inl e) = rw e (record { whole = refl; inside = refl; filled = refl })
IsConstraint-IsPart s (inr (inl e)) = rw e (record { whole = refl; inside = refl; filled = refl })
IsConstraint-IsPart s (inr (inr (inl e))) =
    rw e (record { whole = refl; inside = refl; filled = refl })
IsConstraint-IsPart s (inr (inr (inr (inl e)))) =
    rw e (record { whole = refl; inside = refl; filled = refl })
IsConstraint-IsPart s (inr (inr (inr (inr (inl e))))) =
    rw e (record { whole = refl; inside = refl; filled = refl })
IsConstraint-IsPart s (inr (inr (inr (inr (inr (inl e)))))) =
    rw e (record { whole = refl; inside = refl; filled = refl })
IsConstraint-IsPart s (inr (inr (inr (inr (inr (inr e)))))) =
    rw e (record { whole = refl; inside = refl; filled = refl })

split-whole : (b : ℕ) (s : Text) → has_byte b s ≡ false → split b s ≡ s ∷ []
unfolding split has_byte
split-whole b [] h = refl
split-whole b (c ∷ s) h = ground (arith, split-whole b s)

split-two :
    (b : ℕ) (s t : Text)
    → has_byte b s ≡ false
    → has_byte b t ≡ false
    → split b (s ++ b ∷ t) ≡ s ∷ t ∷ []
unfolding split has_byte
split-two b [] t h k = ground (arith, split-whole b t k)
split-two b (c ∷ s) t h k = ground (arith, split-two b s t)

-- The parts joined again.
abbrev rejoined : ℕ → List Text → Text
rejoined b [] = []
rejoined b (part ∷ []) = part
rejoined b (part ∷ next ∷ parts) = part ++ b ∷ rejoined b (next ∷ parts)

rejoined-grown :
    (b c : ℕ) (part : Text) (parts : List Text)
    → rejoined b (if c == b then [] ∷ part ∷ parts else (c ∷ part) ∷ parts)
      ≡ c ∷ rejoined b (part ∷ parts)
rejoined-grown b c part [] = ground arith
rejoined-grown b c part (next ∷ parts) = ground arith

split-filled : (b : ℕ) (s : Text) → (part : Text) × (parts : List Text) × (split b s ≡ part ∷ parts)
unfolding split
split-filled b [] = ([], [], refl)
split-filled b (c ∷ s) =
    let (part, parts, e) = split-filled b s in
    elim (Bool-cases (c == b)) [
      | inl h ↦ ([], part ∷ parts, rw (e, h, split) refl)
      | inr h ↦ (c ∷ part, parts, rw (e, h, split) refl)
    ]

rejoined-split : (b : ℕ) (s : Text) → rejoined b (split b s) ≡ s
unfolding split
rejoined-split b [] = refl
rejoined-split b (c ∷ s) =
    let (part, parts, e) = split-filled b s in
    rw (e, split)
      (rejoined-grown b c part parts
        ∙ ap (λ l. c ∷ rejoined b l) (sym e)
        ∙ ap (λ l. c ∷ l) (rejoined-split b s))

check_parameter_tests :
    (seen : List Parameter) (name constraint : Text) (p : Parameter)
    → check_parameter seen name constraint ≡ ok p
    → (valid_parameter_name name ≡ true)
      × (is_some (constraint_of constraint) ≡ true)
      × (any (λ q. text_eq q.name name) seen ≡ false)
      × (p ≡ record { name = name; constraint = constraint })
unfolding check_parameter
check_parameter_tests seen name constraint p h = ground arith

check_parameter-passes :
    (seen : List Parameter) (name constraint : Text)
    → IsName name
    → IsConstraint constraint
    → All (λ q. q.name ≢ name) seen
    → check_parameter seen name constraint ≡ ok (record { name = name; constraint = constraint })
unfolding check_parameter
check_parameter-passes seen name constraint n c f =
    let named = (valid_parameter_name_iff name).1 n in
    let known = (known_iff constraint).1 c in let fresh = (fresh_iff seen name).1 f in ground arith

-- What the tests on the parts of a token have found.
check_parts-IsToken :
    (seen : List Parameter) (parts : List Text) (t : Text) (p : Parameter)
    → rejoined b':' parts ≡ t
    → check_parts seen parts ≡ ok p
    → IsToken seen t p
unfolding check_parts
check_parts-IsToken seen [] t p e h = cc
check_parts-IsToken seen (name ∷ []) t p e h =
    let (named, known, fresh, shape) =
      check_parameter_tests seen name (lit "string") p (ground arith) in
    rw shape (record {
      named = (valid_parameter_name_iff name).0 named;
      known = inl refl;
      fresh = (fresh_iff seen name).0 fresh;
      shape = inl (sym e, refl);
    })
check_parts-IsToken seen (name ∷ constraint ∷ []) t p e h =
    let (named, known, fresh, shape) =
      check_parameter_tests seen name constraint p (ground arith) in
    rw shape (record {
      named = (valid_parameter_name_iff name).0 named;
      known = (known_iff constraint).0 known;
      fresh = (fresh_iff seen name).0 fresh;
      shape = inr (sym e);
    })
check_parts-IsToken seen (a ∷ b ∷ c ∷ d) t p e h = cc

parse_token-IsToken :
    (seen : List Parameter) (t : Text) (p : Parameter)
    → parse_token seen t ≡ ok p
    → IsToken seen t p
unfolding parse_token
parse_token-IsToken seen t p h =
    check_parts-IsToken seen (split b':' t) t p (rejoined-split b':' t) (ground arith)

parse_token-alone :
    (seen : List Parameter) (name : Text)
    → IsName name
    → All (λ q. q.name ≢ name) seen
    → parse_token seen name ≡ ok (record { name = name; constraint = lit "string" })
unfolding parse_token check_parts
parse_token-alone seen name n f =
    let part = IsName-IsPart name n in
    rw (part.filled, part.inside, split-whole b':' name part.whole, part.filled)
      (check_parameter-passes seen name (lit "string") n (inl refl) f)

pair_inside :
    (name constraint : Text)
    → contains_any name (lit "{}") ≡ false
    → contains_any constraint (lit "{}") ≡ false
    → contains_any (name ++ b':' ∷ constraint) (lit "{}") ≡ false
unfolding contains_any has_byte lit
pair_inside [] constraint h k = ground arith
pair_inside (c ∷ name) constraint h k = ground (arith, pair_inside name constraint)

pair_filled : (name constraint : Text) → is_nil (name ++ b':' ∷ constraint) ≡ false
pair_filled [] constraint = refl
pair_filled (c ∷ name) constraint = refl

parse_token-pair :
    (seen : List Parameter) (name constraint : Text)
    → IsName name
    → IsConstraint constraint
    → All (λ q. q.name ≢ name) seen
    → parse_token seen (name ++ b':' ∷ constraint)
      ≡ ok (record { name = name; constraint = constraint })
unfolding parse_token check_parts
parse_token-pair seen name constraint n c f =
    let part = IsName-IsPart name n in
    let other = IsConstraint-IsPart constraint c in
    rw
      (
        pair_filled name constraint,
        pair_inside name constraint part.inside other.inside,
        split-two b':' name constraint part.whole other.whole,
        part.filled,
      )
      (check_parameter-passes seen name constraint n c f)

IsToken-parse_token :
    (seen : List Parameter) (t : Text) (p : Parameter)
    → IsToken seen t p
    → parse_token seen t ≡ ok p
IsToken-parse_token seen t p k = elim k.shape [
  | inl (alone, text) ↦
      let same : record { name = p.name; constraint = lit "string" } ≡ p =
        ap (λ c. record { name = p.name; constraint = c }) (sym text) in
      ap (parse_token seen) alone ∙ parse_token-alone seen p.name k.named k.fresh ∙ ap ok same
  | inr pair ↦
      ap (parse_token seen) pair ∙ parse_token-pair seen p.name p.constraint k.named k.known k.fresh
]

-- The code accepts the tokens of the grammar, as what they say, and no others.
pub parse_token_iff :
    (seen : List Parameter) (t : Text) (p : Parameter)
    → (parse_token seen t ≡ ok p) ↔ IsToken seen t p
parse_token_iff seen t p = (parse_token-IsToken seen t p, IsToken-parse_token seen t p)
