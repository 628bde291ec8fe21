-- ===== src/Route/Parsed.antt =====
-- internal/route/parser.go: what a parsed pattern guarantees.
use oashttp.Prelude.{
  true, false, ◌≡◌, ◌≢◌, refl, ap, sym, ◌∙◌, ◌↔◌, List, [], ◌∷◌, ◌++◌, none, is_some, Result, ok,
  err, ◌>>=◌, arith, if◌then◌else◌, is_nil, any, All,
}
use oashttp.Prelude.Text.{
  Text, lit, text_eq, text_eq_iff, has_prefix, has_suffix, contains, contains_any,
}
use oashttp.Route.{Parameter, Pattern, Error, Built, valid_parameter_name, scan, parse}
use oashttp.Route.Token.{IsToken, fresh_iff, known_iff, valid_parameter_name_iff}
use oashttp.Route.Constraint.{constraint_of}
use oashttp.Route.Grammar.{Reads, stop, plain, token, scan_complete, scan_sound}

abbrev pub special : Text
special = b'?' ∷ b'#' ∷ 0 ∷ []

abbrev pub mux_path : Text → Text
mux_path s = if has_suffix s (lit "/") then s ++ lit "{$}" else s

-- The specification of Parse.
pub record IsParse (path : Text) (q : Pattern) : Type 0 where
  pub rooted : has_prefix path (lit "/") ≡ true
  pub no_special : contains_any path special ≡ false
  pub no_empty : contains path (lit "//") ≡ false
  pub reads : Reads [] path q.open_api_path q.parameters
  pub user : q.user_path ≡ path
  pub mux : q.serve_mux_path ≡ mux_path q.open_api_path

abbrev built : Text → Built → Pattern
built path (out, ps) = record {
  user_path = path;
  serve_mux_path = mux_path out;
  open_api_path = out;
  parameters = ps;
}

rooted-not-nil : (path : Text) → has_prefix path (lit "/") ≡ true → is_nil path ≡ false
unfolding has_prefix lit
rooted-not-nil [] h = cc
rooted-not-nil (c ∷ s) h = refl

parse_steps :
    (path : Text)
    → has_prefix path (lit "/") ≡ true
    → contains_any path special ≡ false
    → contains path (lit "//") ≡ false
    → parse path ≡ (scan [] none path >>= λ b. ok (built path b))
unfolding parse
parse_steps path h h' h'' = rw (rooted-not-nil path h, h, h', h'')

parse_checks :
    (path : Text) (q : Pattern)
    → parse path ≡ ok q
    → (has_prefix path (lit "/") ≡ true)
      × (contains_any path special ≡ false)
      × (contains path (lit "//") ≡ false)
unfolding parse
parse_checks path q h = ground arith

built_inv :
    (path : Text) (r : Result Error Built) (q : Pattern)
    → (r >>= λ b. ok (built path b)) ≡ ok q
    → (out : Text) × (ps : List Parameter) × (r ≡ ok (out, ps)) × (q ≡ built path (out, ps))
built_inv path (ok (out, ps)) q h = (out, ps, refl, ground arith)
built_inv path (err x) q h = cc

-- Parse succeeds exactly on the paths that start with a slash, hold no `?`, `#` or NUL and no two
-- slashes in a row, and are rows of bytes and tokens in braces: every token is a name of letters,
-- digits and underscores that no digit starts, with nothing or a colon and one of the seven
-- constraints behind it, and no two tokens have the same name; the OpenAPI path is the row with each token cut to its name, and
-- the ServeMux path is the same with `{$}` behind a slash at the end.
pub parse_iff : (path : Text) (q : Pattern) → (parse path ≡ ok q) ↔ IsParse path q
parse_iff path q = (to, from)
  where
    to : parse path ≡ ok q → IsParse path q
    to h =
        let (rooted, no_special, no_empty) = parse_checks path q h in
        let (out, ps, found, shape) =
          built_inv path (scan [] none path) q
            (sym (parse_steps path rooted no_special no_empty) ∙ h) in
        rw shape (record {
          rooted = rooted;
          no_special = no_special;
          no_empty = no_empty;
          reads = scan_sound [] path out ps found;
          user = refl;
          mux = refl;
        })

    from : IsParse path q → parse path ≡ ok q
    from p =
        parse_steps path p.rooted p.no_special p.no_empty
        ∙ ap (λ r. r >>= λ b. ok (built path b)) (scan_complete p.reads)
        ∙ ground arith

-- A parameter of an accepted token.
pub record IsAccepted (seen : List Parameter) (p : Parameter) : Type 0 where
  pub named : valid_parameter_name p.name ≡ true
  pub known : is_some (constraint_of p.constraint) ≡ true
  pub fresh : any (λ q. text_eq q.name p.name) seen ≡ false

pub IsToken-IsAccepted :
    {seen : List Parameter} {t : Text} {p : Parameter} → IsToken seen t p → IsAccepted seen p
IsToken-IsAccepted {seen} {p = p} k = record {
  named = (valid_parameter_name_iff p.name).1 k.named;
  known = (known_iff p.constraint).1 k.known;
  fresh = (fresh_iff seen p.name).1 k.fresh;
}

-- No parameter has the name of one before it.
abbrev pub IsFresh : List Parameter → Parameter → Type 0
IsFresh seen p = All (λ q. q.name ≢ p.name) seen

abbrev pub IsDistinct : List Parameter → Type 0
IsDistinct [] = Unit
IsDistinct (p ∷ ps) = All (λ q. p.name ≢ q.name) ps × IsDistinct ps

-- A name that a Go program could use, and one of the seven constraints.
abbrev pub IsUsable : Parameter → Type 0
IsUsable p = (valid_parameter_name p.name ≡ true) × (is_some (constraint_of p.constraint) ≡ true)

IsFresh-of_any :
    (seen : List Parameter) (p : Parameter)
    → any (λ q. text_eq q.name p.name) seen ≡ false
    → IsFresh seen p
unfolding any
IsFresh-of_any [] p h = tt
IsFresh-of_any (q ∷ seen) p h =
    ((λ e. ground (arith, text_eq_iff q.name p.name)), IsFresh-of_any seen p (ground arith))

All-snoc {ℓ κ} :
    {A : Type ℓ} (P : A → Type κ) (xs : List A) (x : A) → All P (xs ++ x ∷ []) → All P xs × P x
All-snoc P [] x h = (tt, h.0)
All-snoc P (y ∷ xs) x h = let (t, l) = All-snoc P xs x h.1 in ((h.0, t), l)

-- Seen from the front: each parameter of the rest differs from all those before.
after_seen :
    (seen : List Parameter) (p : Parameter) (ps : List Parameter)
    → All (IsFresh (seen ++ p ∷ [])) ps
    → All (IsFresh seen) ps × All (λ q. p.name ≢ q.name) ps
after_seen seen p [] h = (tt, tt)
after_seen seen p (q ∷ ps) h =
    let (rest, differ) = after_seen seen p ps h.1 in
    let (old, last) = All-snoc (λ r. r.name ≢ q.name) seen p h.0 in ((old, rest), (last, differ))

Reads-IsDistinct :
    {seen : List Parameter} {s out : Text} {ps : List Parameter}
    → Reads seen s out ps
    → All (IsFresh seen) ps × IsDistinct ps × All IsUsable ps
Reads-IsDistinct stop = (tt, tt, tt)
Reads-IsDistinct (plain c h h' r) = Reads-IsDistinct r
Reads-IsDistinct {seen} (token {ps = ps} t p h e r) =
    let good = IsToken-IsAccepted e in
    let (fresh, distinct, usable) = Reads-IsDistinct r in
    let (old, differ) = after_seen seen p ps fresh in
    (
      (IsFresh-of_any seen p good.fresh, old),
      (differ, distinct),
      ((good.named, good.known), usable),
    )

-- In a pattern that Parse returns no two parameters have the same name, and every parameter has a
-- valid name and a known constraint.
pub parse-IsDistinct :
    (path : Text) (q : Pattern)
    → parse path ≡ ok q
    → IsDistinct q.parameters × All IsUsable q.parameters
parse-IsDistinct path q h =
    let (fresh, distinct, usable) = Reads-IsDistinct ((parse_iff path q).0 h).reads in
    (distinct, usable)
