-- ===== src/Group/Mount.antt =====
-- group.go: routes below a prefix.
use mathlib.Core.List.{reverse-append, reverse-cons}
use oashttp.Prelude.{
  ℕ, true, false, ◌≡◌, ◌≢◌, refl, ap, sym, ◌∙◌, inl, inr, List, [], ◌∷◌, ◌++◌, reverse,
  append_assoc, ok, arith, Bool-cases, is_nil,
}
use oashttp.Prelude.Text.{
  Text, lit, text_eq, has_prefix, has_suffix, has_byte, contains_any, trim_prefix_byte,
}
use oashttp.Prelude.Slashes.{contains_any-append, contains-append}
use oashttp.Route.{Parameter, Pattern, parse}
use oashttp.Route.Grammar.{Reads, plain}
use oashttp.Route.Parsed.{parse_iff, special, mux_path}
use oashttp.Route.Normal.{slash-prefix}
use oashttp.Group.{join_paths}
use oashttp.Group.Prefix.{IsPrefix, forbidden}

-- A text that starts with a slash.
pub rooted-shape : (s : Text) → has_prefix s (lit "/") ≡ true → (t : Text) × (s ≡ b'/' ∷ t)
unfolding has_prefix lit
rooted-shape [] h = cc
rooted-shape (c ∷ s) h = (s, ground arith)

pub slash-ne : (c : ℕ) (s : Text) → text_eq (b'/' ∷ c ∷ s) (lit "/") ≡ false
unfolding text_eq lit
slash-ne c s = refl

pub slash-front : (s : Text) → has_prefix (b'/' ∷ s) (lit "/") ≡ true
unfolding has_prefix lit
slash-front s = refl

-- Below a prefix, a path that is more than a slash is put behind it.
pub join_paths-append :
    (p s : Text) → is_nil p ≡ false → s ≢ [] → join_paths p (b'/' ∷ s) ≡ p ++ b'/' ∷ s
unfolding join_paths trim_prefix_byte lit
join_paths-append p [] h ne = absurd (ne refl)
join_paths-append p (c ∷ s) h ne = rw (h, slash-ne c s)

Reads-prefix :
    (p : Text) {seen : List Parameter} {s out : Text} {ps : List Parameter}
    → contains_any p forbidden ≡ false
    → Reads seen s out ps
    → Reads seen (p ++ s) (p ++ out) ps
unfolding contains_any has_byte
Reads-prefix [] h r = r
Reads-prefix (c ∷ p) h r =
    plain c (λ e. ground arith) (λ e. ground arith) (Reads-prefix p (ground arith) r)

no_special-prefix : (p : Text) → contains_any p forbidden ≡ false → contains_any p special ≡ false
unfolding contains_any has_byte
no_special-prefix [] h = refl
no_special-prefix (c ∷ p) h = ground (arith, no_special-prefix p)

prefix-head :
    (r : Text) (c : ℕ) (x : Text)
    → has_prefix ((r ++ c ∷ []) ++ x) (lit "/") ≡ has_prefix (r ++ c ∷ []) (lit "/")
unfolding has_prefix lit
prefix-head [] c x = refl
prefix-head (d ∷ r) c x = refl

suffix-append :
    (p s : Text) (c : ℕ) → has_suffix (p ++ c ∷ s) (lit "/") ≡ has_suffix (c ∷ s) (lit "/")
unfolding has_suffix lit
suffix-append p s c =
    rw (reverse-append p (c ∷ s), reverse-cons c s) (prefix-head (reverse s) c (reverse p))

mux_path-append :
    (p out : Text) → has_prefix out (lit "/") ≡ true → mux_path (p ++ out) ≡ p ++ mux_path out
mux_path-append p out h =
    let (t, shape) = rooted-shape out h in
    rw shape (
      rw (suffix-append p t b'/') (elim (Bool-cases (has_suffix (b'/' ∷ t) (lit "/"))) [
        | inl e ↦ rw e (append_assoc p (b'/' ∷ t) (lit "{$}"))
        | inr e ↦ rw e
      ]))

-- A route mounted below a group's prefix is the same route behind that prefix: where Parse accepts
-- the path, and it is not "/", Parse accepts the joined path, puts the prefix in front of the user,
-- OpenAPI and ServeMux paths, and gives the same parameters.
pub parse-join_paths :
    (p path : Text) (q : Pattern)
    → IsPrefix p
    → parse path ≡ ok q
    → path ≢ b'/' ∷ []
    → parse (join_paths p path)
      ≡ ok (record {
        user_path = p ++ path;
        serve_mux_path = p ++ q.serve_mux_path;
        open_api_path = p ++ q.open_api_path;
        parameters = q.parameters;
      })
parse-join_paths p path q v h ne =
    let r = (parse_iff path q).0 h in
    let (t, shape) = rooted-shape path r.rooted in
    let (u, shape') = rooted-shape p v.rooted in
    let joined : join_paths p path ≡ p ++ path =
      rw shape (join_paths-append p t (rw shape' refl) (λ e. ne (rw (shape, e)))) in
    rw joined (
      (parse_iff (p ++ path) _).1 (record {
        rooted = rw shape' (slash-front (u ++ path));
        no_special =
            rw (contains_any-append p path special, no_special-prefix p v.plain, r.no_special);
        no_empty = contains-append p path v.closed v.no_empty r.no_empty;
        reads = Reads-prefix p v.plain r.reads;
        user = refl;
        mux =
            ap (λ s. p ++ s) r.mux
            ∙ sym (mux_path-append p q.open_api_path (slash-prefix r.reads ∙ r.rooted));
      }))
