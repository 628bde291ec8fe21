-- ===== src/Group/Nested.antt =====
-- group.go: groups of groups.
use mathlib.Core.Bool.{false≢true}
use oashttp.Prelude.{
  ℕ, true, false, ◌||◌, ◌≡◌, ◌≢◌, refl, sym, ◌∙◌, ◌⊎◌, inl, inr, [], ◌∷◌, ◌++◌, append_assoc, ok,
  err, arith, Bool-cases, is_nil,
}
use oashttp.Prelude.Text.{Text, lit, text_eq, has_byte, contains_any, trim_prefix_byte}
use oashttp.Prelude.Slashes.{contains-slashes, ends_slash}
use oashttp.Route.{Pattern, empty_segment, parse}
use oashttp.Route.Parsed.{parse_iff, special}
use oashttp.Group.{join_paths}
use oashttp.Group.Prefix.{IsPrefix}
use oashttp.Group.Mount.{rooted-shape, slash-front, join_paths-append}

-- The prefix of a group: none for the root.
abbrev pub IsGroup : Text → Type 0
IsGroup p = (p ≡ []) ⊎ IsPrefix p

slash-ends : ends_slash (b'/' ∷ []) ≡ true
unfolding ends_slash
slash-ends = refl

-- A normalized prefix below the root is more than a slash.
prefix-shape : (p : Text) → IsPrefix p → (c : ℕ) × (t : Text) × (p ≡ b'/' ∷ c ∷ t)
prefix-shape p v = let (t, shape) = rooted-shape p v.rooted in longer t shape
  where
    longer : (t : Text) → p ≡ b'/' ∷ t → (c : ℕ) × (t' : Text) × (p ≡ b'/' ∷ c ∷ t')
    longer [] e = absurd (false≢true (sym v.closed ∙ rw e slash-ends))
    longer (c ∷ t) e = (c, t, e)

join_paths-root : (path : Text) → path ≢ [] → join_paths [] path ≡ path
unfolding join_paths
join_paths-root [] ne = absurd (ne refl)
join_paths-root (c ∷ path) ne = refl

-- Below a prefix nothing is added by the empty path or by a slash.
join_paths_self :
    (p path : Text)
    → is_nil p ≡ false
    → (is_nil path || text_eq path (lit "/")) ≡ true
    → join_paths p path ≡ p
unfolding join_paths
join_paths_self p path h e = rw (h, e)

join_paths-below :
    (p path : Text)
    → is_nil p ≡ false
    → (is_nil path || text_eq path (lit "/")) ≡ false
    → join_paths p path ≡ p ++ b'/' ∷ trim_prefix_byte path b'/'
unfolding join_paths lit
join_paths-below p path h e = rw (h, e)

append-ne-nil : (p s : Text) (c : ℕ) → is_nil (p ++ c ∷ s) ≡ false
append-ne-nil [] s c = refl
append-ne-nil (d ∷ p) s c = refl

join_paths-ne-nil : (p path : Text) → is_nil p ≡ false → join_paths p path ≢ []
unfolding join_paths
join_paths-ne-nil [] path h = cc
join_paths-ne-nil (c ∷ p) path h = ground arith

-- A slash and the empty path are the same below a prefix.
join_paths-none :
    (p path : Text) → is_nil p ≡ false → join_paths p (join_paths [] path) ≡ join_paths p path
unfolding join_paths text_eq lit
join_paths-none p [] h = ground arith
join_paths-none p (c ∷ path) h = refl

-- Two groups below the root.
join_below :
    (p t : Text) (c : ℕ) (path : Text)
    → is_nil p ≡ false
    → join_paths (p ++ b'/' ∷ c ∷ t) path ≡ join_paths p (join_paths (b'/' ∷ c ∷ t) path)
join_below p t c path h = elim (Bool-cases (is_nil path || text_eq path (lit "/"))) [
  | inl e ↦
      rw
        (
          join_paths_self (b'/' ∷ c ∷ t) path refl e,
          join_paths_self (p ++ b'/' ∷ c ∷ t) path (append-ne-nil p (c ∷ t) b'/') e,
        )
        (sym (join_paths-append p (c ∷ t) h (λ n. cc)))
  | inr e ↦
      rw
        (
          join_paths-below (b'/' ∷ c ∷ t) path refl e,
          join_paths-below (p ++ b'/' ∷ c ∷ t) path (append-ne-nil p (c ∷ t) b'/') e,
        )
        (append_assoc p (b'/' ∷ c ∷ t) (b'/' ∷ trim_prefix_byte path b'/')
          ∙ sym (join_paths-append p (c ∷ (t ++ b'/' ∷ trim_prefix_byte path b'/')) h (λ n. cc)))
]

-- Groups nest: a route in the child with prefix r of a group with prefix p has the path that it
-- would have if the prefix r were part of the route, unless both groups are without a prefix.
pub join_paths_assoc :
    (p r path : Text)
    → IsGroup p
    → IsGroup r
    → (p ≢ []) ⊎ (r ≢ [])
    → join_paths (join_paths p r) path ≡ join_paths p (join_paths r path)
join_paths_assoc p r path (inl e) (inl e') (inl never) = absurd (never e)
join_paths_assoc p r path (inl e) (inl e') (inr never) = absurd (never e')
join_paths_assoc p r path (inl e) (inr w) ne =
    let (t, shape) = rooted-shape r w.rooted in
    rw (e, join_paths-root r (λ n. cc (n, shape)))
      (sym (join_paths-root (join_paths r path) (join_paths-ne-nil r path (rw shape refl))))
join_paths_assoc p r path (inr v) (inl e') ne =
    let (t, shape) = rooted-shape p v.rooted in
    rw (e', join_paths_self p [] (rw shape refl) refl)
      (sym (join_paths-none p path (rw shape refl)))
join_paths_assoc p r path (inr v) (inr w) ne =
    let (c, t, shape) = prefix-shape r w in
    let (u, shape') = rooted-shape p v.rooted in
    rw (shape, join_paths-append p (c ∷ t) (rw shape' refl) (λ n. cc))
      (join_below p t c path (rw shape' refl))

slash_below_slash : (t : Text) → t ≢ [] → join_paths (join_paths [] []) (b'/' ∷ t) ≡ b'/' ∷ b'/' ∷ t
unfolding join_paths trim_prefix_byte text_eq lit
slash_below_slash [] ne = absurd (ne refl)
slash_below_slash (c ∷ t) ne = refl

slash_special :
    (s : Text) → contains_any s special ≡ false → contains_any (b'/' ∷ s) special ≡ false
unfolding contains_any has_byte
slash_special s h = h

-- A group of the root group, both without a prefix, breaks the routes in it: every path other than
-- "/" that Parse accepts is refused there, as a path with an empty segment.
pub root_of_root_refuses :
    (path : Text) (q : Pattern)
    → parse path ≡ ok q
    → path ≢ b'/' ∷ []
    → parse (join_paths (join_paths [] []) path) ≡ err empty_segment
unfolding parse
root_of_root_refuses path q h ne =
    let r = (parse_iff path q).0 h in
    let (t, shape) = rooted-shape path r.rooted in
    let joined : join_paths (join_paths [] []) path ≡ b'/' ∷ path =
      rw shape (slash_below_slash t (λ e. ne (rw (shape, e)))) in
    rw (
      joined,
      slash-front path,
      contains-slashes b'/' path,
      r.rooted,
      slash_special path r.no_special,
    )
