-- ===== src/Prelude/Slashes.antt =====
-- Empty segments and special characters of a path, across concatenation.
use mathlib.Core.Bool.{or-true, false≢true}
use oashttp.Prelude.{
  ℕ, Bool, true, false, ◌&&◌, ◌||◌, ◌≡◌, refl, sym, ◌∙◌, inl, inr, [], ◌∷◌, ◌++◌, ◌==◌, arith,
  Bool-cases,
}
use oashttp.Prelude.Text.{Text, lit, has_prefix, contains, contains_any}

pub contains_any-append :
    (s t chars : Text)
    → contains_any (s ++ t) chars ≡ (contains_any s chars || contains_any t chars)
unfolding contains_any
contains_any-append [] t chars = refl
contains_any-append (c ∷ s) t chars = ground (arith, contains_any-append s t chars)

-- `//`, one slash at a time.
pub contains-slashes :
    (c : ℕ) (s : Text)
    → contains (c ∷ s) (lit "//") ≡ (c == b'/' && has_prefix s (lit "/") || contains s (lit "//"))
unfolding contains has_prefix lit
contains-slashes c [] = refl
contains-slashes c (d ∷ s) = refl

pub contains-append_right :
    (t s : Text) → contains s (lit "//") ≡ true → contains (t ++ s) (lit "//") ≡ true
contains-append_right [] s h = h
contains-append_right (c ∷ t) s h =
    rw (contains-slashes c (t ++ s), contains-append_right t s h) (or-true _)

pub not-contains-right :
    (t s : Text) → contains (t ++ s) (lit "//") ≡ false → contains s (lit "//") ≡ false
not-contains-right t s h = elim (Bool-cases (contains s (lit "//"))) [
  | inl bad ↦ absurd (false≢true (sym h ∙ contains-append_right t s bad))
  | inr good ↦ good
]

-- `strings.HasSuffix(s, "/")`, from the front.
unfoldable pub ends_slash : Text → Bool
ends_slash [] = false
ends_slash (c ∷ []) = c == b'/'
ends_slash (c ∷ d ∷ s) = ends_slash (d ∷ s)

-- Behind a text that does not end with a slash no new empty segment comes up.
pub contains-append :
    (s t : Text)
    → ends_slash s ≡ false
    → contains s (lit "//") ≡ false
    → contains t (lit "//") ≡ false
    → contains (s ++ t) (lit "//") ≡ false
unfolding ends_slash has_prefix lit
contains-append [] t e h k = k
contains-append (c ∷ []) t e h k = rw (contains-slashes c t) (ground arith)
contains-append (c ∷ d ∷ s) t e h k =
    rw (contains-slashes c (d ∷ (s ++ t)))
      (ground (arith, contains-slashes c (d ∷ s), contains-append (d ∷ s) t))
