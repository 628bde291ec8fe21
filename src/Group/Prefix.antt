-- ===== src/Group/Prefix.antt =====
-- group.go: what a normalized prefix is.
use oashttp.Prelude.{ℕ, true, false, ◌≡◌, refl, ◌⊎◌, inl, inr, [], ◌∷◌, ok, arith}
use oashttp.Prelude.Text.{
  Text, lit, text_eq, has_prefix, has_byte, contains, contains_any, trim_suffix_byte,
}
use oashttp.Group.{normalize_prefix}
use oashttp.Prelude.Slashes.{contains-slashes, ends_slash}

abbrev pub forbidden : Text
forbidden = b'{' ∷ b'}' ∷ b'?' ∷ b'#' ∷ 0 ∷ []

-- The prefix of a group below the root: it starts with a slash and does not end with one.
pub record IsPrefix (p : Text) : Type 0 where
  pub rooted : has_prefix p (lit "/") ≡ true
  pub plain : contains_any p forbidden ≡ false
  pub no_empty : contains p (lit "//") ≡ false
  pub closed : ends_slash p ≡ false

trim-plain :
    (p : Text)
    → contains_any p forbidden ≡ false
    → contains_any (trim_suffix_byte p b'/') forbidden ≡ false
unfolding contains_any trim_suffix_byte has_byte
trim-plain [] h = refl
trim-plain (c ∷ []) h = ground arith
trim-plain (c ∷ d ∷ s) h = ground (arith, trim-plain (d ∷ s))

trim-prefix-slash :
    (d : ℕ) (s : Text) → has_prefix (trim_suffix_byte (d ∷ s) b'/') (lit "/") ≡ true → d ≡ b'/'
unfolding trim_suffix_byte has_prefix lit
trim-prefix-slash d [] h = ground arith
trim-prefix-slash d (e ∷ s) h = ground arith

trim-no_empty :
    (p : Text)
    → contains p (lit "//") ≡ false
    → contains (trim_suffix_byte p b'/') (lit "//") ≡ false
unfolding has_prefix trim_suffix_byte lit
trim-no_empty [] h = h
trim-no_empty (c ∷ []) h = ground (arith, contains-slashes c [], h)
trim-no_empty (c ∷ d ∷ s) h =
    rw (contains-slashes c (trim_suffix_byte (d ∷ s) b'/'))
      (ground (arith, contains-slashes c (d ∷ s), trim-no_empty (d ∷ s), trim-prefix-slash d s))

trim-closed :
    (c : ℕ) (s : Text)
    → contains (c ∷ s) (lit "//") ≡ false
    → ends_slash (trim_suffix_byte (c ∷ s) b'/') ≡ false
unfolding ends_slash trim_suffix_byte has_prefix lit
trim-closed c [] h = ground arith
trim-closed c (d ∷ []) h = ground (arith, contains-slashes c (d ∷ []))
trim-closed c (d ∷ e ∷ s) h = ground (arith, contains-slashes c (d ∷ e ∷ s), trim-closed d (e ∷ s))

trim-rooted :
    (p : Text)
    → has_prefix p (lit "/") ≡ true
    → text_eq p (lit "/") ≡ false
    → has_prefix (trim_suffix_byte p b'/') (lit "/") ≡ true
unfolding has_prefix trim_suffix_byte lit text_eq
trim-rooted [] h h' = cc
trim-rooted (c ∷ []) h h' = ground arith
trim-rooted (c ∷ d ∷ s) h h' = ground arith

normalize_prefix_inv :
    (raw p : Text)
    → normalize_prefix raw ≡ ok p
    → (p ≡ [])
      ⊎ ((has_prefix raw (lit "/") ≡ true)
          × (contains_any raw forbidden ≡ false)
          × (contains raw (lit "//") ≡ false)
          × (text_eq raw (lit "/") ≡ false)
          × (p ≡ trim_suffix_byte raw b'/'))
unfolding normalize_prefix
normalize_prefix_inv raw p h = ground arith

trim-closed_all :
    (p : Text) → contains p (lit "//") ≡ false → ends_slash (trim_suffix_byte p b'/') ≡ false
unfolding ends_slash trim_suffix_byte
trim-closed_all [] h = refl
trim-closed_all (c ∷ s) h = trim-closed c s h

-- A prefix that normalizePrefix returns is empty, or it starts with a slash, does not end with one,
-- and holds no parameter, no special character and no empty segment.
pub normalize_prefix-IsPrefix : (raw p : Text) → normalize_prefix raw ≡ ok p → (p ≡ []) ⊎ IsPrefix p
normalize_prefix-IsPrefix raw p h = elim (normalize_prefix_inv raw p h) [
  | inl none ↦ inl none
  | inr (rooted, plain, no_empty, below, shape) ↦ inr (
      rw shape (record {
        rooted = trim-rooted raw rooted below;
        plain = trim-plain raw plain;
        no_empty = trim-no_empty raw no_empty;
        closed = trim-closed_all raw no_empty;
      }))
]
