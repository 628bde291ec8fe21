-- ===== src/Prelude/Text.antt =====
-- Go strings as lists of bytes, with the functions of package strings that the program calls.
use Prim.Native.Nat.{ℕ, zero, suc, ◌+◌, ◌-◌}
use Prim.Native.Char.{code}
use Prim.Native.String.{String}
use mathlib.Core.Path.{◌≡◌, refl}
use mathlib.Core.Logic.{◌↔◌}
use mathlib.Core.Bool.{Bool, true, false, ◌&&◌, ◌||◌}
use mathlib.Core.List.{List, [], ◌∷◌, ◌++◌, map, reverse}
use native.Mathlib.Omega.{arith}
use oashttp.Prelude.Tests.{leb, ◌==◌, ==_iff, if◌then◌else◌}
use oashttp.Prelude.Lists.{length, is_nil}

abbrev pub Text : Type 0
Text = List ℕ

-- A literal of the source, all of which are ASCII.
unfoldable pub lit : String → Text
lit String.[] = []
lit (String.◌∷◌ c s) = code c ∷ lit s

-- `s == t`.
unfoldable pub text_eq : Text → Text → Bool
text_eq [] [] = true
text_eq (x ∷ xs) (y ∷ ys) = x == y && text_eq xs ys
text_eq _ _ = false

pub text_eq_iff : (s t : Text) → (text_eq s t ≡ true) ↔ (s ≡ t)
unfolding text_eq
text_eq_iff [] [] = (λ h. refl, λ h. refl)
text_eq_iff [] (y ∷ ys) = (λ h. cc, λ h. cc)
text_eq_iff (x ∷ xs) [] = (λ h. cc, λ h. cc)
text_eq_iff (x ∷ xs) (y ∷ ys) = ground (arith, text_eq_iff xs ys, ==_iff x y)

pub text_eq_refl : (s : Text) → text_eq s s ≡ true
text_eq_refl s = (text_eq_iff s s).1 refl

-- strings.HasPrefix and strings.HasSuffix.
unfoldable pub has_prefix : Text → Text → Bool
has_prefix s [] = true
has_prefix [] (p ∷ ps) = false
has_prefix (c ∷ s) (p ∷ ps) = c == p && has_prefix s ps

unfoldable pub has_suffix : Text → Text → Bool
unfolding has_prefix
has_suffix s p = has_prefix (reverse s) (reverse p)

-- strings.Contains.
unfoldable pub contains : Text → Text → Bool
unfolding has_prefix
contains [] p = is_nil p
contains (c ∷ s) p = has_prefix (c ∷ s) p || contains s p

-- strings.IndexByte(s, b) >= 0.
unfoldable pub has_byte : ℕ → Text → Bool
has_byte b [] = false
has_byte b (c ∷ s) = b == c || has_byte b s

-- strings.ContainsAny, of ASCII characters.
unfoldable pub contains_any : Text → Text → Bool
unfolding has_byte
contains_any [] chars = false
contains_any (c ∷ s) chars = has_byte c chars || contains_any s chars

-- strings.TrimPrefix and strings.TrimSuffix of one byte.
unfoldable pub trim_prefix_byte : Text → ℕ → Text
trim_prefix_byte [] b = []
trim_prefix_byte (c ∷ s) b = if c == b then s else c ∷ s

unfoldable pub trim_suffix_byte : Text → ℕ → Text
trim_suffix_byte [] b = []
trim_suffix_byte (c ∷ []) b = if c == b then [] else c ∷ []
trim_suffix_byte (c ∷ d ∷ s) b = c ∷ trim_suffix_byte (d ∷ s) b

-- The white space of unicode.IsSpace, in UTF-8.
abbrev pub white_space : List Text
white_space =
    (9 ∷ [])
    ∷ (10 ∷ [])
    ∷ (11 ∷ [])
    ∷ (12 ∷ [])
    ∷ (13 ∷ [])
    ∷ (32 ∷ [])
    ∷ (0xC2 ∷ 0x85 ∷ [])
    ∷ (0xC2 ∷ 0xA0 ∷ [])
    ∷ (0xE1 ∷ 0x9A ∷ 0x80 ∷ [])
    ∷ (0xE2 ∷ 0x80 ∷ 0x80 ∷ [])
    ∷ (0xE2 ∷ 0x80 ∷ 0x81 ∷ [])
    ∷ (0xE2 ∷ 0x80 ∷ 0x82 ∷ [])
    ∷ (0xE2 ∷ 0x80 ∷ 0x83 ∷ [])
    ∷ (0xE2 ∷ 0x80 ∷ 0x84 ∷ [])
    ∷ (0xE2 ∷ 0x80 ∷ 0x85 ∷ [])
    ∷ (0xE2 ∷ 0x80 ∷ 0x86 ∷ [])
    ∷ (0xE2 ∷ 0x80 ∷ 0x87 ∷ [])
    ∷ (0xE2 ∷ 0x80 ∷ 0x88 ∷ [])
    ∷ (0xE2 ∷ 0x80 ∷ 0x89 ∷ [])
    ∷ (0xE2 ∷ 0x80 ∷ 0x8A ∷ [])
    ∷ (0xE2 ∷ 0x80 ∷ 0xA8 ∷ [])
    ∷ (0xE2 ∷ 0x80 ∷ 0xA9 ∷ [])
    ∷ (0xE2 ∷ 0x80 ∷ 0xAF ∷ [])
    ∷ (0xE2 ∷ 0x81 ∷ 0x9F ∷ [])
    ∷ (0xE3 ∷ 0x80 ∷ 0x80 ∷ [])
    ∷ []

-- The bytes of the white space character at the front, 0 if there is none.
unfoldable pub space_width : List Text → Text → ℕ
unfolding has_prefix
space_width [] s = 0
space_width (w ∷ ws) s = if has_prefix s w then length w else space_width ws s

-- The number is what is left to skip of a white space character.
unfoldable pub trim_from : List Text → ℕ → Text → Text
unfolding space_width
trim_from ws k [] = []
trim_from ws (suc k) (c ∷ s) = trim_from ws k s
trim_from ws zero (c ∷ s) =
    let w = space_width ws (c ∷ s) in
    let rest = trim_from ws (w - 1) s in if w == 0 then c ∷ s else rest

-- strings.TrimSpace.
unfoldable pub trim_space : Text → Text
unfolding trim_from
trim_space s = reverse (trim_from (map reverse white_space) 0 (reverse (trim_from white_space 0 s)))

-- strings.Split by one byte: the parts so far close at each separator.
unfoldable pub split : ℕ → Text → List Text
split b [] = [] ∷ []
split b (c ∷ s) = elim (split b s) [
  | [] ↦ []
  | part ∷ parts ↦ if c == b then [] ∷ part ∷ parts else (c ∷ part) ∷ parts
]

abbrev close_field : Text → List Text → List Text
close_field [] fields = fields
close_field (c ∷ cs) fields = (c ∷ cs) ∷ fields

-- strings.Fields; the field being read is kept reversed.
unfoldable pub fields_from : ℕ → Text → Text → List Text
unfolding space_width
fields_from k cur [] = close_field (reverse cur) []
fields_from (suc k) cur (c ∷ s) = fields_from k cur s
fields_from zero cur (c ∷ s) =
    let w = space_width white_space (c ∷ s) in
    let closed = close_field (reverse cur) (fields_from (w - 1) [] s) in
    let longer = fields_from zero (c ∷ cur) s in if w == 0 then longer else closed

unfoldable pub fields : Text → List Text
unfolding fields_from
fields s = fields_from 0 [] s

-- ASCII lower case, and strings.EqualFold where one side is of letters other than k and s.
unfoldable pub to_lower : ℕ → ℕ
to_lower c = if leb b'A' c && leb c b'Z' then c + 32 else c

unfoldable pub equal_fold : Text → Text → Bool
unfolding to_lower text_eq
equal_fold s t = text_eq (map to_lower s) (map to_lower t)

-- strings.Join.
unfoldable pub join : Text → List Text → Text
join sep [] = []
join sep (s ∷ []) = s
join sep (s ∷ t ∷ ts) = s ++ (sep ++ join sep (t ∷ ts))

trim_runs :
    (trim_space (lit " \tab c ") ≡ lit "ab c")
    × (fields (lit "  a bc\t d") ≡ lit "a" ∷ lit "bc" ∷ lit "d" ∷ [])
    × (split b',' (lit "a,,b") ≡ lit "a" ∷ [] ∷ lit "b" ∷ [])
unfolding trim_space fields split lit
trim_runs = (refl, refl, refl)

-- Opens all of the functions above, for tests.
unfoldable pub texts : Unit {0}
unfolding lit text_eq has_prefix has_suffix contains has_byte contains_any trim_prefix_byte
    trim_suffix_byte trim_space split fields equal_fold join
texts = tt
