-- ===== src/Http/Header.antt =====
-- http.Header: a multimap whose keys are compared in canonical form.
use oashttp.Prelude.{
  ℕ, ◌-◌, Bool, true, false, ◌&&◌, ◌||◌, ◌≡◌, refl, List, [], ◌∷◌, ◌++◌, ◌==◌, leb, arith,
  if◌then◌else◌, all,
}
use oashttp.Prelude.Text.{Text, lit, text_eq, text_eq_iff, text_eq_refl, has_byte, to_lower}

abbrev pub Header : Type 0
Header = List (Text × List Text)

-- The bytes of a token of RFC 9110.
is_token_byte : ℕ → Bool
is_token_byte c =
    leb b'a' c && leb c b'z'
    || leb b'A' c && leb c b'Z'
    || leb b'0' c && leb c b'9'
    || has_byte c (lit "!#$%&'*+-.^_`|~")

to_upper : ℕ → ℕ
to_upper c = if leb b'a' c && leb c b'z' then c - 32 else c

-- The flag is whether the next letter is put in upper case.
recase : Bool → Text → Text
unfolding to_upper to_lower
recase up [] = []
recase up (c ∷ s) = (if up then to_upper c else to_lower c) ∷ recase (c == b'-') s

-- textproto.CanonicalMIMEHeaderKey: a key with a byte outside of tokens stays as it is.
unfoldable pub canonical : Text → Text
unfolding is_token_byte recase all has_byte lit
canonical key = if all is_token_byte key then recase true key else key

unfoldable pub values_of : Text → Header → List Text
values_of key [] = []
values_of key ((k, vs) ∷ h) = if text_eq k key then vs else values_of key h

unfoldable pub put_values : Text → List Text → Header → Header
put_values key vs [] = (key, vs) ∷ []
put_values key vs ((k, ws) ∷ h) =
    if text_eq k key then (k, vs) ∷ h else (k, ws) ∷ put_values key vs h

abbrev first : List Text → Text
first [] = []
first (v ∷ vs) = v

-- Values, Get, Set and Add.
pub header_values : Header → Text → List Text
header_values h key = values_of (canonical key) h

unfoldable pub header_get : Header → Text → Text
unfolding values_of canonical
header_get h key = first (values_of (canonical key) h)

unfoldable pub header_set : Header → Text → Text → Header
header_set h key v = put_values (canonical key) (v ∷ []) h

unfoldable pub header_add : Header → Text → Text → Header
header_add h key v = put_values (canonical key) (values_of (canonical key) h ++ v ∷ []) h

values_of-put :
    (key j : Text) (vs : List Text) (h : Header)
    → values_of j (put_values key vs h) ≡ (if text_eq key j then vs else values_of j h)
unfolding values_of put_values
values_of-put key j vs [] = refl
values_of-put key j vs ((k, ws) ∷ h) =
    ground (arith, text_eq_iff k key, text_eq_iff k j, text_eq_iff key j, values_of-put key j vs h)

pub values-set :
    (h : Header) (key v j : Text)
    → header_values (header_set h key v) j
      ≡ (if text_eq (canonical key) (canonical j) then v ∷ [] else header_values h j)
unfolding header_values header_set
values-set h key v j = values_of-put (canonical key) (canonical j) (v ∷ []) h

pub values-set_self : (h : Header) (key v : Text) → header_values (header_set h key v) key ≡ v ∷ []
values-set_self h key v = rw (values-set h key v key, text_eq_refl)

pub values-set_ne :
    (h : Header) (key v j : Text)
    → text_eq (canonical key) (canonical j) ≡ false
    → header_values (header_set h key v) j ≡ header_values h j
values-set_ne h key v j e = rw (values-set h key v j, e)
