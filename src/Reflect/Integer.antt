-- ===== src/Reflect/Integer.antt =====
-- The integers of Go, and what package strconv makes of their texts.
use oashttp.Prelude.{
  ℕ, zero, suc, ◌+◌, ◌-◌, Option, none, some, [], ◌∷◌, ◌++◌, ltb, leb, ◌==◌, if◌then◌else◌,
}
use Prim.Native.Nat.{◌/◌, ◌%◌, ◌^◌}
use oashttp.Prelude.Text.{Text}
use oashttp.Route.Constraint.{digits_value}

-- A signed integer, by its sign and its magnitude.
pub data Integer : Type 0 where
  positive negative : ℕ → Integer

abbrev pub bounded : (ℕ → Integer) → ℕ → Option ℕ → Option Integer
bounded sign limit none = none
bounded sign limit (some n) = if leb n limit then some (sign n) else none

-- The value of a row of digits that is not empty.
unfoldable pub magnitude : Text → Option ℕ
unfolding digits_value
magnitude [] = none
magnitude (c ∷ s) = digits_value 0 (c ∷ s)

-- strconv.ParseInt in base 10, and Atoi for 64 bits; `half` is 2 ^ (bits - 1).
unfoldable pub parse_int : ℕ → Text → Option Integer
unfolding magnitude
parse_int half [] = none
parse_int half (c ∷ s) =
    if c == b'-'
    then bounded negative half (magnitude s)
    else if c == b'+'
    then bounded positive (half - 1) (magnitude s)
    else bounded positive (half - 1) (magnitude (c ∷ s))

-- strconv.FormatUint; a number below 10 ^ fuel has at most that many digits.
unfoldable pub format_digits : ℕ → ℕ → Text
format_digits zero n = []
format_digits (suc fuel) n =
    let front = format_digits fuel (n / 10) in
    if ltb n 10 then (b'0' + n) ∷ [] else front ++ (b'0' + n % 10) ∷ []

unfoldable pub format_int : ℕ → Integer → Text
unfolding format_digits
format_int fuel (positive n) = format_digits fuel n
format_int fuel (negative n) = if n == 0 then format_digits fuel 0 else b'-' ∷ format_digits fuel n

-- strconv.Itoa of a natural number: 20 digits are enough for 64 bits.
unfoldable pub itoa : ℕ → Text
unfolding format_digits
itoa n = format_digits 20 n

-- strconv.ParseUint in base 10.
unfoldable pub bounded_magnitude : ℕ → Text → Option ℕ
unfolding magnitude
bounded_magnitude bits text = elim (magnitude text) [
  | none ↦ none
  | some n ↦ if ltb n (2 ^ bits) then some n else none
]

abbrev pub unsigned : Option ℕ → ℕ → Option Integer
unsigned o limit = bounded positive limit o
