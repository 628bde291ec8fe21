-- ===== src/Reflect/Digits.antt =====
-- The digits of a number: strconv.Itoa gives different numbers different texts.
use oashttp.Prelude.{
  Bool-cases, [], ap, arith, inl, inr, leb, ltb, some, suc, sym, zero, ℕ, ◌&&◌, ◌*◌, ◌++◌, ◌+◌, ◌-◌,
  ◌<◌, ◌∙◌, ◌∷◌, ◌≡◌,
}
use oashttp.Prelude.Text.{Text}
use Prim.Native.Nat.{◌%◌, ◌/◌, ◌^◌}
use oashttp.Route.Constraint.{digits_value}
use oashttp.Reflect.Integer.{format_digits, itoa}

digits_value-snoc :
    (s : Text) (acc n d : ℕ)
    → digits_value acc s ≡ some n
    → d < 10
    → digits_value acc (s ++ (b'0' + d) ∷ []) ≡ some (n * 10 + d)
unfolding digits_value
digits_value-snoc [] acc n d e h = let same : acc ≡ n = ground arith in rw same (ground arith)
digits_value-snoc (c ∷ s) acc n d e h = elim (Bool-cases (leb b'0' c && leb c b'9')) [
  | inl g ↦ rw g (digits_value-snoc s (acc * 10 + (c - b'0')) n d (ground arith) h)
  | inr g ↦ ground arith
]

format_digits-value : (fuel n : ℕ) → n < 10 ^ fuel → digits_value 0 (format_digits fuel n) ≡ some n
unfolding digits_value format_digits
format_digits-value zero n h = ground arith
format_digits-value (suc fuel) n h = elim (Bool-cases (ltb n 10)) [
  | inl e ↦ rw (e, digits_value) (ground arith)
  | inr e ↦
      let shorter : n / 10 < 10 ^ fuel = omega (arith, h) in
      let front = format_digits-value fuel (n / 10) shorter in
      let last =
        digits_value-snoc (format_digits fuel (n / 10)) 0 (n / 10) (n % 10) front (omega arith) in
      let whole : n / 10 * 10 + n % 10 ≡ n = omega arith in rw e (last ∙ ap some whole)
]

pub itoa_injective : (m n : ℕ) → m < 10 ^ 20 → n < 10 ^ 20 → itoa m ≡ itoa n → m ≡ n
unfolding itoa
itoa_injective m n h k e =
    let same : some m ≡ some n =
      sym (format_digits-value 20 m h) ∙ ap (digits_value 0) e ∙ format_digits-value 20 n k in
    ground arith
