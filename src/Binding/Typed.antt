-- ===== src/Binding/Typed.antt =====
-- internal/binding/scalar.go: what is set has the type of its field.
use mathlib.Core.Path.{subst}
use oashttp.Prelude.{
  Bool, Bool-cases, Option, Option-cases, Result, Result-cases, [], ap, arith, err, inl, inr, leb,
  none, ok, refl, some, sym, true, ℕ, ◌-◌, ◌<◌, ◌==◌, ◌∷◌, ◌≡◌, ◌≤◌,
}
use oashttp.Prelude.Text.{Text, lit, text_eq_iff}
use Prim.Native.Nat.{◌^◌}
use oashttp.Reflect.GoType.{
  ReflectType, Structs, array, bool_type, defined_type, float_type, int_type, map_type, other_type,
  pointer, slice, string_type, struct_type, uint_type,
}
use oashttp.Reflect.Integer.{
  Integer, bounded, bounded_magnitude, magnitude, negative, parse_int, positive,
}
use oashttp.Reflect.Value.{
  HasType, Value, has_bool, has_defined, has_float, has_negative, has_no_pointer, has_pointer,
  has_positive, has_text, has_uint, int_value, uint_value,
}
use oashttp.Reflect.Typed.{HasType-defined, IsRanked, power-positive, zero_value-HasType}
use oashttp.Route.Constraint.{parses_bool}
use oashttp.Binding.Scalar.{
  Conversions, fresh, is_time, made_float, or_message, parse_scalar, pointee, rfc3339, set_if,
  set_plain, set_scalar,
}

-- The numbers that strconv gives fit the bits that it is asked for.
abbrev pub Fits : ℕ → Integer → Type 0
Fits half (positive n) = n < half
Fits half (negative n) = n ≤ half

bounded-Fits :
    (half : ℕ) (o : Option ℕ) (n : Integer)
    → 0 < half
    → bounded positive (half - 1) o ≡ some n
    → Fits half n
bounded-Fits half none n h e = cc
bounded-Fits half (some m) n h e = elim (Bool-cases (leb m (half - 1))) [
  | inl fits ↦ let is : n ≡ positive m = ground arith in subst (Fits half) (sym is) (ground arith)
  | inr over ↦ ground arith
]

bounded_negative-Fits :
    (half : ℕ) (o : Option ℕ) (n : Integer) → bounded negative half o ≡ some n → Fits half n
bounded_negative-Fits half none n e = cc
bounded_negative-Fits half (some m) n e = elim (Bool-cases (leb m half)) [
  | inl fits ↦ let is : n ≡ negative m = ground arith in subst (Fits half) (sym is) (ground arith)
  | inr over ↦ ground arith
]

parse_int-Fits :
    (half : ℕ) (text : Text) (n : Integer) → 0 < half → parse_int half text ≡ some n → Fits half n
unfolding parse_int
parse_int-Fits half [] n h e = cc
parse_int-Fits half (c ∷ s) n h e = elim (Bool-cases (c == b'-')) [
  | inl m ↦ bounded_negative-Fits half (magnitude s) n (ground arith)
  | inr m ↦ elim (Bool-cases (c == b'+')) [
    | inl p ↦ bounded-Fits half (magnitude s) n h (ground arith)
    | inr p ↦ bounded-Fits half (magnitude (c ∷ s)) n h (ground arith)
  ]
]

bounded_magnitude-lt :
    (bits : ℕ) (text : Text) (n : ℕ) → bounded_magnitude bits text ≡ some n → n < 2 ^ bits
unfolding bounded_magnitude
bounded_magnitude-lt bits text n e = ground arith

-- What packages time and encoding/json and the application's unmarshalers do with values of types.
pub record IsTyped {F O : Type 0} (structs : Structs) (lib : Conversions F O) : Type 0 where
  pub parsed_time :
      (layout text : Text) (v : Value F O)
      → lib.parse_time layout text ≡ ok v
      → HasType structs v (struct_type (lit "time.Time"))
  pub unmarshalled :
      (t : ReflectType) (unmarshal : Value F O → Text → Value F O × Option Text)
      → lib.unmarshal_text t ≡ some unmarshal
      → (old : Value F O) (text : Text) → HasType structs old t
      → HasType structs (unmarshal old text).0 t
  pub decoded :
      (disallow : Bool) (t : ReflectType) (old : Value F O) (text : Text)
      → HasType structs old t
      → HasType structs (lib.decode_json disallow t old text).0 t

module _ {F O : Type 0} (structs : Structs) (lib : Conversions F O) (typed : IsTyped structs lib)
    (rank : Text → ℕ) (ranked : IsRanked structs rank) where
  pub fresh-HasType : (t : ReflectType) → HasType structs (fresh structs lib t) t
  fresh-HasType t = zero_value-HasType structs rank ranked lib.zero_float lib.zero_other t

  -- A result that holds a value holds one of the type.
  abbrev pub Holds : ReflectType → Result Text (Value F O) → Type 0
  Holds t (err message) = Unit
  Holds t (ok v) = HasType structs v t

  int_value-HasType :
      (bits : ℕ) (n : Integer)
      → Fits (2 ^ (bits - 1)) n
      → HasType {F = F} {O = O} structs (int_value n) (int_type bits)
  int_value-HasType bits (positive n) h = has_positive h
  int_value-HasType bits (negative n) h = has_negative h

  int-Holds :
      (bits : ℕ) (message : Text) (o : Option Integer)
      → ((n : Integer) → o ≡ some n → Fits (2 ^ (bits - 1)) n)
      → Holds (int_type bits) (or_message structs lib message o int_value)
  int-Holds bits message none h = tt
  int-Holds bits message (some n) h = int_value-HasType bits n (h n refl)

  uint-Holds :
      (bits : ℕ) (message : Text) (o : Option ℕ)
      → ((n : ℕ) → o ≡ some n → n < 2 ^ bits)
      → Holds (uint_type bits) (or_message structs lib message o uint_value)
  uint-Holds bits message none h = tt
  uint-Holds bits message (some n) h = has_uint (h n refl)

  float-Holds : (bits : ℕ) (r : Result Text F) → Holds (float_type bits) (made_float structs lib r)
  float-Holds bits (err message) = tt
  float-Holds bits (ok x) = has_float x

  parse_scalar-Holds : (t : ReflectType) (text : Text) → Holds t (parse_scalar structs lib t text)
  unfolding parse_scalar
  parse_scalar-Holds string_type text = has_text text
  parse_scalar-Holds bool_type text = elim (Bool-cases (parses_bool text)) [
    | inl e ↦ rw e (has_bool _)
    | inr e ↦ rw e tt
  ]
  parse_scalar-Holds (int_type bits) text =
      int-Holds bits _ (parse_int (2 ^ (bits - 1)) text)
        (λ n. parse_int-Fits (2 ^ (bits - 1)) text n (power-positive (bits - 1)))
  parse_scalar-Holds (uint_type bits) text =
      uint-Holds bits _ (bounded_magnitude bits text) (bounded_magnitude-lt bits text)
  parse_scalar-Holds (float_type bits) text = float-Holds bits (lib.parse_float bits text)
  parse_scalar-Holds (pointer t) text = tt
  parse_scalar-Holds (slice t) text = tt
  parse_scalar-Holds (array n t) text = tt
  parse_scalar-Holds (map_type k t) text = tt
  parse_scalar-Holds (struct_type name) text = tt
  parse_scalar-Holds (other_type name) text = tt
  parse_scalar-Holds (defined_type name t) text = tt

  is_time-type : (t : ReflectType) → is_time t ≡ true → t ≡ struct_type (lit "time.Time")
  unfolding is_time
  is_time-type (struct_type name) e = ap struct_type ((text_eq_iff name (lit "time.Time")).0 e)
  is_time-type string_type e = cc
  is_time-type bool_type e = cc
  is_time-type (int_type bits) e = cc
  is_time-type (uint_type bits) e = cc
  is_time-type (float_type bits) e = cc
  is_time-type (pointer t) e = cc
  is_time-type (slice t) e = cc
  is_time-type (array n t) e = cc
  is_time-type (map_type k t) e = cc
  is_time-type (other_type name) e = cc
  is_time-type (defined_type name t) e = cc

  pub parse_time-Holds :
      (t : ReflectType) (layout text : Text)
      → is_time t ≡ true
      → Holds t (lib.parse_time layout text)
  parse_time-Holds t layout text e =
      subst (λ x. Holds x (lib.parse_time layout text)) (sym (is_time-type t e))
        (elim (Result-cases (lib.parse_time layout text)) [
          | inl (v, h) ↦ rw h (typed.parsed_time layout text v h)
          | inr (message, h) ↦ rw h tt
        ])

  pub set_if-HasType :
      (t : ReflectType) (old : Value F O) (r : Result Text (Value F O))
      → HasType structs old t
      → Holds t r
      → HasType structs (set_if structs lib old r).0 t
  set_if-HasType t old (err message) before made = before
  set_if-HasType t old (ok v) before made = made

  set_plain-HasType :
      (t : ReflectType) (old : Value F O) (text : Text)
      → HasType structs old t
      → HasType structs (set_plain structs lib t old text).0 t
  unfolding set_plain
  set_plain-HasType t old text before = elim (Option-cases (lib.unmarshal_text t)) [
    | inr (unmarshal, e) ↦ rw (e, set_plain) (typed.unmarshalled t unmarshal e old text before)
    | inl e ↦
        rw (e, set_plain)
          (elim (Bool-cases (is_time t)) [
            | inl time ↦
                rw time (set_if-HasType t old _ before (parse_time-Holds t rfc3339 text time))
            | inr plain ↦ rw plain (set_if-HasType t old _ before (parse_scalar-Holds t text))
          ])
  ]

  pub pointee-HasType :
      (t : ReflectType) (old : Value F O)
      → HasType structs old (pointer t)
      → HasType structs (pointee structs lib t old) t
  unfolding pointee
  pointee-HasType t _ (has_no_pointer _) = fresh-HasType t
  pointee-HasType t _ (has_pointer h) = h

  pub set_scalar-HasType :
      (t : ReflectType) (old : Value F O) (text : Text)
      → HasType structs old t
      → HasType structs (set_scalar structs lib t old text).0 t
  unfolding set_scalar
  set_scalar-HasType (pointer t) old text before =
      has_pointer
        (set_scalar-HasType t (pointee structs lib t old) text (pointee-HasType t old before))
  set_scalar-HasType (defined_type name t) old text before =
      elim (Option-cases (lib.unmarshal_text (defined_type name t))) [
        | inr (unmarshal, e) ↦
            rw (e, set_scalar)
              (typed.unmarshalled (defined_type name t) unmarshal e old text before)
        | inl e ↦
            rw (e, set_scalar)
              (has_defined name (set_scalar-HasType t old text (HasType-defined structs before)))
      ]
  set_scalar-HasType string_type old text before = set_plain-HasType _ old text before
  set_scalar-HasType bool_type old text before = set_plain-HasType _ old text before
  set_scalar-HasType (int_type bits) old text before = set_plain-HasType _ old text before
  set_scalar-HasType (uint_type bits) old text before = set_plain-HasType _ old text before
  set_scalar-HasType (float_type bits) old text before = set_plain-HasType _ old text before
  set_scalar-HasType (slice t) old text before = set_plain-HasType _ old text before
  set_scalar-HasType (array n t) old text before = set_plain-HasType _ old text before
  set_scalar-HasType (map_type k t) old text before = set_plain-HasType _ old text before
  set_scalar-HasType (struct_type name) old text before = set_plain-HasType _ old text before
  set_scalar-HasType (other_type name) old text before = set_plain-HasType _ old text before
