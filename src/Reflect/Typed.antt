-- ===== src/Reflect/Typed.antt =====
-- reflect.Value: values of a type, what they are made of, and the zero values.
use mathlib.Core.Path.{subst}
use oashttp.Prelude.{
  All, List, [], ap, arith, false, length, refl, suc, sym, zero, ℕ, ◌-◌, ◌<◌, ◌∷◌, ◌≡◌, ◌≤◌,
}
use oashttp.Prelude.Text.{Text}
use oashttp.Reflect.GoType.{
  ReflectType, StructField, Structs, array, bool_type, defined_type, fields_of, float_type,
  int_type, kind_of, map_type, other_type, pointer, slice, string_type, struct_type, uint_type,
}
use oashttp.Reflect.Value.{
  HasType, HaveFields, HaveType, Value, Values, array_value, has_array, has_bool, has_defined,
  has_float, has_no_map, has_no_pointer, has_no_slice, has_other, has_positive, has_struct,
  has_text, has_uint, have_more, have_none, made_values, more_fields, no_fields, no_values,
  repeated, values_length, zero_value,
}
use Prim.Native.Nat.{◌^◌}

pub power-positive : (n : ℕ) → 0 < 2 ^ n
power-positive zero = omega arith
power-positive (suc n) = omega (arith, power-positive n)

-- What a value of the type holds by value: the rank of a struct.
unfoldable pub value_rank : (Text → ℕ) → ReflectType → ℕ
value_rank rank (struct_type name) = rank name
value_rank rank (array n t) = value_rank rank t
value_rank rank (defined_type name t) = value_rank rank t
value_rank rank _ = 0

-- No struct holds itself by value, as the compiler of Go demands: the structs have ranks that go
-- down from a struct to what it holds, and there are no more ranks than structs.
pub record IsRanked (structs : Structs) (rank : Text → ℕ) : Type 0 where
  pub few : (name : Text) → rank name ≤ length structs
  pub down :
      (name : Text) → All (λ f. value_rank rank f.field_type < rank name) (fields_of structs name)

module _ {F O : Type 0} (structs : Structs) where
  pub repeated-HaveType :
      {v : Value F O} {t : ReflectType} (n : ℕ)
      → HasType structs v t
      → HaveType structs (repeated n v) t
  unfolding repeated
  repeated-HaveType zero h = have_none
  repeated-HaveType (suc n) h = have_more h (repeated-HaveType n h)

  values_length-repeated : (n : ℕ) (v : Value F O) → values_length (repeated n v) ≡ n
  unfolding values_length repeated
  values_length-repeated zero v = refl
  values_length-repeated (suc n) v = ap suc (values_length-repeated n v)

  -- The kind tells the type up to its name.
  pub HasType-kind_of :
      (t : ReflectType) {v : Value F O} → HasType structs v (kind_of t) → HasType structs v t
  unfolding kind_of
  HasType-kind_of (defined_type name t) h = has_defined name (HasType-kind_of t h)
  HasType-kind_of string_type h = h
  HasType-kind_of bool_type h = h
  HasType-kind_of (int_type bits) h = h
  HasType-kind_of (uint_type bits) h = h
  HasType-kind_of (float_type bits) h = h
  HasType-kind_of (pointer t) h = h
  HasType-kind_of (slice t) h = h
  HasType-kind_of (array n t) h = h
  HasType-kind_of (map_type k t) h = h
  HasType-kind_of (struct_type name) h = h
  HasType-kind_of (other_type name) h = h

  pub HasType-defined :
      {v : Value F O} {name : Text} {t : ReflectType}
      → HasType structs v (defined_type name t)
      → HasType structs v t
  HasType-defined (has_defined name h) = h

  pub kind_of-HasType :
      (t : ReflectType) {v : Value F O} → HasType structs v t → HasType structs v (kind_of t)
  unfolding kind_of
  kind_of-HasType (defined_type name t) h = kind_of-HasType t (HasType-defined h)
  kind_of-HasType string_type h = h
  kind_of-HasType bool_type h = h
  kind_of-HasType (int_type bits) h = h
  kind_of-HasType (uint_type bits) h = h
  kind_of-HasType (float_type bits) h = h
  kind_of-HasType (pointer t) h = h
  kind_of-HasType (slice t) h = h
  kind_of-HasType (array n t) h = h
  kind_of-HasType (map_type k t) h = h
  kind_of-HasType (struct_type name) h = h
  kind_of-HasType (other_type name) h = h

  HasType-array :
      {n : ℕ} {vs : Values F O} {t : ReflectType}
      → HasType structs (array_value vs) (array n t)
      → HaveType structs vs t
  HasType-array (has_array h e) = h

  module _ (rank : Text → ℕ) (ranked : IsRanked structs rank) (zero_float : F)
      (zero_other : Text → Value F O) where
    made_values-HaveFields :
        (make : ReflectType → Value F O) (limit : ℕ)
        → ((t : ReflectType) → value_rank rank t < limit → HasType structs (make t) t)
        → (fs : List StructField) → All (λ f. value_rank rank f.field_type < limit) fs
        → HaveFields structs (made_values make fs) fs
    unfolding made_values
    made_values-HaveFields make limit typed [] a = no_fields
    made_values-HaveFields make limit typed (f ∷ fs) (a, rest) =
        more_fields (typed f.field_type a) (made_values-HaveFields make limit typed fs rest)

    rank_zero-nil :
        (name : Text) (fs : List StructField)
        → rank name ≤ 0
        → All (λ f. value_rank rank f.field_type < rank name) fs
        → fs ≡ []
    rank_zero-nil name [] low a = refl
    rank_zero-nil name (f ∷ fs) low (a, rest) = absurd (omega (arith, a))

    zero_value_by-HasType :
        (fuel : ℕ) (t : ReflectType)
        → value_rank rank t ≤ fuel
        → HasType structs (zero_value structs zero_float zero_other fuel t) t
    unfolding zero_value value_rank
    zero_value_by-HasType fuel string_type low = has_text []
    zero_value_by-HasType fuel bool_type low = has_bool false
    zero_value_by-HasType fuel (int_type bits) low = has_positive (power-positive (bits - 1))
    zero_value_by-HasType fuel (uint_type bits) low = has_uint (power-positive bits)
    zero_value_by-HasType fuel (float_type bits) low = has_float zero_float
    zero_value_by-HasType fuel (pointer t) low = has_no_pointer t
    zero_value_by-HasType fuel (slice t) low = has_no_slice t
    zero_value_by-HasType fuel (map_type k t) low = has_no_map k t
    zero_value_by-HasType fuel (array n t) low =
        has_array (repeated-HaveType n (zero_value_by-HasType fuel t low))
          (values_length-repeated n _)
    zero_value_by-HasType fuel (other_type name) low = has_other name
    zero_value_by-HasType fuel (defined_type name t) low =
        has_defined name (zero_value_by-HasType fuel t low)
    zero_value_by-HasType zero (struct_type name) low = has_struct (
        subst (HaveFields structs no_values)
          (sym (rank_zero-nil name (fields_of structs name) low (ranked.down name))) no_fields)
    zero_value_by-HasType (suc fuel) (struct_type name) low = has_struct (
        made_values-HaveFields _ (rank name)
          (λ t less. zero_value_by-HasType fuel t (omega (arith, less, low)))
          (fields_of structs name) (ranked.down name))

    value_rank-le : (t : ReflectType) → value_rank rank t ≤ length structs
    unfolding value_rank
    value_rank-le (struct_type name) = ranked.few name
    value_rank-le (array n t) = value_rank-le t
    value_rank-le (defined_type name t) = value_rank-le t
    value_rank-le string_type = omega arith
    value_rank-le bool_type = omega arith
    value_rank-le (int_type bits) = omega arith
    value_rank-le (uint_type bits) = omega arith
    value_rank-le (float_type bits) = omega arith
    value_rank-le (pointer t) = omega arith
    value_rank-le (slice t) = omega arith
    value_rank-le (map_type k t) = omega arith
    value_rank-le (other_type name) = omega arith

    -- The zero value of a type is a value of it.
    pub zero_value-HasType :
        (t : ReflectType)
        → HasType structs (zero_value structs zero_float zero_other (length structs) t) t
    zero_value-HasType t = zero_value_by-HasType (length structs) t (value_rank-le t)
