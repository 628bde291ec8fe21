-- ===== src/Reflect/Value.antt =====
-- reflect.Value: the values of Go types, and the zero value of each.
use oashttp.Prelude.{
  Bool, List, Option, [], false, none, some, suc, zero, ℕ, ◌-◌, ◌<◌, ◌∷◌, ◌≡◌, ◌≤◌,
}
use oashttp.Prelude.Text.{Text}
use Prim.Native.Nat.{◌^◌}
use oashttp.Reflect.GoType.{
  fields_of, ReflectType, StructField, Structs, array, bool_type, defined_type, fields_of,
  float_type, int_type, map_type, other_type, pointer, slice, string_type, struct_type, uint_type,
}
use oashttp.Reflect.Integer.{Integer, negative, positive}

-- F is float64, and O what is kept of the values that no other constructor tells: functions,
-- channels, complex numbers and the like. A nil pointer, slice, map or interface is `nil_value`.
mutual
  pub data Value (F O : Type 0) : Type 0 where
    text_value : Text → Value F O
    bool_value : Bool → Value F O
    int_value : Integer → Value F O
    uint_value : ℕ → Value F O
    float_value : F → Value F O
    nil_value : Value F O
    pointer_value : Value F O → Value F O
    interface_value : Value F O → Value F O
    slice_value : Values F O → Value F O
    array_value : Values F O → Value F O
    map_value : Values F O → Values F O → Value F O
    struct_value : Values F O → Value F O
    other_value : O → Value F O

  pub data Values (F O : Type 0) : Type 0 where
    no_values : Values F O
    more_values : Value F O → Values F O → Values F O

module _ {F O : Type 0} where
  -- `v.Len()` of the elements.
  unfoldable pub values_length : Values F O → ℕ
  values_length no_values = 0
  values_length (more_values v vs) = suc (values_length vs)

  unfoldable pub value_at : ℕ → Values F O → Option (Value F O)
  value_at i no_values = none
  value_at zero (more_values v vs) = some v
  value_at (suc i) (more_values v vs) = value_at i vs

  unfoldable pub replace_at : ℕ → Value F O → Values F O → Values F O
  replace_at i w no_values = no_values
  replace_at zero w (more_values v vs) = more_values w vs
  replace_at (suc i) w (more_values v vs) = more_values v (replace_at i w vs)

  unfoldable pub repeated : ℕ → Value F O → Values F O
  repeated zero v = no_values
  repeated (suc n) v = more_values v (repeated n v)

  unfoldable pub made_values : (ReflectType → Value F O) → List StructField → Values F O
  made_values make [] = no_values
  made_values make (f ∷ fs) = more_values (make f.field_type) (made_values make fs)

  module _ (structs : Structs) (zero_float : F) (zero_other : Text → Value F O) where
    -- `reflect.New(t).Elem()`. The fuel is for structs in structs, which nest no deeper than there
    -- are structs.
    unfoldable pub zero_value : ℕ → ReflectType → Value F O
    unfolding fields_of made_values repeated
    zero_value fuel string_type = text_value []
    zero_value fuel bool_type = bool_value false
    zero_value fuel (int_type bits) = int_value (positive 0)
    zero_value fuel (uint_type bits) = uint_value 0
    zero_value fuel (float_type bits) = float_value zero_float
    zero_value fuel (pointer t) = nil_value
    zero_value fuel (slice t) = nil_value
    zero_value fuel (map_type k t) = nil_value
    zero_value fuel (array n t) = array_value (repeated n (zero_value fuel t))
    zero_value fuel (other_type name) = zero_other name
    zero_value fuel (defined_type name t) = zero_value fuel t
    zero_value zero (struct_type name) = struct_value no_values
    zero_value (suc fuel) (struct_type name) =
        struct_value (made_values (zero_value fuel) (fields_of structs name))

  -- `HasType structs v t`: v is a value of type t. The numbers keep to their bits.
  mutual
    pub data HasType (structs : Structs) : Value F O → ReflectType → Type 0 where
      has_text : (s : Text) → HasType structs (text_value s) string_type
      has_bool : (b : Bool) → HasType structs (bool_value b) bool_type
      has_positive :
          {bits n : ℕ}
          → n < 2 ^ (bits - 1)
          → HasType structs (int_value (positive n)) (int_type bits)
      has_negative :
          {bits n : ℕ}
          → n ≤ 2 ^ (bits - 1)
          → HasType structs (int_value (negative n)) (int_type bits)
      has_uint : {bits n : ℕ} → n < 2 ^ bits → HasType structs (uint_value n) (uint_type bits)
      has_float : {bits : ℕ} (f : F) → HasType structs (float_value f) (float_type bits)
      has_no_pointer : (t : ReflectType) → HasType structs nil_value (pointer t)
      has_no_slice : (t : ReflectType) → HasType structs nil_value (slice t)
      has_no_map : (k t : ReflectType) → HasType structs nil_value (map_type k t)
      has_other : {v : Value F O} (name : Text) → HasType structs v (other_type name)
      has_pointer :
          {v : Value F O} {t : ReflectType}
          → HasType structs v t
          → HasType structs (pointer_value v) (pointer t)
      has_slice :
          {vs : Values F O} {t : ReflectType}
          → HaveType structs vs t
          → HasType structs (slice_value vs) (slice t)
      has_array :
          {n : ℕ} {vs : Values F O} {t : ReflectType}
          → HaveType structs vs t
          → values_length vs ≡ n
          → HasType structs (array_value vs) (array n t)
      has_map :
          {ks vs : Values F O} {k t : ReflectType}
          → HaveType structs ks k
          → HaveType structs vs t
          → HasType structs (map_value ks vs) (map_type k t)
      has_struct :
          {vs : Values F O} {name : Text}
          → HaveFields structs vs (fields_of structs name)
          → HasType structs (struct_value vs) (struct_type name)
      has_defined :
          {v : Value F O} {t : ReflectType} (name : Text)
          → HasType structs v t
          → HasType structs v (defined_type name t)

    pub data HaveType (structs : Structs) : Values F O → ReflectType → Type 0 where
      have_none : {t : ReflectType} → HaveType structs no_values t
      have_more :
          {v : Value F O} {vs : Values F O} {t : ReflectType}
          → HasType structs v t
          → HaveType structs vs t
          → HaveType structs (more_values v vs) t

    pub data HaveFields (structs : Structs) : Values F O → List StructField → Type 0 where
      no_fields : HaveFields structs no_values []
      more_fields :
          {v : Value F O} {vs : Values F O} {f : StructField} {fields : List StructField}
          → HasType structs v f.field_type
          → HaveFields structs vs fields
          → HaveFields structs (more_values v vs) (f ∷ fields)
