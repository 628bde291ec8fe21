-- ===== src/Reflect/GoType.antt =====
-- reflect.Type, as far as the rules and the binding look at it.
use oashttp.Prelude.{ℕ, Bool, true, false, ◌||◌, Option, none, some, List, [], lookup}
use oashttp.Prelude.Text.{Text, text_eq}

-- The numbers are the bits: 64 for int and uint. A struct stands by its name; `defined_type` is a
-- type with a name of its own that is no struct, and `other_type` is one of the kinds left over.
pub data ReflectType : Type 0 where
  string_type bool_type : ReflectType
  int_type uint_type float_type : ℕ → ReflectType
  pointer slice : ReflectType → ReflectType
  array : ℕ → ReflectType → ReflectType
  map_type : ReflectType → ReflectType → ReflectType
  struct_type other_type : Text → ReflectType
  defined_type : Text → ReflectType → ReflectType

-- `for t.Kind() == reflect.Pointer { t = t.Elem() }`, as far as the kind goes.
unfoldable pub base_type : ReflectType → ReflectType
base_type (pointer t) = base_type t
base_type (defined_type name t) = base_type t
base_type t = t

-- `BaseKind(t) == reflect.String`, of a base type.
unfoldable pub is_string : ReflectType → Bool
is_string string_type = true
is_string _ = false

unfoldable pub is_numeric_kind : ReflectType → Bool
is_numeric_kind (int_type bits) = true
is_numeric_kind (uint_type bits) = true
is_numeric_kind (float_type bits) = true
is_numeric_kind _ = false

unfoldable pub is_bool : ReflectType → Bool
is_bool bool_type = true
is_bool _ = false

unfoldable pub is_collection : ReflectType → Bool
is_collection (slice t) = true
is_collection (array n t) = true
is_collection (map_type k t) = true
is_collection _ = false

unfoldable pub is_scalar_kind : ReflectType → Bool
unfolding is_string is_bool is_numeric_kind
is_scalar_kind t = is_string t || (is_bool t || is_numeric_kind t)

unfoldable pub supports_length_or_number : ReflectType → Bool
unfolding base_type is_string is_collection is_numeric_kind
supports_length_or_number t =
    is_string (base_type t) || (is_collection (base_type t) || is_numeric_kind (base_type t))

-- The type whose kind `t.Kind()` tells.
unfoldable pub kind_of : ReflectType → ReflectType
kind_of (defined_type name t) = kind_of t
kind_of t = t

-- reflect.StructField: the index in its struct is its place there, `exported` is `PkgPath == ""`,
-- and the tag is the row of its keys with their values.
pub record StructField : Type 0 where
  pub name : Text
  pub exported : Bool
  pub anonymous : Bool
  pub field_type : ReflectType
  pub tag : List (Text × Text)

-- The fields of the structs, by name.
abbrev pub Structs : Type 0
Structs = List (Text × List StructField)

abbrev pub all_fields : Option (List StructField) → List StructField
all_fields none = []
all_fields (some fields) = fields

unfoldable pub fields_of : Structs → Text → List StructField
unfolding lookup
fields_of structs name = all_fields (lookup text_eq structs name)

-- `f.Tag.Lookup` and `f.Tag.Get`.
unfoldable pub tag_lookup : StructField → Text → Option Text
unfolding lookup
tag_lookup f key = lookup text_eq f.tag key

abbrev or_blank : Option Text → Text
or_blank none = []
or_blank (some s) = s

unfoldable pub tag_get : StructField → Text → Text
unfolding tag_lookup
tag_get f key = or_blank (tag_lookup f key)
