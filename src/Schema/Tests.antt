-- ===== src/Schema/Tests.antt =====
-- The JSON fields of a struct that embeds another, and itself.
use oashttp.Prelude.{
  Bool, List, [], arith, false, length, ltb, refl, suc, true, ◌&&◌, ◌↔◌, ◌∷◌, ◌≡◌,
}
use oashttp.Prelude.Text.{Text, lit, text_eq}
use oashttp.Reflect.GoType.{
  ReflectType, StructField, Structs, int_type, pointer, string_type, struct_type,
}
use oashttp.Schema.JsonFields.{
  JsonField, Runes, collect_json_fields, resolve_candidates, resolve_json_fields,
}
use oashttp.Schema.Chosen.{Chosen}
use oashttp.Schema.Resolved.{IsOrdered, called, resolve_candidates_iff}
use oashttp.Schema.Enough.{collect_json_fields_enough}
use mathlib.Core.List.{Memᴰ}

abbrev field_as : Text → Bool → ReflectType → Text → StructField
field_as name anonymous t json = record {
  name = name;
  exported = true;
  anonymous = anonymous;
  field_type = t;
  tag = (lit "json", json) ∷ [];
}

abbrev base_fields : List StructField
base_fields =
    field_as (lit "ID") false string_type (lit "id")
    ∷ field_as (lit "Hidden") false string_type (lit "-")
    ∷ field_as (lit "Name") false (int_type 64) (lit "name,string")
    ∷ []

-- `User` embeds `Base`, itself, and says its name anew.
abbrev structs : Structs
structs =
    (
      lit "User",
      field_as (lit "Base") true (struct_type (lit "Base")) []
          ∷ field_as (lit "User") true (pointer (struct_type (lit "User"))) []
          ∷ field_as (lit "Name") false string_type (lit "name")
          ∷ [],
    )
    ∷ (lit "Base", base_fields)
    ∷ []

abbrev letters : Runes
letters = record { runes = λ s. s; is_letter = λ c. ltb 96 c && ltb c 123; is_digit = λ c. false }

abbrev id_field : JsonField
id_field = record {
  field = field_as (lit "ID") false string_type (lit "id");
  index = 0 ∷ 0 ∷ [];
  name = lit "id";
  tagged = true;
  quoted = false;
}

abbrev deep_name : JsonField
deep_name = record {
  field = field_as (lit "Name") false (int_type 64) (lit "name,string");
  index = 0 ∷ 2 ∷ [];
  name = lit "name";
  tagged = true;
  quoted = true;
}

abbrev own_name : JsonField
own_name = record {
  field = field_as (lit "Name") false string_type (lit "name");
  index = 2 ∷ [];
  name = lit "name";
  tagged = true;
  quoted = false;
}

abbrev candidates : List JsonField
candidates = id_field ∷ deep_name ∷ own_name ∷ []

collect_run : collect_json_fields letters structs 3 [] (lit "User") [] ≡ candidates
unfolding collect_json_fields text_eq lit
collect_run = refl

resolve_run :
    resolve_json_fields letters structs (struct_type (lit "User")) ≡ id_field ∷ own_name ∷ []
unfolding resolve_json_fields text_eq lit
resolve_run = refl

resolve_candidates_iff_example :
    IsOrdered (resolve_candidates candidates)
    × ((f : JsonField)
        → Memᴰ f (resolve_candidates candidates) ↔ Chosen (called candidates f.name) f)
resolve_candidates_iff_example = resolve_candidates_iff candidates

collect_json_fields_enough_example :
    collect_json_fields letters structs 5 [] (lit "User") []
    ≡ collect_json_fields letters structs (suc (length structs)) [] (lit "User") []
collect_json_fields_enough_example =
    collect_json_fields_enough letters structs 5 (lit "User") (omega arith)
