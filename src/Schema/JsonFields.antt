-- ===== src/Schema/JsonFields.antt =====
-- internal/schema/jsonfields.go.
use oashttp.Prelude.{
  Bool, List, Option, [], all, any, false, filter, if◌then◌else◌, is_nil, is_some, length, ltb,
  none, not, some, suc, true, zero, ℕ, ◌&&◌, ◌++◌, ◌==◌, ◌||◌, ◌∷◌,
}
use oashttp.Prelude.Text.{Text, fields, has_byte, lit, split, text_eq}
use oashttp.Reflect.GoType.{
  ReflectType, StructField, Structs, fields_of, is_scalar_kind, kind_of, other_type, pointer,
  struct_type, tag_get,
}

pub record JsonTag : Type 0 where
  pub name : Text
  pub has_name : Bool
  pub omit_empty : Bool
  pub as_string : Bool
  pub skip : Bool

pub record JsonField : Type 0 where
  pub field : StructField
  pub index : List ℕ
  pub name : Text
  pub tagged : Bool
  pub quoted : Bool

-- Packages utf8 and unicode: the runes of a text, and whether a rune is a letter or a digit.
pub record Runes : Type 0 where
  pub runes : Text → List ℕ
  pub is_letter : ℕ → Bool
  pub is_digit : ℕ → Bool

-- strings.Cut(raw, ","): the name, and the options if there is a comma.
unfoldable pub cut_options : Text → Text × Option Text
cut_options [] = ([], none)
cut_options (c ∷ s) =
    let (name, options) = cut_options s in if c == b',' then ([], some s) else (c ∷ name, options)

module _ (unicode : Runes) where
  unfoldable pub valid_json_tag_name : Text → Bool
  unfolding all has_byte
  valid_json_tag_name name =
      not (is_nil name)
      && all
          (λ r.
            has_byte r (lit "!#$%&()*+-./:;<=>?@[]^_{|}~ ")
            || (unicode.is_letter r || unicode.is_digit r))
          (unicode.runes name)

  unfoldable pub parse_json_tag : StructField → JsonTag
  unfolding tag_get cut_options valid_json_tag_name split any
  parse_json_tag f =
      let raw = tag_get f (lit "json") in
      let (name, options) = cut_options raw in
      let valid = valid_json_tag_name name in
      let has_option : Text → Bool = λ option. elim options [
        | none ↦ false
        | some row ↦ any (text_eq option) (split b',' row)
      ] in
      if text_eq raw (lit "-")
      then record {
        name = [];
        has_name = false;
        omit_empty = false;
        as_string = false;
        skip = true;
      }
      else record {
        name = if valid then name else [];
        has_name = valid;
        omit_empty = has_option (lit "omitempty");
        as_string = has_option (lit "string");
        skip = false;
      }

-- `quotedJSONType`; an uintptr is one of the other types.
unfoldable pub is_quoted_kind : ReflectType → Bool
unfolding is_scalar_kind
is_quoted_kind (other_type name) = text_eq name (lit "uintptr")
is_quoted_kind t = is_scalar_kind t

unfoldable pub quoted_json_type : ReflectType → Bool
unfolding is_quoted_kind kind_of
quoted_json_type (pointer t) = is_quoted_kind (kind_of t)
quoted_json_type t = is_quoted_kind (kind_of t)

-- What an anonymous field embeds: `embeddedType`, if it is a struct.
unfoldable pub embedded_struct : ReflectType → Option Text
unfolding kind_of
embedded_struct t = elim (kind_of t) [
  | struct_type name ↦ some name
  | pointer e ↦ elim (kind_of e) [ struct_type name ↦ some name | _ ↦ none ]
  | _ ↦ none
]

module _ (unicode : Runes) (structs : Structs) where
  -- One round of the loop; `nest` is the recursive call.
  unfoldable pub collect_field :
      (Text → List ℕ → List JsonField) → StructField → List ℕ → List JsonField
  unfolding parse_json_tag embedded_struct quoted_json_type
  collect_field nest f index =
      let tag = parse_json_tag unicode f in
      let embedded = if f.anonymous then embedded_struct f.field_type else none in
      let own =
        record {
          field = f;
          index = index;
          name = if tag.has_name then tag.name else f.name;
          tagged = tag.has_name;
          quoted = tag.as_string && quoted_json_type f.field_type;
        }
        ∷ [] in
      if tag.skip || not f.exported && not (is_some embedded) then [] else elim embedded [
        | none ↦ own
        | some struct ↦ if tag.has_name then own else nest struct index
      ]

  unfoldable pub collect_fields :
      (Text → List ℕ → List JsonField) → List ℕ → ℕ → List StructField → List JsonField
  unfolding collect_field
  collect_fields nest prefix i [] = []
  collect_fields nest prefix i (f ∷ fs) =
      collect_field nest f (prefix ++ i ∷ []) ++ collect_fields nest prefix (suc i) fs

  -- `collectJSONFields`; the stack holds the ancestors.
  unfoldable pub collect_json_fields : ℕ → List Text → Text → List ℕ → List JsonField
  unfolding collect_fields any fields_of
  collect_json_fields zero stack name prefix = []
  collect_json_fields (suc fuel) stack name prefix =
      let found =
        collect_fields (collect_json_fields fuel (name ∷ stack)) prefix 0
          (fields_of structs name) in
      if any (λ n. text_eq n name) stack then [] else found

-- `compareJSONIndex(left, right) < 0`.
unfoldable pub before : List ℕ → List ℕ → Bool
before [] [] = false
before [] (y ∷ ys) = true
before (x ∷ xs) [] = false
before (x ∷ xs) (y ∷ ys) = if ltb x y then true else if ltb y x then false else before xs ys

-- sort.Slice by the index.
unfoldable pub insert_field : JsonField → List JsonField → List JsonField
unfolding before
insert_field f [] = f ∷ []
insert_field f (g ∷ fields) =
    if before g.index f.index then g ∷ insert_field f fields else f ∷ g ∷ fields

unfoldable pub sort_fields : List JsonField → List JsonField
unfolding insert_field
sort_fields [] = []
sort_fields (f ∷ fields) = insert_field f (sort_fields fields)

-- The depth of the shallowest field of a group; the first argument is the one so far.
unfoldable pub min_depth : ℕ → List JsonField → ℕ
min_depth depth [] = depth
min_depth depth (f ∷ fields) =
    if ltb (length f.index) depth then min_depth (length f.index) fields else min_depth depth fields

abbrev pub sole : List JsonField → List JsonField
sole (f ∷ []) = f ∷ []
sole _ = []

-- One round over the groups: the field of a name that the others give way to, if there is one.
unfoldable pub select_field : List JsonField → List JsonField
unfolding min_depth filter any
select_field [] = []
select_field (f ∷ fields) =
    let depth = min_depth (length f.index) fields in
    let shallow = filter (λ g. length g.index == depth) (f ∷ fields) in
    sole (if any (λ g. g.tagged) shallow then filter (λ g. g.tagged) shallow else shallow)

-- The keys of `byName`, in the order of their first use, and the fields behind a key.
unfoldable pub names_of : List JsonField → List Text
unfolding any
names_of [] = []
names_of (f ∷ fields) = f.name ∷ filter (λ n. not (text_eq n f.name)) (names_of fields)

unfoldable pub group_of : List JsonField → Text → List JsonField
unfolding filter
group_of candidates name = filter (λ f. text_eq f.name name) candidates

unfoldable pub select_fields : List JsonField → List Text → List JsonField
unfolding select_field group_of
select_fields candidates [] = []
select_fields candidates (name ∷ names) =
    select_field (group_of candidates name) ++ select_fields candidates names

unfoldable pub resolve_candidates : List JsonField → List JsonField
unfolding sort_fields select_fields names_of
resolve_candidates candidates = sort_fields (select_fields candidates (names_of candidates))

-- `resolveJSONFields`, of a struct, with fuel for every struct and one more.
unfoldable pub resolve_json_fields : Runes → Structs → ReflectType → List JsonField
unfolding kind_of collect_json_fields resolve_candidates
resolve_json_fields unicode structs t = elim (kind_of t) [
  | struct_type name ↦
      resolve_candidates (collect_json_fields unicode structs (suc (length structs)) [] name [])
  | _ ↦ []
]
