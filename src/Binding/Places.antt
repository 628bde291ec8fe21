-- ===== src/Binding/Places.antt =====
-- internal/binding/compiler.go: the places in the input type that a plan binds.
use mathlib.Core.Path.{subst}
use oashttp.Prelude.{
  All, All-append, List, Option, Option-cases, Result-cases, [], ap, arith, inl, inr, lookup, none,
  not, ok, refl, some, suc, sym, true, zero, ℕ, ◌++◌, ◌+◌, ◌∙◌, ◌∷◌, ◌≡◌,
}
use oashttp.Prelude.Text.{Text, text_eq}
use oashttp.Reflect.GoType.{
  ReflectType, StructField, Structs, array, bool_type, defined_type, fields_of, float_type,
  int_type, kind_of, map_type, other_type, pointer, slice, string_type, struct_type, tag_lookup,
  uint_type,
}
use oashttp.Route.{Pattern}
use oashttp.Binding.Model.{
  BindOptions, FieldPlan, Plan, SourceKind, source_body, source_header, source_path, source_query,
}
use oashttp.Binding.Compile.{
  Building, add_body, add_field, add_fields, add_path, add_source, add_tag, add_tags, binding_tags,
  compile_plan, is_pointer, nothing_bound, plan_of, route_params, struct_name,
}

-- The type of the field at a place.
unfoldable pub type_at : ℕ → List StructField → Option ReflectType
type_at k [] = none
type_at zero (f ∷ fs) = some f.field_type
type_at (suc k) (f ∷ fs) = type_at k fs

-- A field plan whose place is a field of its type.
abbrev pub IsPlace : List StructField → FieldPlan → Type 0
IsPlace fs fp = type_at fp.index fs ≡ some fp.field_type

module _ (params : List (Text × Text)) (all_of : List StructField) where
  abbrev Placed : Building → Type 0
  Placed b = All (IsPlace all_of) b.fields

  module _ (f : StructField) (i : ℕ) (here : type_at i all_of ≡ some f.field_type) where
    added-Placed :
        (b c : Building) (fp : FieldPlan)
        → Placed b
        → fp.index ≡ i
        → fp.field_type ≡ f.field_type
        → c.fields ≡ b.fields ++ fp ∷ []
        → Placed c
    added-Placed b c fp placed at typed grown =
        let is : IsPlace all_of fp = ap (λ k. type_at k all_of) at ∙ here ∙ ap some (sym typed) in
        subst (All (IsPlace all_of)) (sym grown)
          (All-append (IsPlace all_of) b.fields (fp ∷ []) placed (is, tt))

    add_source-Placed :
        (source : SourceKind) (name : Text) (b c : Building)
        → Placed b
        → add_source params f i source name b ≡ ok c
        → Placed c
    unfolding add_source add_path add_body
    add_source-Placed source_path name b c placed e =
        elim (Option-cases (lookup text_eq params name)) [
          | inl h ↦ ground arith
          | inr (constraint, h) ↦
              let fp = record (plan_of f i name source_path) {
                constraint = constraint;
                required = true;
              } in
              let reached : add_field (record b { bound_path = name ∷ b.bound_path }) fp ≡ c =
                ground arith in
              added-Placed b c fp placed refl refl (ap (λ d. d.fields) (sym reached))
        ]
    add_source-Placed source_body name b c placed e =
        let fp = record (plan_of f i name source_body) {
          required = not (is_pointer f.field_type);
        } in
        let reached : add_field (record b { body = some fp }) fp ≡ c = ground arith in
        added-Placed b c fp placed refl refl (ap (λ d. d.fields) (sym reached))
    add_source-Placed source_query name b c placed e =
        let reached : add_field b (plan_of f i name source_query) ≡ c = ground arith in
        added-Placed b c (plan_of f i name source_query) placed refl refl
          (ap (λ d. d.fields) (sym reached))
    add_source-Placed source_header name b c placed e =
        let reached : add_field b (plan_of f i name source_header) ≡ c = ground arith in
        added-Placed b c (plan_of f i name source_header) placed refl refl
          (ap (λ d. d.fields) (sym reached))

    add_tag-Placed :
        (key : Text) (source : SourceKind) (found m : ℕ) (b c : Building)
        → Placed b
        → add_tag params f i key source (found, b) ≡ ok (m, c)
        → Placed c
    unfolding add_tag
    add_tag-Placed key source found m b c placed e = elim (Option-cases (tag_lookup f key)) [
      | inl h ↦ let same : b ≡ c = ground arith in subst Placed same placed
      | inr (name, h) ↦ elim (Result-cases (add_source params f i source name b)) [
        | inr (_, g) ↦ ground arith
        | inl (d, g) ↦
            let next : d ≡ c = ground arith in
            subst Placed next (add_source-Placed source name b d placed g)
      ]
    ]

    add_tags-Placed :
        (tags : List (Text × SourceKind)) (found m : ℕ) (b c : Building)
        → Placed b
        → add_tags params f i tags (found, b) ≡ ok (m, c)
        → Placed c
    unfolding add_tags
    add_tags-Placed [] found m b c placed e =
        let stays : b ≡ c = ground arith in subst Placed stays placed
    add_tags-Placed ((key, source) ∷ tags) found m b c placed e =
        elim (Result-cases (add_tag params f i key source (found, b))) [
          | inr (_, g) ↦ ground arith
          | inl ((n, d), g) ↦
              add_tags-Placed tags n m d c (add_tag-Placed key source found n b d placed g)
                (ground arith)
        ]

  add_fields-Placed :
      (fs : List StructField) (i : ℕ) (b c : Building)
      → ((k : ℕ) → type_at k fs ≡ type_at (i + k) all_of)
      → Placed b
      → add_fields params i fs b ≡ ok c
      → Placed c
  unfolding add_fields type_at
  add_fields-Placed [] i b c same placed e =
      let stays : b ≡ c = ground arith in subst Placed stays placed
  add_fields-Placed (f ∷ fs) i b c same placed e =
      elim (Result-cases (add_tags params f i binding_tags (0, b))) [
        | inr (_, g) ↦ ground arith
        | inl ((found, d), g) ↦
            let here : type_at i all_of ≡ some f.field_type =
              sym (same zero ∙ ap (λ n. type_at n all_of) (omega arith)) in
            add_fields-Placed fs (suc i) d c
              (λ k. same (suc k) ∙ ap (λ n. type_at n all_of) (omega arith))
              (add_tags-Placed f i here binding_tags 0 found b d placed g) (ground arith)
      ]

same_places : (fs : List StructField) (k : ℕ) → type_at k fs ≡ type_at (0 + k) fs
same_places fs k = ap (λ n. type_at n fs) (omega arith)

struct_name-kind :
    (t k : ReflectType)
    → kind_of t ≡ k
    → (name : Text) → struct_name t ≡ ok name
    → k ≡ struct_type name
unfolding struct_name
struct_name-kind t string_type is name h = ground arith
struct_name-kind t bool_type is name h = ground arith
struct_name-kind t (int_type bits) is name h = ground arith
struct_name-kind t (uint_type bits) is name h = ground arith
struct_name-kind t (float_type bits) is name h = ground arith
struct_name-kind t (pointer e) is name h = ground arith
struct_name-kind t (slice e) is name h = ground arith
struct_name-kind t (array n e) is name h = ground arith
struct_name-kind t (map_type j e) is name h = ground arith
struct_name-kind t (struct_type n) is name h = ground arith
struct_name-kind t (other_type n) is name h = ground arith
struct_name-kind t (defined_type n e) is name h = ground arith

-- A plan that Compile returns is of its input type, a struct, and binds fields of it as what they are.
pub compile_plan-places :
    (structs : Structs) (t : ReflectType) (pattern : Pattern) (options : BindOptions) (p : Plan)
    → compile_plan structs t pattern options ≡ ok p
    → (name : Text) × (kind_of t ≡ struct_type name)
      × (p.input_type ≡ t)
      × All (IsPlace (fields_of structs name)) p.fields
unfolding compile_plan
compile_plan-places structs t pattern options p e = elim (Result-cases (struct_name t)) [
  | inr (_, h) ↦ ground arith
  | inl (name, h) ↦
      elim (Result-cases (
        add_fields (route_params pattern.parameters []) 0 (fields_of structs name) nothing_bound)) [
          | inr (_, g) ↦ ground arith
          | inl (b, g) ↦
              let same : (b.fields, t) ≡ (p.fields, p.input_type) = ground arith in
              (
                name,
                struct_name-kind t (kind_of t) refl name h,
                sym (ap (λ (s : List FieldPlan × ReflectType). s.1) same),
                subst (All (IsPlace (fields_of structs name)))
                    (ap (λ (s : List FieldPlan × ReflectType). s.0) same)
                    (add_fields-Placed (route_params pattern.parameters []) (fields_of structs name)
                      (fields_of structs name) 0 nothing_bound b
                      (same_places (fields_of structs name)) tt g),
              )
        ]
]
