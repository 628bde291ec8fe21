-- ===== src/Binding/TypedValues.antt =====
-- internal/binding/scalar.go: the values that are set to a row of texts.
use mathlib.Core.Path.{subst}
use oashttp.Prelude.{
  Bool-cases, List, Option, Option-cases, [], ap, inl, inr, length, none, refl, some, suc, sym, ℕ,
  ◌==◌, ◌∙◌, ◌∷◌, ◌≡◌,
}
use oashttp.Prelude.Text.{Text, lit}
use oashttp.Reflect.GoType.{
  ReflectType, Structs, array, bool_type, defined_type, float_type, int_type, kind_of, map_type,
  other_type, pointer, slice, string_type, struct_type, uint_type,
}
use oashttp.Reflect.Value.{
  HasType, HaveType, Value, Values, has_array, has_pointer, has_slice, have_more, have_none,
  more_values, no_values, repeated, values_length,
}
use oashttp.Reflect.Typed.{HasType-kind_of, IsRanked, kind_of-HasType, repeated-HaveType}
use oashttp.Binding.Scalar.{
  Conversions, assign_slice, elements, fresh, is_time, pointee, set_constrained_scalar,
  set_constrained_values, set_elements, set_scalar, set_values, set_values_by,
}
use oashttp.Binding.Typed.{
  IsTyped, fresh-HasType, parse_time-Holds, pointee-HasType, set_if-HasType, set_scalar-HasType,
}

module _ {F O : Type 0} (structs : Structs) (lib : Conversions F O) where
  -- A way to set a value that keeps its type.
  abbrev pub KeepsType : ReflectType → (Value F O → Text → Value F O × Option Text) → Type 0
  KeepsType t set =
      (old : Value F O) (text : Text) → HasType structs old t → HasType structs (set old text).0 t

  set_elements-HaveType :
      (t : ReflectType) (set : Value F O → Text → Value F O × Option Text)
      → KeepsType t set
      → (vs : Values F O) (items : List Text) → HaveType structs vs t
      → HaveType structs (set_elements structs lib set vs items).0 t
  unfolding set_elements
  set_elements-HaveType t set keeps _ items have_none = have_none
  set_elements-HaveType t set keeps _ [] (have_more h hs) = have_more h hs
  set_elements-HaveType t set keeps (more_values v vs) (text ∷ items) (have_more h hs) =
      elim (Option-cases (set v text).1) [
        | inl e ↦
            rw (e, set_elements)
              (have_more (keeps v text h) (set_elements-HaveType t set keeps vs items hs))
        | inr (message, e) ↦ rw (e, set_elements) (have_more (keeps v text h) hs)
      ]

  set_elements-length :
      (set : Value F O → Text → Value F O × Option Text) (vs : Values F O) (items : List Text)
      → values_length (set_elements structs lib set vs items).0 ≡ values_length vs
  unfolding set_elements values_length
  set_elements-length set no_values items = refl
  set_elements-length set (more_values v vs) [] = refl
  set_elements-length set (more_values v vs) (text ∷ items) = elim (Option-cases (set v text).1) [
    | inl e ↦ rw (e, set_elements, values_length) (ap suc (set_elements-length set vs items))
    | inr (message, e) ↦ rw (e, set_elements, values_length) refl
  ]

  assign_slice-HasType :
      (e : ReflectType) (old : Value F O) (r : Values F O × Option Text)
      → HasType structs old (slice e)
      → HaveType structs r.0 e
      → HasType structs (assign_slice structs lib old r).0 (slice e)
  assign_slice-HasType e old (vs, some message) before h = before
  assign_slice-HasType e old (vs, none) before h = has_slice h

  elements-HaveType :
      (n : ℕ) (e : ReflectType) (old : Value F O)
      → HasType structs old (array n e)
      → HaveType structs (elements structs lib old) e
        × (values_length (elements structs lib old) ≡ n)
  unfolding elements
  elements-HaveType n e _ (has_array h k) = (h, k)

  -- What is not a slice or an array is set to one text.
  abbrev set_single :
      (ReflectType → Value F O → Text → Value F O × Option Text)
      → ReflectType
      → Value F O
      → List Text
      → Value F O × Option Text
  set_single set t old [] = (old, none)
  set_single set t old (text ∷ []) = set t old text
  set_single set t old (_ ∷ _ ∷ _) = (old, some (lit "multiple values are not allowed"))

  module _ (typed : IsTyped structs lib) (rank : Text → ℕ) (ranked : IsRanked structs rank) where
    set_constrained_scalar-HasType :
        (constraint : Text) (t : ReflectType)
        → KeepsType t (set_constrained_scalar structs lib constraint t)
    unfolding set_constrained_scalar is_time
    set_constrained_scalar-HasType constraint (pointer t) old text before = has_pointer (
        set_constrained_scalar-HasType constraint t (pointee structs lib t old) text
          (pointee-HasType structs lib typed rank ranked t old before))
    set_constrained_scalar-HasType constraint (struct_type name) old text before =
        elim (Bool-cases (is_time (struct_type name))) [
          | inl e ↦
              rw (e, set_constrained_scalar)
                (set_if-HasType structs lib typed rank ranked (struct_type name) old _ before
                  (parse_time-Holds structs lib typed rank ranked (struct_type name) _ text e))
          | inr e ↦
              rw (e, set_constrained_scalar)
                (set_scalar-HasType structs lib typed rank ranked (struct_type name) old text
                  before)
        ]
    set_constrained_scalar-HasType constraint string_type old text before =
        set_scalar-HasType structs lib typed rank ranked _ old text before
    set_constrained_scalar-HasType constraint bool_type old text before =
        set_scalar-HasType structs lib typed rank ranked _ old text before
    set_constrained_scalar-HasType constraint (int_type bits) old text before =
        set_scalar-HasType structs lib typed rank ranked _ old text before
    set_constrained_scalar-HasType constraint (uint_type bits) old text before =
        set_scalar-HasType structs lib typed rank ranked _ old text before
    set_constrained_scalar-HasType constraint (float_type bits) old text before =
        set_scalar-HasType structs lib typed rank ranked _ old text before
    set_constrained_scalar-HasType constraint (slice e) old text before =
        set_scalar-HasType structs lib typed rank ranked _ old text before
    set_constrained_scalar-HasType constraint (array n e) old text before =
        set_scalar-HasType structs lib typed rank ranked _ old text before
    set_constrained_scalar-HasType constraint (map_type k e) old text before =
        set_scalar-HasType structs lib typed rank ranked _ old text before
    set_constrained_scalar-HasType constraint (other_type name) old text before =
        set_scalar-HasType structs lib typed rank ranked _ old text before
    set_constrained_scalar-HasType constraint (defined_type name e) old text before =
        set_scalar-HasType structs lib typed rank ranked _ old text before

    set_single-HasType :
        (set : ReflectType → Value F O → Text → Value F O × Option Text)
        → ((t : ReflectType) → KeepsType t (set t))
        → (t : ReflectType) (old : Value F O) (items : List Text) → HasType structs old t
        → HasType structs (set_single set t old items).0 t
    set_single-HasType set keeps t old [] before = before
    set_single-HasType set keeps t old (text ∷ []) before = keeps t old text before
    set_single-HasType set keeps t old (text ∷ _ ∷ _) before = before

    set_kind-HasType :
        (set : ReflectType → Value F O → Text → Value F O × Option Text)
        → ((t : ReflectType) → KeepsType t (set t))
        → (t k : ReflectType) → kind_of t ≡ k
        → (old : Value F O) (items : List Text) → HasType structs old t
        → HasType structs (set_values_by structs lib set t old items).0 t
    unfolding set_values_by
    set_kind-HasType set keeps t (slice e) is old items before =
        let own : HasType structs old (slice e) =
          subst (HasType structs old) is (kind_of-HasType structs t before) in
        let start =
          repeated-HaveType structs (length items)
            (fresh-HasType structs lib typed rank ranked e) in
        let made = assign_slice-HasType e old _ own (
          set_elements-HaveType e (set e) (keeps e) (repeated (length items) (fresh structs lib e))
            items start) in
        rw (is, set_values_by) (HasType-kind_of structs t (subst (HasType structs _) (sym is) made))
    set_kind-HasType set keeps t (array n e) is old items before =
        let own : HasType structs old (array n e) =
          subst (HasType structs old) is (kind_of-HasType structs t before) in
        let (start, full) = elements-HaveType n e old own in
        elim (Bool-cases (length items == n)) [
          | inr h ↦ rw (is, set_values_by, h) before
          | inl h ↦
              rw (is, set_values_by, h)
                (HasType-kind_of structs t (
                  subst (HasType structs _) (sym is) (
                    has_array
                      (set_elements-HaveType e (set e) (keeps e) (elements structs lib old) items
                        start)
                      (set_elements-length (set e) (elements structs lib old) items ∙ full))))
        ]
    set_kind-HasType set keeps t string_type is old items before =
        rw (is, set_values_by) (set_single-HasType set keeps t old items before)
    set_kind-HasType set keeps t bool_type is old items before =
        rw (is, set_values_by) (set_single-HasType set keeps t old items before)
    set_kind-HasType set keeps t (int_type bits) is old items before =
        rw (is, set_values_by) (set_single-HasType set keeps t old items before)
    set_kind-HasType set keeps t (uint_type bits) is old items before =
        rw (is, set_values_by) (set_single-HasType set keeps t old items before)
    set_kind-HasType set keeps t (float_type bits) is old items before =
        rw (is, set_values_by) (set_single-HasType set keeps t old items before)
    set_kind-HasType set keeps t (map_type k e) is old items before =
        rw (is, set_values_by) (set_single-HasType set keeps t old items before)
    set_kind-HasType set keeps t (other_type name) is old items before =
        rw (is, set_values_by) (set_single-HasType set keeps t old items before)
    set_kind-HasType set keeps t (defined_type name e) is old items before =
        rw (is, set_values_by) (set_single-HasType set keeps t old items before)
    set_kind-HasType set keeps t (pointer e) is old items before =
        rw (is, set_values_by) (set_single-HasType set keeps t old items before)
    set_kind-HasType set keeps t (struct_type name) is old items before =
        rw (is, set_values_by) (set_single-HasType set keeps t old items before)

    set_values_by-HasType :
        (set : ReflectType → Value F O → Text → Value F O × Option Text)
        → ((t : ReflectType) → KeepsType t (set t))
        → (t : ReflectType) (old : Value F O) (items : List Text) → HasType structs old t
        → HasType structs (set_values_by structs lib set t old items).0 t
    set_values_by-HasType set keeps t = set_kind-HasType set keeps t (kind_of t) refl

    -- Whatever texts a field is set to, by a path, a query or a header, with an error or without
    -- one: a value of the field's type stays one. Integers fit their bits, arrays keep their length.
    pub set_values-HasType :
        (t : ReflectType) (old : Value F O) (items : List Text)
        → HasType structs old t
        → HasType structs (set_values structs lib t old items).0 t
    unfolding set_values
    set_values-HasType =
        set_values_by-HasType (set_scalar structs lib)
          (set_scalar-HasType structs lib typed rank ranked)

    pub set_constrained_values-HasType :
        (constraint : Text) (t : ReflectType) (old : Value F O) (items : List Text)
        → HasType structs old t
        → HasType structs (set_constrained_values structs lib constraint t old items).0 t
    unfolding set_constrained_values
    set_constrained_values-HasType constraint =
        set_values_by-HasType (set_constrained_scalar structs lib constraint)
          (set_constrained_scalar-HasType constraint)
