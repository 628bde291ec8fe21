-- ===== src/Binding/Sources.antt =====
-- internal/binding/compiler.go: each tag of a field keeps the invariant of Compile.
use mathlib.Core.Path.{subst}
use oashttp.Prelude.{
  Bool-cases, List, Option-cases, Result-cases, [], any, ap, append-nil, arith, false, inl, inr,
  is_some, lookup, none, not, ok, refl, some, suc, true, ℕ, ◌++◌, ◌+◌, ◌||◌, ◌∙◌, ◌∷◌, ◌≡◌,
}
use oashttp.Prelude.Text.{Text, text_eq, text_eq_iff}
use oashttp.Reflect.GoType.{StructField, tag_lookup}
use oashttp.Binding.Model.{SourceKind, source_body, source_header, source_path, source_query}
use oashttp.Binding.Compile.{
  Building, add_body, add_field, add_path, add_source, add_tag, add_tags, is_pointer, plan_of,
}
use oashttp.Binding.Building.{
  IsBuilding, Matches, grown-IsBuilding, is_path_of, listed, one_if, own_body,
}

module _ (params : List (Text × Text)) where
  module _ (f : StructField) (i : ℕ) where
    new_name :
        (names : List Text) (name n : Text)
        → any (λ m. text_eq m name) names ≡ false
        → one_if (text_eq name n || any (λ m. text_eq m n) names)
          ≡ one_if (any (λ m. text_eq m n) names) + one_if (text_eq name n)
    new_name names name n new = elim (Bool-cases (text_eq name n)) [
      | inr other ↦ rw other (omega arith)
      | inl same ↦
          rw
            (
              same,
              subst (λ m. any (λ k. text_eq k m) names ≡ false) ((text_eq_iff name n).0 same) new,
            )
            refl
    ]

    known_name :
        (names : List Text) (name n constraint : Text)
        → lookup text_eq params name ≡ some constraint
        → (any (λ m. text_eq m n) names ≡ true → is_some (lookup text_eq params n) ≡ true)
        → text_eq name n || any (λ m. text_eq m n) names ≡ true
        → is_some (lookup text_eq params n) ≡ true
    known_name names name n constraint h old e = elim (Bool-cases (text_eq name n)) [
      | inr other ↦ ground arith
      | inl same ↦
          subst (λ m. is_some (lookup text_eq params m) ≡ true) ((text_eq_iff name n).0 same)
            (rw h refl)
    ]

    add_path-IsBuilding :
        (name : Text) (found : ℕ) (b c : Building)
        → IsBuilding params i found b
        → add_path params f i name b ≡ ok c
        → IsBuilding params i (suc found) c
    unfolding add_path any own_body is_path_of Matches
    add_path-IsBuilding name found b c inv e = elim (Option-cases (lookup text_eq params name)) [
      | inl h ↦ ground arith
      | inr (constraint, h) ↦ elim (Bool-cases (any (λ n. text_eq n name) b.bound_path)) [
        | inl old ↦ ground arith
        | inr new ↦
            let fp = record (plan_of f i name source_path) {
              constraint = constraint;
              required = true;
            } in
            let reached : add_field (record b { bound_path = name ∷ b.bound_path }) fp ≡ c =
              ground arith in
            subst (λ c. IsBuilding params i (suc found) c) reached
              (grown-IsBuilding params i found b _ fp inv refl refl (h, refl)
                (λ n. new_name b.bound_path name n new)
                (λ n. known_name b.bound_path name n constraint h (inv.known n))
                (append-nil _ ∙ inv.body))
      ]
    ]

    add_body-IsBuilding :
        (name : Text) (found : ℕ) (b c : Building)
        → IsBuilding params i found b
        → add_body params f i name b ≡ ok c
        → IsBuilding params i (suc found) c
    unfolding add_body own_body is_path_of Matches
    add_body-IsBuilding name found b c inv e =
        let fp = record (plan_of f i name source_body) {
          required = not (is_pointer f.field_type);
        } in
        let reached : add_field (record b { body = some fp }) fp ≡ c = ground arith in
        let free : b.body ≡ none = ground arith in
        subst (λ c. IsBuilding params i (suc found) c) reached
          (grown-IsBuilding params i found b _ fp inv refl refl tt (λ n. omega arith) inv.known
            (ap (λ l. l ++ fp ∷ []) (inv.body ∙ ap listed free)))

    add_source-IsBuilding :
        (source : SourceKind) (name : Text) (found : ℕ) (b c : Building)
        → IsBuilding params i found b
        → add_source params f i source name b ≡ ok c
        → IsBuilding params i (suc found) c
    unfolding add_source own_body is_path_of Matches
    add_source-IsBuilding source_path name found b c inv e =
        add_path-IsBuilding name found b c inv e
    add_source-IsBuilding source_body name found b c inv e =
        add_body-IsBuilding name found b c inv e
    add_source-IsBuilding source_query name found b c inv e =
        let reached : add_field b (plan_of f i name source_query) ≡ c = ground arith in
        subst (λ c. IsBuilding params i (suc found) c) reached
          (grown-IsBuilding params i found b _ (plan_of f i name source_query) inv refl refl tt
            (λ n. omega arith) inv.known (append-nil _ ∙ inv.body))
    add_source-IsBuilding source_header name found b c inv e =
        let reached : add_field b (plan_of f i name source_header) ≡ c = ground arith in
        subst (λ c. IsBuilding params i (suc found) c) reached
          (grown-IsBuilding params i found b _ (plan_of f i name source_header) inv refl refl tt
            (λ n. omega arith) inv.known (append-nil _ ∙ inv.body))

    add_tag-IsBuilding :
        (key : Text) (source : SourceKind) (found m : ℕ) (b c : Building)
        → IsBuilding params i found b
        → add_tag params f i key source (found, b) ≡ ok (m, c)
        → IsBuilding params i m c
    unfolding add_tag
    add_tag-IsBuilding key source found m b c inv e = elim (Option-cases (tag_lookup f key)) [
      | inl h ↦
          let same : (found, b) ≡ (m, c) = ground arith in
          subst (λ (s : ℕ × Building). IsBuilding params i s.0 s.1) same inv
      | inr (name, h) ↦ elim (Result-cases (add_source params f i source name b)) [
        | inr (_, g) ↦ ground arith
        | inl (d, g) ↦
            let next : (suc found, d) ≡ (m, c) = ground arith in
            subst (λ (s : ℕ × Building). IsBuilding params i s.0 s.1) next
              (add_source-IsBuilding source name found b d inv g)
      ]
    ]

    pub add_tags-IsBuilding :
        (tags : List (Text × SourceKind)) (found m : ℕ) (b c : Building)
        → IsBuilding params i found b
        → add_tags params f i tags (found, b) ≡ ok (m, c)
        → IsBuilding params i m c
    unfolding add_tags
    add_tags-IsBuilding [] found m b c inv e =
        let same : (found, b) ≡ (m, c) = ground arith in
        subst (λ (s : ℕ × Building). IsBuilding params i s.0 s.1) same inv
    add_tags-IsBuilding ((key, source) ∷ tags) found m b c inv e =
        elim (Result-cases (add_tag params f i key source (found, b))) [
          | inr (_, g) ↦ ground arith
          | inl ((n, d), g) ↦
              add_tags-IsBuilding tags n m d c (add_tag-IsBuilding key source found n b d inv g)
                (ground arith)
        ]
