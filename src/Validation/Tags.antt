-- ===== src/Validation/Tags.antt =====
-- internal/validationrule/rule.go: the rules of a tag.
use Prim.Native.Nat.{◌^◌}
use mathlib.Core.Path.{subst}
use oashttp.Prelude.{
  ℕ, Bool, true, false, ◌≡◌, refl, ap, ◌∙◌, inl, inr, List, [], ◌∷◌, ◌++◌, Option, Option-cases,
  Result, ok, err, ◌>>=◌, Result-cases, Bool-cases, ◌==◌, ==-refl, if◌then◌else◌, is_nil, all, All,
  arith,
}
use oashttp.Prelude.Text.{Text, trim_space, split, fields}
use oashttp.Reflect.Integer.{Integer, parse_int}
use oashttp.Reflect.GoType.{
  ReflectType, base_type, is_string, is_numeric_kind, is_scalar_kind, supports_length_or_number,
}
use oashttp.Validation.Parse.{
  RuleError, unknown_rule, Rule, required, email, uuid, e164, min, max, len, one_of, gte, lte,
  is_scalar_value, or_bad, length_rule, text_rule, choice_rule, number_rule, required_rule,
  parse_named, parse_rule, parse_parts, parse_tag, split_name,
}

abbrev IsCons : {A : Type 0} → List A → Type 0
IsCons {A} xs = (x : A) × (more : List A) × (xs ≡ x ∷ more)

split-IsCons : (b : ℕ) (s : Text) → IsCons (split b s)
unfolding split
split-IsCons b [] = ([], [], refl)
split-IsCons b (c ∷ s) =
    let (part, parts, e) = split-IsCons b s in
    elim (Bool-cases (c == b)) [
      | inl same ↦ ([], part ∷ parts, rw (e, same) refl)
      | inr other ↦ (c ∷ part, parts, rw (e, other) refl)
    ]

split-append : (b : ℕ) (s t : Text) → split b (s ++ b ∷ t) ≡ split b s ++ split b t
unfolding split
split-append b [] t = let (part, parts, e) = split-IsCons b t in rw (e, ==-refl b) refl
split-append b (c ∷ s) t =
    let (part, parts, e) = split-IsCons b s in
    elim (Bool-cases (c == b)) [
      | inl same ↦ rw (split-append b s t, e, same) refl
      | inr other ↦ rw (split-append b s t, e, other) refl
    ]

module _ (canonical_float : ℕ → Text → Bool) {F : Type 0} (parse_float : Text → Option F)
    (t : ReflectType) where
  -- The rules of one row of parts and then of another.
  abbrev pub both :
      Result RuleError (List (Rule F))
      → Result RuleError (List (Rule F))
      → Result RuleError (List (Rule F))
  both first second = do x ← first; y ← second; ok (x ++ y)

  alone : (r : Result RuleError (List (Rule F))) → r ≡ both (ok []) r
  alone (ok rules) = refl
  alone (err e) = refl

  then_both :
      (p : Result RuleError (Rule F)) (r s : Result RuleError (List (Rule F)))
      → (do rule ← p; rules ← both r s; ok (rule ∷ rules))
        ≡ both (do rule ← p; rules ← r; ok (rule ∷ rules)) s
  then_both (err e) r s = refl
  then_both (ok rule) (err e) s = refl
  then_both (ok rule) (ok rules) (err e) = refl
  then_both (ok rule) (ok rules) (ok more) = refl

  parse_parts-append :
      (xs ys : List Text)
      → parse_parts canonical_float parse_float t (xs ++ ys)
        ≡ both
            (parse_parts canonical_float parse_float t xs)
            (parse_parts canonical_float parse_float t ys)
  unfolding parse_parts
  parse_parts-append [] ys = alone _
  parse_parts-append (x ∷ xs) ys = elim (Bool-cases (is_nil (trim_space x))) [
    | inl blank ↦ rw blank (parse_parts-append xs ys)
    | inr full ↦
        rw (full, parse_parts-append xs ys)
          (then_both (parse_rule canonical_float parse_float t (trim_space x)) _ _)
  ]

  -- Two tags joined by a comma ask for the rules of the first and then those of the second; an
  -- error of the first comes first.
  pub parse_tag-append :
      (tag more : Text)
      → parse_tag canonical_float parse_float t (tag ++ b',' ∷ more)
        ≡ both
            (parse_tag canonical_float parse_float t tag)
            (parse_tag canonical_float parse_float t more)
  unfolding parse_tag
  parse_tag-append tag more =
      ap (parse_parts canonical_float parse_float t) (split-append b',' tag more)
      ∙ parse_parts-append (split b',' tag) (split b',' more)

  -- What a rule's kind asks of the type of the field.
  abbrev pub IsCompatible : Rule F → Type 0
  IsCompatible required = Unit
  IsCompatible email = is_string (base_type t) ≡ true
  IsCompatible uuid = is_string (base_type t) ≡ true
  IsCompatible e164 = is_string (base_type t) ≡ true
  IsCompatible (min n) = supports_length_or_number t ≡ true
  IsCompatible (max n) = supports_length_or_number t ≡ true
  IsCompatible (len n) = supports_length_or_number t ≡ true
  IsCompatible (one_of choices) =
      (is_scalar_kind (base_type t) ≡ true)
      × (is_nil choices ≡ false)
      × (all (is_scalar_value canonical_float t) choices ≡ true)
  IsCompatible (gte n) = is_numeric_kind (base_type t) ≡ true
  IsCompatible (lte n) = is_numeric_kind (base_type t) ≡ true

  -- The rule that a part gives, if it gives one, is compatible.
  Fits : Result RuleError (Rule F) → Type 0
  Fits (err e) = Unit
  Fits (ok r) = IsCompatible r

  if-Fits :
      (c : Bool) (a b : Result RuleError (Rule F)) → Fits a → Fits b → Fits (if c then a else b)
  if-Fits true a b fa fb = fa
  if-Fits false a b fa fb = fb

  length_rule-Fits :
      (kind : Integer → Rule F) (arg : Text)
      → ((n : Integer) → supports_length_or_number t ≡ true → IsCompatible (kind n))
      → Fits (length_rule canonical_float parse_float kind t arg)
  unfolding length_rule or_bad Fits
  length_rule-Fits kind arg fits = elim (Bool-cases (is_nil arg)) [
    | inl e ↦ rw e tt
    | inr e ↦ elim (Option-cases (parse_int (2 ^ 63) arg)) [
      | inl none_found ↦ rw (e, none_found) tt
      | inr (n, found) ↦ elim (Bool-cases (supports_length_or_number t)) [
        | inl supported ↦ rw (e, found, supported) (fits n supported)
        | inr unsupported ↦ rw (e, found, unsupported) tt
      ]
    ]
  ]

  text_rule-Fits :
      (kind : Rule F)
      → (is_string (base_type t) ≡ true → IsCompatible kind)
      → Fits (text_rule canonical_float parse_float kind t)
  unfolding text_rule Fits
  text_rule-Fits kind fits = elim (Bool-cases (is_string (base_type t))) [
    | inl e ↦ rw e (fits e)
    | inr e ↦ rw e tt
  ]

  number_rule-Fits :
      (kind : F → Rule F) (arg : Text)
      → ((n : F) → is_numeric_kind (base_type t) ≡ true → IsCompatible (kind n))
      → Fits (number_rule canonical_float parse_float kind t arg)
  unfolding number_rule or_bad Fits
  number_rule-Fits kind arg fits = elim (Bool-cases (is_numeric_kind (base_type t))) [
    | inl e ↦ elim (Option-cases (parse_float arg)) [
      | inl none_found ↦ rw (e, none_found) tt
      | inr (n, found) ↦ rw (e, found) (fits n e)
    ]
    | inr e ↦ rw e tt
  ]

  choice_rule-Fits : (arg : Text) → Fits (choice_rule canonical_float parse_float t arg)
  unfolding choice_rule Fits
  choice_rule-Fits arg = elim (Bool-cases (is_nil arg)) [
    | inl e ↦ rw e tt
    | inr e ↦ elim (Bool-cases (is_scalar_kind (base_type t))) [
      | inr other ↦ rw (e, other) tt
      | inl scalar ↦ elim (Bool-cases (is_nil (fields arg))) [
        | inl blank ↦ rw (e, scalar, blank) tt
        | inr full ↦ elim (Bool-cases (all (is_scalar_value canonical_float t) (fields arg))) [
          | inl good ↦ rw (e, scalar, full, good) (scalar, full, good)
          | inr bad ↦ rw (e, scalar, full, bad) tt
        ]
      ]
    ]
  ]

  required_rule-Fits : (arg : Text) → Fits (required_rule canonical_float parse_float arg)
  unfolding required_rule Fits
  required_rule-Fits [] = tt
  required_rule-Fits (c ∷ arg) = tt

  unknown-Fits : Fits (err unknown_rule)
  unfolding Fits
  unknown-Fits = tt

  parse_named-Fits : (name arg : Text) → Fits (parse_named canonical_float parse_float t name arg)
  unfolding parse_named
  parse_named-Fits name arg = if-Fits _ _ _ (required_rule-Fits arg) (
      if-Fits _ _ _ (length_rule-Fits min arg (λ n e. e)) (
        if-Fits _ _ _ (length_rule-Fits max arg (λ n e. e)) (
          if-Fits _ _ _ (length_rule-Fits len arg (λ n e. e)) (
            if-Fits _ _ _ (text_rule-Fits email (λ e. e)) (
              if-Fits _ _ _ (text_rule-Fits uuid (λ e. e)) (
                if-Fits _ _ _ (text_rule-Fits e164 (λ e. e)) (
                  if-Fits _ _ _ (choice_rule-Fits arg) (
                    if-Fits _ _ _ (number_rule-Fits gte arg (λ n e. e))
                      (if-Fits _ _ _ (number_rule-Fits lte arg (λ n e. e)) unknown-Fits)))))))))

  rule-IsCompatible :
      (raw : Text) (r : Rule F)
      → parse_rule canonical_float parse_float t raw ≡ ok r
      → IsCompatible r
  unfolding parse_rule Fits
  rule-IsCompatible raw r e =
      let (name, arg) = split_name raw in subst Fits e (parse_named-Fits name arg)

  parse_parts-All :
      (parts : List Text) (rules : List (Rule F))
      → parse_parts canonical_float parse_float t parts ≡ ok rules
      → All IsCompatible rules
  unfolding parse_parts
  parse_parts-All [] [] e = tt
  parse_parts-All [] (r ∷ rules) e = cc
  parse_parts-All (x ∷ parts) rules e = elim (Bool-cases (is_nil (trim_space x))) [
    | inl blank ↦ parse_parts-All parts rules (ground arith)
    | inr full ↦ elim (Result-cases (parse_rule canonical_float parse_float t (trim_space x))) [
      | inr (_, h) ↦ ground arith
      | inl (r, h) ↦ elim (Result-cases (parse_parts canonical_float parse_float t parts)) [
        | inr (_, g) ↦ ground arith
        | inl (rs, g) ↦
            let whole : rules ≡ r ∷ rs = ground arith in
            rw whole (rule-IsCompatible (trim_space x) r h, parse_parts-All parts rs g)
      ]
    ]
  ]

  -- Every rule that a tag gives is compatible with the type of its field: lengths with strings,
  -- collections and numbers, formats with strings, bounds with numbers, and choices with scalars, of
  -- which each choice is a value.
  pub parse_tag-All :
      (tag : Text) (rules : List (Rule F))
      → parse_tag canonical_float parse_float t tag ≡ ok rules
      → All IsCompatible rules
  unfolding parse_tag
  parse_tag-All tag rules e = parse_parts-All (split b',' tag) rules e
