-- ===== src/Validation/Valid.antt =====
-- internal/validation/rules.go and validate.go: when a value is valid.
use mathlib.Core.Path.{subst}
use oashttp.Prelude.{
  All, Bool-cases, List, Option, Option-cases, [], any, ap, append-nil_iff, arith, false, inl, inr,
  is_nil, is_nil_iff, none, refl, some, sym, true, ◌↔◌, ◌∙◌, ◌∷◌, ◌≡◌, ◌⊎◌,
}
use oashttp.Prelude.Text.{Text, lit, text_eq, text_eq_iff, trim_space}
use oashttp.Core.Uuid.{normalize_uuid}
use oashttp.Reflect.Value.{Value, Values, nil_value, struct_value}
use oashttp.Validation.Parse.{Rule, e164, email, gte, len, lte, max, min, one_of, required, uuid}
use oashttp.Route.Constraint.{is_ok}
use oashttp.Validation.Plan.{FieldRules}
use oashttp.Validation.Check.{
  Formats, all_errors, field_by_index, field_errors, field_failure, is_address, is_e164,
  is_nil_value, is_zero, kind_message, measure, numeric, rule_messages, string_value, unwrap,
  validate_rule, validate_value,
}
use oashttp.Operation.Model.{FieldError}
use mathlib.Core.Bool.{false≢true}
use oashttp.Validation.Reached.{
  Behind, Behind-unwrap, Reaches, field_by_index_iff, is_nil_value_iff, unwrap-Behind,
}

module _ {F O : Type 0} (lib : Formats F O) where
  -- What a rule asks of the value behind pointers.
  unfoldable pub Meets : Value F O → Rule F → Type 0
  Meets v required = Unit
  Meets v (min n) = lib.less (measure lib v) (lib.of_integer n) ≡ false
  Meets v (max n) = lib.less (lib.of_integer n) (measure lib v) ≡ false
  Meets v (len n) = lib.same (measure lib v) (lib.of_integer n) ≡ true
  Meets v email =
      lib.parse_address (trim_space (string_value lib v)) ≡ some (trim_space (string_value lib v))
  Meets v uuid = is_ok (normalize_uuid (string_value lib v)) ≡ true
  Meets v e164 = is_e164 (string_value lib v) ≡ true
  Meets v (one_of choices) = any (text_eq (lib.sprint v)) choices ≡ true
  Meets v (gte x) = lib.less (numeric lib v) x ≡ false
  Meets v (lte x) = lib.less x (numeric lib v) ≡ false

  -- A required value is not zero; nil obeys every other rule, and any other value obeys it if what
  -- stands behind pointers and interfaces meets it.
  unfoldable pub Obeys : Value F O → Rule F → Type 0
  Obeys v required = is_zero lib v ≡ false
  Obeys v r = (v ≡ nil_value) ⊎ ((u : Value F O) × Behind v u × Meets u r)

  unwrapped_iff :
      (v : Value F O) (r : Rule F)
      → ((is_nil_value lib v ≡ true) ⊎ Meets (unwrap lib v) r)
        ↔ ((v ≡ nil_value) ⊎ ((u : Value F O) × Behind v u × Meets u r))
  unwrapped_iff v r = (
    λ s. elim s [
      | inl e ↦ inl ((is_nil_value_iff lib v).0 e)
      | inr m ↦ inr (unwrap lib v, unwrap-Behind lib v, m)
    ],
    λ s. elim s [
      | inl e ↦ inl ((is_nil_value_iff lib v).1 e)
      | inr (u, b, m) ↦ inr (subst (λ x. Meets x r) (sym (Behind-unwrap lib b)) m)
    ],
  )

  is_address_iff : (s : Text) (o : Option Text) → (is_address lib s o ≡ true) ↔ (o ≡ some s)
  is_address_iff s none = (λ e. cc, λ e. cc)
  is_address_iff s (some a) =
      (λ e. ap some ((text_eq_iff a s).0 e), λ e. (text_eq_iff a s).1 (ground arith))

  kind_message_iff : (v : Value F O) (r : Rule F) → (kind_message lib v r ≡ []) ↔ Meets v r
  unfolding kind_message Meets lit
  kind_message_iff v required = (λ e. tt, λ m. refl)
  kind_message_iff v email = ground (
    arith,
    is_address_iff (trim_space (string_value lib v))
        (lib.parse_address (trim_space (string_value lib v))),
  )
  kind_message_iff v r = ground arith

  validate_rule_iff : (v : Value F O) (r : Rule F) → (validate_rule lib v r ≡ []) ↔ Obeys v r
  unfolding validate_rule Obeys kind_message lit
  validate_rule_iff v required = ground arith
  validate_rule_iff v r = ground (arith, kind_message_iff (unwrap lib v) r, unwrapped_iff v r)

  rule_messages_iff :
      (v : Value F O) (rules : List (Rule F))
      → (rule_messages lib v rules ≡ []) ↔ All (Obeys v) rules
  unfolding rule_messages
  rule_messages_iff v [] = (λ e. tt, λ a. refl)
  rule_messages_iff v (r ∷ rules) = elim (Bool-cases (is_nil (validate_rule lib v r))) [
    | inl e ↦
        let fine = (is_nil_iff (validate_rule lib v r)).0 e in
        rw e (
          λ k. ((validate_rule_iff v r).0 fine, (rule_messages_iff v rules).0 k),
          λ a. (rule_messages_iff v rules).1 a.1,
        )
    | inr e ↦ rw e (
      λ k. cc,
      λ a. absurd (
          false≢true
            (sym e ∙ (is_nil_iff (validate_rule lib v r)).1 ((validate_rule_iff v r).1 a.0))),
    )
  ]

  -- What the field's path leads to obeys the field's rules.
  abbrev pub IsValid : Value F O → FieldRules F → Type 0
  IsValid v f = (w : Value F O) → Reaches v f.index w → All (Obeys w) f.rules

  field_failure_iff :
      (name : Text) (messages : List Text)
      → (field_failure lib name messages ≡ []) ↔ (messages ≡ [])
  field_failure_iff name [] = (λ e. refl, λ e. refl)
  field_failure_iff name (m ∷ messages) = (λ e. cc, λ e. cc)

  abbrev failed : FieldRules F → Option (Value F O) → List FieldError
  failed f none = []
  failed f (some w) = field_failure lib f.name (rule_messages lib w f.rules)

  field_errors_iff : (v : Value F O) (f : FieldRules F) → (field_errors lib v f ≡ []) ↔ IsValid v f
  unfolding field_errors
  field_errors_iff v f = elim (Option-cases (field_by_index lib v f.index)) [
    | inl e ↦ (
      λ k w r. let h = (field_by_index_iff lib v f.index w).1 r in ground arith,
      λ k. rw (e, field_errors) refl,
    )
    | inr (w, e) ↦ (
      λ k u r.
          let h = (field_by_index_iff lib v f.index u).1 r in
          let same : w ≡ u = ground arith in
          let quiet =
            (field_failure_iff f.name (rule_messages lib w f.rules)).0
              (ap (failed f) (sym e) ∙ k) in
          subst (λ x. All (Obeys x) f.rules) same ((rule_messages_iff w f.rules).0 quiet),
      λ k.
          ap (failed f) e
          ∙ (field_failure_iff f.name (rule_messages lib w f.rules)).1
              ((rule_messages_iff w f.rules).1 (k w ((field_by_index_iff lib v f.index w).0 e))),
    )
  ]

  all_errors_iff :
      (v : Value F O) (fs : List (FieldRules F)) → (all_errors lib v fs ≡ []) ↔ All (IsValid v) fs
  unfolding all_errors
  all_errors_iff v [] = (λ e. tt, λ a. refl)
  all_errors_iff v (f ∷ fs) = (
    λ e.
        let (here, there) = (append-nil_iff _ _).0 e in
        ((field_errors_iff v f).0 here, (all_errors_iff v fs).0 there),
    λ a. (append-nil_iff _ _).1 ((field_errors_iff v f).1 a.0, (all_errors_iff v fs).1 a.1),
  )

  -- A struct has no errors of validation exactly if every field that its path leads to, through
  -- structs and pointers and with no nil on the way, obeys all of the rules in its tag.
  pub validate_value_iff :
      (fs : List (FieldRules F)) (vs : Values F O)
      → (validate_value lib fs (struct_value vs) ≡ []) ↔ All (IsValid (struct_value vs)) fs
  unfolding validate_value
  validate_value_iff fs vs = all_errors_iff (struct_value vs) fs
