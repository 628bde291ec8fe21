-- ===== src/Operation/Grouped.antt =====
-- internal/operation/runtime.go: `validationFailure` keeps every message.
use oashttp.Prelude.{
  ◌≡◌, refl, ◌∙◌, ap, sym, Bool-cases, inl, inr, some, List, [], ◌∷◌, ◌++◌, append_assoc,
  append-nil, lookup, insert, arith, if◌then◌else◌,
}
use oashttp.Prelude.Text.{Text, text_eq, text_eq_iff}
use oashttp.Failure.Types.{Errors}
use oashttp.Operation.Model.{FieldError}
use oashttp.Operation.Fields.{error_key, or_empty, group_error, group_errors, validation_failure}

lookup-insert :
    (key j : Text) (ms : List Text) (table : Errors)
    → lookup text_eq (insert text_eq key ms table) j
      ≡ (if text_eq key j then some ms else lookup text_eq table j)
unfolding lookup insert
lookup-insert key j ms [] = refl
lookup-insert key j ms ((k, ns) ∷ table) =
    ground
      (arith, text_eq_iff k key, text_eq_iff k j, text_eq_iff key j, lookup-insert key j ms table)

-- The messages that the errors have for a key, in their order.
pub messages_for : Text → List FieldError → List Text
messages_for key [] = []
messages_for key (e ∷ errors) =
    (if text_eq (error_key e) key then e.messages else []) ++ messages_for key errors

group_error-messages :
    (e : FieldError) (key : Text) (grouped : Errors)
    → or_empty (lookup text_eq (group_error e grouped) key)
      ≡ or_empty (lookup text_eq grouped key)
        ++ (if text_eq (error_key e) key then e.messages else [])
unfolding group_error
group_error-messages e key grouped = elim (Bool-cases (text_eq (error_key e) key)) [
  | inl same ↦
      rw (lookup-insert (error_key e) key _ grouped, same, (text_eq_iff (error_key e) key).0 same)
        refl
  | inr other ↦ rw (lookup-insert (error_key e) key _ grouped, other) (sym (append-nil _))
]

group_errors-messages :
    (errors : List FieldError) (key : Text) (grouped : Errors)
    → or_empty (lookup text_eq (group_errors errors grouped) key)
      ≡ or_empty (lookup text_eq grouped key) ++ messages_for key errors
unfolding group_errors messages_for
group_errors-messages [] key grouped = sym (append-nil _)
group_errors-messages (e ∷ errors) key grouped =
    group_errors-messages errors key (group_error e grouped)
    ∙ ap (λ l. l ++ messages_for key errors) (group_error-messages e key grouped)
    ∙ append_assoc (or_empty (lookup text_eq grouped key)) _ (messages_for key errors)

-- In the failure for the errors of a request's fields, each key has the messages of all the errors with that
-- key, in the order of the errors, and no others.
pub validation_failure-messages :
    (errors : List FieldError) (key : Text)
    → or_empty (lookup text_eq (validation_failure errors).errors key) ≡ messages_for key errors
unfolding validation_failure lookup
validation_failure-messages errors key = group_errors-messages errors key []
