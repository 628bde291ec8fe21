-- ===== src/Operation/Fields.antt =====
-- internal/operation/runtime.go: the errors of a request's fields.
use oashttp.Prelude.{
  Bool, Option, none, some, List, [], ◌∷◌, ◌++◌, reverse, ◌==◌, if◌then◌else◌, is_nil, lookup,
  insert,
}
use oashttp.Prelude.Text.{Text, lit, text_eq, trim_space}
use oashttp.Route.{Parameter}
use oashttp.Route.Constraint.{ConstraintKind, constraint_of}
use oashttp.Http.Request.{Request, path_value}
use oashttp.Failure.Types.{Failure, Errors, no_failure}
use oashttp.Operation.Model.{FieldError}

-- strings.Trim(s, ".").
trim_left_dots : Text → Text
trim_left_dots [] = []
trim_left_dots (c ∷ s) = let rest = trim_left_dots s in if c == b'.' then rest else c ∷ s

unfoldable pub trim_dots : Text → Text
unfolding trim_left_dots
trim_dots s = reverse (trim_left_dots (reverse (trim_left_dots s)))

-- The key of a field in the failure's errors.
unfoldable pub error_key : FieldError → Text
unfolding trim_dots
error_key e =
    let key = trim_dots (trim_space e.location ++ (lit "." ++ trim_space e.field)) in
    if is_nil key then lit "request" else key

-- What a map of lists gives for a key that it lacks.
abbrev pub or_empty : Option (List Text) → List Text
or_empty none = []
or_empty (some ms) = ms

-- `grouped[key] = append(grouped[key], field.Messages...)`.
unfoldable pub group_error : FieldError → Errors → Errors
unfolding error_key lookup insert
group_error e grouped =
    insert text_eq (error_key e) (or_empty (lookup text_eq grouped (error_key e)) ++ e.messages)
      grouped

unfoldable pub group_errors : List FieldError → Errors → Errors
unfolding group_error
group_errors [] grouped = grouped
group_errors (e ∷ errors) grouped = group_errors errors (group_error e grouped)

unfoldable pub validation_failure : List FieldError → Failure
unfolding group_errors
validation_failure errors = record no_failure {
  title = lit "Bad Request";
  status = 400;
  code = lit "VALIDATION_FAILED";
  detail = lit "The request is invalid";
  errors = group_errors errors [];
}

abbrev pub bad_parameter : Text → Text → FieldError
bad_parameter name message = record { location = lit "path"; field = name; messages = message ∷ [] }

module _ (satisfies : ConstraintKind → Text → Bool) where
  -- One round of the loop of `rawEndpoint`.
  unfoldable pub check_path_value : Request → Parameter → List FieldError
  check_path_value r p =
      let raw = path_value r p.name in
      if is_nil raw
      then bad_parameter p.name (lit "is required") ∷ []
      else elim (constraint_of p.constraint) [
        | none ↦ []
        | some kind ↦
            if satisfies kind raw
            then []
            else bad_parameter p.name
                (lit "does not satisfy " ++ (p.constraint ++ lit " constraint"))
              ∷ []
      ]

  unfoldable pub path_errors : Request → List Parameter → List FieldError
  unfolding check_path_value
  path_errors r [] = []
  path_errors r (p ∷ ps) = check_path_value r p ++ path_errors r ps
