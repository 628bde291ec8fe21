-- ===== src/Operation/Cases.antt =====
-- internal/operation/runtime.go and openapi.go: how the endpoints go.
use mathlib.Core.Path.{subst}
use oashttp.Prelude.{
  All, Bool, Bool-cases, List, Option, [], any, ap, arith, false, if◌then◌else◌, inl, inr, is_nil,
  is_some, none, refl, some, sym, true, ◌∙◌, ◌∷◌, ◌≡◌, ◌⊎◌,
}
use oashttp.Prelude.Text.{Text, fields, lit, text_eq, text_eq_iff}
use mathlib.Core.List.{Memᴰ}
use oashttp.Core.Carrier.{Context, Heap}
use oashttp.Route.Constraint.{constraint_of, satisfies}
use oashttp.Route.{Parameter}
use oashttp.Http.Request.{Request, path_value}
use oashttp.Failure.Types.{Codec}
use oashttp.HttpResult.{HttpResult}
use oashttp.Binding.Model.{BodyDoc, FieldPlan, source_body}
use oashttp.Binding.Compile.{body_doc}
use oashttp.Operation.Model.{Definition, FieldError, Options, RequestError, Served}
use oashttp.Operation.Fields.{validation_failure}
use oashttp.Operation.Runtime.{
  Bound, fail_with, failure_of_request, found, invoked, run_typed, validate,
}
use oashttp.Operation.Answered.{IsGood, Meets}
use oashttp.Operation.OpenApi.{raw_path_has_validation}

-- A field that the body is bound to makes the document speak of a body.
body_doc-some :
    (found : BodyDoc) (fields : List FieldPlan) → is_some (body_doc (some found) fields) ≡ true
unfolding body_doc
body_doc-some found [] = refl
body_doc-some found (f ∷ fields) = ground (
  arith,
  body_doc-some found fields,
  body_doc-some (record { body_type = f.field_type; required = f.required }) fields,
)

pub body_doc-Memᴰ :
    (found : Option BodyDoc) (f : FieldPlan) (fields : List FieldPlan)
    → Memᴰ f fields
    → f.source ≡ source_body
    → is_some (body_doc found fields) ≡ true
unfolding body_doc
body_doc-Memᴰ found f [] m at_body = elim m [ ]
body_doc-Memᴰ found f (g ∷ fields) (Memᴰ.head e) at_body =
    let here : g.source ≡ source_body = ap (λ h. h.source) (sym e) ∙ at_body in
    rw (here, body_doc) (body_doc-some _ fields)
body_doc-Memᴰ found f (g ∷ fields) (Memᴰ.tail m) at_body = ground (
  arith,
  body_doc-some (record { body_type = g.field_type; required = g.required }) fields,
  body_doc-Memᴰ found f fields m at_body,
)

module _ {V : Type 0} (codec : Codec V) (opts : Options V) {T : Type 0} (def : Definition T V) where
  -- How the endpoint of a typed operation goes.
  pub run_typed-cases :
      (invoke : Context → Heap → V → Option (HttpResult V)) (plan : V → List FieldError)
      (ctx : Context) (bound : Bound V) (s : Served)
      → ((e : RequestError) × (bound.1 ≡ some e)
          × (run_typed codec opts def invoke plan ctx bound s
              ≡ fail_with codec opts (failure_of_request e) s))
        ⊎ (((errors : List FieldError) × (run_typed codec opts def invoke plan ctx bound s
                ≡ fail_with codec opts (validation_failure errors) s))
            ⊎ (run_typed codec opts def invoke plan ctx bound s
                ≡ invoked codec opts (invoke ctx s.heap bound.0) s))
  unfolding run_typed
  run_typed-cases invoke plan ctx (input, some e, fields) s = inl (e, refl, refl)
  run_typed-cases invoke plan ctx (input, none, f ∷ fields) s = inr (inl (f ∷ fields, refl))
  run_typed-cases invoke plan ctx (input, none, []) s =
      let errors = if def.validation then validate codec opts plan ctx s.heap input else [] in
      elim (Bool-cases (is_nil errors)) [
        | inl e ↦ inr (inr (rw (e, run_typed) refl))
        | inr e ↦ inr (inl (errors, rw (e, run_typed) refl))
      ]

  string-Meets :
      (parses_date parses_datetime : Text → Bool) (r : Request) (raw : Text)
      → Meets codec opts
          (satisfies parses_date parses_datetime)
          r
          (constraint_of (lit "string"))
          raw
  unfolding constraint_of text_eq lit satisfies
  string-Meets parses_date parses_datetime r raw = refl

  -- Without a constraint other than `string` every value is good.
  pub strings-IsGood :
      (parses_date parses_datetime : Text → Bool) (r : Request) (ps : List Parameter)
      → raw_path_has_validation ps ≡ false
      → All (λ p. is_nil (path_value r p.name) ≡ false) ps
      → All (IsGood codec opts (satisfies parses_date parses_datetime) r) ps
  unfolding raw_path_has_validation any
  strings-IsGood parses_date parses_datetime r [] e there = tt
  strings-IsGood parses_date parses_datetime r (p ∷ ps) e there =
      let plain : p.constraint ≡ lit "string" =
        (text_eq_iff p.constraint (lit "string")).0 (ground arith) in
      (
        (
          there.0,
          subst
              (λ c.
                Meets codec opts (satisfies parses_date parses_datetime) r (constraint_of c)
                  (path_value r p.name))
              (sym plain) (string-Meets parses_date parses_datetime r (path_value r p.name)),
        ),
        strings-IsGood parses_date parses_datetime r ps (ground arith) there.1,
      )
