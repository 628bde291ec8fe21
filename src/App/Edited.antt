-- ===== src/App/Edited.antt =====
-- operation.go, raw.go and security.go: what no method of a builder changes.
use mathlib.Core.Bool.{false≢true}
use oashttp.Prelude.{
  All, Bool-cases, List, Option, [], all, append-nil, append_assoc, arith, false, inl, inr, is_nil,
  none, refl, some, sym, true, ℕ, ◌++◌, ◌∙◌, ◌∷◌, ◌≡◌, ◌≢◌, ◌≤◌, ◌⊎◌,
}
use oashttp.Prelude.Text.{Text, lit, text_eq, text_eq_iff, trim_space}
use oashttp.Failure.Types.{Outcome, panics, returns}
use oashttp.Operation.Model.{Definition, Middleware}
use oashttp.App.Builder.{
  Edit, append_middlewares, consumes, edit, is_component_byte, is_open_api_component_name, named,
  normalize_security_name, produces, produces_json, produces_problem, produces_raw,
  produces_response, require_feature_and_permission, require_security, use_all, with_description,
  with_operation_id, with_summary, with_tags, with_validation,
}

-- The bytes of a component's name: letters, digits, a point, a hyphen and an underscore.
abbrev pub IsComponentByte : ℕ → Type 0
IsComponentByte c =
    ((b'a' ≤ c) × (c ≤ b'z'))
    ⊎ (((b'A' ≤ c) × (c ≤ b'Z'))
        ⊎ (((b'0' ≤ c) × (c ≤ b'9')) ⊎ ((c ≡ b'.') ⊎ ((c ≡ b'-') ⊎ (c ≡ b'_')))))

-- A name that RequireSecurity gives to an operation.
abbrev pub IsSecurityName : Text → Type 0
IsSecurityName name = (name ≢ []) × All IsComponentByte name × (name ≢ lit "bearerAuth")

component_bytes : (name : Text) → all is_component_byte name ≡ true → All IsComponentByte name
unfolding all is_component_byte
component_bytes [] e = tt
component_bytes (c ∷ name) e = (ground arith, component_bytes name (ground arith))

name-IsSecurityName :
    (name : Text)
    → is_open_api_component_name name ≡ true
    → text_eq name (lit "bearerAuth") ≡ false
    → IsSecurityName name
unfolding is_open_api_component_name
name-IsSecurityName [] e free = cc
name-IsSecurityName (c ∷ name) e free = (
  λ h. cc,
  component_bytes (c ∷ name) e,
  λ h. false≢true (sym free ∙ (text_eq_iff (c ∷ name) (lit "bearerAuth")).1 h),
)

abbrev Accepts : Outcome Text → Type 0
Accepts panics = Unit
Accepts (returns name) = IsSecurityName name

normalize_security_name-Accepts : (name : Text) → Accepts (normalize_security_name name)
unfolding normalize_security_name
normalize_security_name-Accepts name = elim (Bool-cases (is_nil (trim_space name))) [
  | inl e ↦ rw e tt
  | inr e ↦ elim (Bool-cases (text_eq (trim_space name) (lit "bearerAuth"))) [
    | inl reserved ↦ rw (e, reserved) tt
    | inr free ↦ elim (Bool-cases (is_open_api_component_name (trim_space name))) [
      | inl good ↦ rw (e, free, good) (name-IsSecurityName (trim_space name) good free)
      | inr bad ↦ rw (e, free, bad) tt
    ]
  ]
]

module _ {T V : Type 0} where
  -- What a builder leaves alone, and what it may make of the security name.
  pub record IsSameOperation (d d' : Definition T V) : Type 0 where
    pub method : d'.method ≡ d.method
    pub user_route : d'.user_route ≡ d.user_route
    pub full_route : d'.full_route ≡ d.full_route
    pub invoke : d'.invoke ≡ d.invoke
    pub raw_handler : d'.raw_handler ≡ d.raw_handler
    pub security : (d'.security_name ≡ d.security_name) ⊎ IsSecurityName d'.security_name
    pub middlewares : (more : List Middleware) × (d'.middlewares ≡ d.middlewares ++ more)

  -- An edit of other fields.
  kept :
      (d d' : Definition T V)
      → d'.method ≡ d.method
      → d'.user_route ≡ d.user_route
      → d'.full_route ≡ d.full_route
      → d'.invoke ≡ d.invoke
      → d'.raw_handler ≡ d.raw_handler
      → d'.security_name ≡ d.security_name
      → d'.middlewares ≡ d.middlewares
      → IsSameOperation d d'
  kept d d' m u f i h s ms = record {
    method = m;
    user_route = u;
    full_route = f;
    invoke = i;
    raw_handler = h;
    security = inl s;
    middlewares = ([], ms ∙ sym (append-nil d.middlewares));
  }

  same : (d : Definition T V) → IsSameOperation d d
  same d = kept d d refl refl refl refl refl refl refl

  append_middlewares-IsSameOperation :
      (ms : List (Option Middleware)) (d : Definition T V)
      → IsSameOperation d (append_middlewares ms d).1
  unfolding append_middlewares
  append_middlewares-IsSameOperation [] d = same d
  append_middlewares-IsSameOperation (none ∷ ms) d = same d
  append_middlewares-IsSameOperation (some m ∷ ms) d =
      let k =
        append_middlewares-IsSameOperation ms
          (record d { middlewares = d.middlewares ++ m ∷ [] }) in
      record {
        method = k.method;
        user_route = k.user_route;
        full_route = k.full_route;
        invoke = k.invoke;
        raw_handler = k.raw_handler;
        security = k.security;
        middlewares = (
          m ∷ k.middlewares.0,
          k.middlewares.1 ∙ append_assoc d.middlewares (m ∷ []) k.middlewares.0,
        );
      }

  named-IsSameOperation :
      (o : Outcome Text) (d : Definition T V) → Accepts o → IsSameOperation d (named o d).1
  unfolding named
  named-IsSameOperation panics d a = same d
  named-IsSameOperation (returns name) d a = record {
    method = refl;
    user_route = refl;
    full_route = refl;
    invoke = refl;
    raw_handler = refl;
    security = inr a;
    middlewares = ([], sym (append-nil d.middlewares));
  }

  -- No method of a builder changes the method, the route or the handler of its operation, or takes
  -- a middleware away; and a security name that it sets is a component name other than bearerAuth.
  pub edit-IsSameOperation : (e : Edit T) (d : Definition T V) → IsSameOperation d (edit e d).1
  unfolding edit
  edit-IsSameOperation (with_operation_id v) d = kept d _ refl refl refl refl refl refl refl
  edit-IsSameOperation (with_summary v) d = kept d _ refl refl refl refl refl refl refl
  edit-IsSameOperation (with_description v) d = kept d _ refl refl refl refl refl refl refl
  edit-IsSameOperation with_validation d = kept d _ refl refl refl refl refl refl refl
  edit-IsSameOperation (with_tags v) d = kept d _ refl refl refl refl refl refl refl
  edit-IsSameOperation (consumes v) d = kept d _ refl refl refl refl refl refl refl
  edit-IsSameOperation (produces n) d = kept d _ refl refl refl refl refl refl refl
  edit-IsSameOperation (produces_raw n) d = kept d _ refl refl refl refl refl refl refl
  edit-IsSameOperation (produces_problem n) d = kept d _ refl refl refl refl refl refl refl
  edit-IsSameOperation (produces_json n v) d = kept d _ refl refl refl refl refl refl refl
  edit-IsSameOperation (produces_response n v w m) d = kept d _ refl refl refl refl refl refl refl
  edit-IsSameOperation (require_feature_and_permission f p) d =
      kept d _ refl refl refl refl refl refl refl
  edit-IsSameOperation (use_all ms) d = append_middlewares-IsSameOperation ms d
  edit-IsSameOperation (require_security name) d =
      named-IsSameOperation (normalize_security_name name) d (normalize_security_name-Accepts name)
