-- ===== src/App/Frozen.antt =====
-- app.go: a built application no longer changes.
use oashttp.Prelude.{
  ℕ, true, ◌≡◌, refl, ap, ◌∙◌, inl, inr, ok, err, Option-cases, Option, none, some, List, [], ◌∷◌,
  Result, arith,
}
use oashttp.Prelude.Text.{Text}
use oashttp.Core.Carrier.{Heap, Context}
use oashttp.Failure.Types.{Codec}
use oashttp.HttpResult.{HttpResult}
use oashttp.Group.{normalize_prefix}
use oashttp.Operation.Model.{Handler, Middleware, Definition}
use oashttp.App.Model.{BuildError, SwaggerUiConfig, App, at}
use oashttp.App.Builder.{Edit}
use oashttp.App.Register.{
  use_middleware, add_group, app_group, group_group, append_to_group, group_use, map_open_api,
  map_swagger_ui, register_group_operation, group_at, register_at, map_operation, map_handler,
  mutate_at, mutate_operation,
}
use oashttp.App.Build.{Parts, build}

-- What can be called on an application and on its groups and builders.
pub data Call (T V : Type 0) : Type 0 where
  uses : Option Middleware → Call T V
  groups : Text → Call T V
  subgroups : ℕ → Text → Call T V
  group_uses : Option ℕ → Option Middleware → Call T V
  maps_open_api : Text → Call T V
  maps_swagger_ui : Text → SwaggerUiConfig → Call T V
  maps :
      Option ℕ
      → Text
      → Text
      → T
      → T
      → Option (Context → Heap → V → Option (HttpResult V))
      → Call T V
  maps_handler : Option ℕ → Text → Text → Option Handler → Call T V
  edits : ℕ → Edit T → Call T V
  builds : Call T V

module _ {T V : Type 0} where
  -- All that Build has read is as it was.
  pub record IsKept (a a' : App T V) : Type 0 where
    pub config : a'.config ≡ a.config
    pub is_frozen : a'.is_frozen ≡ a.is_frozen
    pub middlewares : a'.middlewares ≡ a.middlewares
    pub operations : a'.operations ≡ a.operations
    pub open_api_path : a'.open_api_path ≡ a.open_api_path
    pub swagger : a'.swagger ≡ a.swagger
    pub built : a'.built ≡ a.built

  kept : (a : App T V) → IsKept a a
  kept a = record {
    config = refl;
    is_frozen = refl;
    middlewares = refl;
    operations = refl;
    open_api_path = refl;
    swagger = refl;
    built = refl;
  }

  IsKept-then : {a b c : App T V} → IsKept a b → IsKept b c → IsKept a c
  IsKept-then f g = record {
    config = g.config ∙ f.config;
    is_frozen = g.is_frozen ∙ f.is_frozen;
    middlewares = g.middlewares ∙ f.middlewares;
    operations = g.operations ∙ f.operations;
    open_api_path = g.open_api_path ∙ f.open_api_path;
    swagger = g.swagger ∙ f.swagger;
    built = g.built ∙ f.built;
  }

  IsKept-of : {a a' : App T V} → a' ≡ a → IsKept a a'
  IsKept-of {a} {a'} e = rw e (kept a)

  use_middleware-frozen :
      (m : Option Middleware) (a : App T V) → a.is_frozen ≡ true → (use_middleware m a).1 ≡ a
  unfolding use_middleware
  use_middleware-frozen m a frozen = ground arith

  add_group-IsKept :
      (r : Result oashttp.Group.Error Text) (parent : Text) (ms : List Middleware) (a : App T V)
      → IsKept a (add_group r parent ms a).1
  unfolding add_group
  add_group-IsKept (err e) parent ms a = kept a
  add_group-IsKept (ok prefix) parent ms a = record {
    config = refl;
    is_frozen = refl;
    middlewares = refl;
    operations = refl;
    open_api_path = refl;
    swagger = refl;
    built = refl;
  }

  group_group-IsKept : (g : ℕ) (prefix : Text) (a : App T V) → IsKept a (group_group g prefix a).1
  unfolding group_group
  group_group-IsKept g prefix a = elim (Option-cases (at a.groups g)) [
    | inl e ↦ rw (e, group_group) (kept a)
    | inr (parent, e) ↦ rw (e, group_group) (add_group-IsKept _ _ _ a)
  ]

  group_use-frozen :
      (g : Option ℕ) (m : Option Middleware) (a : App T V)
      → a.is_frozen ≡ true
      → (group_use g m a).1 ≡ a
  unfolding group_use append_to_group
  group_use-frozen g m a frozen = ground arith

  register_at-frozen :
      (o : _) (method path : Text) (fill : Definition T V → Definition T V) (a : App T V)
      → a.is_frozen ≡ true
      → (register_at o method path fill a).1 ≡ a
  unfolding register_at register_group_operation
  register_at-frozen o method path fill a frozen = ground arith

  map_open_api-frozen :
      (path : Text) (a : App T V) → a.is_frozen ≡ true → (map_open_api path a).1 ≡ a
  unfolding map_open_api
  map_open_api-frozen path a frozen = ground arith

  map_swagger_ui-frozen :
      (path : Text) (config : SwaggerUiConfig) (a : App T V)
      → a.is_frozen ≡ true
      → (map_swagger_ui path config a).1 ≡ a
  unfolding map_swagger_ui
  map_swagger_ui-frozen path config a frozen = ground arith

  mutate_operation-frozen :
      (i : ℕ) (e : Edit T) (a : App T V) → a.is_frozen ≡ true → (mutate_operation i e a).1 ≡ a
  unfolding mutate_operation mutate_at
  mutate_operation-frozen i e a frozen = ground arith

  map_operation-frozen :
      (g : Option ℕ) (method path : Text) (input output : T)
      (invoke : Option (Context → Heap → V → Option (HttpResult V))) (a : App T V)
      → a.is_frozen ≡ true
      → (map_operation g method path input output invoke a).1 ≡ a
  unfolding map_operation
  map_operation-frozen g method path input output none a frozen = refl
  map_operation-frozen g method path input output (some invoke) a frozen =
      register_at-frozen (group_at g a) method path _ a frozen

  map_handler-frozen :
      (g : Option ℕ) (method path : Text) (handler : Option Handler) (a : App T V)
      → a.is_frozen ≡ true
      → (map_handler g method path handler a).1 ≡ a
  unfolding map_handler
  map_handler-frozen g method path none a frozen = refl
  map_handler-frozen g method path (some handler) a frozen =
      register_at-frozen (group_at g a) method path _ a frozen

module _ {T V D : Type 0} {codec : Codec V} (parts : Parts T V D codec) where
  -- The application after a call.
  unfoldable pub call : Call T V → App T V → App T V
  call (uses m) a = (use_middleware m a).1
  call (groups prefix) a = (app_group prefix a).1
  call (subgroups g prefix) a = (group_group g prefix a).1
  call (group_uses g m) a = (group_use g m a).1
  call (maps_open_api path) a = (map_open_api path a).1
  call (maps_swagger_ui path config) a = (map_swagger_ui path config a).1
  call (maps g method path input output invoke) a =
      (map_operation g method path input output invoke a).1
  call (maps_handler g method path handler) a = (map_handler g method path handler a).1
  call (edits i e) a = (mutate_operation i e a).1
  call builds a = (build parts a).1

  unfoldable pub run_calls : List (Call T V) → App T V → App T V
  run_calls [] a = a
  run_calls (c ∷ calls) a = run_calls calls (call c a)

  build-frozen :
      (a : App T V) (r : Result BuildError Handler) → a.built ≡ some r → build parts a ≡ (r, a)
  unfolding build
  build-frozen a r e = rw e refl

  call-IsKept :
      (c : Call T V) (a : App T V) (r : Result BuildError Handler)
      → a.is_frozen ≡ true
      → a.built ≡ some r
      → IsKept a (call c a)
  unfolding call app_group
  call-IsKept (uses m) a r frozen b = IsKept-of (use_middleware-frozen m a frozen)
  call-IsKept (groups prefix) a r frozen b = add_group-IsKept (normalize_prefix prefix) [] [] a
  call-IsKept (subgroups g prefix) a r frozen b = group_group-IsKept g prefix a
  call-IsKept (group_uses g m) a r frozen b = IsKept-of (group_use-frozen g m a frozen)
  call-IsKept (maps_open_api path) a r frozen b = IsKept-of (map_open_api-frozen path a frozen)
  call-IsKept (maps_swagger_ui path config) a r frozen b =
      IsKept-of (map_swagger_ui-frozen path config a frozen)
  call-IsKept (maps g method path input output invoke) a r frozen b =
      IsKept-of (map_operation-frozen g method path input output invoke a frozen)
  call-IsKept (maps_handler g method path handler) a r frozen b =
      IsKept-of (map_handler-frozen g method path handler a frozen)
  call-IsKept (edits i e) a r frozen b = IsKept-of (mutate_operation-frozen i e a frozen)
  call-IsKept builds a r frozen b = IsKept-of (ap (λ q. q.1) (build-frozen a r b))

  run_calls-IsKept :
      (calls : List (Call T V)) (a : App T V) (r : Result BuildError Handler)
      → a.is_frozen ≡ true
      → a.built ≡ some r
      → IsKept a (run_calls calls a)
  unfolding run_calls
  run_calls-IsKept [] a r frozen b = kept a
  run_calls-IsKept (c ∷ calls) a r frozen b =
      let k = call-IsKept c a r frozen b in
      IsKept-then k (run_calls-IsKept calls (call c a) r (k.is_frozen ∙ frozen) (k.built ∙ b))

  build-fresh :
      (a : App T V)
      → a.built ≡ none
      → ((build parts a).1.is_frozen ≡ true) × ((build parts a).1.built ≡ some (build parts a).0)
  unfolding build
  build-fresh a fresh = rw fresh (refl, refl)

  -- Build happens once: after a Build of an application that was not built before, whatever is
  -- called on the application, its groups and its builders changes nothing of what Build has read,
  -- and another Build returns what the first one did.
  pub build_once :
      (a : App T V) (calls : List (Call T V))
      → a.built ≡ none
      → let (r, a') = build parts a in
        let later = run_calls calls a' in IsKept a' later × (build parts later ≡ (r, later))
  build_once a calls fresh =
      let (frozen, built) = build-fresh a fresh in
      let k = run_calls-IsKept calls (build parts a).1 (build parts a).0 frozen built in
      (k, build-frozen (run_calls calls (build parts a).1) (build parts a).0 (k.built ∙ built))
