-- ===== src/App/Register.antt =====
-- app.go, group.go, group_registration.go, docs.go and map.go: what can be called on an application.
-- The mutex makes each call one step.
use oashttp.Prelude.{
  ℕ, Bool, false, not, ◌||◌, Option, none, some, List, [], ◌∷◌, ◌++◌, Result, ok, err, ◌>>◌,
  reject_if, if◌then◌else◌, is_nil, any, length,
}
use oashttp.Prelude.Text.{Text, lit, text_eq, has_prefix, contains, contains_any}
use oashttp.Core.Carrier.{Heap, Context}
use oashttp.Failure.Types.{Outcome, returns, panics}
use oashttp.HttpResult.{HttpResult}
use oashttp.Group.{normalize_prefix, join_paths}
use oashttp.Operation.Model.{Handler, Middleware, Definition}
use oashttp.App.Model.{
  AppError, nil_middleware, nil_group, frozen, already_mapped, no_slash, not_static, Group,
  SwaggerUiConfig, SwaggerRegistration, App, at, put,
}
use oashttp.App.Builder.{Edit, edit}

-- `validateDocumentationPath`.
unfoldable pub validate_documentation_path : Text → Result AppError (Unit {0})
unfolding has_prefix contains contains_any
validate_documentation_path path = do
  reject_if (is_nil path || not (has_prefix path (lit "/"))) no_slash
  reject_if (contains_any path (b'{' ∷ b'}' ∷ b'?' ∷ b'#' ∷ 0 ∷ []) || contains path (lit "//"))
      not_static

abbrev pub is_at : Text → SwaggerRegistration → Bool
is_at path r = text_eq r.path path

unfoldable pub joined : Text → Result oashttp.Group.Error Text → Result oashttp.Group.Error Text
joined parent (err e) = err e
joined parent (ok prefix) = ok (join_paths parent prefix)

module _ {T V : Type 0} where
  -- `App.Use`: the error, if there is one, and the application after the call.
  unfoldable pub use_middleware : Option Middleware → App T V → Option AppError × App T V
  use_middleware none a = (some nil_middleware, a)
  use_middleware (some m) a =
      if a.is_frozen
      then (some frozen, a)
      else (none, record a { middlewares = a.middlewares ++ m ∷ [] })

  -- `App.Group` and `Group.Group`: the new group's place. A bad prefix panics.
  unfoldable pub add_group :
      Result oashttp.Group.Error Text → Text → List Middleware → App T V → Outcome ℕ × App T V
  add_group (err e) parent ms a = (panics, a)
  add_group (ok prefix) parent ms a = (
    returns (length a.groups),
    record a { groups = a.groups ++ record { prefix = prefix; middlewares = ms } ∷ [] },
  )

  unfoldable pub app_group : Text → App T V → Outcome ℕ × App T V
  unfolding add_group
  app_group prefix a = add_group (normalize_prefix prefix) [] [] a

  unfoldable pub group_group : ℕ → Text → App T V → Outcome ℕ × App T V
  unfolding add_group joined
  group_group g prefix a = elim (at a.groups g) [
    | none ↦ (panics, a)
    | some parent ↦
        add_group (joined parent.prefix (normalize_prefix prefix)) parent.prefix parent.middlewares
          a
  ]

  -- `Group.Use`, behind the test for a nil middleware.
  unfoldable pub append_to_group :
      ℕ → Middleware → Option Group → App T V → Option AppError × App T V
  append_to_group g m none a = (some nil_group, a)
  append_to_group g m (some group) a = if a.is_frozen then (some frozen, a) else (
    none,
    record a {
      groups = put a.groups g (record group { middlewares = group.middlewares ++ m ∷ [] });
    },
  )

  -- A nil group is none.
  unfoldable pub group_use : Option ℕ → Option Middleware → App T V → Option AppError × App T V
  unfolding append_to_group
  group_use g none a = (some nil_middleware, a)
  group_use none (some m) a = (some nil_group, a)
  group_use (some g) (some m) a = append_to_group g m (at a.groups g) a

  unfoldable pub map_open_api : Text → App T V → Option AppError × App T V
  map_open_api path a = elim (validate_documentation_path path) [
    | err e ↦ (some e, a)
    | ok _ ↦
        if a.is_frozen
        then (some frozen, a)
        else if not (is_nil a.open_api_path)
        then (some already_mapped, a)
        else (none, record a { open_api_path = path })
  ]

  unfoldable pub map_swagger_ui : Text → SwaggerUiConfig → App T V → Option AppError × App T V
  unfolding any
  map_swagger_ui path config a = elim (validate_documentation_path path) [
    | err e ↦ (some e, a)
    | ok _ ↦
        if a.is_frozen
        then (some frozen, a)
        else if any (is_at path) a.swagger
        then (some already_mapped, a)
        else (
          none,
          record a { swagger = a.swagger ++ record { path = path; config = config } ∷ [] },
        )
  ]

  -- `registerGroupOperation`: the operation starts with the middlewares that its group has now.
  unfoldable pub register_group_operation : Group → Definition T V → App T V → Outcome ℕ × App T V
  register_group_operation group def a = if a.is_frozen then (panics, a) else (
    returns (length a.operations),
    record a { operations = a.operations ++ record def { middlewares = group.middlewares } ∷ [] },
  )

  abbrev pub blank_definition : Text → Text → Definition T V
  blank_definition method full = record {
    method = method;
    user_route = full;
    full_route = full;
    input_type = none;
    output_type = none;
    invoke = none;
    raw_handler = none;
    raw_request_media_types = [];
    operation_id = [];
    tags = [];
    summary = [];
    description = [];
    responses = [];
    validation = false;
    feature = [];
    permission = [];
    security_name = [];
    middlewares = [];
  }

  -- The group that a pointer which may be nil stands for.
  abbrev pub group_at : Option ℕ → App T V → Option Group
  group_at none a = none
  group_at (some g) a = at a.groups g

  unfoldable pub register_at :
      Option Group → Text → Text → (Definition T V → Definition T V) → App T V → Outcome ℕ × App T V
  unfolding register_group_operation
  register_at none method path fill a = (panics, a)
  register_at (some group) method path fill a =
      register_group_operation group (fill (blank_definition method (join_paths group.prefix path)))
        a

  -- `mapOperation`, with the types of the handler; a nil handler is none.
  unfoldable pub map_operation :
      Option ℕ
      → Text
      → Text
      → T
      → T
      → Option (Context → Heap → V → Option (HttpResult V))
      → App T V
      → Outcome ℕ × App T V
  unfolding register_at
  map_operation g method path input output none a = (panics, a)
  map_operation g method path input output (some invoke) a =
      register_at (group_at g a) method path
        (λ d. record d { input_type = some input; output_type = some output; invoke = some invoke })
        a

  -- `MapHandler`.
  unfoldable pub map_handler :
      Option ℕ → Text → Text → Option Handler → App T V → Outcome ℕ × App T V
  unfolding register_at
  map_handler g method path none a = (panics, a)
  map_handler g method path (some handler) a =
      register_at (group_at g a) method path (λ d. record d { raw_handler = some handler }) a

  -- `mutateOperation`, with a builder's method.
  unfoldable pub mutate_at :
      ℕ → Edit T → Option (Definition T V) → App T V → Outcome (Unit {0}) × App T V
  mutate_at i e none a = (panics, a)
  mutate_at i e (some def) a =
      if a.is_frozen
      then (panics, a)
      else (let (ending, changed) = edit e def in
          (ending, record a { operations = put a.operations i changed }))

  unfoldable pub mutate_operation : ℕ → Edit T → App T V → Outcome (Unit {0}) × App T V
  unfolding mutate_at
  mutate_operation i e a = mutate_at i e (at a.operations i) a
