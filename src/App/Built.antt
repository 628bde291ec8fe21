-- ===== src/App/Built.antt =====
-- app.go: what a Build that succeeds makes sure of.
use mathlib.Core.Path.{subst}
use oashttp.Failure.Write.{describe}
use oashttp.Prelude.{
  true, false, ◌≡◌, refl, sym, ap, ◌∙◌, inl, inr, List, [], ◌∷◌, ok, Result-cases, is_nil, any, All,
  map, arith,
}
use oashttp.Prelude.Text.{Text, lit, text_eq, text_eq_iff, trim_space}
use oashttp.Failure.Types.{Codec}
use oashttp.Operation.Model.{Handler, Definition, Options}
use oashttp.Operation.Compile.{Compiled, compile}
use oashttp.Operation.Sound.{compile-IsCompiled}
use oashttp.App.Settings.{is_positive, RuntimeConfig}
use oashttp.App.Model.{BuildError, duplicate_route, App}
use oashttp.App.Document.{apply_compiled_operation}
use oashttp.App.Build.{
  Parts, Building, key_of, known, register, with_document, add_compiled, with_id, add_operation,
  add_operations, check_config, built_handler, assemble, options_of, start,
}

-- No text stands twice in the list.
abbrev pub IsDistinct : List Text → Type 0
IsDistinct [] = Unit
IsDistinct (x ∷ xs) = (known x xs ≡ false) × IsDistinct xs

known_swap : (x y : Text) → text_eq x y ≡ false → text_eq y x ≡ false
known_swap x y e = ground (arith, text_eq_iff x y, text_eq_iff y x)

known-cons :
    (x y : Text) (keys : List Text)
    → known x (y ∷ keys) ≡ false
    → (text_eq x y ≡ false) × (known x keys ≡ false)
unfolding known any
known-cons x y keys e = ground arith

module _ {A : Type 0} (name : A → Text) where
  -- Entries that are new behind a further name are new without it, and the name is not theirs.
  new_behind :
      (x : Text) (keys : List Text) (entries : List A)
      → All (λ e. known (name e) (x ∷ keys) ≡ false) entries
      → All (λ e. known (name e) keys ≡ false) entries × (known x (map name entries) ≡ false)
  unfolding known any
  new_behind x keys [] h = (tt, refl)
  new_behind x keys (e ∷ entries) h =
      let (other, new) = known-cons (name e) x keys h.0 in
      let (more, unlike) = new_behind x keys entries h.1 in
      ((new, more), rw (known_swap (name e) x other) unlike)

trimmed-nil : (s : Text) → is_nil (trim_space s) ≡ false → is_nil s ≡ false
unfolding trim_space
trimmed-nil [] e = e
trimmed-nil (c ∷ s) e = refl

module _ {T V D : Type 0} {codec : Codec V} (parts : Parts T V D codec) (cfg : RuntimeConfig V)
    (opts : Options V) where
  register-new :
      (taken : BuildError) (key : Text) (handler : Handler) (b b' : Building D)
      → register parts taken key handler b ≡ ok b'
      → (known key b.registered ≡ false)
        × (b'.registered ≡ key ∷ b.registered)
        × (b'.operation_ids ≡ b.operation_ids)
  unfolding register
  register-new taken key handler b b' e = (ground arith, ground arith, ground arith)

  -- The key under which a compiled operation is registered.
  abbrev pub route_key : Definition T V × Compiled D → Text
  route_key (def, compiled) = key_of def.method compiled.pattern.serve_mux_path

  add_compiled-new :
      (def : Definition T V) (compiled : Compiled D) (b b' : Building D)
      → add_compiled parts cfg.config def b compiled ≡ ok b'
      → (known (route_key (def, compiled)) b.registered ≡ false)
        × (b'.registered ≡ route_key (def, compiled) ∷ b.registered)
        × (b'.operation_ids ≡ b.operation_ids)
  unfolding add_compiled with_document
  add_compiled-new def compiled b b' e =
      elim (Result-cases (
        register parts (duplicate_route (route_key (def, compiled))) (route_key (def, compiled))
          compiled.handler b)) [
            | inr (_, h) ↦ ground arith
            | inl (b₁, h) ↦
                let (new, keys, ids) = register-new _ _ _ b b₁ h in
                elim (Result-cases (apply_compiled_operation b₁.document def compiled cfg.config)) [
                  | inr (_, g) ↦ ground arith
                  | inl (document, g) ↦ (new, ground arith, ground arith)
                ]
          ]

  with_id-ids :
      (id : Text) (b : Building D)
      → is_nil id ≡ false
      → (with_id id b).operation_ids ≡ id ∷ b.operation_ids
  with_id-ids id b named = rw named refl

  with_id-registered : (id : Text) (b : Building D) → (with_id id b).registered ≡ b.registered
  with_id-registered [] b = refl
  with_id-registered (c ∷ id) b = refl

  -- One round of the loop over the operations.
  record Added (def : Definition T V) (b b' : Building D) : Type 0 where
    compiled : Compiled D
    compiles : compile codec parts.satisfies (parts.plans cfg) parts.document def opts ≡ ok compiled
    new_id : known def.operation_id b.operation_ids ≡ false
    ids : b'.operation_ids ≡ def.operation_id ∷ b.operation_ids
    new_key : known (route_key (def, compiled)) b.registered ≡ false
    keys : b'.registered ≡ route_key (def, compiled) ∷ b.registered

  add_operation-Added :
      (def : Definition T V) (b b' : Building D)
      → add_operation parts cfg opts def b ≡ ok b'
      → Added def b b'
  unfolding add_operation
  add_operation-Added def b b' e =
      elim (Result-cases
        (compile codec parts.satisfies (parts.plans cfg) parts.document def opts)) [
          | inr (_, h) ↦ ground arith
          | inl (compiled, h) ↦
              let named =
                trimmed-nil def.operation_id
                  (compile-IsCompiled codec def opts parts.satisfies (parts.plans cfg)
                    parts.document compiled h).configured.identified in
              let rest : add_compiled parts cfg.config def (with_id def.operation_id b) compiled
                  ≡ ok b' =
                ground arith in
              let (new, keys, ids) =
                add_compiled-new def compiled (with_id def.operation_id b) b' rest in
              record {
                compiled = compiled;
                compiles = h;
                new_id = ground arith;
                ids = ids ∙ with_id-ids def.operation_id b named;
                new_key =
                    ap (known (route_key (def, compiled)))
                      (sym (with_id-registered def.operation_id b))
                    ∙ new;
                keys =
                    keys
                    ∙ ap (λ l. route_key (def, compiled) ∷ l)
                        (with_id-registered def.operation_id b);
              }
        ]

  abbrev pub Entry : Type 0
  Entry = Definition T V × Compiled D

  abbrev pub id_of : Entry → Text
  id_of e = e.0.operation_id

  abbrev pub Compiles : Entry → Type 0
  Compiles (def, compiled) =
      compile codec parts.satisfies (parts.plans cfg) parts.document def opts ≡ ok compiled

  -- The operations, each with what it was compiled to; no operation ID and no key stands twice.
  pub record IsRegistered (defs : List (Definition T V)) : Type 0 where
    pub entries : List Entry
    pub operations : map (λ (e : Entry). e.0) entries ≡ defs
    pub compiles : All Compiles entries
    pub ids : IsDistinct (map id_of entries)
    pub keys : IsDistinct (map route_key entries)

  -- What the loop adds is new to what there was.
  record IsNew (b : Building D) (entries : List Entry) : Type 0 where
    ids : All (λ (e : Entry). known (id_of e) b.operation_ids ≡ false) entries
    keys : All (λ (e : Entry). known (route_key e) b.registered ≡ false) entries

  add_operations-IsRegistered :
      (defs : List (Definition T V)) (b b' : Building D)
      → add_operations parts cfg opts defs b ≡ ok b'
      → (r : IsRegistered defs) × IsNew b r.entries
  unfolding add_operations
  add_operations-IsRegistered [] b b' e = (
    record { entries = []; operations = refl; compiles = tt; ids = tt; keys = tt },
    record { ids = tt; keys = tt },
  )
  add_operations-IsRegistered (def ∷ defs) b b' e =
      elim (Result-cases (add_operation parts cfg opts def b)) [
        | inr (_, h) ↦ ground arith
        | inl (b₁, h) ↦
            let added = add_operation-Added def b b₁ h in
            let (r, new) = add_operations-IsRegistered defs b₁ b' (ground arith) in
            let (new_ids, new_id) = new_behind id_of def.operation_id b.operation_ids r.entries (
              subst (λ l. All (λ (e : Entry). known (id_of e) l ≡ false) r.entries) added.ids
                new.ids) in
            let (new_keys, new_key) =
              new_behind route_key (route_key (def, added.compiled)) b.registered r.entries (
                subst (λ l. All (λ (e : Entry). known (route_key e) l ≡ false) r.entries) added.keys
                  new.keys) in
            (
              record {
                entries = (def, added.compiled) ∷ r.entries;
                operations = ap (λ l. def ∷ l) r.operations;
                compiles = (added.compiles, r.compiles);
                ids = (new_id, r.ids);
                keys = (new_key, r.keys);
              },
              record { ids = (added.new_id, new_ids); keys = (added.new_key, new_keys) },
            )
      ]

module _ {T V D : Type 0} {codec : Codec V} (parts : Parts T V D codec) (a : App T V) where
  -- The tests that `build` starts with.
  pub record IsConfigured : Type 0 where
    pub title : is_nil (trim_space a.config.config.title) ≡ false
    pub version : is_nil (trim_space a.config.config.version) ≡ false
    pub open_api_version : text_eq a.config.config.open_api_version (lit "3.1.0") ≡ true
    pub json_body_limit : is_positive a.config.config.json_body_limit ≡ true

  check_config-IsConfigured : check_config a.config.config ≡ ok tt → IsConfigured
  unfolding check_config
  check_config-IsConfigured e = record {
    title = ground arith;
    version = ground arith;
    open_api_version = ground arith;
    json_body_limit = ground arith;
  }

  -- A Build that gives a handler has a configuration with a title, a version, the one OpenAPI version
  -- and a positive limit; all operations compile, and no two of them have the same operation ID, or
  -- the same method and path.
  pub built_handler-IsRegistered :
      (handler : Handler)
      → built_handler parts a ≡ ok handler
      → IsConfigured × (opts : Options V) × IsRegistered parts a.config opts a.operations
  unfolding built_handler assemble
  built_handler-IsRegistered handler e = elim (Result-cases (check_config a.config.config)) [
    | inr (_, h₁) ↦ ground arith
    | inl (tt, h₁) ↦ elim (Result-cases (describe codec a.config.config.failure_formatter)) [
      | inr (_, h₂) ↦ ground arith
      | inl ((media, model), h₂) ↦
          let opts = options_of a.config.config media model in
          elim (Result-cases
            (add_operations parts a.config opts a.operations (start parts a.config.config))) [
              | inr (_, h₃) ↦ ground arith
              | inl (b, h₃) ↦ (
                check_config-IsConfigured h₁,
                opts,
                (add_operations-IsRegistered parts a.config opts a.operations _ b h₃).0,
              )
            ]
    ]
  ]
