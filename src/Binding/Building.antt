-- ===== src/Binding/Building.antt =====
-- internal/binding/compiler.go: the invariant of the loop of Compile.
use oashttp.Prelude.{
  All, All-append, Bool, List, Option, [], any, ap, append-nil, append_assoc, arith, count,
  count-append, false, if◌then◌else◌, is_some, lookup, none, refl, some, suc, sym, true, ℕ, ◌++◌,
  ◌+◌, ◌<◌, ◌==◌, ◌∙◌, ◌∷◌, ◌≡◌, ◌≤◌,
}
use oashttp.Prelude.Text.{Text, fields, text_eq}
use oashttp.Binding.Model.{FieldPlan, source_body, source_path}
use oashttp.Binding.Compile.{Building}

unfoldable pub is_path_of : Text → FieldPlan → Bool
is_path_of name f = elim f.source [ source_path ↦ text_eq f.name name | _ ↦ false ]

unfoldable pub is_at : ℕ → FieldPlan → Bool
is_at k f = f.index == k

unfoldable pub own_body : FieldPlan → List FieldPlan
own_body f = elim f.source [ source_body ↦ f ∷ [] | _ ↦ [] ]

unfoldable pub bodies : List FieldPlan → List FieldPlan
unfolding own_body
bodies [] = []
bodies (f ∷ fields) = own_body f ++ bodies fields

bodies-append : (xs ys : List FieldPlan) → bodies (xs ++ ys) ≡ bodies xs ++ bodies ys
unfolding bodies
bodies-append [] ys = refl
bodies-append (f ∷ xs) ys =
    ap (λ l. own_body f ++ l) (bodies-append xs ys) ∙ sym (append_assoc (own_body f) _ _)

abbrev pub listed : {A : Type 0} → Option A → List A
listed none = []
listed (some a) = a ∷ []

abbrev pub one_if : Bool → ℕ
one_if b = if b then 1 else 0

module _ (params : List (Text × Text)) where
  -- A path field has the constraint of its route parameter, and is required.
  unfoldable pub Matches : FieldPlan → Type 0
  Matches f = elim f.source [
    | source_path ↦ (lookup text_eq params f.name ≡ some f.constraint) × (f.required ≡ true)
    | _ ↦ Unit
  ]

  -- Between the tags of field `i`, `found` of which were there.
  pub record IsBuilding (i found : ℕ) (b : Building) : Type 0 where
    pub matched : All Matches b.fields
    pub bound :
        (name : Text)
        → count (is_path_of name) b.fields ≡ one_if (any (λ n. text_eq n name) b.bound_path)
    pub known :
        (name : Text)
        → any (λ n. text_eq n name) b.bound_path ≡ true
        → is_some (lookup text_eq params name) ≡ true
    pub body : bodies b.fields ≡ listed b.body
    pub before : (k : ℕ) → k < i → count (is_at k) b.fields ≤ 1
    pub now : count (is_at i) b.fields ≡ found
    pub later : (k : ℕ) → i < k → count (is_at k) b.fields ≡ 0

  module _ (i : ℕ) where
    -- A field plan at the end, whose source keeps the invariant.
    pub grown-IsBuilding :
        (found : ℕ) (b c : Building) (fp : FieldPlan)
        → IsBuilding i found b
        → c.fields ≡ b.fields ++ fp ∷ []
        → fp.index ≡ i
        → Matches fp
        → ((name : Text)
            → one_if (any (λ n. text_eq n name) c.bound_path)
              ≡ one_if (any (λ n. text_eq n name) b.bound_path) + one_if (is_path_of name fp))
        → ((name : Text)
            → any (λ n. text_eq n name) c.bound_path ≡ true
            → is_some (lookup text_eq params name) ≡ true)
        → bodies b.fields ++ own_body fp ≡ listed c.body
        → IsBuilding i (suc found) c
    unfolding count is_at bodies
    grown-IsBuilding found b c fp inv e at m names known body = record {
      matched = rw e (All-append Matches b.fields (fp ∷ []) inv.matched (m, tt));
      bound = λ name.
          rw (e, count-append (is_path_of name) b.fields (fp ∷ []), inv.bound name, names name)
            (omega arith);
      known = known;
      body = rw (e, bodies-append b.fields (fp ∷ []), append-nil (own_body fp)) body;
      before = λ k lt.
          rw (e, count-append (is_at k) b.fields (fp ∷ [])) (ground (arith, inv.before k lt));
      now = rw (e, count-append (is_at i) b.fields (fp ∷ [])) (ground (arith, inv.now));
      later = λ k lt.
          rw (e, count-append (is_at k) b.fields (fp ∷ [])) (ground (arith, inv.later k lt));
    }
