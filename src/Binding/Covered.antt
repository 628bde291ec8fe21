-- ===== src/Binding/Covered.antt =====
-- internal/binding/compiler.go: what a plan that Compile returns binds.
use oashttp.Prelude.{All, List, Option, [], count, is_some, lookup, ℕ, ◌≡◌, ◌≤◌}
use oashttp.Prelude.Text.{Text, fields, text_eq}
use oashttp.Route.{Pattern}
use oashttp.Binding.Model.{FieldPlan}
use oashttp.Binding.Compile.{Building, route_params}
use oashttp.Binding.Building.{Matches, bodies, is_at, is_path_of, listed, one_if}

-- What a plan binds: the input's fields, each at most once, and each route parameter exactly once.
pub record Covers (pattern : Pattern) (fields : List FieldPlan) (body : Option FieldPlan)
    : Type 0 where
  pub matched : All (Matches (route_params pattern.parameters [])) fields
  pub paths :
      (name : Text)
      → count (is_path_of name) fields
        ≡ one_if (is_some (lookup text_eq (route_params pattern.parameters []) name))
  pub once : (k : ℕ) → count (is_at k) fields ≤ 1
  pub sole : bodies fields ≡ listed body
