-- ===== src/Schema/Names.antt =====
-- internal/schema/names.go.
use oashttp.Prelude.{
  Bool, List, Option, [], false, if◌then◌else◌, insert, is_nil, length, lookup, none, not, some,
  suc, zero, ℕ, ◌++◌, ◌==◌, ◌||◌, ◌∷◌,
}
use oashttp.Prelude.Text.{Text, lit, text_eq}
use oashttp.Reflect.Integer.{itoa}
use oashttp.Validation.Plan.{Names}

-- The names of the registry: `names`, by the type, and `used`, by the name. Only structs with a
-- name are components, and a struct stands by its name with its package's path.
pub record Registry : Type 0 where
  pub names : List (Text × Text)
  pub used : List (Text × Text)

-- `NewReplacer("/", "_", ".", "_", "-", "_").Replace`.
unfoldable pub replaced : Text → Text
replaced [] = []
replaced (c ∷ s) = (if c == b'/' || (c == b'.' || c == b'-') then b'_' else c) ∷ replaced s

-- `t.Name()`, or "Anonymous".
unfoldable pub base_name : Names → Text → Text
base_name go t = if is_nil (go.plain_name t) then lit "Anonymous" else go.plain_name t

-- Whether `used` has the name for another type.
unfoldable pub is_taken : List (Text × Text) → Text → Text → Bool
unfolding lookup text_eq
is_taken used t name = elim (lookup text_eq used name) [
  | none ↦ false
  | some other ↦ not (text_eq other t)
]

-- `pkg + "_" + base`, and with a suffix.
unfoldable pub package_name : Names → Text → Text
unfolding replaced base_name
package_name go t = replaced (go.pkg_path t) ++ (lit "_" ++ base_name go t)

unfoldable pub suffixed : Names → Text → ℕ → Text
unfolding package_name itoa
suffixed go t suffix = package_name go t ++ (lit "_" ++ itoa suffix)

module _ (go : Names) (used : List (Text × Text)) (t : Text) where
  -- The loop over the suffixes; none without fuel.
  unfoldable pub free_name : ℕ → ℕ → Text → Option Text
  unfolding is_taken suffixed
  free_name zero suffix name = none
  free_name (suc fuel) suffix name =
      let later = free_name fuel (suc suffix) (suffixed go t suffix) in
      if is_taken used t name then later else some name

  -- From `name := base`, with fuel for every used name and one more.
  unfoldable pub new_name : Option Text
  unfolding is_taken base_name package_name free_name
  new_name =
      if is_taken used t (base_name go t)
      then free_name (suc (length used)) 2 (package_name go t)
      else some (base_name go t)

unfoldable pub component_name : Names → Registry → Text → Option (Text × Registry)
unfolding lookup insert new_name
component_name go r t = elim (lookup text_eq r.names t) [
  | some name ↦ some (name, r)
  | none ↦ elim (new_name go r.used t) [
    | none ↦ none
    | some name ↦ some (
      name,
      record { names = insert text_eq t name r.names; used = insert text_eq name t r.used },
    )
  ]
]
