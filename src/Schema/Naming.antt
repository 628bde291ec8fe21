-- ===== src/Schema/Naming.antt =====
-- internal/schema/names.go: a type keeps its name, and no two types share one.
-- Each type's name is used for it.
use mathlib.Core.Path.{subst}
use oashttp.Prelude.{
  Bool-cases, List, Option-cases, ap, arith, false, inl, inr, insert, length, lookup, none, refl,
  some, sym, ◌+◌, ◌<◌, ◌∙◌, ◌≡◌,
}
use oashttp.Prelude.Text.{Text, text_eq, text_eq_iff, text_eq_refl}
use oashttp.Prelude.Keys.{lookup-insert, lookup-insert_other}
use Prim.Native.Nat.{◌^◌}
use mathlib.Core.Bool.{false≢true}
use oashttp.Validation.Plan.{Names}
use oashttp.Schema.Names.{Registry, component_name, is_taken}
use oashttp.Schema.FreeName.{found_name, new_name-free, not_taken}

abbrev pub IsNaming : Registry → Type 0
IsNaming r =
    (t name : Text) → lookup text_eq r.names t ≡ some name → lookup text_eq r.used name ≡ some t

-- Types with the same name are the same.
IsNaming-injective :
    (r : Registry)
    → IsNaming r
    → (t u name : Text) → lookup text_eq r.names t ≡ some name
    → lookup text_eq r.names u ≡ some name
    → t ≡ u
IsNaming-injective r naming t u name e h =
    let same : some t ≡ some u = sym (naming t name e) ∙ naming u name h in ground arith

-- What naming a type gives: a name for it, the names from before, and names that are each used for their type.
pub record Named (r grown : Registry) (t name : Text) : Type 0 where
  pub naming : IsNaming grown
  pub apart :
      (u v m : Text)
      → lookup text_eq grown.names u ≡ some m
      → lookup text_eq grown.names v ≡ some m
      → u ≡ v
  pub own : lookup text_eq grown.names t ≡ some name
  pub kept :
      (u m : Text) → lookup text_eq r.names u ≡ some m → lookup text_eq grown.names u ≡ some m

insert_apart :
    {A : Type 0} (table : List (Text × A)) (key other : Text) (a : A)
    → text_eq key other ≡ false
    → lookup text_eq (insert text_eq key a table) other ≡ lookup text_eq table other
insert_apart table key other a e =
    lookup-insert_other text_eq key other a table e
      (λ k same. subst (λ x. text_eq x other ≡ false) (sym ((text_eq_iff k key).0 same)) e)

module _ (go : Names) (r : Registry) (t name : Text) (naming : IsNaming r)
    (new : lookup text_eq r.names t ≡ none) (free : is_taken r.used t name ≡ false) where
  abbrev grown : Registry
  grown = record { names = insert text_eq t name r.names; used = insert text_eq name t r.used }

  grown_kept :
      (u m : Text) → lookup text_eq r.names u ≡ some m → lookup text_eq grown.names u ≡ some m
  grown_kept u m e = elim (Bool-cases (text_eq t u)) [
    | inl same ↦
        let known : lookup text_eq r.names t ≡ some m =
          subst (λ x. lookup text_eq r.names x ≡ some m) (sym ((text_eq_iff t u).0 same)) e in
        absurd (ground (arith, known, new))
    | inr other ↦ insert_apart r.names t u name other ∙ e
  ]

  -- The entry of another type.
  other_used :
      (u m : Text)
      → text_eq t u ≡ false
      → lookup text_eq r.names u ≡ some m
      → lookup text_eq grown.used m ≡ some u
  other_used u m other e = elim (Bool-cases (text_eq name m)) [
    | inr apart ↦ insert_apart r.used name m t apart ∙ naming u m e
    | inl same ↦
        let used : lookup text_eq r.used name ≡ some u =
          subst (λ x. lookup text_eq r.used x ≡ some u) (sym ((text_eq_iff name m).0 same))
            (naming u m e) in
        let is_t = not_taken r.used t name u free used in
        absurd (false≢true (sym other ∙ (text_eq_iff t u).1 (sym is_t)))
  ]

  grown-IsNaming : IsNaming grown
  grown-IsNaming u m e = elim (Bool-cases (text_eq t u)) [
    | inr other ↦ other_used u m other (sym (insert_apart r.names t u name other) ∙ e)
    | inl same ↦
        let is_u = (text_eq_iff t u).0 same in
        let stored = lookup-insert text_eq t name r.names (text_eq_refl t) in
        let own : lookup text_eq grown.names u ≡ some name =
          subst (λ x. lookup text_eq grown.names x ≡ some name) is_u stored in
        let names : name ≡ m = ground (arith, own, e) in
        subst (λ x. lookup text_eq grown.used x ≡ some u) names
          (lookup-insert text_eq name t r.used (text_eq_refl name) ∙ ap some is_u)
  ]

  grown-Named : Named r grown t name
  grown-Named = record {
    naming = grown-IsNaming;
    apart = IsNaming-injective grown grown-IsNaming;
    own = lookup-insert text_eq t name r.names (text_eq_refl t);
    kept = grown_kept;
  }

-- Naming a type always gives it a name, also where its own name and its package's name are used
-- for other types: a type that has one keeps it, all others keep theirs, and no two types have the same
-- name. The condition is that there are fewer than 10 ^ 19 names, so that the
-- suffixes are numbers of 64 bits.
pub component_name-Named :
    (go : Names) (r : Registry) (t : Text)
    → IsNaming r
    → length r.used + 1 < 10 ^ 19
    → (name : Text) × (grown : Registry) × (component_name go r t ≡ some (name, grown))
      × Named r grown t name
unfolding component_name
component_name-Named go r t naming few = elim (Option-cases (lookup text_eq r.names t)) [
  | inr (name, e) ↦ (
    name,
    r,
    rw (e, component_name) refl,
    record { naming = naming; apart = IsNaming-injective r naming; own = e; kept = λ u m h. h },
  )
  | inl new ↦
      let (name, e) = found_name go r.used t few in
      (
        name,
        grown go r t name naming new (new_name-free go r.used t name e),
        rw (new, e, component_name) refl,
        grown-Named go r t name naming new (new_name-free go r.used t name e),
      )
]
