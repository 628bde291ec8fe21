-- ===== src/Reflect/Unvisited.antt =====
-- The structs that a path of fields has not come through yet, which bound its length.
use mathlib.Core.Path.{subst}
use oashttp.Prelude.{
  Bool-cases, List, [], any, arith, count, false, inl, inr, is_some, length, lookup, not, sym, true,
  ℕ, ◌<◌, ◌∷◌, ◌≡◌, ◌≤◌,
}
use oashttp.Prelude.Text.{Text, text_eq, text_eq_iff}
use oashttp.Reflect.GoType.{Structs, fields_of}

-- The structs that are not on the stack.
unfoldable pub unvisited : List Text → Structs → ℕ
unfolding count
unvisited stack structs = count (λ entry. not (any (λ n. text_eq n entry.0) stack)) structs

pub unvisited-all : (structs : Structs) → unvisited [] structs ≤ length structs
unfolding unvisited count any
unvisited-all [] = omega arith
unvisited-all (entry ∷ structs) = omega (arith, unvisited-all structs)

unvisited-le :
    (name : Text) (stack : List Text) (structs : Structs)
    → unvisited (name ∷ stack) structs ≤ unvisited stack structs
unfolding unvisited count any
unvisited-le name stack [] = omega arith
unvisited-le name stack (entry ∷ structs) = ground (arith, unvisited-le name stack structs)

pub unvisited-lt :
    (name : Text) (stack : List Text) (structs : Structs)
    → any (λ n. text_eq n name) stack ≡ false
    → is_some (lookup text_eq structs name) ≡ true
    → unvisited (name ∷ stack) structs < unvisited stack structs
unfolding unvisited count any lookup
unvisited-lt name stack [] new there = cc
unvisited-lt name stack ((n, fs) ∷ structs) new there = elim (Bool-cases (text_eq n name)) [
  | inl same ↦
      let is_name = (text_eq_iff n name).0 same in
      let fresh : any (λ m. text_eq m n) stack ≡ false =
        subst (λ x. any (λ m. text_eq m x) stack ≡ false) (sym is_name) new in
      let hit : text_eq name n ≡ true = (text_eq_iff name n).1 (sym is_name) in
      rw (hit, fresh) (omega (arith, unvisited-le name stack structs))
  | inr other ↦
      let rest = unvisited-lt name stack structs new (ground arith) in ground (arith, rest)
]

pub fields_of-unknown :
    (structs : Structs) (name : Text)
    → is_some (lookup text_eq structs name) ≡ false
    → fields_of structs name ≡ []
unfolding fields_of
fields_of-unknown structs name e = ground arith
