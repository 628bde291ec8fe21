-- ===== src/Schema/NameTests.antt =====
-- The names of two types that are called User, in packages whose paths differ only in a sign.
use mathlib.Core.Path.{subst}
use oashttp.Prelude.{Bool-cases, [], ap, arith, false, inl, inr, lookup, refl, some, ◌++◌, ◌∷◌, ◌≡◌}
use oashttp.Prelude.Text.{Text, lit, text_eq, text_eq_iff}
use oashttp.Validation.Plan.{Names}
use oashttp.Schema.Names.{Registry, component_name}
use oashttp.Schema.Naming.{IsNaming, Named, component_name-Named}

abbrev users : Names
users = record { pkg_path = λ t. t; plain_name = λ t. lit "User"; unmarshals = λ t. false }

abbrev two_users : Registry
two_users = record {
  names = (lit "a/b", lit "User") ∷ (lit "a.b", lit "a_b_User") ∷ [];
  used = (lit "User", lit "a/b") ∷ (lit "a_b_User", lit "a.b") ∷ [];
}

names_run :
    component_name users two_users (lit "a-b")
    ≡ some (
      lit "a_b_User_2",
      record {
        names = two_users.names ++ (lit "a-b", lit "a_b_User_2") ∷ [];
        used = two_users.used ++ (lit "a_b_User_2", lit "a-b") ∷ [];
      },
    )
unfolding component_name lit text_eq
names_run = refl

two_users-IsNaming : IsNaming two_users
unfolding lookup text_eq lit
two_users-IsNaming t name e = elim (Bool-cases (text_eq (lit "a/b") t)) [
  | inl same ↦
      let named : lit "User" ≡ name = ground arith in
      subst (λ n. lookup text_eq two_users.used n ≡ some t) named
        (ap some ((text_eq_iff (lit "a/b") t).0 same))
  | inr other ↦ elim (Bool-cases (text_eq (lit "a.b") t)) [
    | inl same ↦
        let named : lit "a_b_User" ≡ name = ground arith in
        subst (λ n. lookup text_eq two_users.used n ≡ some t) named
          (ap some ((text_eq_iff (lit "a.b") t).0 same))
    | inr _ ↦ ground arith
  ]
]

component_name-Named_example :
    (name : Text) × (grown : Registry) × (component_name users two_users (lit "a-b")
      ≡ some (name, grown))
    × Named two_users grown (lit "a-b") name
component_name-Named_example =
    component_name-Named users two_users (lit "a-b") two_users-IsNaming (omega arith)
