-- ===== src/Schema/Depth.antt =====
-- internal/schema/jsonfields.go: the depth of a group.
use mathlib.Core.Path.{subst}
use oashttp.Prelude.{
  Bool-cases, List, [], arith, inl, inr, length, ltb, refl, sym, ℕ, ◌∷◌, ◌≡◌, ◌≤◌, ◌⊎◌,
}
use oashttp.Prelude.Text.{fields}
use mathlib.Core.List.{Memᴰ}
use oashttp.Schema.JsonFields.{JsonField, min_depth}

abbrev pub depth_of : JsonField → ℕ
depth_of f = length f.index

min_depth-le :
    (d : ℕ) (fields : List JsonField)
    → (min_depth d fields ≤ d) × ((g : JsonField) → Memᴰ g fields → min_depth d fields ≤ depth_of g)
unfolding min_depth
min_depth-le d [] = (omega arith, λ g m. elim m [ ])
min_depth-le d (f ∷ fields) = elim (Bool-cases (ltb (depth_of f) d)) [
  | inl e ↦
      let (own, rest) = min_depth-le (depth_of f) fields in
      rw e (
        ground (arith, own),
        λ g m. elim m [
          | Memᴰ.head h ↦ subst (λ x. min_depth (depth_of f) fields ≤ depth_of x) (sym h) own
          | Memᴰ.tail t ↦ rest g t
        ],
      )
  | inr e ↦
      let (own, rest) = min_depth-le d fields in
      rw e (
        own,
        λ g m. elim m [
          | Memᴰ.head h ↦ subst (λ x. min_depth d fields ≤ depth_of x) (sym h) (ground (arith, own))
          | Memᴰ.tail t ↦ rest g t
        ],
      )
]

min_depth-attained :
    (d : ℕ) (fields : List JsonField)
    → (min_depth d fields ≡ d)
      ⊎ ((g : JsonField) × Memᴰ g fields × (depth_of g ≡ min_depth d fields))
unfolding min_depth
min_depth-attained d [] = inl refl
min_depth-attained d (f ∷ fields) = elim (Bool-cases (ltb (depth_of f) d)) [
  | inl e ↦ elim (min_depth-attained (depth_of f) fields) [
    | inl h ↦ inr (f, Memᴰ.head refl, rw e (sym h))
    | inr (g, m, h) ↦ inr (g, Memᴰ.tail m, rw e h)
  ]
  | inr e ↦ elim (min_depth-attained d fields) [
    | inl h ↦ inl (rw e h)
    | inr (g, m, h) ↦ inr (g, Memᴰ.tail m, rw e h)
  ]
]

-- The depth of a group.
abbrev pub group_depth : JsonField → List JsonField → ℕ
group_depth f fields = min_depth (depth_of f) fields

pub group_depth-le :
    (f : JsonField) (fields : List JsonField) (g : JsonField)
    → Memᴰ g (f ∷ fields)
    → group_depth f fields ≤ depth_of g
group_depth-le f fields g (Memᴰ.head h) =
    subst (λ x. group_depth f fields ≤ depth_of x) (sym h) (min_depth-le (depth_of f) fields).0
group_depth-le f fields g (Memᴰ.tail t) = (min_depth-le (depth_of f) fields).1 g t

pub group_depth-attained :
    (f : JsonField) (fields : List JsonField)
    → (g : JsonField) × Memᴰ g (f ∷ fields) × (depth_of g ≡ group_depth f fields)
group_depth-attained f fields = elim (min_depth-attained (depth_of f) fields) [
  | inl e ↦ (f, Memᴰ.head refl, sym e)
  | inr (g, m, e) ↦ (g, Memᴰ.tail m, e)
]
