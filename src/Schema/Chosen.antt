-- ===== src/Schema/Chosen.antt =====
-- internal/schema/jsonfields.go: the field that the others of a group give way to.
use mathlib.Core.Path.{subst}
use oashttp.Prelude.{
  ==_iff, Bool, Bool-cases, List, [], any, ap, arith, count, false, filter, if◌then◌else◌, inl, inr,
  length, not, refl, sym, true, ℕ, ◌&&◌, ◌==◌, ◌||◌, ◌↔◌, ◌∙◌, ◌∷◌, ◌≡◌, ◌≤◌,
}
use oashttp.Prelude.Text.{fields}
use mathlib.Core.List.{Memᴰ}
use mathlib.Core.Bool.{false≢true}
use oashttp.Prelude.Filters.{
  Memᴰ-filter, Memᴰ-singleton, any-Memᴰ, any-witness, count-ext, count-filter, length-filter,
}
use oashttp.Schema.JsonFields.{JsonField, select_field, sole}
use oashttp.Schema.Depth.{depth_of, group_depth, group_depth-attained, group_depth-le}

-- The fields that are as good as f, besides f itself.
abbrev pub is_as_good : ℕ → Bool → JsonField → Bool
is_as_good depth tagged g = (depth_of g == depth) && (not tagged || g.tagged)

abbrev pub is_rival : JsonField → JsonField → Bool
is_rival f g = is_as_good (depth_of f) f.tagged g

-- No field of the group is shallower, none of the same depth is tagged unless f is, and f is
-- alone with that.
pub record Chosen (group : List JsonField) (f : JsonField) : Type 0 where
  pub here : Memᴰ f group
  pub shallowest : (g : JsonField) → Memᴰ g group → depth_of f ≤ depth_of g
  pub tagged :
      f.tagged ≡ false → (g : JsonField) → Memᴰ g group → depth_of g ≡ depth_of f → g.tagged ≡ false
  pub alone : count (is_rival f) group ≡ 1

sole-singleton : (f : JsonField) (fields : List JsonField) → Memᴰ f (sole fields) → fields ≡ f ∷ []
sole-singleton f [] m = elim m [ ]
sole-singleton f (g ∷ []) (Memᴰ.head h) = ap (λ x. x ∷ []) (sym h)
sole-singleton f (g ∷ []) (Memᴰ.tail m) = elim m [ ]
sole-singleton f (g ∷ h ∷ fields) m = elim m [ ]

abbrev shallow : ℕ → List JsonField → List JsonField
shallow d group = filter (λ g. length g.index == d) group

shallow-Memᴰ :
    (d : ℕ) (group : List JsonField) (g : JsonField)
    → Memᴰ g (shallow d group) ↔ (Memᴰ g group × (depth_of g ≡ d))
shallow-Memᴰ d group g =
    let (there, back) = Memᴰ-filter (λ g. length g.index == d) g group in
    (
      λ m. ((there m).0, (==_iff (depth_of g) d).0 (there m).1),
      λ m. back (m.0, (==_iff (depth_of g) d).1 m.1),
    )

-- The fields that are left of a group of depth d.
unfoldable pool : ℕ → List JsonField → List JsonField
unfolding filter any
pool d group =
    if any (λ g. g.tagged) (shallow d group)
    then filter (λ g. g.tagged) (shallow d group)
    else shallow d group

pool_tagged :
    (d : ℕ) (group : List JsonField)
    → any (λ g. g.tagged) (shallow d group) ≡ true
    → pool d group ≡ filter (λ g. g.tagged) (shallow d group)
unfolding pool
pool_tagged d group e = rw (e, pool) refl

pool_plain :
    (d : ℕ) (group : List JsonField)
    → any (λ g. g.tagged) (shallow d group) ≡ false
    → pool d group ≡ shallow d group
unfolding pool
pool_plain d group e = rw (e, pool) refl

pool_tagged-length :
    (d : ℕ) (group : List JsonField)
    → any (λ g. g.tagged) (shallow d group) ≡ true
    → length (pool d group) ≡ count (λ g. (depth_of g == d) && g.tagged) group
pool_tagged-length d group e =
    ap length (pool_tagged d group e)
    ∙ length-filter (λ g. g.tagged) (shallow d group)
    ∙ count-filter (λ g. g.tagged) (λ g. depth_of g == d) group

pool_plain-length :
    (d : ℕ) (group : List JsonField)
    → any (λ g. g.tagged) (shallow d group) ≡ false
    → length (pool d group) ≡ count (λ g. (depth_of g == d) && true) group
pool_plain-length d group e =
    ap length (pool_plain d group e)
    ∙ length-filter (λ g. depth_of g == d) group
    ∙ count-ext (λ g. depth_of g == d) (λ g. (depth_of g == d) && true) group λ g. ground arith

rivals_tagged :
    (d : ℕ) (group : List JsonField) (f : JsonField)
    → depth_of f ≡ d
    → f.tagged ≡ true
    → count (is_rival f) group ≡ count (λ g. (depth_of g == d) && g.tagged) group
rivals_tagged d group f at_depth is_tagged =
    ap (λ k. count (is_as_good k f.tagged) group) at_depth
    ∙ ap (λ b. count (is_as_good d b) group) is_tagged

rivals_plain :
    (d : ℕ) (group : List JsonField) (f : JsonField)
    → depth_of f ≡ d
    → f.tagged ≡ false
    → count (is_rival f) group ≡ count (λ g. (depth_of g == d) && true) group
rivals_plain d group f at_depth is_plain =
    ap (λ k. count (is_as_good k f.tagged) group) at_depth
    ∙ ap (λ b. count (is_as_good d b) group) is_plain

none_tagged-Memᴰ :
    (d : ℕ) (group : List JsonField) (g : JsonField)
    → any (λ g. g.tagged) (shallow d group) ≡ false
    → Memᴰ g group
    → depth_of g ≡ d
    → g.tagged ≡ false
none_tagged-Memᴰ d group g no_tag m at_depth = elim (Bool-cases g.tagged) [
  | inr e ↦ e
  | inl e ↦ absurd (
      false≢true (
        sym no_tag
        ∙ any-Memᴰ (λ g. g.tagged) g (shallow d group) ((shallow-Memᴰ d group g).1 (m, at_depth))
            e))
]

module _ (d : ℕ) (group : List JsonField)
    (least : (g : JsonField) → Memᴰ g group → d ≤ depth_of g) where
  pool-Chosen : (f : JsonField) → Memᴰ f (pool d group) → length (pool d group) ≡ 1 → Chosen group f
  unfolding pool
  pool-Chosen f m one = elim (Bool-cases (any (λ g. g.tagged) (shallow d group))) [
    | inl some_tagged ↦
        let m₁ : Memᴰ f (filter (λ g. g.tagged) (shallow d group)) =
          subst (Memᴰ f) (pool_tagged d group some_tagged) m in
        let (m₂, is_tagged) = (Memᴰ-filter (λ g. g.tagged) f (shallow d group)).0 m₁ in
        let (m₃, at_depth) = (shallow-Memᴰ d group f).0 m₂ in
        record {
          here = m₃;
          shallowest = λ g h. rw at_depth (least g h);
          tagged = λ not_tagged. absurd (false≢true (sym not_tagged ∙ is_tagged));
          alone =
              rivals_tagged d group f at_depth is_tagged
              ∙ sym (pool_tagged-length d group some_tagged)
              ∙ one;
        }
    | inr none_tagged ↦
        let m₁ : Memᴰ f (shallow d group) = subst (Memᴰ f) (pool_plain d group none_tagged) m in
        let (m₃, at_depth) = (shallow-Memᴰ d group f).0 m₁ in
        record {
          here = m₃;
          shallowest = λ g h. rw at_depth (least g h);
          tagged =
              λ not_tagged g h same. none_tagged-Memᴰ d group g none_tagged h (same ∙ at_depth);
          alone =
              rivals_plain d group f at_depth (none_tagged-Memᴰ d group f none_tagged m₃ at_depth)
              ∙ sym (pool_plain-length d group none_tagged)
              ∙ one;
        }
  ]

  Chosen-tagged :
      (f : JsonField)
      → depth_of f ≡ d
      → Chosen group f
      → any (λ g. g.tagged) (shallow d group) ≡ true
      → f.tagged ≡ true
  Chosen-tagged f at_depth c some_tagged = elim (Bool-cases f.tagged) [
    | inl e ↦ e
    | inr e ↦
        let (g, m, is_tagged) = any-witness (λ g. g.tagged) (shallow d group) some_tagged in
        let (h, same) = (shallow-Memᴰ d group g).0 m in
        absurd (false≢true (sym (c.tagged e g h (same ∙ sym at_depth)) ∙ is_tagged))
  ]

  Chosen-pool :
      (f : JsonField)
      → depth_of f ≡ d
      → Chosen group f
      → Memᴰ f (pool d group) × (length (pool d group) ≡ 1)
  Chosen-pool f at_depth c =
      let m = (shallow-Memᴰ d group f).1 (c.here, at_depth) in
      elim (Bool-cases (any (λ g. g.tagged) (shallow d group))) [
        | inl some_tagged ↦
            let is_tagged = Chosen-tagged f at_depth c some_tagged in
            (
              subst (Memᴰ f) (sym (pool_tagged d group some_tagged))
                  ((Memᴰ-filter (λ g. g.tagged) f (shallow d group)).1 (m, is_tagged)),
              pool_tagged-length d group some_tagged
                  ∙ sym (rivals_tagged d group f at_depth is_tagged)
                  ∙ c.alone,
            )
        | inr none_tagged ↦ (
          subst (Memᴰ f) (sym (pool_plain d group none_tagged)) m,
          pool_plain-length d group none_tagged
              ∙ sym (
                  rivals_plain d group f at_depth
                    (none_tagged-Memᴰ d group f none_tagged c.here at_depth))
              ∙ c.alone,
        )
      ]

select_field-pool :
    (f : JsonField) (fields : List JsonField)
    → select_field (f ∷ fields) ≡ sole (pool (group_depth f fields) (f ∷ fields))
unfolding select_field pool
select_field-pool f fields = refl

-- The field that is selected of a group is the one that the others give way to.
pub select_field_iff :
    (group : List JsonField) (f : JsonField) → Memᴰ f (select_field group) ↔ Chosen group f
unfolding select_field
select_field_iff [] f = (λ m. elim m [ ], λ c. elim c.here [ ])
select_field_iff (g ∷ fields) f =
    let group = g ∷ fields in
    let d = group_depth g fields in
    (
      λ m.
          let is_sole =
            sole-singleton f (pool d group) (subst (Memᴰ f) (select_field-pool g fields) m) in
          pool-Chosen d group (group_depth-le g fields) f
            (subst (Memᴰ f) (sym is_sole) (Memᴰ.head refl)) (ap length is_sole),
      λ c.
          let (h, m, e) = group_depth-attained g fields in
          let at_depth : depth_of f ≡ d =
            omega (arith, c.shallowest h m, group_depth-le g fields f c.here) in
          let (inside, one) = Chosen-pool d group (group_depth-le g fields) f at_depth c in
          subst (Memᴰ f)
            (sym
              (select_field-pool g fields ∙ ap sole (Memᴰ-singleton f (pool d group) inside one)))
            (Memᴰ.head refl),
    )
