-- ===== src/Schema/Resolved.antt =====
-- internal/schema/jsonfields.go: which fields a struct has in JSON, and in which order.
use mathlib.Core.Path.{subst}
use oashttp.Prelude.{
  Bool-cases, List, Memᴰ-append_left, Memᴰ-append_right, [], ap, arith, false, filter, inl, inr,
  not, refl, sym, true, ℕ, ◌<◌, ◌↔◌, ◌∙◌, ◌∷◌, ◌≡◌, ◌⊎◌,
}
use oashttp.Prelude.Text.{Text, fields, text_eq, text_eq_iff}
use mathlib.Core.List.{Memᴰ}
use mathlib.Core.Bool.{false≢true}
use oashttp.Prelude.Filters.{Memᴰ-append, Memᴰ-filter}
use oashttp.Schema.JsonFields.{
  JsonField, before, group_of, insert_field, names_of, resolve_candidates, select_field,
  select_fields, sort_fields,
}
use oashttp.Schema.Chosen.{Chosen, select_field_iff}

-- Sorting keeps the fields.
insert_field-Memᴰ :
    (f g : JsonField) (fields : List JsonField)
    → Memᴰ g (insert_field f fields) ↔ ((g ≡ f) ⊎ Memᴰ g fields)
unfolding insert_field
insert_field-Memᴰ f g [] = (
  λ m. elim m [ Memᴰ.head h ↦ inl h | Memᴰ.tail t ↦ inr t ],
  λ s. elim s [ inl h ↦ Memᴰ.head h | inr t ↦ Memᴰ.tail t ],
)
insert_field-Memᴰ f g (h ∷ fields) =
    let (there, back) = insert_field-Memᴰ f g fields in
    elim (Bool-cases (before h.index f.index)) [
      | inl e ↦ rw e (
        λ m. elim m [
          | Memᴰ.head k ↦ inr (Memᴰ.head k)
          | Memᴰ.tail t ↦ elim (there t) [ inl k ↦ inl k | inr u ↦ inr (Memᴰ.tail u) ]
        ],
        λ s. elim s [
          | inl k ↦ Memᴰ.tail (back (inl k))
          | inr u ↦ elim u [ Memᴰ.head k ↦ Memᴰ.head k | Memᴰ.tail t ↦ Memᴰ.tail (back (inr t)) ]
        ],
      )
      | inr e ↦ rw e (
        λ m. elim m [ Memᴰ.head k ↦ inl k | Memᴰ.tail t ↦ inr t ],
        λ s. elim s [ inl k ↦ Memᴰ.head k | inr t ↦ Memᴰ.tail t ],
      )
    ]

sort_fields-Memᴰ :
    (g : JsonField) (fields : List JsonField) → Memᴰ g (sort_fields fields) ↔ Memᴰ g fields
unfolding sort_fields
sort_fields-Memᴰ g [] = (λ m. m, λ m. m)
sort_fields-Memᴰ g (f ∷ fields) =
    let (there, back) = sort_fields-Memᴰ g fields in
    let (out, into) = insert_field-Memᴰ f g (sort_fields fields) in
    (
      λ m. elim (out m) [ inl k ↦ Memᴰ.head k | inr t ↦ Memᴰ.tail (there t) ],
      λ m. elim m [ Memᴰ.head k ↦ into (inl k) | Memᴰ.tail t ↦ into (inr (back t)) ],
    )

-- One place is before another: it is a front of it, or the first step apart is less.
abbrev pub IsBefore : List ℕ → List ℕ → Type 0
IsBefore xs [] = ⊥
IsBefore [] (y ∷ ys) = Unit
IsBefore (x ∷ xs) (y ∷ ys) = (x < y) ⊎ ((x ≡ y) × IsBefore xs ys)

before_iff : (xs ys : List ℕ) → (before xs ys ≡ true) ↔ IsBefore xs ys
unfolding before
before_iff [] [] = (λ e. cc, λ h. absurd h)
before_iff (x ∷ xs) [] = (λ e. cc, λ h. absurd h)
before_iff [] (y ∷ ys) = (λ e. tt, λ h. refl)
before_iff (x ∷ xs) (y ∷ ys) = ground (arith, before_iff xs ys)

-- Of two neighbours the later does not come before the earlier.
abbrev pub IsOrdered : List JsonField → Type 0
IsOrdered [] = Unit
IsOrdered (f ∷ []) = Unit
IsOrdered (f ∷ g ∷ fields) = (¬ IsBefore g.index f.index) × IsOrdered (g ∷ fields)

-- The same with the code's test.
abbrev IsSorted : List JsonField → Type 0
IsSorted [] = Unit
IsSorted (f ∷ []) = Unit
IsSorted (f ∷ g ∷ fields) = (before g.index f.index ≡ false) × IsSorted (g ∷ fields)

before-asym : (xs ys : List ℕ) → before xs ys ≡ true → before ys xs ≡ false
unfolding before
before-asym [] [] e = refl
before-asym [] (y ∷ ys) e = refl
before-asym (x ∷ xs) [] e = cc
before-asym (x ∷ xs) (y ∷ ys) e = ground (arith, before-asym xs ys)

insert_field-IsSorted :
    (f : JsonField) (fields : List JsonField) → IsSorted fields → IsSorted (insert_field f fields)
unfolding insert_field
insert_field-IsSorted f [] s = tt
insert_field-IsSorted f (g ∷ []) s = elim (Bool-cases (before g.index f.index)) [
  | inl e ↦ rw e (before-asym g.index f.index e, tt)
  | inr e ↦ rw e (e, tt)
]
insert_field-IsSorted f (g ∷ h ∷ fields) s = elim (Bool-cases (before g.index f.index)) [
  | inl e ↦
      let rest = insert_field-IsSorted f (h ∷ fields) s.1 in
      elim (Bool-cases (before h.index f.index)) [
        | inl k ↦
            let after : insert_field f (h ∷ fields) ≡ h ∷ insert_field f fields =
              rw (k, insert_field) refl in
            rw (e, k) (s.0, subst IsSorted after rest)
        | inr k ↦
            let first : insert_field f (h ∷ fields) ≡ f ∷ h ∷ fields = rw (k, insert_field) refl in
            rw (e, k) (before-asym g.index f.index e, subst IsSorted first rest)
      ]
  | inr e ↦ rw e (e, s)
]

sort_fields-IsSorted : (fields : List JsonField) → IsSorted (sort_fields fields)
unfolding sort_fields
sort_fields-IsSorted [] = tt
sort_fields-IsSorted (f ∷ fields) = insert_field-IsSorted f _ (sort_fields-IsSorted fields)

IsSorted-IsOrdered : (fields : List JsonField) → IsSorted fields → IsOrdered fields
IsSorted-IsOrdered [] s = tt
IsSorted-IsOrdered (f ∷ []) s = tt
IsSorted-IsOrdered (f ∷ g ∷ fields) (s, rest) = (
  λ b. false≢true (sym s ∙ (before_iff g.index f.index).1 b),
  IsSorted-IsOrdered (g ∷ fields) rest,
)

-- The candidates with a name.
abbrev pub called : List JsonField → Text → List JsonField
called candidates name = filter (λ f. text_eq f.name name) candidates

group_of-called :
    (candidates : List JsonField) (name : Text) → group_of candidates name ≡ called candidates name
unfolding group_of
group_of-called candidates name = refl

-- The names and the groups.
names_of-Memᴰ :
    (f : JsonField) (fields : List JsonField) → Memᴰ f fields → Memᴰ f.name (names_of fields)
unfolding names_of
names_of-Memᴰ f [] m = elim m [ ]
names_of-Memᴰ f (g ∷ fields) (Memᴰ.head h) = Memᴰ.head (ap (λ x. x.name) h)
names_of-Memᴰ f (g ∷ fields) (Memᴰ.tail m) = elim (Bool-cases (text_eq f.name g.name)) [
  | inl e ↦ Memᴰ.head ((text_eq_iff f.name g.name).0 e)
  | inr e ↦ Memᴰ.tail (
      (Memᴰ-filter (λ n. not (text_eq n g.name)) f.name (names_of fields)).1
        (names_of-Memᴰ f fields m, ground arith))
]

group_of-Memᴰ :
    (candidates : List JsonField) (name : Text) (f : JsonField)
    → Memᴰ f (group_of candidates name) ↔ (Memᴰ f candidates × (f.name ≡ name))
unfolding group_of
group_of-Memᴰ candidates name f =
    let (there, back) = Memᴰ-filter (λ g. text_eq g.name name) f candidates in
    (
      λ m. ((there m).0, (text_eq_iff f.name name).0 (there m).1),
      λ m. back (m.0, (text_eq_iff f.name name).1 m.1),
    )

select_fields-Memᴰ :
    (candidates : List JsonField) (names : List Text) (f : JsonField)
    → Memᴰ f (select_fields candidates names)
    → (name : Text) × Memᴰ f (select_field (group_of candidates name))
unfolding select_fields
select_fields-Memᴰ candidates [] f m = elim m [ ]
select_fields-Memᴰ candidates (name ∷ names) f m =
    elim (Memᴰ-append f (select_field (group_of candidates name)) (select_fields candidates names)
      m) [ inl here ↦ (name, here) | inr there ↦ select_fields-Memᴰ candidates names f there ]

Memᴰ-select_fields :
    (candidates : List JsonField) (names : List Text) (name : Text) (f : JsonField)
    → Memᴰ name names
    → Memᴰ f (select_field (group_of candidates name))
    → Memᴰ f (select_fields candidates names)
unfolding select_fields
Memᴰ-select_fields candidates [] name f m here = elim m [ ]
Memᴰ-select_fields candidates (n ∷ names) name f (Memᴰ.head h) here =
    Memᴰ-append_left f (select_field (group_of candidates n)) (select_fields candidates names)
      (subst (λ x. Memᴰ f (select_field (group_of candidates x))) h here)
Memᴰ-select_fields candidates (n ∷ names) name f (Memᴰ.tail t) here =
    Memᴰ-append_right f (select_field (group_of candidates n)) (select_fields candidates names)
      (Memᴰ-select_fields candidates names name f t here)

-- A struct's fields in JSON are in the order of their places. A candidate is among them exactly if, of
-- the candidates with its name, none is less deep, none as deep is tagged unless it is,
-- and it is the only one as deep and as tagged.
pub resolve_candidates_iff :
    (candidates : List JsonField)
    → IsOrdered (resolve_candidates candidates)
      × ((f : JsonField)
          → Memᴰ f (resolve_candidates candidates) ↔ Chosen (called candidates f.name) f)
unfolding resolve_candidates
resolve_candidates_iff candidates = (
  IsSorted-IsOrdered _ (sort_fields-IsSorted (select_fields candidates (names_of candidates))),
  λ f. (
    λ m.
        let (name, here) =
          select_fields-Memᴰ candidates (names_of candidates) f ((sort_fields-Memᴰ f _).0 m) in
        let chosen = (select_field_iff (group_of candidates name) f).0 here in
        let named = ((group_of-Memᴰ candidates name f).0 chosen.here).1 in
        subst (λ g. Chosen g f) (group_of-called candidates f.name)
          (subst (λ n. Chosen (group_of candidates n) f) (sym named) chosen),
    λ k.
        let c = subst (λ g. Chosen g f) (sym (group_of-called candidates f.name)) k in
        (sort_fields-Memᴰ f _).1 (
          Memᴰ-select_fields candidates (names_of candidates) f.name f
            (names_of-Memᴰ f candidates ((group_of-Memᴰ candidates f.name f).0 c.here).0)
            ((select_field_iff (group_of candidates f.name) f).1 c)),
  ),
)
