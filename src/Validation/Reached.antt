-- ===== src/Validation/Reached.antt =====
-- internal/validation/validate.go: which values a path of fields leads to.
use mathlib.Core.Path.{subst}
use oashttp.Prelude.{
  Bool, List, Option-cases, [], arith, false, inl, inr, refl, some, suc, true, zero, ℕ, ◌↔◌, ◌∷◌,
  ◌≡◌,
}
use oashttp.Reflect.Value.{
  Value, Values, array_value, bool_value, float_value, int_value, interface_value, map_value,
  more_values, nil_value, no_values, other_value, pointer_value, slice_value, struct_value,
  text_value, uint_value, value_at,
}
use oashttp.Validation.Check.{Formats, field_by_index, is_nil_value, through_pointers, unwrap}

module _ {F O : Type 0} where
  -- The element at a place.
  pub data Element : ℕ → Values F O → Value F O → Type 0 where
    first : {v : Value F O} {vs : Values F O} → Element zero (more_values v vs) v
    later :
        {i : ℕ} {v u : Value F O} {vs : Values F O}
        → Element i vs v
        → Element (suc i) (more_values u vs) v

  -- `Reaches v index w`: the path leads from v to w, from field to field of structs and through
  -- every pointer before a field; no step leads on from nil.
  pub data Reaches : Value F O → List ℕ → Value F O → Type 0 where
    arrived : {v : Value F O} → Reaches v [] v
    through :
        {v w : Value F O} {i : ℕ} {index : List ℕ}
        → Reaches v (i ∷ index) w
        → Reaches (pointer_value v) (i ∷ index) w
    into :
        {vs : Values F O} {v w : Value F O} {i : ℕ} {index : List ℕ}
        → Element i vs v
        → Reaches v index w
        → Reaches (struct_value vs) (i ∷ index) w

  abbrev pub is_wrapped : Value F O → Bool
  is_wrapped (pointer_value v) = true
  is_wrapped (interface_value v) = true
  is_wrapped _ = false

  -- What stands behind all of the pointers and interfaces.
  pub data Behind : Value F O → Value F O → Type 0 where
    itself : {v : Value F O} → is_wrapped v ≡ false → Behind v v
    pointed : {v u : Value F O} → Behind v u → Behind (pointer_value v) u
    held : {v u : Value F O} → Behind v u → Behind (interface_value v) u

  Element-value_at :
      {i : ℕ} {vs : Values F O} {v : Value F O} → Element i vs v → value_at i vs ≡ some v
  unfolding value_at
  Element-value_at first = refl
  Element-value_at (later e) = Element-value_at e

  value_at-Element :
      (i : ℕ) (vs : Values F O) (v : Value F O) → value_at i vs ≡ some v → Element i vs v
  unfolding value_at
  value_at-Element i no_values v e = cc
  value_at-Element zero (more_values u vs) v e =
      let same : u ≡ v = ground arith in subst (λ x. Element zero (more_values u vs) x) same first
  value_at-Element (suc i) (more_values u vs) v e = later (value_at-Element i vs v e)

  module _ (lib : Formats F O) where
    Reaches-field_by_index :
        {v w : Value F O} {index : List ℕ} → Reaches v index w → field_by_index lib v index ≡ some w
    unfolding field_by_index through_pointers
    Reaches-field_by_index arrived = refl
    Reaches-field_by_index (through r) = Reaches-field_by_index r
    Reaches-field_by_index (into e r) =
        rw (Element-value_at e, field_by_index) (Reaches-field_by_index r)

    field_by_index-Reaches :
        (index : List ℕ) (v w : Value F O) → field_by_index lib v index ≡ some w → Reaches v index w
    unfolding field_by_index through_pointers
    field_by_index-Reaches [] v w e =
        let same : v ≡ w = ground arith in subst (λ x. Reaches v [] x) same arrived
    field_by_index-Reaches (i ∷ index) (pointer_value v) w e =
        through (field_by_index-Reaches (i ∷ index) v w e)
    field_by_index-Reaches (i ∷ index) (struct_value vs) w e = elim (Option-cases (value_at i vs)) [
      | inl h ↦ ground arith
      | inr (u, h) ↦
          into (value_at-Element i vs u h)
            (field_by_index-Reaches index u w (rw (h, field_by_index) at e))
    ]
    field_by_index-Reaches (i ∷ index) (text_value s) w e = cc
    field_by_index-Reaches (i ∷ index) (bool_value s) w e = cc
    field_by_index-Reaches (i ∷ index) (int_value s) w e = cc
    field_by_index-Reaches (i ∷ index) (uint_value s) w e = cc
    field_by_index-Reaches (i ∷ index) (float_value s) w e = cc
    field_by_index-Reaches (i ∷ index) nil_value w e = cc
    field_by_index-Reaches (i ∷ index) (interface_value v) w e = cc
    field_by_index-Reaches (i ∷ index) (slice_value vs) w e = cc
    field_by_index-Reaches (i ∷ index) (array_value vs) w e = cc
    field_by_index-Reaches (i ∷ index) (map_value ks vs) w e = cc
    field_by_index-Reaches (i ∷ index) (other_value o) w e = cc

    -- The code finds what the path leads to, and nothing else.
    pub field_by_index_iff :
        (v : Value F O) (index : List ℕ) (w : Value F O)
        → (field_by_index lib v index ≡ some w) ↔ Reaches v index w
    field_by_index_iff v index w = (field_by_index-Reaches index v w, Reaches-field_by_index)

    pub unwrap-Behind : (v : Value F O) → Behind v (unwrap lib v)
    unfolding unwrap
    unwrap-Behind (pointer_value v) = pointed (unwrap-Behind v)
    unwrap-Behind (interface_value v) = held (unwrap-Behind v)
    unwrap-Behind (text_value s) = itself refl
    unwrap-Behind (bool_value b) = itself refl
    unwrap-Behind (int_value n) = itself refl
    unwrap-Behind (uint_value n) = itself refl
    unwrap-Behind (float_value x) = itself refl
    unwrap-Behind nil_value = itself refl
    unwrap-Behind (slice_value vs) = itself refl
    unwrap-Behind (array_value vs) = itself refl
    unwrap-Behind (map_value ks vs) = itself refl
    unwrap-Behind (struct_value vs) = itself refl
    unwrap-Behind (other_value o) = itself refl

    unwrap_plain : (v : Value F O) → is_wrapped v ≡ false → unwrap lib v ≡ v
    unfolding unwrap
    unwrap_plain (pointer_value v) e = cc
    unwrap_plain (interface_value v) e = cc
    unwrap_plain (text_value s) e = refl
    unwrap_plain (bool_value b) e = refl
    unwrap_plain (int_value n) e = refl
    unwrap_plain (uint_value n) e = refl
    unwrap_plain (float_value x) e = refl
    unwrap_plain nil_value e = refl
    unwrap_plain (slice_value vs) e = refl
    unwrap_plain (array_value vs) e = refl
    unwrap_plain (map_value ks vs) e = refl
    unwrap_plain (struct_value vs) e = refl
    unwrap_plain (other_value o) e = refl

    pub Behind-unwrap : {v u : Value F O} → Behind v u → unwrap lib v ≡ u
    unfolding unwrap
    Behind-unwrap (itself plain) = unwrap_plain _ plain
    Behind-unwrap (pointed b) = Behind-unwrap b
    Behind-unwrap (held b) = Behind-unwrap b

    pub is_nil_value_iff : (v : Value F O) → (is_nil_value lib v ≡ true) ↔ (v ≡ nil_value)
    unfolding is_nil_value
    is_nil_value_iff nil_value = (λ e. refl, λ e. refl)
    is_nil_value_iff (text_value s) = (λ e. cc, λ e. cc)
    is_nil_value_iff (bool_value b) = (λ e. cc, λ e. cc)
    is_nil_value_iff (int_value n) = (λ e. cc, λ e. cc)
    is_nil_value_iff (uint_value n) = (λ e. cc, λ e. cc)
    is_nil_value_iff (float_value x) = (λ e. cc, λ e. cc)
    is_nil_value_iff (slice_value vs) = (λ e. cc, λ e. cc)
    is_nil_value_iff (array_value vs) = (λ e. cc, λ e. cc)
    is_nil_value_iff (map_value ks vs) = (λ e. cc, λ e. cc)
    is_nil_value_iff (struct_value vs) = (λ e. cc, λ e. cc)
    is_nil_value_iff (other_value o) = (λ e. cc, λ e. cc)
    is_nil_value_iff (pointer_value v) = (λ e. cc, λ e. cc)
    is_nil_value_iff (interface_value v) = (λ e. cc, λ e. cc)
