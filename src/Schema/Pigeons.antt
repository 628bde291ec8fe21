-- ===== src/Schema/Pigeons.antt =====
-- Of more names than there are keys in a table, one is not a key.
use oashttp.Prelude.{
  Bool-cases, List, [], arith, false, if◌then◌else◌, inl, inr, is_some, length, lookup, refl, suc,
  sym, true, zero, ℕ, ◌+◌, ◌<◌, ◌∙◌, ◌∷◌, ◌≡◌, ◌≤◌,
}
use oashttp.Prelude.Text.{Text, text_eq, text_eq_iff}

module _ (name_at : ℕ → Text) where
  -- How many of the first n names are the key, and how many are keys of the table.
  unfoldable equal_to : Text → ℕ → ℕ
  equal_to key zero = 0
  equal_to key (suc n) = (if text_eq key (name_at n) then 1 else 0) + equal_to key n

  unfoldable pub taken_of : List (Text × Text) → ℕ → ℕ
  unfolding lookup
  taken_of table zero = 0
  taken_of table (suc n) =
      (if is_some (lookup text_eq table (name_at n)) then 1 else 0) + taken_of table n

  taken_of-nil : (n : ℕ) → taken_of [] n ≡ 0
  unfolding taken_of lookup
  taken_of-nil zero = refl
  taken_of-nil (suc n) = ground (arith, taken_of-nil n)

  taken_of-cons :
      (key a : Text) (table : List (Text × Text)) (n : ℕ)
      → taken_of ((key, a) ∷ table) n ≤ equal_to key n + taken_of table n
  unfolding taken_of equal_to lookup
  taken_of-cons key a table zero = omega arith
  taken_of-cons key a table (suc n) = ground (arith, taken_of-cons key a table n)

  all_taken-count :
      (table : List (Text × Text)) (n : ℕ)
      → ((i : ℕ) → i < n → is_some (lookup text_eq table (name_at i)) ≡ true)
      → taken_of table n ≡ n
  unfolding taken_of
  all_taken-count table zero all_taken = refl
  all_taken-count table (suc n) all_taken = ground (
    arith,
    all_taken n (omega arith),
    all_taken-count table n (λ i lt. all_taken i (omega arith)),
  )

  module _ (limit : ℕ)
      (apart : (i j : ℕ) → i < limit → j < limit → name_at i ≡ name_at j → i ≡ j) where
    equal_to-none :
        (key : Text) (m n : ℕ) → n ≤ m → m < limit → key ≡ name_at m → equal_to key n ≡ 0
    unfolding equal_to
    equal_to-none key m zero le low is = refl
    equal_to-none key m (suc n) le low is = elim (Bool-cases (text_eq key (name_at n))) [
      | inl e ↦
          let same =
            apart m n low (omega (arith, low)) (sym is ∙ (text_eq_iff key (name_at n)).0 e) in
          absurd (omega (arith, same))
      | inr e ↦ rw e (ground (arith, equal_to-none key m n (omega arith) low is))
    ]

    equal_to-le : (key : Text) (n : ℕ) → n ≤ limit → equal_to key n ≤ 1
    unfolding equal_to
    equal_to-le key zero le = omega arith
    equal_to-le key (suc n) le = elim (Bool-cases (text_eq key (name_at n))) [
      | inl e ↦
          let none_before =
            equal_to-none key n n (omega arith) (omega arith) ((text_eq_iff key (name_at n)).0 e) in
          rw e (omega (arith, none_before))
      | inr e ↦ rw e (ground (arith, equal_to-le key n (omega arith)))
    ]

    taken_of-le : (table : List (Text × Text)) (n : ℕ) → n ≤ limit → taken_of table n ≤ length table
    taken_of-le [] n le = rw (taken_of-nil n) (omega arith)
    taken_of-le ((key, a) ∷ table) n le =
        omega (arith, taken_of-cons key a table n, equal_to-le key n le, taken_of-le table n le)

    -- Not all of the names are keys.
    pub not_all_taken :
        (table : List (Text × Text))
        → length table < limit
        → ((i : ℕ) → i < limit → is_some (lookup text_eq table (name_at i)) ≡ true)
        → false ≡ true
    not_all_taken table more all_taken = absurd (
        omega (arith, all_taken-count table limit all_taken, taken_of-le table limit (omega arith)))
