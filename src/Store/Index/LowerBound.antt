-- ===== src/Store/Index/LowerBound.antt =====
-- `lower_bound` gives the least row that does not stand before the key, in any total order of rows.
use fio_chronicle.Prelude.{
  ◌≡◌, ◌⊎◌, refl, sym, subst, Bool, true, false, List, [], ◌∷◌, Option, none, some, arith, Has, inl,
  inr, Bool-cases,
}
use fio_chronicle.Store.Index.{nearer, lower_bound}

module _ {A : Type 0} (before : A → A → Bool) (below : A → Bool) where
  nearer-cases :
      (x : A) (l : Option A) (o : A) → nearer before x l ≡ some o → (x ≡ o) ⊎ (l ≡ some o)
  nearer-cases x none o h = inl (cc)
  nearer-cases x (some y) o h = elim (Bool-cases (before y x)) [
    | inl e ↦ inr (ground arith)
    | inr e ↦ inl (ground arith)
  ]

  -- The row that it gives is one of the table's, and does not stand before the key.
  pub lower_bound-some :
      (rows : List A) (o : A)
      → lower_bound before below rows ≡ some o
      → Has o rows × (below o ≡ false)
  unfolding lower_bound
  lower_bound-some [] o h = cc
  lower_bound-some (x ∷ xs) o h = elim (Bool-cases (below x)) [
    | inl skipped ↦ let (m, b) = lower_bound-some xs o (ground arith) in (inr m, b)
    | inr reached ↦ elim (nearer-cases x (lower_bound before below xs) o (ground arith)) [
      | inl e ↦ (inl e, subst (λ y. below y ≡ false) e reached)
      | inr e ↦ let (m, b) = lower_bound-some xs o e in (inr m, b)
    ]
  ]

  nearer-some : (x : A) (l : Option A) → (o : A) × (nearer before x l ≡ some o)
  nearer-some x none = (x, refl)
  nearer-some x (some y) = elim (Bool-cases (before y x)) [
    | inl e ↦ (y, rw e refl)
    | inr e ↦ (x, rw e refl)
  ]

  -- It gives a row wherever one does not stand before the key.
  pub lower_bound-found :
      (rows : List A) (r : A)
      → Has r rows
      → below r ≡ false
      → (o : A) × (lower_bound before below rows ≡ some o)
  unfolding lower_bound
  lower_bound-found [] r m b = absurd m
  lower_bound-found (x ∷ xs) r m b = elim (Bool-cases (below x)) [
    | inl skipped ↦ rw skipped (lower_bound-found xs r (tail_Has skipped m) b)
    | inr reached ↦ rw reached (nearer-some x (lower_bound before below xs))
  ]
    where
      tail_Has : below x ≡ true → (x ≡ r) ⊎ Has r xs → Has r xs
      tail_Has skipped (inl e) = absurd (ground (arith, subst (λ y. below y ≡ true) e skipped))
      tail_Has skipped (inr t) = t

-- A strict total order of rows, as far as it is looked at.
pub record IsOrder {A : Type 0} (before : A → A → Bool) : Type 0 where
  pub irrefl : (x : A) → before x x ≡ false
  pub asym : (x y : A) → before x y ≡ true → before y x ≡ false
  pub not_before_trans : (x y z : A) → before x y ≡ false → before y z ≡ false → before x z ≡ false

module _ {A : Type 0} (before : A → A → Bool) (below : A → Bool) (ord : IsOrder before) where
  nearer-least :
      (x : A) (l : Option A) (o r : A)
      → nearer before x l ≡ some o
      → (x ≡ r) ⊎ ((y : A) × (l ≡ some y) × (before r y ≡ false))
      → before r o ≡ false
  nearer-least x none o r h (inl e) =
      subst (λ z. before z o ≡ false) e (subst (λ z. before x z ≡ false) (cc) (ord.irrefl x))
  nearer-least x none o r h (inr (y, e, b)) = cc
  nearer-least x (some y) o r h (inl e) = elim (Bool-cases (before y x)) [
    | inl c ↦
        let o_is : y ≡ o = ground arith in
        subst (λ z. before z o ≡ false) e (subst (λ z. before x z ≡ false) o_is (ord.asym y x c))
    | inr c ↦
        let o_is : x ≡ o = ground arith in
        subst (λ z. before z o ≡ false) e (subst (λ z. before x z ≡ false) o_is (ord.irrefl x))
  ]
  nearer-least x (some y) o r h (inr (y', e, b)) =
      let same : y' ≡ y = cc in
      let b' : before r y ≡ false = subst (λ z. before r z ≡ false) same b in
      elim (Bool-cases (before y x)) [
        | inl c ↦ let o_is : y ≡ o = ground arith in subst (λ z. before r z ≡ false) o_is b'
        | inr c ↦
            let o_is : x ≡ o = ground arith in
            subst (λ z. before r z ≡ false) o_is (ord.not_before_trans r y x b' c)
      ]

  -- No row that does not stand before the key precedes the row that is given.
  pub lower_bound-least :
      (rows : List A) (r o : A)
      → Has r rows
      → below r ≡ false
      → lower_bound before below rows ≡ some o
      → before r o ≡ false
  unfolding lower_bound
  lower_bound-least [] r o m b h = absurd m
  lower_bound-least (x ∷ xs) r o (inl e) b h =
      nearer-least x (lower_bound before below xs) o r
        (ground (arith, subst (λ y. below y ≡ false) (sym e) b)) (inl e)
  lower_bound-least (x ∷ xs) r o (inr m) b h = elim (Bool-cases (below x)) [
    | inl skipped ↦ lower_bound-least xs r o m b (ground arith)
    | inr reached ↦
        let (y, e) = lower_bound-found before below xs r m b in
        nearer-least x (lower_bound before below xs) o r (ground arith)
          (inr (y, e, lower_bound-least xs r y m b e))
  ]
