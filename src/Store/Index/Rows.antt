-- ===== src/Store/Index/Rows.antt =====
-- What stands in a table after a row was created or modified.
use fio_chronicle.Prelude.{
  ◌≡◌, ◌⊎◌, refl, sym, subst, ap, ◌∙◌, Bool, true, false, ◌||◌, List, [], ◌∷◌, none, some, arith,
  Has, All, All-Has, inl, inr, Bool-cases,
}
use fio_chronicle.Store.Index.{create, find, modify_row}

module _ {A : Type 0} where
  -- A row whose key is not taken goes in, and all else stays.
  pub create-free :
      (before : A → A → Bool) (x : A) (ys : List A)
      → All (λ y. before x y || before y x ≡ true) ys
      → (zs : List A) × (create before x ys ≡ some zs)
        × Has x zs
        × ((o : A) → Has o zs → (x ≡ o) ⊎ Has o ys)
  unfolding create
  create-free before x [] free = (x ∷ [], refl, inl refl, λ o m. m)
  create-free before x (y ∷ ys) (h, free) = elim (Bool-cases (before x y)) [
    | inl e ↦ (x ∷ y ∷ ys, rw e refl, inl refl, λ o m. m)
    | inr e ↦
        let (zs, k, m, others) = create-free before x ys free in
        let after : before y x ≡ true = ground arith in
        (
          y ∷ zs,
          rw (e, after, k) refl,
          inr m,
          λ o n. elim n [
            | inl q ↦ inr (inl q)
            | inr t ↦ elim (others o t) [ inl q ↦ inl q | inr u ↦ inr (inr u) ]
          ],
        )
  ]

  module _ (is_key : A → Bool) where
    pub find-none : (rows : List A) → find is_key rows ≡ none → All (λ y. is_key y ≡ false) rows
    unfolding find
    find-none [] h = tt
    find-none (x ∷ xs) h = elim (Bool-cases (is_key x)) [
      | inl e ↦ absurd (ground arith)
      | inr e ↦ (e, find-none xs (ground arith))
    ]

    pub find-some : (rows : List A) (y : A) → find is_key rows ≡ some y → is_key y ≡ true
    unfolding find
    find-some [] y h = absurd (ground arith)
    find-some (x ∷ xs) y h = elim (Bool-cases (is_key x)) [
      | inl e ↦ let found : x ≡ y = ground arith in subst (λ z. is_key z ≡ true) found e
      | inr e ↦ find-some xs y (ground arith)
    ]

    -- The key of the index is unique.
    abbrev pub AtMostOne : List A → Type 0
    AtMostOne [] = Unit
    AtMostOne (x ∷ xs) = (is_key x ≡ true → All (λ y. is_key y ≡ false) xs) × AtMostOne xs

    -- The row that is modified stands there as it was made, alone with its key, and all else stays.
    pub modify_row-found :
        (f : A → A) (rows : List A) (y : A)
        → find is_key rows ≡ some y
        → AtMostOne rows
        → Has (f y) (modify_row is_key f rows)
          × ((o : A)
              → Has o (modify_row is_key f rows)
              → (f y ≡ o) ⊎ (Has o rows × (is_key o ≡ false)))
    unfolding find modify_row
    modify_row-found f [] y h one = absurd (ground arith)
    modify_row-found f (x ∷ xs) y h (alone, one) = elim (Bool-cases (is_key x)) [
      | inl e ↦
          let found : x ≡ y = ground arith in
          let same : f x ≡ f y = ap f found in
          rw e (
            inl same,
            λ o m. elim m [
              | inl q ↦ inl (sym same ∙ q)
              | inr t ↦ inr (inr t, All-Has (λ z. is_key z ≡ false) o xs (alone e) t)
            ],
          )
      | inr e ↦
          let (m, others) = modify_row-found f xs y (ground arith) one in
          rw e (
            inr m,
            λ o n. elim n [
              | inl q ↦ inr (inl q, subst (λ z. is_key z ≡ false) q e)
              | inr t ↦ elim (others o t) [ inl q ↦ inl q | inr (u, v) ↦ inr (inr u, v) ]
            ],
          )
    ]
