-- ===== src/Exporter/Keys/Base58.antt =====
-- DecodeBase58 (chronicle-receiver/keyops.hpp) against the value of a text in base 58.
use fio_chronicle.Prelude.{
  ℕ, zero, suc, ◌+◌, ◌*◌, ◌/◌, ◌%◌, ◌<◌, ◌≡◌, refl, ap, ◌∙◌, false, List, [], ◌∷◌, ◌++◌, ltb, ◌==◌,
  All, arith, Bool-cases, inl, inr, u32_mod,
}
use fio_chronicle.Exporter.Text.{Text}
use fio_chronicle.Exporter.Keys.{
  digit_of, times_58, carry_bytes, add_digit, add_digits, leading_zeros, reverse_onto,
  decode_base_58,
}

-- A text of base 58.
abbrev pub IsBase58 : Text → Type 0
IsBase58 = All (λ c. digit_of c < 58)

abbrev pub IsBytes : List ℕ → Type 0
IsBytes = All (λ b. b < 256)

-- The value of the digits behind those that gave `n`.
unfoldable pub value_58 : ℕ → Text → ℕ
value_58 n [] = n
value_58 n (c ∷ cs) = value_58 (n * 58 + digit_of c) cs

-- The value of bytes, the highest first.
unfoldable pub value_of : ℕ → List ℕ → ℕ
value_of n [] = n
value_of n (b ∷ bs) = value_of (n * 256 + b) bs

-- ... the lowest first.
unfoldable low_first : List ℕ → ℕ
low_first [] = 0
low_first (b ∷ bs) = b + 256 * low_first bs

value_of-reverse_onto :
    (done bs : List ℕ) → value_of 0 (reverse_onto done bs) ≡ value_of (low_first bs) done
unfolding value_of low_first
value_of-reverse_onto done [] = refl
value_of-reverse_onto done (b ∷ bs) =
    value_of-reverse_onto (b ∷ done) bs ∙ ap (λ n. value_of n done) (omega arith)

low_first-zeros : (bs : List ℕ) (t : Text) → low_first (bs ++ leading_zeros t) ≡ low_first bs
unfolding low_first leading_zeros
low_first-zeros (b ∷ bs) t = ap (λ n. b + 256 * n) (low_first-zeros bs t)
low_first-zeros [] [] = refl
low_first-zeros [] (c ∷ cs) = elim (Bool-cases (c == 49)) [
  | inl one ↦ rw one (let rest = low_first-zeros [] cs in omega (arith, rest))
  | inr other ↦ rw other refl
]

next_small : (carry b : ℕ) → carry < 58 → b < 256 → (carry + b * 58) % u32_mod / 256 < 58
next_small carry b small byte = omega arith

times_58-carry : (carry : ℕ) (bs : List ℕ) → carry < 58 → IsBytes bs → (times_58 carry bs).1 < 58
unfolding times_58
times_58-carry carry [] small bytes = small
times_58-carry carry (b ∷ bs) small bytes =
    times_58-carry ((carry + b * 58) % u32_mod / 256) bs (next_small carry b small bytes.0) bytes.1

times_58-IsBytes : (bs : List ℕ) (carry : ℕ) → IsBytes (times_58 carry bs).0
unfolding times_58
times_58-IsBytes [] carry = tt
times_58-IsBytes (b ∷ bs) carry =
    (omega arith, times_58-IsBytes bs ((carry + b * 58) % u32_mod / 256))

-- The bytes that are kept, with bytes behind them that stand for the carry, are the product.
times_58-value :
    (carry : ℕ) (bs tail : List ℕ)
    → carry < 58
    → IsBytes bs
    → low_first tail ≡ (times_58 carry bs).1
    → low_first ((times_58 carry bs).0 ++ tail) ≡ carry + 58 * low_first bs
unfolding times_58 low_first
times_58-value carry [] tail small bytes e = omega (arith, e)
times_58-value carry (b ∷ bs) tail small bytes e =
    let rest =
      times_58-value ((carry + b * 58) % u32_mod / 256) bs tail (next_small carry b small bytes.0)
        bytes.1 e in
    let byte = bytes.0 in omega (arith, rest)

carry_bytes-value : (carry : ℕ) → carry < 58 → low_first (carry_bytes 4 carry) ≡ carry
unfolding carry_bytes low_first
carry_bytes-value carry small = elim (Bool-cases (ltb 0 carry)) [
  | inl more ↦ rw (more, empties carry small) (omega arith)
  | inr none_left ↦ rw none_left (ground arith)
]
  where
    empties : (n : ℕ) → n < 58 → ltb 0 (n / 256) ≡ false
    empties n h = ground arith

carry_bytes-IsBytes : (fuel carry : ℕ) → IsBytes (carry_bytes fuel carry)
unfolding carry_bytes
carry_bytes-IsBytes zero carry = tt
carry_bytes-IsBytes (suc fuel) carry = elim (Bool-cases (ltb 0 carry)) [
  | inl more ↦ rw more (omega arith, carry_bytes-IsBytes fuel (carry / 256))
  | inr none_left ↦ rw none_left tt
]

All-append : (xs ys : List ℕ) → IsBytes xs → IsBytes ys → IsBytes (xs ++ ys)
All-append [] ys h k = k
All-append (x ∷ xs) ys h k = (h.0, All-append xs ys h.1 k)

add_digit-IsBytes : (d : ℕ) (bs : List ℕ) → IsBytes (add_digit d bs)
unfolding add_digit
add_digit-IsBytes d bs =
    All-append (times_58 d bs).0 (carry_bytes 4 (times_58 d bs).1) (times_58-IsBytes bs d)
      (carry_bytes-IsBytes 4 (times_58 d bs).1)

add_digit-value :
    (d : ℕ) (bs : List ℕ) → d < 58 → IsBytes bs → low_first (add_digit d bs) ≡ low_first bs * 58 + d
unfolding add_digit
add_digit-value d bs small bytes =
    times_58-value d bs (carry_bytes 4 (times_58 d bs).1) small bytes
      (carry_bytes-value (times_58 d bs).1 (times_58-carry d bs small bytes))
    ∙ omega arith

add_digits-value :
    (t : Text) (bs : List ℕ)
    → IsBase58 t
    → IsBytes bs
    → low_first (add_digits t bs) ≡ value_58 (low_first bs) t
unfolding add_digits value_58
add_digits-value [] bs digits bytes = refl
add_digits-value (c ∷ cs) bs digits bytes =
    add_digits-value cs (add_digit (digit_of c) bs) digits.1 (add_digit-IsBytes (digit_of c) bs)
    ∙ ap (λ n. value_58 n cs) (add_digit-value (digit_of c) bs digits.0 bytes)

-- The bytes of a text of base 58, the highest first, have the value of the text.
pub decode_base_58-value : (t : Text) → IsBase58 t → value_of 0 (decode_base_58 t) ≡ value_58 0 t
unfolding decode_base_58 value_of low_first
decode_base_58-value t digits =
    value_of-reverse_onto [] (add_digits t (0 ∷ []) ++ leading_zeros t)
    ∙ low_first-zeros (add_digits t (0 ∷ [])) t
    ∙ add_digits-value t (0 ∷ []) digits (omega arith, tt)
