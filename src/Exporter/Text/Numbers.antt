-- ===== src/Exporter/Text/Numbers.antt =====
-- Numbers in texts: std::to_string and boost::lexical_cast, std::stoul, and atoi.
use fio_chronicle.Prelude.{
  ℕ, zero, suc, ◌+◌, ◌-◌, ◌*◌, ◌/◌, ◌%◌, ◌^◌, ◌<◌, ◌≡◌, refl, sym, ◌∙◌, Bool, true, false, ◌&&◌,
  ◌||◌, [], ◌∷◌, Option, none, some, ltb, leb, ◌==◌, if◌then◌else◌, arith, All, Bool-cases, lt→ltb,
  inl, inr,
}
use fio_chronicle.Exporter.Text.{Text}

abbrev pub is_digit : ℕ → Bool
is_digit b = leb 48 b && leb b 57

pub is_digit_lem : (d : ℕ) → d < 10 → is_digit (48 + d) ≡ true
is_digit_lem d h = ground arith

-- The decimal digits, in front of those already found; the number has less than 2^fuel.
unfoldable pub print_onto : ℕ → ℕ → Text → Text
print_onto zero n t = t
print_onto (suc fuel) n t =
    let rest = print_onto fuel (n / 10) ((48 + n % 10) ∷ t) in
    if ltb n 10 then (48 + n) ∷ t else rest

-- A uint64_t has 20 digits at most.
unfoldable pub print_number : ℕ → Text
unfolding print_onto
print_number n = print_onto 20 n []

-- The value of the digits at the start, and how many there are.
unfoldable pub read_digits : ℕ → ℕ → Text → ℕ × ℕ
read_digits value count [] = (value, count)
read_digits value count (b ∷ bs) =
    let rest = read_digits (value * 10 + (b - 48)) (count + 1) bs in
    if is_digit b then rest else (value, count)

abbrev pub is_space : ℕ → Bool
is_space b = b == 32 || (leb 9 b && leb b 13)

unfoldable pub skip_spaces : Text → Text
skip_spaces [] = []
skip_spaces (b ∷ bs) = let rest = skip_spaces bs in if is_space b then rest else b ∷ bs

-- A sign, and what follows it.
unfoldable pub read_sign : Text → Bool × Text
read_sign [] = (false, [])
read_sign (b ∷ bs) =
    if b == 45 then (true, bs) else if b == 43 then (false, bs) else (false, b ∷ bs)

-- 2^64
abbrev pub u64_mod : ℕ
u64_mod = 2 ^ 64

abbrev negated : Bool → ℕ → ℕ
negated true n = (u64_mod - n) % u64_mod
negated false n = n

abbrev converted : Bool → ℕ × ℕ → Option ℕ
converted minus (value, count) =
    if count == 0 || leb u64_mod value then none else some (negated minus value)

-- `std::stoul`; `none` stands for invalid_argument and out_of_range.
unfoldable pub stoul : Text → Option ℕ
unfolding read_digits skip_spaces read_sign
stoul t = let (minus, rest) = read_sign (skip_spaces t) in converted minus (read_digits 0 0 rest)

-- An int64_t.
pub data ℤ : Type 0 where
  pos : ℕ → ℤ
  negsuc : ℕ → ℤ

-- -n
abbrev pub neg : ℕ → ℤ
neg zero = pos zero
neg (suc n) = negsuc n

-- `atoi`, where the number fits an int; without digits it is 0.
unfoldable pub atoi : Text → ℤ
unfolding read_digits skip_spaces read_sign
atoi t =
    let (minus, rest) = read_sign (skip_spaces t) in
    if minus then neg (read_digits 0 0 rest).0 else pos (read_digits 0 0 rest).0

unfoldable pub print_integer : ℤ → Text
unfolding print_number
print_integer (pos n) = print_number n
print_integer (negsuc n) = 45 ∷ print_number (suc n)

read_digits-digit :
    (d value count value' count' : ℕ) (t : Text)
    → d < 10
    → value' ≡ value * 10 + d
    → count' ≡ count + 1
    → read_digits value count ((48 + d) ∷ t) ≡ read_digits value' count' t
unfolding read_digits
read_digits-digit d value count value' count' t h e k =
    rw (is_digit_lem d h) (λ i. read_digits (same_value i) (sym k i) t)
  where
    same_value : value * 10 + (48 + d - 48) ≡ value'
    same_value = omega arith

-- The digits that print_onto puts in front are read before what follows.
read_digits-print_onto :
    (fuel n : ℕ) (t : Text)
    → n < 10 ^ suc fuel
    → (k : ℕ) × (read_digits 0 0 (print_onto (suc fuel) n t) ≡ read_digits n (suc k) t)
unfolding print_onto
read_digits-print_onto zero n t h = (
  0,
  rw (lt→ltb n 10 (omega arith))
      (read_digits-digit n 0 0 n 1 t (omega arith) (omega arith) (omega arith)),
)
read_digits-print_onto (suc fuel) n t h = elim (Bool-cases (ltb n 10)) [
  | inl one ↦ (0, rw one (read_digits-digit n 0 0 n 1 t (ground arith) (omega arith) (omega arith)))
  | inr more ↦
      let (k, e) = read_digits-print_onto fuel (n / 10) ((48 + n % 10) ∷ t) (omega arith) in
      (
        suc k,
        rw more (
            e
            ∙ read_digits-digit (n % 10) (n / 10) (suc k) n (suc (suc k)) t (omega arith)
                (omega arith) (omega arith)),
      )
]

abbrev pub IsDigits : Text → Type 0
IsDigits = All (λ b. is_digit b ≡ true)

print_onto-IsDigits : (fuel n : ℕ) (t : Text) → IsDigits t → IsDigits (print_onto fuel n t)
unfolding print_onto
print_onto-IsDigits zero n t h = h
print_onto-IsDigits (suc fuel) n t h = elim (Bool-cases (ltb n 10)) [
  | inl one ↦ rw one (is_digit_lem n (ground arith), h)
  | inr more ↦
      rw more (print_onto-IsDigits fuel (n / 10) _ (is_digit_lem (n % 10) (omega arith), h))
]

-- Digits alone are read as they stand.
skip_spaces-IsDigits : (t : Text) → IsDigits t → skip_spaces t ≡ t
unfolding skip_spaces
skip_spaces-IsDigits [] h = refl
skip_spaces-IsDigits (b ∷ bs) h = let first = h.0 in ground arith

read_sign-IsDigits : (t : Text) → IsDigits t → read_sign t ≡ (false, t)
unfolding read_sign
read_sign-IsDigits [] h = refl
read_sign-IsDigits (b ∷ bs) h = let first = h.0 in ground arith

pub stoul-IsDigits :
    (t : Text) (value k : ℕ)
    → IsDigits t
    → read_digits 0 0 t ≡ (value, suc k)
    → value < u64_mod
    → stoul t ≡ some value
unfolding stoul
stoul-IsDigits t value k h e small =
    rw (skip_spaces-IsDigits t h) (rw (read_sign-IsDigits t h) (rw e (ground arith)))

-- A uint64_t that is printed is read back.
pub stoul-print_number : (n : ℕ) → n < u64_mod → stoul (print_number n) ≡ some n
unfolding print_number read_digits
stoul-print_number n h =
    let (k, e) = read_digits-print_onto 19 n [] (omega arith) in
    stoul-IsDigits (print_onto 20 n []) n k (print_onto-IsDigits 20 n [] tt) e h

pub print_number-IsDigits : (n : ℕ) → IsDigits (print_number n)
unfolding print_number
print_number-IsDigits n = print_onto-IsDigits 20 n [] tt
