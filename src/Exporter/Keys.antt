-- ===== src/Exporter/Keys.antt =====
-- Accounts of public keys (chronicle-receiver/keyops.hpp): DecodeBase58, shorten_key and
-- key_to_account. An unsigned
-- int has 32 bits. The buffer that DecodeBase58 fills is a list that grows; the code's has 37 bytes.
pub mod Base58
pub mod Name
use Prim.Native.Nat.{bit_or}
use fio_chronicle.Prelude.{
  ℕ, zero, suc, ◌+◌, ◌-◌, ◌*◌, ◌/◌, ◌%◌, ◌^◌, Bool, true, false, List, [], ◌∷◌, ◌++◌, Option, none,
  some, if◌then◌else◌, ltb, leb, ◌==◌, u32_mod,
}
use fio_chronicle.Exporter.Text.{Text, drop}

-- -1 as an unsigned int.
abbrev no : ℕ
no = 4294967295

-- `ALPHABET_MAP`, 16 entries a row.
abbrev alphabet_map : List ℕ
alphabet_map =
    no ∷ no ∷ no ∷ no ∷ no ∷ no ∷ no ∷ no ∷ no ∷ no ∷ no ∷ no ∷ no ∷ no ∷ no ∷ no ∷ no ∷ no ∷ no
    ∷ no ∷ no ∷ no ∷ no ∷ no ∷ no ∷ no ∷ no ∷ no ∷ no ∷ no ∷ no ∷ no ∷ no ∷ no ∷ no ∷ no ∷ no ∷ no
    ∷ no ∷ no ∷ no ∷ no ∷ no ∷ no ∷ no ∷ no ∷ no ∷ no ∷ no ∷ 0 ∷ 1 ∷ 2 ∷ 3 ∷ 4 ∷ 5 ∷ 6 ∷ 7 ∷ 8 ∷ no
    ∷ no ∷ no ∷ no ∷ no ∷ no ∷ no ∷ 9 ∷ 10 ∷ 11 ∷ 12 ∷ 13 ∷ 14 ∷ 15 ∷ 16 ∷ no ∷ 17 ∷ 18 ∷ 19 ∷ 20
    ∷ 21 ∷ no ∷ 22 ∷ 23 ∷ 24 ∷ 25 ∷ 26 ∷ 27 ∷ 28 ∷ 29 ∷ 30 ∷ 31 ∷ 32 ∷ no ∷ no ∷ no ∷ no ∷ no ∷ no
    ∷ 33 ∷ 34 ∷ 35 ∷ 36 ∷ 37 ∷ 38 ∷ 39 ∷ 40 ∷ 41 ∷ 42 ∷ 43 ∷ no ∷ 44 ∷ 45 ∷ 46 ∷ 47 ∷ 48 ∷ 49 ∷ 50
    ∷ 51 ∷ 52 ∷ 53 ∷ 54 ∷ 55 ∷ 56 ∷ 57 ∷ no ∷ no ∷ no ∷ no ∷ no ∷ []

abbrev entry : List ℕ → ℕ → ℕ
entry [] n = no
entry (d ∷ ds) zero = d
entry (d ∷ ds) (suc n) = entry ds n

-- The digit of a character below 128.
unfoldable pub digit_of : ℕ → ℕ
digit_of c = entry alphabet_map c

-- The inner loop: each byte times 58 and the carry, which is left over.
unfoldable pub times_58 : (carry : ℕ) → List ℕ → List ℕ × ℕ
times_58 carry [] = ([], carry)
times_58 carry (b ∷ bs) =
    let sum = (carry + b * 58) % u32_mod in
    let (rest, left) = times_58 (sum / 256) bs in (sum % 256 ∷ rest, left)

-- `while (carry > 0)`: four rounds empty 32 bits.
unfoldable pub carry_bytes : (fuel carry : ℕ) → List ℕ
carry_bytes zero carry = []
carry_bytes (suc fuel) carry =
    let rest = carry_bytes fuel (carry / 256) in if ltb 0 carry then carry % 256 ∷ rest else []

unfoldable pub add_digit : (digit : ℕ) → List ℕ → List ℕ
unfolding times_58 carry_bytes
add_digit digit bytes = let (low, carry) = times_58 digit bytes in low ++ carry_bytes 4 carry

unfoldable pub add_digits : Text → List ℕ → List ℕ
unfolding add_digit digit_of
add_digits [] bytes = bytes
add_digits (c ∷ cs) bytes = add_digits cs (add_digit (digit_of c) bytes)

-- A zero for each '1' at the start.
unfoldable pub leading_zeros : Text → List ℕ
leading_zeros [] = []
leading_zeros (c ∷ cs) = let rest = leading_zeros cs in if c == 49 then 0 ∷ rest else []

abbrev pub reverse_onto : List ℕ → List ℕ → List ℕ
reverse_onto done [] = done
reverse_onto done (b ∷ bs) = reverse_onto (b ∷ done) bs

unfoldable pub decode_base_58 : Text → List ℕ
unfolding add_digits leading_zeros
decode_base_58 t = reverse_onto [] (add_digits t (0 ∷ []) ++ leading_zeros t)

-- `key[i] & (len == 12 ? 0x0f : 0x1f)`
abbrev trimmed_char : (byte len : ℕ) → ℕ
trimmed_char byte len = if len == 12 then byte % 16 else byte % 32

abbrev shuffle : ℕ → ℕ
shuffle len = if len == 12 then 0 else 5 * (12 - len) - 1

-- The loop over the bytes behind the head: those whose last bits are zero are passed over, and 13
-- others are packed. `none` is a key that ends before: the code reads on behind its buffer.
unfoldable pub pack : (len res : ℕ) → List ℕ → Option ℕ
pack len res [] = if leb len 12 then none else some res
pack len res (b ∷ bs) =
    let passed_over = pack len res bs in
    let packed = pack (len + 1) (bit_or res (trimmed_char b len * 2 ^ shuffle len)) bs in
    if leb len 12 then (if trimmed_char b len == 0 then passed_over else packed) else some res

unfoldable pub shorten_key : List ℕ → Option ℕ
unfolding pack
shorten_key [] = none
shorten_key (head ∷ key) = pack 0 0 key

abbrev first_characters : ℕ → Text → Text
first_characters zero t = []
first_characters (suc n) [] = []
first_characters (suc n) (c ∷ cs) = c ∷ first_characters n cs

-- The prefix of the key goes, and of the name its last character; `name_to_string` is
-- `name::to_string`.
unfoldable pub key_to_account : (name_to_string : ℕ → Text) → Text → Option Text
unfolding shorten_key decode_base_58
key_to_account name_to_string pubkey = elim (shorten_key (decode_base_58 (drop 3 pubkey))) [
  | none ↦ none
  | some res ↦ some (first_characters 12 (name_to_string res))
]
