-- ===== src/Exporter/Keys/Name.antt =====
-- Names of accounts as numbers (chronicle-receiver/name.hpp).
use Prim.Native.Nat.{bit_or}
use fio_chronicle.Prelude.{
  ℕ, ◌+◌, ◌-◌, ◌*◌, ◌%◌, ◌/◌, ◌^◌, ◌&&◌, [], ◌∷◌, Option, none, some, if◌then◌else◌, ltb, leb,
  length,
}
use fio_chronicle.Exporter.Text.{Text}

unfoldable pub char_to_symbol : ℕ → ℕ
char_to_symbol c =
    if leb 97 c && leb c 122 then c - 97 + 6 else if leb 49 c && leb c 53 then c - 49 + 1 else 0

-- The loop over the first 12 characters from the `i`-th on, and the 13th in the low four bits.
unfoldable pub symbols_from : (i name : ℕ) → Text → ℕ
unfolding char_to_symbol
symbols_from i name [] = name
symbols_from i name (c ∷ cs) =
    let later =
      symbols_from (i + 1) (bit_or name (char_to_symbol c % 32 * 2 ^ (64 - 5 * (i + 1)))) cs in
    if ltb i 12 then later else bit_or name (char_to_symbol c % 16)

unfoldable pub string_to_name : Text → ℕ
unfolding symbols_from
string_to_name str = symbols_from 0 0 str

-- The loop of string_to_uint64_t; a uint64_t drops the bits that are shifted out.
unfoldable pub letters_from : (multv i value : ℕ) → Text → ℕ
letters_from multv i value [] = value
letters_from multv i value (c ∷ cs) =
    letters_from multv (i + 1)
      (bit_or value (if ltb i 60 then c % 32 * 2 ^ (64 - multv * (i + 1)) % 2 ^ 64 else c % 16)) cs

-- `string_to_uint64_t` of a text; `none` is one of more than 60 characters, for which the code shifts
-- a 64-bit number by 64.
unfoldable pub string_to_uint64_t : Text → Option ℕ
unfolding letters_from
string_to_uint64_t [] = some 0
string_to_uint64_t (c ∷ cs) =
    if ltb 60 (length (c ∷ cs))
    then none
    else some (letters_from (60 / length (c ∷ cs)) 0 0 (c ∷ cs))
