-- ===== src/Exporter/Tests/Keys.antt =====
-- The theorem on DecodeBase58 at a concrete input.
use fio_chronicle.Prelude.{◌≡◌, refl, [], ◌∷◌, some, arith}
use fio_chronicle.Exporter.Text.{Text, text}
use fio_chronicle.Exporter.Keys.{digit_of, decode_base_58, shorten_key}
use fio_chronicle.Exporter.Keys.Name.{string_to_name, string_to_uint64_t}
use fio_chronicle.Exporter.Keys.Base58.{IsBase58, value_of, value_58, decode_base_58-value}

abbrev two_z : Text
two_z = text "12z"

two_z-IsBase58 : IsBase58 two_z
unfolding digit_of
two_z-IsBase58 = (omega arith, (omega arith, (omega arith, tt)))

-- The zero that the buffer starts with stays where the text starts with a '1'.
two_z_bytes : decode_base_58 two_z ≡ 0 ∷ 115 ∷ []
unfolding decode_base_58
two_z_bytes = refl

two_z_value : value_58 0 two_z ≡ 115
unfolding value_58 digit_of
two_z_value = refl

-- Zeros in the last five bits are passed over.
packed :
    shorten_key (9 ∷ 32 ∷ 1 ∷ 1 ∷ 1 ∷ 1 ∷ 1 ∷ 1 ∷ 1 ∷ 1 ∷ 1 ∷ 1 ∷ 1 ∷ 33 ∷ 17 ∷ [])
    ≡ some 595056260442243601
unfolding shorten_key
packed = refl

decode_base_58-value_example : value_of 0 (decode_base_58 two_z) ≡ value_58 0 two_z
decode_base_58-value_example = decode_base_58-value two_z two_z-IsBase58

eosio_name : string_to_name (text "eosio") ≡ 6138663577826885632
unfolding string_to_name
eosio_name = refl

thirteen_characters : string_to_name (text "fio.treasuryz") ≡ 6604542998053564399
unfolding string_to_name
thirteen_characters = refl

nine_letters : string_to_uint64_t (text "fio.token") ≡ some 1770985925552453632
unfolding string_to_uint64_t
nine_letters = refl
