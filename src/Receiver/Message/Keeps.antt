-- ===== src/Receiver/Message/Keeps.antt =====
-- Reading the type of what follows in a stream changes nothing.
use Prim.Native.String.{String}
use fio_chronicle.Prelude.{ℕ, Option}
use fio_chronicle.Prelude.Keeps.{Keeps, keeps_rules}
use fio_chronicle.Receiver.State.{AbiType}
use fio_chronicle.Receiver.Message.{get_type, check_variant_index, check_variant_name}

module _ {S : Type 0} {P : S → Type 0} where
  pub Keeps-get_type :
      (types : String → Option AbiType) (name : String) → Keeps P (get_type types name)
  unfolding get_type
  Keeps-get_type types name = search keeps_rules

  pub Keeps-check_variant_index :
      (type : AbiType) (index expected : ℕ) → Keeps P (check_variant_index type index expected)
  unfolding check_variant_index
  Keeps-check_variant_index type index expected = search keeps_rules depth 9

  pub Keeps-check_variant_name :
      (type : AbiType) (index : ℕ) (expected : String)
      → Keeps P (check_variant_name type index expected)
  unfolding check_variant_name
  Keeps-check_variant_name type index expected = search keeps_rules depth 9
