-- ===== src/Receiver/Message.antt =====
-- A message of the state history, decoded: `get_blocks_result_v0` and what its streams hold. The
-- decoding of bytes is the ABI library's; `none` stands where `from_bin` throws, at the place
-- where the receiver reads.
pub mod Keeps
use Prim.Native.String.{String}
use text.Mathlib.Text.{◌==◌ as str_eq}
use fio_chronicle.Prelude.{
  ℕ, zero, suc, Bool, List, [], ◌∷◌, Option, none, some, ◌==◌, if◌then◌else◌,
}
use fio_chronicle.Prelude.Action.{
  Action, pure, throw, throw_if, Error, or_throw, ◌>>=◌, ◌>>◌, unknown_type, not_variant,
  wrong_variant, skip,
}
use fio_chronicle.Receiver.State.{BlockHeader, VariantCase, AbiType}

-- The row data of a table delta, by the type that it is decoded as.
pub data RowData : Type 0 where
  account : (name : ℕ) → (abi : List ℕ) → RowData
  contract_row : (code body : ℕ) → RowData
  other : (body : ℕ) → RowData

pub record Row : Type 0 where
  pub present : Bool
  pub variant : ℕ
  pub content : Option RowData

pub record TableDelta : Type 0 where
  pub name : String
  pub rows : List Row

-- An entry of the stream of deltas: the index of its variant, and what follows.
pub record DeltaEntry : Type 0 where
  pub variant : ℕ
  pub table_delta : Option TableDelta

-- `action_trace_v0` and `action_trace_v1`, told apart by the variant's index.
pub record ActionTrace : Type 0 where
  pub index : ℕ
  pub receiver : ℕ
  pub account : ℕ
  pub name : ℕ
  pub authorization : List ℕ

pub record TransactionTrace : Type 0 where
  pub action_traces : List ActionTrace
  pub body : ℕ

pub record SignedBlock : Type 0 where
  pub header : BlockHeader
  pub transactions : ℕ
  pub body : ℕ

pub record BlockPosition : Type 0 where
  pub block_num : ℕ
  pub block_id : ℕ

pub record BlocksResult : Type 0 where
  pub last_irreversible : BlockPosition
  pub this_block : Option BlockPosition
  pub prev_block : Option BlockPosition
  pub block : Option (Option SignedBlock)
  pub deltas : Option (List DeltaEntry)
  pub traces : Option (List (Option TransactionTrace))

abbrev pub case_at : List VariantCase → ℕ → Option VariantCase
case_at [] i = none
case_at (v ∷ vs) zero = some v
case_at (v ∷ vs) (suc i) = case_at vs i

module _ {S : Type 0} where
  -- `get_type`
  unfoldable pub get_type : (String → Option AbiType) → String → Action S AbiType
  get_type types name = or_throw (types name) unknown_type

  -- `check_variant(bin, type, expected)` for the index that the stream holds.
  unfoldable pub check_variant_index : AbiType → ℕ → ℕ → Action S (Unit {0})
  check_variant_index type index expected = do
    cases ← or_throw type.cases not_variant
    or_throw (case_at cases index) wrong_variant
    if index == expected then skip else throw wrong_variant

  -- The overload that expects a case by name.
  unfoldable pub check_variant_name : AbiType → ℕ → String → Action S (Unit {0})
  check_variant_name type index expected = do
    cases ← or_throw type.cases not_variant
    found ← or_throw (case_at cases index) wrong_variant
    if str_eq found.name expected then skip else throw wrong_variant
