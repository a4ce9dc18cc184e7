-- ===== src/Receiver/Deltas.antt =====
-- Table deltas (chronicle-receiver/receiver_plugin.cpp: receive_deltas).
pub mod Session
use Prim.Native.String.{String}
use text.Mathlib.Text.{◌==◌ as str_eq}
use fio_chronicle.Prelude.{
  ℕ, Bool, true, false, not, ◌&&◌, ◌||◌, List, [], ◌∷◌, Option, none, some, if◌then◌else◌, contains,
}
use fio_chronicle.Prelude.Action.{
  Action, pure, throw, gets, or_throw, skip, ◌>>=◌, ◌>>◌, for_each, decode_error, unknown_table,
  out_of_range,
}
use fio_chronicle.Store.Chainbase.{Chainbase}
use fio_chronicle.Store.Abieos.{Abieos}
use fio_chronicle.Receiver.State.{
  World, Output, Config, TablesFilter, Subscribers, AbiType, VariantCase, publish,
  block_table_delta, abi_error, table_row_update, permission_update, permission_link_update,
  account_metadata_update,
}
use fio_chronicle.Receiver.Message.{
  RowData, account, contract_row, other, Row, TableDelta, DeltaEntry, get_type, check_variant_index,
  check_variant_name,
}
use fio_chronicle.Receiver.Abi.{Now, clear_contract_abi, save_contract_abi, get_contract_abi_ready}

-- `take`: the contract passes the tables filter and is not on the tables blacklist.
unfoldable pub takes_table : TablesFilter → ℕ → Bool
takes_table f code =
    if f.enable_tables_blacklist && contains f.tables_blacklist code
    then false
    else if f.enable_tables_filter && not (contains f.tables_filter code)
    then false
    else true

-- `var->at(0).type->as_struct()`
abbrev first_is_struct : {S : Type 0} → Option (List VariantCase) → Action S (Unit {0})
first_is_struct none = throw unknown_table
first_is_struct (some []) = throw out_of_range
first_is_struct (some (v ∷ vs)) = if v.is_struct then skip else throw unknown_table

module _ {D C : Type 0} ⦃cb : Chainbase D⦄ ⦃ab : Abieos C⦄ (c : Config) (now : Now) where
  -- What the row of the table "account" says of the contract's ABI.
  unfoldable pub keep_abi : RowData → Action (World D C) (Unit {0})
  keep_abi (account name []) = clear_contract_abi now name
  keep_abi (account name (b ∷ bs)) = save_contract_abi c.subscribers now name (b ∷ bs)
  keep_abi (contract_row code body) = throw decode_error
  keep_abi (other body) = throw decode_error

  unfoldable pub receive_account_row : AbiType → Row → Action (World D C) (Unit {0})
  unfolding keep_abi
  receive_account_row type row = do
    check_variant_index type row.variant 0
    if row.present then or_throw row.content decode_error >>= keep_abi else skip

  -- A contract's row that passed the filters: its ABI must be at hand.
  unfoldable pub publish_table_row : Bool → ℕ → ℕ → Action (World D C) (Unit {0})
  publish_table_row added code body = do
    ready ← get_contract_abi_ready c.interactive_mode now.head code
    publish (
        if ready
        then table_row_update now.head now.timestamp added code body
        else abi_error now.head now.timestamp code)

  unfoldable pub filter_row : Bool → RowData → Action (World D C) (Unit {0})
  unfolding takes_table publish_table_row
  filter_row added (contract_row code body) =
      if takes_table c.tables code then publish_table_row added code body else skip
  filter_row added (account name abi) = throw decode_error
  filter_row added (other body) = throw decode_error

  unfoldable pub receive_contract_row : AbiType → Row → Action (World D C) (Unit {0})
  unfolding filter_row
  receive_contract_row type row = do
    check_variant_index type row.variant 0
    or_throw row.content decode_error >>= filter_row row.present

  -- The rows of "permission", "permission_link" and "account_metadata" are passed on.
  abbrev publish_body : (ℕ → Output) → RowData → Action (World D C) (Unit {0})
  publish_body event (other body) = publish (event body)
  publish_body event (account name abi) = throw decode_error
  publish_body event (contract_row code body) = throw decode_error

  unfoldable pub receive_info_row :
      (Bool → ℕ → Output) → AbiType → Row → Action (World D C) (Unit {0})
  receive_info_row event type row = do
    check_variant_index type row.variant 0
    or_throw row.content decode_error >>= publish_body (event row.present)

  -- The export of a delta of any table but "account", by the table's name.
  unfoldable pub export_rows : String → AbiType → List Row → Action (World D C) (Unit {0})
  unfolding receive_contract_row receive_info_row
  export_rows name type rows =
      if str_eq name "contract_row" && (subs.table_row_updates || subs.abi_errors)
      then for_each (receive_contract_row type) rows
      else if c.skip_account_info
      then skip
      else if str_eq name "permission" && subs.permission_updates
      then for_each (receive_info_row (permission_update now.head now.timestamp) type) rows
      else if str_eq name "permission_link" && subs.permission_link_updates
      then for_each (receive_info_row (permission_link_update now.head now.timestamp) type) rows
      else if str_eq name "account_metadata" && subs.account_metadata_updates
      then for_each (receive_info_row (λ _. account_metadata_update now.head now.timestamp) type)
          rows
      else skip
    where
      subs : Subscribers
      subs = c.subscribers

  unfoldable pub receive_delta : DeltaEntry → Action (World D C) (Unit {0})
  unfolding receive_account_row export_rows
  receive_delta entry = do
    types ← gets (λ w. w.abi_types)
    delta_type ← get_type types "table_delta"
    check_variant_name delta_type entry.variant "table_delta_v0"
    delta ← or_throw entry.table_delta decode_error
    type ← get_type types delta.name
    first_is_struct type.cases
    if not c.interactive_mode && str_eq delta.name "account"
        then for_each (receive_account_row type) delta.rows
        else if not c.noexport_mode && not c.skip_table_deltas
        then export_rows delta.name type delta.rows
        else skip
    if c.subscribers.block_table_deltas
        then publish (block_table_delta 0 now.timestamp delta.name)
        else skip

  unfoldable pub receive_deltas : List DeltaEntry → Action (World D C) (Unit {0})
  unfolding receive_delta
  receive_deltas = for_each receive_delta
