-- ===== src/Receiver/Deltas/Session.antt =====
-- Receiving the deltas of a block touches the database by writes only, so an open undo session
-- stays open, and its undoing restores what was there before it.
use Prim.Native.String.{String}
use fio_chronicle.Prelude.{Bool, List, ℕ, Option, none, some, [], ◌∷◌}
use fio_chronicle.Prelude.Keeps.{Keeps, Keeps-throw, Keeps-if, Keeps-skip, Keeps-for_each}
use fio_chronicle.Store.Chainbase.{Chainbase}
use fio_chronicle.Store.Abieos.{Abieos}
use fio_chronicle.Receiver.State.{Output, Config, AbiType, VariantCase}
use fio_chronicle.Receiver.Message.{RowData, account, contract_row, other, Row, DeltaEntry}
use fio_chronicle.Receiver.Message.Keeps.{
  Keeps-get_type, Keeps-check_variant_index, Keeps-check_variant_name,
}
use fio_chronicle.Receiver.Abi.{Now}
use fio_chronicle.Receiver.Abi.Session.{
  Kept, session_rules, Keeps-clear_contract_abi, Keeps-save_contract_abi,
  Keeps-get_contract_abi_ready, Keeps-publish,
}
use fio_chronicle.Receiver.Deltas.{
  first_is_struct, keep_abi, receive_account_row, publish_table_row, filter_row,
  receive_contract_row, receive_info_row, publish_body, export_rows, receive_delta, receive_deltas,
}

module _ {S : Type 0} {P : S → Type 0} where
  Keeps-first_is_struct : (cases : Option (List VariantCase)) → Keeps P (first_is_struct cases)
  Keeps-first_is_struct none = Keeps-throw _
  Keeps-first_is_struct (some []) = Keeps-throw _
  Keeps-first_is_struct (some (v ∷ vs)) = Keeps-if v.is_struct _ _ Keeps-skip (Keeps-throw _)

ruleset delta_rules = (
  session_rules, Keeps-get_type, Keeps-check_variant_index, Keeps-check_variant_name,
  Keeps-first_is_struct,
)

module _ {D C : Type 0} ⦃cb : Chainbase D⦄ ⦃ab : Abieos C⦄ {before : D} (c : Config)
    (now : Now) where
  Keeps-keep_abi : (r : RowData) → Keeps (Kept {C = C} before) (keep_abi c now r)
  unfolding keep_abi
  Keeps-keep_abi (account name []) = Keeps-clear_contract_abi now name
  Keeps-keep_abi (account name (b ∷ bs)) = Keeps-save_contract_abi c.subscribers now name (b ∷ bs)
  Keeps-keep_abi (contract_row code body) = Keeps-throw _
  Keeps-keep_abi (other body) = Keeps-throw _

  Keeps-receive_account_row :
      (type : AbiType) (row : Row)
      → Keeps (Kept {C = C} before) (receive_account_row c now type row)
  unfolding receive_account_row
  Keeps-receive_account_row type row = search (delta_rules, Keeps-keep_abi) depth 9

  Keeps-publish_table_row :
      (added : Bool) (code body : ℕ)
      → Keeps (Kept {C = C} before) (publish_table_row c now added code body)
  unfolding publish_table_row
  Keeps-publish_table_row added code body =
      search (delta_rules, Keeps-get_contract_abi_ready) depth 9

  Keeps-filter_row :
      (added : Bool) (r : RowData) → Keeps (Kept {C = C} before) (filter_row c now added r)
  unfolding filter_row
  Keeps-filter_row added (account name abi) = Keeps-throw _
  Keeps-filter_row added (contract_row code body) =
      search (delta_rules, Keeps-publish_table_row) depth 9
  Keeps-filter_row added (other body) = Keeps-throw _

  Keeps-receive_contract_row :
      (type : AbiType) (row : Row)
      → Keeps (Kept {C = C} before) (receive_contract_row c now type row)
  unfolding receive_contract_row
  Keeps-receive_contract_row type row = search (delta_rules, Keeps-filter_row) depth 9

  Keeps-publish_body :
      (event : ℕ → Output) (r : RowData) → Keeps (Kept {C = C} before) (publish_body c now event r)
  Keeps-publish_body event (account name abi) = Keeps-throw _
  Keeps-publish_body event (contract_row code body) = Keeps-throw _
  Keeps-publish_body event (other body) = Keeps-publish _

  Keeps-receive_info_row :
      (event : Bool → ℕ → Output) (type : AbiType) (row : Row)
      → Keeps (Kept {C = C} before) (receive_info_row c now event type row)
  unfolding receive_info_row
  Keeps-receive_info_row event type row = search (delta_rules, Keeps-publish_body) depth 9

  Keeps-export_rows :
      (name : String) (type : AbiType) (rows : List Row)
      → Keeps (Kept {C = C} before) (export_rows c now name type rows)
  unfolding export_rows
  Keeps-export_rows name type rows =
      search (delta_rules, Keeps-receive_contract_row, Keeps-receive_info_row) depth 12

  Keeps-receive_delta :
      (entry : DeltaEntry) → Keeps (Kept {C = C} before) (receive_delta c now entry)
  unfolding receive_delta
  Keeps-receive_delta entry =
      search (delta_rules, Keeps-receive_account_row, Keeps-export_rows) depth 14

  pub Keeps-receive_deltas :
      (entries : List DeltaEntry) → Keeps (Kept {C = C} before) (receive_deltas c now entries)
  unfolding receive_deltas
  Keeps-receive_deltas entries = Keeps-for_each _ entries Keeps-receive_delta
