-- ===== src/Receiver/Abi.antt =====
-- Contract ABIs: the decoded ones in the context, the latest ones and their history in the
-- database (chronicle-receiver/receiver_plugin.cpp: init_contract_abi_ctxt to
-- get_contract_abi_ready). `Now` is what these functions read of the position in the chain.
pub mod Session
pub mod History
pub mod Saved
use fio_chronicle.Prelude.{
  ℕ, Bool, true, false, ◌&&◌, ◌||◌, List, [], ◌∷◌, Option, none, some, ltb, ◌==◌, if◌then◌else◌,
  contains, insert,
}
use fio_chronicle.Prelude.Action.{
  Action, Result, ok, err, pure, throw, gets, or_throw, if_found, modify, skip, catching, ◌>>=◌,
  ◌>>◌, uniqueness_violated, decode_error,
}
use mathlib.Core.Option
use fio_chronicle.Store.Index.{create, find, modify_row, remove, lower_bound}
use fio_chronicle.Store.Tables.{
  ContractAbi, AbiHistory, Tables, by_name, by_name_and_block, by_name_and_block_rev,
}
use fio_chronicle.Store.Chainbase.{Chainbase}
use fio_chronicle.Store.Abieos.{Abieos}
use fio_chronicle.Receiver.State.{
  World, publish, update_tables, Subscribers, abi_update, abi_removal, abi_error,
}

pub record Now : Type 0 where
  pub head : ℕ
  pub timestamp : ℕ

abbrev pub has_account : ℕ → ContractAbi → Bool
has_account account row = row.account == account

abbrev pub has_account_and_block : ℕ → ℕ → AbiHistory → Bool
has_account_and_block account block row = row.account == account && row.block_index == block

-- Whether a row stands before (account, block) in `by_name_and_block_rev`.
abbrev pub before_in_rev : ℕ → ℕ → AbiHistory → Bool
before_in_rev account block row =
    ltb row.account account || (row.account == account && ltb block row.block_index)

-- The ABI that the database has for a contract: the latest one, or in interactive mode the row
-- of the history that `lower_bound` gives.
unfoldable pub abi_in_db : Bool → ℕ → ℕ → Tables → Option (List ℕ)
abi_in_db interactive head account t =
    if interactive
    then Option.map (λ (o : AbiHistory). o.abi)
        (lower_bound by_name_and_block_rev (before_in_rev account head) t.abi_history)
    else Option.map (λ (o : ContractAbi). o.abi) (find (has_account account) t.contract_abis)

module _ {D C : Type 0} ⦃cb : Chainbase D⦄ ⦃ab : Abieos C⦄ where
  -- The cache starts anew; the set is cleared where there was a context.
  unfoldable pub init_contract_abi_ctxt : World D C → World D C
  init_contract_abi_ctxt w = record w {
    abi_ctxt = some ab.empty_context;
    contract_abi_imported = elim w.abi_ctxt [ none ↦ w.contract_abi_imported | some _ ↦ [] ];
  }

  -- The context does not take an ABI twice, so a known account starts it anew.
  unfoldable pub forget_if_imported : ℕ → World D C → World D C
  unfolding init_contract_abi_ctxt
  forget_if_imported account w =
      if contains w.contract_abi_imported account then init_contract_abi_ctxt w else w

  -- `save_contract_abi_history`: the later of two ABIs in one block stays.
  unfoldable pub save_contract_abi_history : Now → ℕ → List ℕ → Action (World D C) (Unit {0})
  save_contract_abi_history now account abi = do
    rows ← gets (λ w. (cb.contents w.db).abi_history)
    if_found (find (has_account_and_block account now.head) rows)
        (λ _. modify (
          update_tables (λ t. record t {
            abi_history =
                modify_row (has_account_and_block account now.head) (λ o. record o { abi = abi })
                  t.abi_history;
          })))
        (do
          rows' ← or_throw (create by_name_and_block new_row rows) uniqueness_violated
          modify (update_tables (λ t. record t { abi_history = rows' })))
    where
      new_row : AbiHistory
      new_row = record { account = account; block_index = now.head; abi = abi }

  unfoldable pub clear_contract_abi : Now → ℕ → Action (World D C) (Unit {0})
  unfolding forget_if_imported save_contract_abi_history
  clear_contract_abi now account = do
    modify (forget_if_imported account)
    rows ← gets (λ w. (cb.contents w.db).contract_abis)
    if_found (find (has_account account) rows)
        (λ _. do
          modify (
              update_tables
                (λ t. record t { contract_abis = remove (has_account account) t.contract_abis }))
          publish (abi_removal now.head now.timestamp account)
          save_contract_abi_history now account [])
        skip

  -- `abieos_set_abi_bin` on the context, with its result.
  unfoldable pub set_abi : ℕ → List ℕ → Action (World D C) Bool
  set_abi account abi = do
    ctxt ← gets (λ w. w.abi_ctxt)
    modify (λ w. record w { abi_ctxt = (ab.set_abi_bin ctxt account abi).1 })
    pure (ab.set_abi_bin ctxt account abi).0

  abbrev mark_imported : ℕ → World D C → World D C
  mark_imported account w = record w {
    contract_abi_imported = insert account w.contract_abi_imported;
  }

  -- The row of `contract_abi_index`, changed or made.
  unfoldable pub store_contract_abi : ℕ → List ℕ → Action (World D C) (Unit {0})
  store_contract_abi account abi = do
    rows ← gets (λ w. (cb.contents w.db).contract_abis)
    if_found (find (has_account account) rows)
        (λ _. modify (
          update_tables (λ t. record t {
            contract_abis =
                modify_row (has_account account) (λ o. record o { abi = abi }) t.contract_abis;
          })))
        (do
          rows' ← or_throw (create by_name new_row rows) uniqueness_violated
          modify (update_tables (λ t. record t { contract_abis = rows' })))
    where
      new_row : ContractAbi
      new_row = record { account = account; abi = abi }

  -- The body of the `try` in `save_contract_abi`.
  unfoldable pub import_contract_abi :
      Subscribers → Now → ℕ → List ℕ → Action (World D C) (Unit {0})
  unfolding set_abi store_contract_abi
  import_contract_abi subs now account abi = do
    accepted ← set_abi account abi
    if accepted then skip else throw decode_error
    modify (mark_imported account)
    store_contract_abi account abi
    if subs.abi_updates
        then (if ab.decodes_abi abi
            then publish (abi_update now.head now.timestamp account abi)
            else throw decode_error)
        else skip

  unfoldable pub save_contract_abi : Subscribers → Now → ℕ → List ℕ → Action (World D C) (Unit {0})
  unfolding forget_if_imported import_contract_abi save_contract_abi_history
  save_contract_abi subs now account abi = do
    modify (forget_if_imported account)
    catching (import_contract_abi subs now account abi)
        (publish (abi_error now.head now.timestamp account))
    save_contract_abi_history now account abi

  unfoldable pub get_contract_abi_ready : Bool → ℕ → ℕ → Action (World D C) Bool
  unfolding set_abi abi_in_db
  get_contract_abi_ready interactive head account = do
    imported ← gets (λ w. w.contract_abi_imported)
    t ← gets (λ w. cb.contents w.db)
    if contains imported account
        then pure true
        else if_found (abi_in_db interactive head account t)
            (λ abi. do set_abi account abi; modify (mark_imported account); pure true) (pure false)
