-- ===== src/Receiver/Abi/History.antt =====
-- Which ABI the receiver decodes with (chronicle-receiver/receiver_plugin.cpp:
-- get_contract_abi_ready): in interactive mode, the one that `lower_bound` finds in the history.
use fio_chronicle.Prelude.{
  ℕ, ◌<◌, ◌≤◌, ◌≡◌, refl, true, false, List, Option, some, arith, All, Has, All-Has, contains,
}
use fio_chronicle.Prelude.Action.{ok, ◌>>=◌}
use fio_chronicle.Store.Index.{lower_bound}
use fio_chronicle.Store.Index.LowerBound.{
  IsOrder, lower_bound-some, lower_bound-found, lower_bound-least,
}
use fio_chronicle.Store.Tables.{AbiHistory, by_name_and_block_rev}
use fio_chronicle.Store.Chainbase.{Chainbase}
use fio_chronicle.Store.Abieos.{Abieos}
use fio_chronicle.Receiver.State.{World}
use fio_chronicle.Receiver.Abi.{before_in_rev, get_contract_abi_ready}

rev-IsOrder : IsOrder by_name_and_block_rev
rev-IsOrder = record {
  irrefl = λ x. ground arith;
  asym = λ x y h. ground arith;
  not_before_trans = λ x y z h k. ground arith;
}

abbrev pub in_history : ℕ → ℕ → List AbiHistory → Option AbiHistory
in_history account head rows = lower_bound by_name_and_block_rev (before_in_rev account head) rows

-- A contract that has a history up to a block: the lookup of interactive mode finds one of its rows
-- up to there, and none of these is later.
pub in_history-latest :
    (account head : ℕ) (rows : List AbiHistory) (r : AbiHistory)
    → Has r rows
    → r.account ≡ account
    → r.block_index ≤ head
    → (o : AbiHistory) × (in_history account head rows ≡ some o)
      × Has o rows
      × (o.account ≡ account)
      × (o.block_index ≤ head)
      × (r.block_index ≤ o.block_index)
in_history-latest account head rows r m same le =
    let (o, e) =
      lower_bound-found by_name_and_block_rev (before_in_rev account head) rows r m
        (ground arith) in
    let (has, reached) =
      lower_bound-some by_name_and_block_rev (before_in_rev account head) rows o e in
    let least : by_name_and_block_rev r o ≡ false =
      lower_bound-least by_name_and_block_rev (before_in_rev account head) rev-IsOrder rows r o m
        (ground arith) e in
    (o, e, has, ground arith, ground arith, ground arith)

-- A contract that has no history up to a block, in a table with a contract of a higher name: what
-- is found is a row of another contract.
in_history-other :
    (account head : ℕ) (rows : List AbiHistory) (r : AbiHistory)
    → All (λ x. x.account ≡ account → head < x.block_index) rows
    → Has r rows
    → account < r.account
    → (o : AbiHistory) × (in_history account head rows ≡ some o)
      × Has o rows
      × (account < o.account)
in_history-other account head rows r absent m higher =
    let (o, e) =
      lower_bound-found by_name_and_block_rev (before_in_rev account head) rows r m
        (ground arith) in
    let (has, reached) =
      lower_bound-some by_name_and_block_rev (before_in_rev account head) rows o e in
    let late = All-Has (λ x. x.account ≡ account → head < x.block_index) o rows absent has in
    (o, e, has, ground (arith, late))

module _ {D C : Type 0} ⦃cb : Chainbase D⦄ ⦃ab : Abieos C⦄ where
  abbrev pub history : World D C → List AbiHistory
  history w = (cb.contents w.db).abi_history

  -- In interactive mode a contract that has no ABI up to the block is said to be ready all the
  -- same, with the ABI of another contract, wherever it is not in the cache and the history has a
  -- contract of a higher name.
  pub get_contract_abi_ready-other :
      (account head : ℕ) (w : World D C) (r : AbiHistory)
      → contains w.contract_abi_imported account ≡ false
      → All (λ x. x.account ≡ account → head < x.block_index) (history w)
      → Has r (history w)
      → account < r.account
      → (o : AbiHistory) × Has o (history w)
        × (account < o.account)
        × ((get_contract_abi_ready true head account w).0 ≡ ok true)
        × ((get_contract_abi_ready true head account w).1.abi_ctxt
            ≡ (ab.set_abi_bin w.abi_ctxt account o.abi).1)
  unfolding get_contract_abi_ready ◌>>=◌
  get_contract_abi_ready-other account head w r new absent m higher =
      let (o, e, has, other) = in_history-other account head (history w) r absent m higher in
      (o, has, other, rw new (rw e refl), rw new (rw e refl))
