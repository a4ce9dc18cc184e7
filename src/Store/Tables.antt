-- ===== src/Store/Tables.antt =====
-- The tables of the state database (chronicle-receiver/receiver_plugin.cpp, namespace chronicle).
use fio_chronicle.Prelude.{ℕ, Bool, ◌&&◌, ◌||◌, List, [], Option, none, ltb, ◌==◌}

-- `state_object`, a singleton.
pub record StateObject : Type 0 where
  pub head : ℕ
  pub head_id : ℕ
  pub irreversible : ℕ
  pub irreversible_id : ℕ

pub record ReceivedBlock : Type 0 where
  pub block_index : ℕ
  pub block_id : ℕ

pub record ContractAbi : Type 0 where
  pub account : ℕ
  pub abi : List ℕ

-- `contract_abi_history`
pub record AbiHistory : Type 0 where
  pub account : ℕ
  pub block_index : ℕ
  pub abi : List ℕ

pub record Tables : Type 0 where
  pub state : Option StateObject
  pub received_blocks : List ReceivedBlock
  pub contract_abis : List ContractAbi
  pub abi_history : List AbiHistory

abbrev pub no_rows : Tables
no_rows = record { state = none; received_blocks = []; contract_abis = []; abi_history = [] }

-- `by_blocknum`
abbrev pub by_blocknum : ReceivedBlock → ReceivedBlock → Bool
by_blocknum a b = ltb a.block_index b.block_index

-- `by_name`
abbrev pub by_name : ContractAbi → ContractAbi → Bool
by_name a b = ltb a.account b.account

-- `by_name_and_block`
abbrev pub by_name_and_block : AbiHistory → AbiHistory → Bool
by_name_and_block a b =
    ltb a.account b.account || (a.account == b.account && ltb a.block_index b.block_index)

-- `by_name_and_block_rev`: names ascend, blocks descend.
abbrev pub by_name_and_block_rev : AbiHistory → AbiHistory → Bool
by_name_and_block_rev a b =
    ltb a.account b.account || (a.account == b.account && ltb b.block_index a.block_index)
