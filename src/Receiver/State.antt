-- ===== src/Receiver/State.antt =====
-- The receiver's fields (chronicle-receiver/receiver_plugin.cpp) and the events it publishes
-- (chronicle-receiver/receiver_plugin.hpp, namespace chronicle::channels). Block numbers are
-- uint32_t, names uint64_t; what is only passed on is a number.
pub mod Keeps
use Prim.Native.String.{String}
use fio_chronicle.Prelude.{ℕ, Bool, List, [], ◌∷◌, ◌++◌, Option}
use fio_chronicle.Prelude.Action.{Action, modify}
use fio_chronicle.Store.Tables.{Tables}
use fio_chronicle.Store.Chainbase.{Chainbase}

-- `fork_reason_val`
pub data ForkReason : Type 0 where
  network restart resync : ForkReason

pub record ForkEvent : Type 0 where
  pub block_num : ℕ
  pub depth : ℕ
  pub fork_reason : ForkReason
  pub last_irreversible : ℕ

-- `eosio::ship_protocol::block_header`
pub record BlockHeader : Type 0 where
  pub timestamp : ℕ
  pub producer : ℕ
  pub previous : ℕ
  pub transaction_mroot : ℕ
  pub action_mroot : ℕ

pub record BlockFinished : Type 0 where
  pub block_num : ℕ
  pub block_id : ℕ
  pub header : BlockHeader
  pub trx_count : ℕ
  pub last_irreversible : ℕ

-- `get_blocks_request_v0`, as it is sent to the node.
pub record BlocksRequest : Type 0 where
  pub start_block_num : ℕ
  pub end_block_num : ℕ
  pub have_positions : List (ℕ × ℕ)
  pub irreversible_only : Bool
  pub fetch_block : Bool
  pub fetch_traces : Bool
  pub fetch_deltas : Bool

-- What the receiver publishes on its channels, sends to the node and asks of its timers. An event
-- on a block carries the block's number first, and the payload that subscribers are given last.
pub data Output : Type 0 where
  fork : ForkEvent → Output
  block_started : (block_num block_id timestamp last_irreversible : ℕ) → Output
  block : (block_num block_id last_irreversible body : ℕ) → Output
  block_table_delta : (block_num timestamp : ℕ) → (table : String) → Output
  transaction_trace : (block_num timestamp body : ℕ) → Output
  abi_update : (block_num timestamp account : ℕ) → (abi : List ℕ) → Output
  abi_removal : (block_num timestamp account : ℕ) → Output
  abi_error : (block_num timestamp account : ℕ) → Output
  table_row_update : (block_num timestamp : ℕ) → (added : Bool) → (code body : ℕ) → Output
  permission_update : (block_num timestamp : ℕ) → (added : Bool) → (body : ℕ) → Output
  permission_link_update : (block_num timestamp : ℕ) → (added : Bool) → (body : ℕ) → Output
  account_metadata_update : (block_num timestamp body : ℕ) → Output
  receiver_pause : (head acknowledged : ℕ) → Output
  block_completed : BlockFinished → Output
  sent_request : BlocksRequest → Output
  armed_pause_timer : (msec : ℕ) → Output
  armed_stale_timer : (msec : ℕ) → Output
  started_read : Output
  closed_stream : Output
  quit_app : Output

-- `_xxx_chan.has_subscribers()`
pub record Subscribers : Type 0 where
  pub block_started : Bool
  pub block_table_deltas : Bool
  pub transaction_traces : Bool
  pub abi_updates : Bool
  pub abi_errors : Bool
  pub table_row_updates : Bool
  pub permission_updates : Bool
  pub permission_link_updates : Bool
  pub account_metadata_updates : Bool

pub record TraceFilter : Type 0 where
  pub blacklist_actions : List (ℕ × ℕ)
  pub enable_rcvr_filter : Bool
  pub rcvr_filter : List ℕ
  pub enable_auth_filter : Bool
  pub auth_filter : List ℕ
  pub do_trace_filter : Bool
  pub do_trace_blacklist : Bool

pub record TablesFilter : Type 0 where
  pub enable_tables_filter : Bool
  pub tables_filter : List ℕ
  pub enable_tables_blacklist : Bool
  pub tables_blacklist : List ℕ

-- The fields that do not change once the plugin has been initialised.
pub record Config : Type 0 where
  pub interactive_mode : Bool
  pub noexport_mode : Bool
  pub skip_block_events : Bool
  pub skip_table_deltas : Bool
  pub skip_traces : Bool
  pub skip_account_info : Bool
  pub irreversible_only : Bool
  pub start_block_num : ℕ
  pub max_queue_size : ℕ
  pub stale_check_deadline_msec : ℕ
  pub traces : TraceFilter
  pub tables : TablesFilter
  pub subscribers : Subscribers

-- A type of the state history ABI, as far as the receiver looks into it: a variant's cases with
-- their names and whether each is a struct.
pub record VariantCase : Type 0 where
  pub name : String
  pub is_struct : Bool

pub record AbiType : Type 0 where
  pub cases : Option (List VariantCase)

-- The database, the ABI cache and what has been published so far. `abi_ctxt` is a pointer.
pub record World (D C : Type 0) : Type 0 where
  pub db : D
  pub abi_ctxt : Option C
  pub contract_abi_imported : List ℕ
  pub abi_types : String → Option AbiType
  pub out : List Output

module _ {D C : Type 0} where
  -- `_chan.publish(channel_priority, event)`, and the other effects.
  abbrev pub publish : Output → Action (World D C) (Unit {0})
  publish e = modify λ w. record w { out = w.out ++ e ∷ [] }

  -- Rows are written: `db->create`, `db->modify`, `db->remove`.
  abbrev pub update_tables : ⦃cb : Chainbase D⦄ → (Tables → Tables) → World D C → World D C
  update_tables ⦃cb⦄ f w = record w { db = cb.write (f (cb.contents w.db)) w.db }

-- The position in the chain.
pub record Chain : Type 0 where
  pub head : ℕ
  pub head_id : ℕ
  pub irreversible : ℕ
  pub irreversible_id : ℕ
  pub block_header : BlockHeader
  pub trx_count : ℕ
  pub received_blocks : ℕ

-- Acknowledgements, pauses and the connection.
pub record Flow : Type 0 where
  pub exporter_will_ack : Bool
  pub exporter_acked_block : ℕ
  pub exporter_max_unconfirmed : ℕ
  pub forked_at_block : ℕ
  pub pause_time_msec : ℕ
  pub slowdown_requested : Bool
  pub stale_check_last_head : ℕ
  pub aborting : Bool
  pub stream_open : Bool
  pub end_block_num : ℕ

-- The queue of interactive requests, oldest first: start and end block.
pub record Requests : Type 0 where
  pub receiver_ready : Bool
  pub interactive_req_queue : List (ℕ × ℕ)
  pub interactive_req_pending : Bool

pub record State (D C : Type 0) : Type 0 where
  pub chain : Chain
  pub flow : Flow
  pub requests : Requests
  pub world : World D C

module _ {D C : Type 0} where
  -- A call that touches the database, the ABI cache and the channels only.
  unfoldable pub on_world : {A : Type 0} → Action (World D C) A → Action (State D C) A
  on_world m s = let (r, w) = m s.world in (r, record s { world = w })

  abbrev pub set_chain : Chain → State D C → State D C
  set_chain c s = record s { chain = c }

  abbrev pub set_flow : Flow → State D C → State D C
  set_flow f s = record s { flow = f }
