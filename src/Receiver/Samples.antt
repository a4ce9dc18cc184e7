-- ===== src/Receiver/Samples.antt =====
-- A receiver in scanning mode to run the model on, with an exporter that acknowledges.
use Prim.Native.String.{String}
use text.Mathlib.Text.{◌==◌ as str_eq}
use fio_chronicle.Prelude.{
  ℕ, true, false, List, [], ◌∷◌, Option, none, some, u32_mod, ◌-◌, if◌then◌else◌,
}
use fio_chronicle.Store.Tables.{Tables, no_rows, ReceivedBlock}
use fio_chronicle.Store.Sample.{SampleDb}
use fio_chronicle.Receiver.State.{
  State, Config, Chain, Flow, TraceFilter, TablesFilter, Subscribers, BlockHeader, AbiType,
}
use fio_chronicle.Receiver.Message.{BlocksResult, BlockPosition, SignedBlock}

abbrev pub Context : Type 0
Context = List (ℕ × List ℕ)

abbrev pub all_subscribed : Subscribers
all_subscribed = record {
  block_started = true;
  block_table_deltas = true;
  transaction_traces = true;
  abi_updates = true;
  abi_errors = true;
  table_row_updates = true;
  permission_updates = true;
  permission_link_updates = true;
  account_metadata_updates = true;
}

abbrev pub no_trace_filter : TraceFilter
no_trace_filter = record {
  blacklist_actions = [];
  enable_rcvr_filter = false;
  rcvr_filter = [];
  enable_auth_filter = false;
  auth_filter = [];
  do_trace_filter = false;
  do_trace_blacklist = false;
}

abbrev pub no_tables_filter : TablesFilter
no_tables_filter = record {
  enable_tables_filter = false;
  tables_filter = [];
  enable_tables_blacklist = false;
  tables_blacklist = [];
}

abbrev pub scanning : Config
scanning = record {
  interactive_mode = false;
  noexport_mode = false;
  skip_block_events = false;
  skip_table_deltas = false;
  skip_traces = false;
  skip_account_info = false;
  irreversible_only = false;
  start_block_num = 0;
  max_queue_size = 10000;
  stale_check_deadline_msec = 10000;
  traces = no_trace_filter;
  tables = no_tables_filter;
  subscribers = all_subscribed;
}

abbrev pub interactive : Config
interactive = record scanning { interactive_mode = true; irreversible_only = true }

abbrev pub header : BlockHeader
header = record {
  timestamp = 7;
  producer = 8;
  previous = 9;
  transaction_mroot = 10;
  action_mroot = 11;
}

-- Block 12 is the head, 10 the irreversible block, and 11 is acknowledged.
abbrev pub at_12 : Chain
at_12 = record {
  head = 12;
  head_id = 112;
  irreversible = 10;
  irreversible_id = 110;
  block_header = header;
  trx_count = 1;
  received_blocks = 2;
}

abbrev pub flowing : Flow
flowing = record {
  exporter_will_ack = true;
  exporter_acked_block = 11;
  exporter_max_unconfirmed = 1000;
  forked_at_block = 0;
  pause_time_msec = 0;
  slowdown_requested = false;
  stale_check_last_head = 0;
  aborting = false;
  stream_open = true;
  end_block_num = u32_mod - 1;
}

abbrev pub tables_at : ℕ → List ReceivedBlock → Tables
tables_at head rows = record no_rows {
  state = some (record { head = head; head_id = 112; irreversible = 10; irreversible_id = 110 });
  received_blocks = rows;
}

abbrev pub received : ℕ → ReceivedBlock
received n = record { block_index = n; block_id = 100 }

-- Two undo sessions: blocks 11 and 12.
abbrev pub db_at_12 : SampleDb
db_at_12 = record {
  current = tables_at 12 (received 10 ∷ received 11 ∷ received 12 ∷ []);
  stack = tables_at 11 (received 10 ∷ received 11 ∷ []) ∷ tables_at 10 (received 10 ∷ []) ∷ [];
  base = 10;
}

abbrev pub ship_types : String → Option AbiType
ship_types name =
    if str_eq name "table_delta"
    then some (record { cases = some (record { name = "table_delta_v0"; is_struct = true } ∷ []) })
    else if str_eq name "contract_row"
    then some (record { cases = some (record { name = "contract_row_v0"; is_struct = true } ∷ []) })
    else if str_eq name "account"
    then some (record { cases = some (record { name = "account_v0"; is_struct = true } ∷ []) })
    else none

abbrev pub state_at_12 : State SampleDb Context
state_at_12 = record {
  chain = at_12;
  flow = flowing;
  requests = record {
    receiver_ready = true;
    interactive_req_queue = [];
    interactive_req_pending = false;
  };
  world = record {
    db = db_at_12;
    abi_ctxt = some [];
    contract_abi_imported = [];
    abi_types = ship_types;
    out = [];
  };
}

abbrev pub position : ℕ → ℕ → BlockPosition
position n id = record { block_num = n; block_id = id }

abbrev pub signed_block : SignedBlock
signed_block = record { header = header; transactions = 3; body = 99 }

-- A message with a block: number, id, id of the block before, and the irreversible block.
abbrev pub message : ℕ → ℕ → ℕ → ℕ → BlocksResult
message n id previous lib = record {
  last_irreversible = position lib 110;
  this_block = some (position n id);
  prev_block = some (position (n - 1) previous);
  block = some (some signed_block);
  deltas = some [];
  traces = some [];
}
