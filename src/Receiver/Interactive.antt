-- ===== src/Receiver/Interactive.antt =====
-- Requests for blocks (chronicle-receiver/receiver_plugin.cpp: request_blocks, on_block_req,
-- process_interactive_reqs).
pub mod Queue
use fio_chronicle.Prelude.{
  ℕ, Bool, true, false, not, ◌&&◌, ◌||◌, List, [], ◌∷◌, ◌++◌, Option, none, some, ltb, leb, add32,
  if◌then◌else◌,
}
use fio_chronicle.Store.Tables.{StateObject, ReceivedBlock}
use fio_chronicle.Store.Chainbase.{Chainbase}
use fio_chronicle.Store.Abieos.{Abieos}
use fio_chronicle.Receiver.State.{State, Config, World, Requests, BlocksRequest, sent_request}
use fio_chronicle.Receiver.Abi.{init_contract_abi_ctxt}
use fio_chronicle.Receiver.Flow.{put_out}

-- From `lower_bound(irreversible)` on, the rows up to the head.
unfoldable pub positions : ℕ → ℕ → List ReceivedBlock → List (ℕ × ℕ)
positions irreversible head [] = []
positions irreversible head (r ∷ rs) =
    if ltb r.block_index irreversible
    then positions irreversible head rs
    else if leb r.block_index head
    then (r.block_index, r.block_id) ∷ positions irreversible head rs
    else []

-- The tests of `on_block_req` on the stored state.
unfoldable pub accepts_request : Option StateObject → ℕ × ℕ → Bool
accepts_request none req = false
accepts_request (some o) req = leb req.0 o.head && leb req.1 o.head

-- The request that `process_interactive_reqs` sends.
abbrev request_of : Config → ℕ × ℕ → BlocksRequest
request_of c (first, last) = record {
  start_block_num = first;
  end_block_num = last;
  have_positions = [];
  irreversible_only = false;
  fetch_block = true;
  fetch_traces = not c.skip_traces;
  fetch_deltas = not c.skip_table_deltas;
}

module _ {D C : Type 0} ⦃cb : Chainbase D⦄ ⦃ab : Abieos C⦄ (c : Config) where
  unfoldable pub request_blocks : State D C → State D C
  unfolding positions
  request_blocks s = put_out (sent_request request ∷ []) s
    where
      request : BlocksRequest
      request = record {
        start_block_num = add32 s.chain.head 1;
        end_block_num = s.flow.end_block_num;
        have_positions =
            positions s.chain.irreversible s.chain.head (cb.contents s.world.db).received_blocks;
        irreversible_only = c.irreversible_only;
        fetch_block = not c.noexport_mode;
        fetch_traces = not (c.skip_traces || c.noexport_mode);
        fetch_deltas = true;
      }

  -- The first request of the queue is sent, if none is under way.
  unfoldable pub send_next : List (ℕ × ℕ) → State D C → State D C
  send_next [] s = s
  send_next (req ∷ queue) s = put_out (sent_request (request_of c req) ∷ []) (record s {
    flow = record s.flow { end_block_num = req.1 };
    requests = record s.requests { interactive_req_queue = queue; interactive_req_pending = true };
    world = init_contract_abi_ctxt s.world;
  })

  unfoldable pub process_interactive_reqs : State D C → State D C
  unfolding send_next
  process_interactive_reqs s =
      if s.requests.receiver_ready && not s.requests.interactive_req_pending
      then send_next s.requests.interactive_req_queue s
      else s

  abbrev pub enqueued : ℕ × ℕ → State D C → State D C
  enqueued req s = record s {
    requests = record s.requests {
      interactive_req_queue = s.requests.interactive_req_queue ++ req ∷ [];
    };
  }

  unfoldable pub on_block_req : ℕ × ℕ → State D C → State D C
  unfolding accepts_request process_interactive_reqs
  on_block_req req s =
      if accepts_request (cb.contents s.world.db).state req
      then process_interactive_reqs (enqueued req s)
      else s
