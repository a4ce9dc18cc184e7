-- ===== src/Receiver/Blocks.antt =====
-- The handler of a message (chronicle-receiver/receiver_plugin.cpp: receive_result, receive_block,
-- save_state). What it does before the block becomes the head is in Receiver.Prepare.
pub mod Session
pub mod Fork
pub mod Process
pub mod Scan
pub mod Run
pub mod Reorg
pub mod Rows
use fio_chronicle.Prelude.{
  ℕ, zero, suc, ◌+◌, Bool, true, false, not, ◌&&◌, ◌||◌, List, [], ◌∷◌, Option, none, some, ltb,
  leb, ◌==◌, add32, sub32, if◌then◌else◌,
}
use fio_chronicle.Prelude.Action.{
  Action, Result, ok, err, pure, throw, throw_if, gets, or_throw, modify, skip, ◌>>=◌, ◌>>◌,
  lib_went_back, block_below_lib, no_undo_stack, prev_block_mismatch, decode_error,
  uniqueness_violated, set_revision_refused, iterator_past_end, does_not_return,
}
use fio_chronicle.Store.Index.{create}
use fio_chronicle.Store.Tables.{StateObject, ReceivedBlock, by_blocknum}
use fio_chronicle.Store.Chainbase.{Chainbase}
use fio_chronicle.Store.Abieos.{Abieos}
use fio_chronicle.Receiver.State.{
  State, World, Config, Chain, Flow, ForkEvent, network, BlockFinished, fork, block_started, block,
  block_completed, publish, update_tables, on_world, set_chain, set_flow,
}
use fio_chronicle.Receiver.Message.{BlocksResult, BlockPosition, SignedBlock, DeltaEntry}
use fio_chronicle.Receiver.Abi.{Now, init_contract_abi_ctxt}
use fio_chronicle.Receiver.Deltas.{receive_deltas}
use fio_chronicle.Receiver.Traces.{receive_traces}
use fio_chronicle.Receiver.Flow.{commit_db}
use fio_chronicle.Receiver.Prepare.{prepare}
use fio_chronicle.Receiver.Interactive.{process_interactive_reqs}

-- The rows before the irreversible block go; `none` reads past the end.
unfoldable pub truncate : ℕ → List ReceivedBlock → Option (List ReceivedBlock)
truncate irreversible [] = none
truncate irreversible (r ∷ rs) =
    if ltb r.block_index irreversible then truncate irreversible rs else some (r ∷ rs)

abbrev pub now_of : {D C : Type 0} → State D C → Now
now_of s = record { head = s.chain.head; timestamp = s.chain.block_header.timestamp }

-- The head becomes the block of the message.
abbrev pub adopt : BlocksResult → BlockPosition → Chain → Chain
adopt msg b ch = record ch {
  head = b.block_num;
  head_id = b.block_id;
  irreversible = msg.last_irreversible.block_num;
  irreversible_id = msg.last_irreversible.block_id;
}

abbrev pub state_row : Chain → StateObject
state_row ch = record {
  head = ch.head;
  head_id = ch.head_id;
  irreversible = ch.irreversible;
  irreversible_id = ch.irreversible_id;
}

-- The event at the end of a block.
abbrev pub finished : Chain → BlockFinished
finished ch = record {
  block_num = ch.head;
  block_id = ch.head_id;
  header = ch.block_header;
  trx_count = ch.trx_count;
  last_irreversible = ch.irreversible;
}

-- `if (result.x) f(*result.x);`
abbrev pub maybe : {A S : Type 0} → (A → Action S (Unit {0})) → Option A → Action S (Unit {0})
maybe f none = skip
maybe f (some a) = f a

module _ {D C : Type 0} ⦃cb : Chainbase D⦄ ⦃ab : Abieos C⦄ where
  unfoldable pub receive_block : Config → Option SignedBlock → Action (State D C) (Unit {0})
  receive_block c entry = do
    b ← or_throw entry decode_error
    modify
        (λ s. set_chain (record s.chain { block_header = b.header; trx_count = b.transactions }) s)
    ch ← gets (λ s. s.chain)
    if c.subscribers.block_started
        then on_world
            (publish (block_started ch.head ch.head_id b.header.timestamp ch.irreversible))
        else skip
    if c.skip_block_events
        then skip
        else on_world (publish (block ch.head ch.head_id ch.irreversible b.body))

  -- The block's row, and the rows that are no longer needed.
  unfoldable pub record_block : ℕ → BlockPosition → Action (World D C) (Unit {0})
  unfolding truncate
  record_block irreversible b = do
    rows ← gets (λ w. (cb.contents w.db).received_blocks)
    with_block ← or_throw (create by_blocknum row rows) uniqueness_violated
    modify (update_tables (λ t. record t { received_blocks = with_block }))
    kept ← or_throw (truncate irreversible with_block) iterator_past_end
    modify (update_tables (λ t. record t { received_blocks = kept }))
    where
      row : ReceivedBlock
      row = record { block_index = b.block_num; block_id = b.block_id }

  -- `save_state`: the one row is changed or made.
  unfoldable pub save_state : Chain → Action (World D C) (Unit {0})
  save_state ch = modify (update_tables (λ t. record t { state = some (state_row ch) }))

  -- What is written within the undo session.
  unfoldable pub write_block :
      Config → Now → Chain → BlocksResult → BlockPosition → Action (World D C) (Unit {0})
  unfolding record_block save_state
  write_block c now ch msg b = do
    if ltb ch.irreversible b.block_num then record_block ch.irreversible b else skip
    maybe (receive_deltas c now) msg.deltas
    save_state ch

  -- The end of the session: `push`, or the undoing of its destructor.
  abbrev pub end_session : Result (Unit {0}) → World D C → Result (Unit {0}) × World D C
  end_session (ok _) w = (ok tt, w)
  end_session (err e) w = (err e, record w { db = cb.undo w.db })

  abbrev pub opened : World D C → World D C
  opened w = record w { db = cb.start_undo_session w.db }

  unfoldable pub in_session : Action (World D C) (Unit {0}) → Action (World D C) (Unit {0})
  in_session body w = let (r, w') = body (opened w) in end_session r w'

  unfoldable pub store_block : Config → BlocksResult → BlockPosition → Action (State D C) (Unit {0})
  unfolding in_session write_block
  store_block c msg b = do
    now ← gets now_of
    ch ← gets (λ s. s.chain)
    on_world (in_session (write_block c now ch msg b))
    modify commit_db

  -- The state changes of a block: in scanning mode they are stored, in interactive mode the
  -- deltas are only read.
  unfoldable pub apply_block :
      Config → Now → BlocksResult → BlockPosition → Action (State D C) (Unit {0})
  unfolding store_block
  apply_block c now msg b =
      if c.interactive_mode
      then on_world (maybe (receive_deltas c now) msg.deltas)
      else store_block c msg b

  -- The traces of a block, and its end.
  unfoldable pub end_block : Config → Now → BlocksResult → Action (State D C) (Unit {0})
  end_block c now msg = do
    on_world (maybe (receive_traces c now) msg.traces)
    ch ← gets (λ s. s.chain)
    on_world (publish (block_completed (finished ch)))

  unfoldable pub process_block :
      Config → BlocksResult → BlockPosition → Action (State D C) (Unit {0})
  unfolding receive_block apply_block end_block
  process_block c msg b = do
    maybe (receive_block c) msg.block
    now ← gets now_of
    apply_block c now msg b
    end_block c now msg

  unfoldable pub count_block : State D C → State D C
  count_block s = set_chain (record s.chain { received_blocks = add32 s.chain.received_blocks 1 }) s

  -- The node's irreversible block must not be below the one last seen.
  unfoldable pub check_irreversible : BlocksResult → Action (State D C) (Unit {0})
  check_irreversible msg = do
    irreversible ← gets (λ s. s.chain.irreversible)
    throw_if (ltb msg.last_irreversible.block_num irreversible) lib_went_back

  unfoldable pub receive_this : Config → BlocksResult → BlockPosition → Action (State D C) Bool
  unfolding count_block check_irreversible prepare process_block
  receive_this c msg b = do
    modify count_block
    check_irreversible msg
    prepare c msg b
    modify (λ s. set_chain (adopt msg b s.chain) s)
    process_block c msg b
    gets (λ s. not s.flow.aborting)

  -- `receive_result`: whether reading goes on.
  unfoldable pub receive_result : Config → BlocksResult → Action (State D C) Bool
  unfolding receive_this
  receive_result c msg = elim msg.this_block [ none ↦ pure true | some b ↦ receive_this c msg b ]
