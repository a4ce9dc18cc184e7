-- ===== src/Receiver/Startup.antt =====
-- The start of the receiver (chronicle-receiver/receiver_plugin.cpp: revert_uncommitted_revisions,
-- load_state, start, start_read, start_after_dependencies). Connecting to the node is not modelled:
-- `start_read` follows on the handshake. The loop that undoes sessions has one round more of fuel
-- than there are sessions.
pub mod Resume
use Prim.Native.String.{String}
use fio_chronicle.Prelude.{
  ℕ, zero, suc, ◌-◌, Bool, true, false, List, [], ◌∷◌, Option, none, some, ltb, leb, add32, not,
  if◌then◌else◌,
}
use fio_chronicle.Prelude.Action.{
  Action, pure, gets, or_throw, modify, throw_if, skip, ◌>>=◌, ◌>>◌, does_not_return, decode_error,
  start_block_on_existing_state, head_past_end,
}
use fio_chronicle.Store.Tables.{StateObject}
use fio_chronicle.Store.Chainbase.{Chainbase}
use fio_chronicle.Store.Abieos.{Abieos}
use fio_chronicle.Receiver.State.{
  State, World, Config, ForkReason, restart, resync, fork, publish, on_world, set_chain, set_flow,
  AbiType, armed_stale_timer, started_read,
}
use fio_chronicle.Receiver.Abi.{init_contract_abi_ctxt}
use fio_chronicle.Receiver.Flow.{continue_read, put_out}
use fio_chronicle.Receiver.Interactive.{process_interactive_reqs, request_blocks}

module _ {D : Type 0} ⦃cb : Chainbase D⦄ where
  -- `while (index.has_undo_session() > 0) db->undo();`
  unfoldable revert_while : ℕ → D → Option D
  revert_while zero d = none
  revert_while (suc fuel) d =
      let rest = revert_while fuel (cb.undo d) in if ltb 0 (cb.depth d) then rest else some d

module _ {D C : Type 0} ⦃cb : Chainbase D⦄ where
  -- The number of revisions that were undone.
  unfoldable pub revert_uncommitted_revisions : Action (World D C) ℕ
  unfolding revert_while
  revert_uncommitted_revisions = do
    d ← gets (λ w. w.db)
    d' ← or_throw (revert_while (suc (cb.depth d)) d) does_not_return
    modify (λ w. record w { db = d' })
    pure (cb.depth d)

module _ {D C : Type 0} where
  -- An explicit fork event at the block after the head.
  unfoldable announce_fork : ForkReason → ℕ → ℕ → Action (State D C) (Unit {0})
  announce_fork reason depth last_irreversible = do
    block_num ← gets (λ s. add32 s.chain.head 1)
    modify (λ s. set_flow (record s.flow { forked_at_block = block_num }) s)
    on_world (
        publish (
          fork (record {
            block_num = block_num;
            depth = depth;
            fork_reason = reason;
            last_irreversible = last_irreversible;
          })))

  -- The position comes from the database; or scanning starts at the given block, or at genesis.
  unfoldable take_state : Config → Option StateObject → Action (State D C) (Unit {0})
  unfolding announce_fork
  take_state c (some o) = do
    modify (λ s.
        set_chain
          (record s.chain {
            head = o.head;
            head_id = o.head_id;
            irreversible = o.irreversible;
            irreversible_id = o.irreversible_id;
          })
          s)
    throw_if (ltb 0 c.start_block_num) start_block_on_existing_state
  take_state c none = do
    modify (λ s.
        if ltb 0 c.start_block_num
        then set_chain (record s.chain { head = c.start_block_num - 1 }) s
        else s)
    announce_fork resync 0 0

  -- `if( exporter_will_ack ) exporter_acked_block = head;`
  unfoldable take_as_acked : State D C → State D C
  take_as_acked s =
      if s.flow.exporter_will_ack
      then set_flow (record s.flow { exporter_acked_block = s.chain.head }) s
      else s

module _ {D C : Type 0} ⦃cb : Chainbase D⦄ ⦃ab : Abieos C⦄ where
  unfoldable pub load_state : Config → Action (State D C) (Unit {0})
  unfolding revert_uncommitted_revisions take_state announce_fork take_as_acked
  load_state c = do
    depth ← on_world revert_uncommitted_revisions
    stored ← gets (λ s. (cb.contents s.world.db).state)
    take_state c stored
    irreversible ← gets (λ s. s.chain.irreversible)
    if ltb 0 depth then announce_fork restart depth irreversible else skip
    modify take_as_acked
    past_end ← gets (λ s. leb s.flow.end_block_num s.chain.head)
    throw_if past_end head_past_end
    on_world (modify init_contract_abi_ctxt)

  -- Reading starts, and the check for a stale head with it.
  unfoldable pub start_read : Config → State D C → State D C
  start_read c s =
      put_out (started_read ∷ armed_stale_timer c.stale_check_deadline_msec ∷ [])
        (set_flow (record s.flow { stale_check_last_head = s.chain.head }) s)

  -- `receive_abi`: the types of the state history, or `none` where they are refused.
  unfoldable receive_abi : Option (String → Option AbiType) → Action (World D C) (Unit {0})
  receive_abi decoded = do
    types ← or_throw decoded decode_error
    modify (λ w. record w { abi_types = types })

  -- What `start_read` does with the first message.
  unfoldable pub receive_first :
      Config → ℕ → Option (String → Option AbiType) → Action (State D C) (Unit {0})
  unfolding receive_abi
  receive_first c queue_size decoded = do
    on_world (receive_abi decoded)
    modify (λ s. record s { requests = record s.requests { receiver_ready = true } })
    modify (if c.interactive_mode then process_interactive_reqs c else request_blocks c)
    modify (continue_read c queue_size)
