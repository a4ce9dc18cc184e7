-- ===== src/Receiver/Prepare.antt =====
-- What happens to a block before it becomes the head (chronicle-receiver/receiver_plugin.cpp,
-- receive_result). `block_num - 1` and `head - block_num` are on uint32_t. The loop that undoes
-- sessions has one round more of fuel than the revision counts; `does_not_return` stands for a
-- loop that goes on for ever, as `undo` with no session left would make it.
use fio_chronicle.Prelude.{
  ℕ, zero, suc, Bool, true, false, not, ◌&&◌, Option, none, some, ltb, leb, ◌==◌, sub32,
  if◌then◌else◌,
}
use fio_chronicle.Prelude.Action.{
  Action, throw, throw_if, gets, or_throw, modify, skip, ◌>>=◌, ◌>>◌, block_below_lib,
  no_undo_stack, prev_block_mismatch, set_revision_refused, does_not_return,
}
use fio_chronicle.Store.Chainbase.{Chainbase}
use fio_chronicle.Store.Abieos.{Abieos}
use fio_chronicle.Receiver.State.{
  State, World, Config, Chain, Flow, network, fork, publish, on_world, set_flow,
}
use fio_chronicle.Receiver.Message.{BlocksResult, BlockPosition}
use fio_chronicle.Receiver.Abi.{init_contract_abi_ctxt}
use fio_chronicle.Receiver.Interactive.{process_interactive_reqs}

-- The fork's effect on the acknowledged block.
unfoldable pub lower_ack : ℕ → Flow → Flow
lower_ack block_num f =
    if f.exporter_will_ack && ltb (sub32 block_num 1) f.exporter_acked_block
    then record f { exporter_acked_block = sub32 block_num 1 }
    else f

-- The new block does not follow on the last one.
unfoldable pub is_detached : Config → BlocksResult → Chain → Bool
is_detached c msg ch =
    ltb 0 ch.head
    && ltb c.start_block_num ch.head
    && elim msg.prev_block [ none ↦ true | some p ↦ not (p.block_id == ch.head_id) ]

module _ {D : Type 0} ⦃cb : Chainbase D⦄ where
  -- `while( db->revision() >= block_num ) db->undo();`
  unfoldable pub undo_while : ℕ → ℕ → D → Option D
  undo_while zero block_num d = none
  undo_while (suc fuel) block_num d =
      let rest = undo_while fuel block_num (cb.undo d) in
      if leb block_num (cb.revision d) then rest else some d

module _ {D C : Type 0} ⦃cb : Chainbase D⦄ ⦃ab : Abieos C⦄ where
  -- A revision that lags behind is raised to that of the block before.
  unfoldable pub align_revision : ℕ → Action (World D C) (Unit {0})
  align_revision block_num w =
      if ltb (cb.revision w.db) (sub32 block_num 1)
      then (do
        d ← or_throw (cb.set_revision (sub32 block_num 1) w.db) set_revision_refused
        modify (λ w'. record w' { db = d }))
          w
      else skip w

  unfoldable pub roll_back : ℕ → Action (World D C) (Unit {0})
  unfolding undo_while
  roll_back block_num = do
    modify init_contract_abi_ctxt
    fuel ← gets (λ w. suc (cb.revision w.db))
    d ← gets (λ w. w.db)
    d' ← or_throw (undo_while fuel block_num d) does_not_return
    modify (λ w. record w { db = d' })
    throw_if (cb.revision d' == 0) no_undo_stack

  -- A block at or below the head, on the way to the head.
  unfoldable pub handle_fork : ℕ → ℕ → Action (State D C) (Unit {0})
  unfolding roll_back lower_ack
  handle_fork block_num last_irreversible = do
    depth ← gets (λ s. sub32 s.chain.head block_num)
    on_world (roll_back block_num)
    modify (λ s. set_flow (record (lower_ack block_num s.flow) { forked_at_block = block_num }) s)
    on_world (
        publish (
          fork (record {
            block_num = block_num;
            depth = depth;
            fork_reason = network;
            last_irreversible = last_irreversible;
          })))

  -- What scanning does with a block before it becomes the head.
  unfoldable pub prepare_scan :
      Config → BlocksResult → BlockPosition → Action (State D C) (Unit {0})
  unfolding align_revision handle_fork is_detached
  prepare_scan c msg b = do
    on_world (align_revision b.block_num)
    ch ← gets (λ s. s.chain)
    if ltb msg.last_irreversible.block_num b.block_num
        then (if ltb b.block_num ch.irreversible
            then throw block_below_lib
            else if leb b.block_num ch.head
            then handle_fork b.block_num msg.last_irreversible.block_num
            else if is_detached c msg ch
            then throw prev_block_mismatch
            else skip)
        else skip

  -- What interactive mode does instead: the last block of a request makes room for the next one.
  unfoldable pub finish_request : Config → ℕ → State D C → State D C
  finish_request c block_num s =
      if block_num == sub32 s.flow.end_block_num 1
      then process_interactive_reqs c
          (record s { requests = record s.requests { interactive_req_pending = false } })
      else s

  unfoldable pub prepare : Config → BlocksResult → BlockPosition → Action (State D C) (Unit {0})
  unfolding prepare_scan finish_request
  prepare c msg b =
      if c.interactive_mode then modify (finish_request c b.block_num) else prepare_scan c msg b
