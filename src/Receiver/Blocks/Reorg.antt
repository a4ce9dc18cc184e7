-- ===== src/Receiver/Blocks/Reorg.antt =====
-- A fork in scanning mode, from the message to the database (receive_result of
-- chronicle-receiver/receiver_plugin.cpp): the roll-back always succeeds, and the block that
-- replaces the lost ones is stored in their place.
use fio_chronicle.Prelude.{
  ℕ, suc, ◌+◌, ◌-◌, ◌<◌, ◌≤◌, ◌≡◌, ◌⊎◌, refl, sym, ap, subst, ◌∙◌, arith, ltb, u32_mod, inl, inr,
  Bool-cases, Bool, false, min, if◌then◌else◌, ◌&&◌, sub32,
}
use fio_chronicle.Prelude.Action.{ok}
use fio_chronicle.Store.Chainbase.{Chainbase}
use fio_chronicle.Store.Abieos.{Abieos}
use fio_chronicle.Receiver.State.{State, Config, Chain, Flow}
use fio_chronicle.Receiver.Message.{BlocksResult, BlockPosition}
use fio_chronicle.Receiver.Flow.Commit.{commit_rev-same, commit_rev_bounds}
use fio_chronicle.Receiver.Flow.{commit_rev}
use fio_chronicle.Receiver.Prepare.{lower_ack, prepare_scan}
use fio_chronicle.Receiver.Blocks.{receive_this, count_block}
use fio_chronicle.Receiver.Blocks.Process.{Done}
use fio_chronicle.Receiver.Blocks.Fork.{
  undo_times, revision-undo_times, depth-undo_times, forked, handle_fork_lem,
}
use fio_chronicle.Receiver.Blocks.Scan.{
  InStep, Scanned, adopted, prepare_scan-fork, receive_this-parts, Done-Scanned,
}

-- Lowering the acknowledged block to the one before a fork keeps that one undoable.
commit_rev-lower_ack :
    (ch ch' : Chain) (f : Flow) (block_num : ℕ)
    → ch.irreversible ≤ ch'.irreversible
    → 0 < block_num
    → block_num < u32_mod
    → min (commit_rev ch f) (block_num - 1)
      ≤ commit_rev ch' (record (lower_ack block_num f) { forked_at_block = block_num })
unfolding lower_ack commit_rev
commit_rev-lower_ack ch ch' f block_num mono pos small = ground arith

lower_ack_lem :
    (f : Flow) (n : ℕ)
    → 0 < n
    → n < u32_mod
    → record (lower_ack n f) { forked_at_block = n } ≡ record f {
      forked_at_block = n;
      exporter_acked_block =
          if f.exporter_will_ack && ltb (n - 1) f.exporter_acked_block
          then n - 1
          else f.exporter_acked_block;
    }
unfolding lower_ack
lower_ack_lem f n pos small =
    let less_one : sub32 n 1 ≡ n - 1 = omega arith in
    elim (Bool-cases (f.exporter_will_ack && ltb (n - 1) f.exporter_acked_block)) [
      | inl lower ↦ rw (less_one, lower) refl
      | inr stays ↦ rw (less_one, stays) refl
    ]

module _ {D C : Type 0} ⦃cb : Chainbase D⦄ ⦃ab : Abieos C⦄ where
  -- While the database is in step and the node's irreversible block is not below the last one, a
  -- block above 1, above the node's irreversible block and at or below the head is prepared without
  -- an exception, and never in an endless loop: exactly the blocks from it up to the head are
  -- undone.
  pub prepare_scan-forked :
      (c : Config) (msg : BlocksResult) (b : BlockPosition) (s : State D C)
      → InStep s
      → s.chain.irreversible ≤ msg.last_irreversible.block_num
      → msg.last_irreversible.block_num < b.block_num
      → b.block_num ≤ s.chain.head
      → 1 < b.block_num
      → prepare_scan c msg b s ≡ (
        ok tt,
        forked (s.chain.head + 1 - b.block_num) b.block_num msg.last_irreversible.block_num s,
      )
  prepare_scan-forked c msg b s v mono above below pos =
      prepare_scan-fork c msg b s v.at_head mono above below
      ∙ handle_fork_lem (s.chain.head + 1 - b.block_num) b.block_num _ s
          (omega (arith, v.at_head, v.undoable, (commit_rev_bounds s.chain s.flow).0))
          (omega (arith, v.at_head)) pos below v.small

  count_block-InStep : (s : State D C) → InStep s → InStep (count_block s)
  unfolding count_block
  count_block-InStep s v = record {
    at_head = v.at_head;
    undoable =
        omega (
          arith,
          v.undoable,
          commit_rev-same s.chain (count_block s).chain s.flow s.flow refl refl,
        );
    small = v.small;
  }

  -- The state that a fork leaves is ready for the new block.
  forked-ready :
      (msg : BlocksResult) (b : BlockPosition) (s : State D C)
      → InStep s
      → s.chain.irreversible ≤ msg.last_irreversible.block_num
      → msg.last_irreversible.block_num < b.block_num
      → b.block_num ≤ s.chain.head
      → 1 < b.block_num
      → let u =
          forked (s.chain.head + 1 - b.block_num) b.block_num msg.last_irreversible.block_num s in
        (suc (cb.revision u.world.db) ≡ b.block_num)
        × (cb.revision u.world.db ≤ cb.depth u.world.db + commit_rev (adopted msg b u).chain u.flow)
  unfolding forked
  forked-ready msg b s v mono above below pos =
      let n : ℕ = s.chain.head + 1 - b.block_num in
      let enough : n ≤ cb.depth s.world.db =
        omega (arith, v.at_head, v.undoable, (commit_rev_bounds s.chain s.flow).0) in
      let r = revision-undo_times n s.world.db enough in
      let k = depth-undo_times n s.world.db enough in
      (
        omega (arith, r, v.at_head),
        omega (
          arith,
          r,
          k,
          v.at_head,
          v.undoable,
          commit_rev-lower_ack s.chain (adopted msg b s).chain s.flow b.block_num mono (omega arith)
              (omega (arith, v.small)),
        ),
      )

  -- In scanning mode, while the database is in step, a block above the node's irreversible block
  -- and at or below the head: if the message is handled without an exception, its block is the new
  -- head and stored, the database is in step again, the acknowledgement of the block before it is
  -- awaited, an acknowledged block behind that one is lowered to it, and undoing the new block
  -- gives the tables of the old undo session, unless the session was committed.
  pub receive_this-forked :
      (c : Config) (msg : BlocksResult) (b : BlockPosition) (s t : State D C) (r : Bool)
      → c.interactive_mode ≡ false
      → InStep s
      → msg.last_irreversible.block_num < b.block_num
      → b.block_num ≤ s.chain.head
      → 1 < b.block_num
      → receive_this c msg b s ≡ (ok r, t)
      → Scanned msg b t
        × (t.flow ≡ record s.flow {
          forked_at_block = b.block_num;
          exporter_acked_block =
              if s.flow.exporter_will_ack && ltb (b.block_num - 1) s.flow.exporter_acked_block
              then b.block_num - 1
              else s.flow.exporter_acked_block;
        })
        × ((cb.depth t.world.db ≡ 0)
            ⊎ (cb.contents (cb.undo t.world.db)
                ≡ cb.contents (undo_times (s.chain.head + 1 - b.block_num) s.world.db)))
  unfolding count_block forked
  receive_this-forked c msg b s t r scan v above below pos h =
      let (u, mono, e, d) = receive_this-parts c msg b s t r scan h in
      let v' = count_block-InStep s v in
      let x : State D C =
        forked (s.chain.head + 1 - b.block_num) b.block_num msg.last_irreversible.block_num
          (count_block s) in
      let same : x ≡ u =
        ap (λ p. p.1)
          (sym (prepare_scan-forked c msg b (count_block s) v' mono above below pos) ∙ e) in
      let d' : Done (adopted msg b x) t = subst (λ y. Done (adopted msg b y) t) (sym same) d in
      let (at_block, reach) = forked-ready msg b (count_block s) v' mono above below pos in
      (
        Done-Scanned msg b x t at_block reach (omega (arith, v.small)) d',
        d'.flow ∙ lower_ack_lem s.flow b.block_num (omega arith) (omega (arith, v.small)),
        elim (Bool-cases (ltb 0 (cb.depth t.world.db))) [
          | inl some_left ↦ inr (d'.undoing (ground arith))
          | inr none_left ↦ inl (ground arith)
        ],
      )
