-- ===== src/Receiver/Blocks/Scan.antt =====
-- A block in scanning mode, from the message to the database (receive_result of
-- chronicle-receiver/receiver_plugin.cpp): the revision of the database follows the head, and the
-- undo sessions reach down to what may still be rolled back.
use fio_chronicle.Prelude.{
  suc, ◌+◌, ◌<◌, ◌≤◌, ◌≡◌, refl, sym, ap, subst, ◌∙◌, arith, u32_mod, Bool, false,
}
use fio_chronicle.Prelude.Action.{ok, ◌>>=◌, >>=-eq-ok, >>=-returns, gets, modify}
use fio_chronicle.Store.Chainbase.{Chainbase}
use fio_chronicle.Store.Abieos.{Abieos}
use fio_chronicle.Receiver.State.{State, Config, on_world, set_chain}
use fio_chronicle.Receiver.Message.{BlocksResult, BlockPosition}
use fio_chronicle.Receiver.Flow.Commit.{commit_rev-same, commit_rev_mono}
use fio_chronicle.Receiver.Flow.{commit_rev}
use fio_chronicle.Receiver.Prepare.{prepare_scan, prepare, align_revision, handle_fork}
use fio_chronicle.Receiver.Blocks.{
  adopt, state_row, check_irreversible, process_block, receive_this, count_block,
}
use fio_chronicle.Receiver.Blocks.Session.{HasState}
use fio_chronicle.Receiver.Blocks.Process.{Done, process_block-Done}

-- The database's revision is the head, and its undo sessions reach down to the revision that may
-- be committed.
pub record InStep {D C : Type 0} ⦃cb : Chainbase D⦄ (s : State D C) : Type 0 where
  pub at_head : cb.revision s.world.db ≡ s.chain.head
  pub undoable : cb.revision s.world.db ≤ cb.depth s.world.db + commit_rev s.chain s.flow
  pub small : s.chain.head < u32_mod

module _ {D C : Type 0} ⦃cb : Chainbase D⦄ ⦃ab : Abieos C⦄ where
  -- A block that follows on the head is prepared by doing nothing, or refused.
  prepare_scan-next :
      (c : Config) (msg : BlocksResult) (b : BlockPosition) (s t : State D C)
      → cb.revision s.world.db ≡ s.chain.head
      → b.block_num ≡ s.chain.head + 1
      → b.block_num < u32_mod
      → prepare_scan c msg b s ≡ (ok tt, t)
      → t ≡ s
  unfolding prepare_scan align_revision ◌>>=◌ on_world
  prepare_scan-next c msg b s t h e small k = ground arith

  -- A block at or below the head, above the irreversible one, is a fork.
  pub prepare_scan-fork :
      (c : Config) (msg : BlocksResult) (b : BlockPosition) (s : State D C)
      → cb.revision s.world.db ≡ s.chain.head
      → s.chain.irreversible ≤ msg.last_irreversible.block_num
      → msg.last_irreversible.block_num < b.block_num
      → b.block_num ≤ s.chain.head
      → prepare_scan c msg b s ≡ handle_fork b.block_num msg.last_irreversible.block_num s
  unfolding prepare_scan align_revision ◌>>=◌ on_world
  prepare_scan-fork c msg b s h mono above below = ground arith

  prepare-scan :
      (c : Config) (msg : BlocksResult) (b : BlockPosition) (s : State D C)
      → c.interactive_mode ≡ false
      → prepare c msg b s ≡ prepare_scan c msg b s
  unfolding prepare
  prepare-scan c msg b s scan = rw scan refl

  check_irreversible-ok :
      (msg : BlocksResult) (s t : State D C)
      → check_irreversible msg s ≡ (ok tt, t)
      → (s.chain.irreversible ≤ msg.last_irreversible.block_num) × (t ≡ s)
  unfolding check_irreversible ◌>>=◌
  check_irreversible-ok msg s t h = ground arith

  abbrev pub adopted : BlocksResult → BlockPosition → State D C → State D C
  adopted msg b s = set_chain (adopt msg b s.chain) s

  -- A message that was handled has passed through these states.
  pub receive_this-parts :
      (c : Config) (msg : BlocksResult) (b : BlockPosition) (s t : State D C) (r : Bool)
      → c.interactive_mode ≡ false
      → receive_this c msg b s ≡ (ok r, t)
      → (u : State D C) × (s.chain.irreversible ≤ msg.last_irreversible.block_num)
        × (prepare_scan c msg b (count_block s) ≡ (ok tt, u))
        × Done (adopted msg b u) t
  unfolding receive_this modify gets count_block
  receive_this-parts c msg b s t r scan h =
      let (_, _, h₁) = >>=-eq-ok (modify count_block) _ s h in
      let s₁ : State D C = count_block s in
      let (_, u₁, e₂, h₂) = >>=-returns (check_irreversible msg) _ s₁ h₁ in
      let (mono, same) = check_irreversible-ok msg s₁ u₁ e₂ in
      let (_, u, e₃, h₃) = >>=-returns (prepare c msg b) _ u₁ h₂ in
      let (_, _, h₄) = >>=-eq-ok (modify (adopted msg b)) _ u h₃ in
      let (_, v, e₅, h₅) = >>=-returns (process_block c msg b) _ (adopted msg b u) h₄ in
      (
        u,
        mono,
        sym (prepare-scan c msg b s₁ scan) ∙ subst (λ x. prepare c msg b x ≡ (ok tt, u)) same e₃,
        subst (Done (adopted msg b u)) (ap (λ p. p.1) h₅) (process_block-Done c msg b v scan e₅),
      )

-- What a handled block leaves behind: it is the head, and the position is stored with it.
pub record Scanned {D C : Type 0} ⦃cb : Chainbase D⦄ (msg : BlocksResult) (b : BlockPosition)
    (t : State D C) : Type 0 where
  pub in_step : InStep t
  pub head : t.chain.head ≡ b.block_num
  pub head_id : t.chain.head_id ≡ b.block_id
  pub irreversible : t.chain.irreversible ≡ msg.last_irreversible.block_num
  pub irreversible_id : t.chain.irreversible_id ≡ msg.last_irreversible.block_id
  pub saved : HasState (state_row t.chain) t.world

module _ {D C : Type 0} ⦃cb : Chainbase D⦄ ⦃ab : Abieos C⦄ where
  -- After the preparation: the database stands at the block before, and reaches down far enough.
  pub Done-Scanned :
      (msg : BlocksResult) (b : BlockPosition) (u t : State D C)
      → suc (cb.revision u.world.db) ≡ b.block_num
      → cb.revision u.world.db ≤ cb.depth u.world.db + commit_rev (adopted msg b u).chain u.flow
      → b.block_num < u32_mod
      → Done (adopted msg b u) t
      → Scanned msg b t
  Done-Scanned msg b u t at_block reach small d = record {
    in_step = record {
      at_head = omega (arith, d.revision, d.head);
      undoable = omega (
        arith,
        d.revision,
        d.depth,
        commit_rev-same t.chain (adopted msg b u).chain t.flow u.flow d.irreversible d.flow,
      );
      small = omega (arith, d.head);
    };
    head = d.head;
    head_id = d.head_id;
    irreversible = d.irreversible;
    irreversible_id = d.irreversible_id;
    saved = d.saved;
  }

  -- In scanning mode, while the database is in step, a block that follows on the head: if it is
  -- handled without an exception, it is the new head, the position is stored in the database, and
  -- the database is in step again (its revision is the head, and its undo sessions reach down to
  -- the revision that may be committed).
  pub receive_this-Scanned :
      (c : Config) (msg : BlocksResult) (b : BlockPosition) (s t : State D C) (r : Bool)
      → c.interactive_mode ≡ false
      → InStep s
      → b.block_num ≡ s.chain.head + 1
      → b.block_num < u32_mod
      → receive_this c msg b s ≡ (ok r, t)
      → Scanned msg b t
  unfolding count_block
  receive_this-Scanned c msg b s t r scan v next small h =
      let (u, mono, e, d) = receive_this-parts c msg b s t r scan h in
      let same : u ≡ count_block s =
        prepare_scan-next c msg b (count_block s) u v.at_head next small e in
      Done-Scanned msg b (count_block s) t (omega (arith, v.at_head))
        (omega (
          arith,
          v.undoable,
          commit_rev_mono s.chain (adopted msg b s).chain s.flow mono,
          commit_rev-same (adopted msg b s).chain (adopted msg b (count_block s)).chain s.flow
              s.flow refl refl,
        ))
        small (subst (λ x. Done (adopted msg b x) t) same d)
