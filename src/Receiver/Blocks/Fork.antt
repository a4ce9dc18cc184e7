-- ===== src/Receiver/Blocks/Fork.antt =====
-- The roll-back at a fork (the branch of receive_result, chronicle-receiver/receiver_plugin.cpp,
-- for a block at or below the head).
use fio_chronicle.Prelude.{
  ℕ, zero, suc, ◌+◌, ◌-◌, ◌<◌, ◌≤◌, ◌≡◌, refl, some, [], ◌∷◌, ◌++◌, arith, sub32-sub, u32_mod,
}
use fio_chronicle.Prelude.Action.{ok, ◌>>=◌}
use fio_chronicle.Store.Chainbase.{Chainbase}
use fio_chronicle.Store.Abieos.{Abieos}
use fio_chronicle.Receiver.State.{State, World, ForkEvent, network, fork, on_world}
use fio_chronicle.Receiver.Abi.{init_contract_abi_ctxt}
use fio_chronicle.Receiver.Prepare.{undo_while, roll_back, lower_ack, handle_fork}

abbrev pub fork_at : ℕ → ℕ → ℕ → ForkEvent
fork_at block_num depth last_irreversible = record {
  block_num = block_num;
  depth = depth;
  fork_reason = network;
  last_irreversible = last_irreversible;
}

module _ {D : Type 0} ⦃cb : Chainbase D⦄ where
  unfoldable pub undo_times : ℕ → D → D
  undo_times zero d = d
  undo_times (suc n) d = undo_times n (cb.undo d)

  pub revision-undo_times :
      (n : ℕ) (d : D) → n ≤ cb.depth d → cb.revision (undo_times n d) + n ≡ cb.revision d
  unfolding undo_times
  revision-undo_times zero d h = omega arith
  revision-undo_times (suc n) d h = omega (
    arith,
    cb.revision-undo d (omega arith),
    cb.depth-undo d (omega arith),
    revision-undo_times n (cb.undo d) (omega (arith, cb.depth-undo d (omega arith))),
  )

  pub depth-undo_times :
      (n : ℕ) (d : D) → n ≤ cb.depth d → cb.depth (undo_times n d) + n ≡ cb.depth d
  unfolding undo_times
  depth-undo_times zero d h = omega arith
  depth-undo_times (suc n) d h = omega (
    arith,
    cb.depth-undo d (omega arith),
    depth-undo_times n (cb.undo d) (omega (arith, cb.depth-undo d (omega arith))),
  )

  -- With sessions enough the loop returns, and has undone as many as lie at or above the block.
  pub undo_while-undo_times :
      (fuel n block_num : ℕ) (d : D)
      → n < fuel
      → n ≤ cb.depth d
      → cb.revision d + 1 ≡ block_num + n
      → undo_while fuel block_num d ≡ some (undo_times n d)
  unfolding undo_while undo_times
  undo_while-undo_times zero n block_num d f h e = absurd (omega arith)
  undo_while-undo_times (suc fuel) zero block_num d f h e = ground arith
  undo_while-undo_times (suc fuel) (suc n) block_num d f h e = ground (
    arith,
    cb.revision-undo d (omega arith),
    cb.depth-undo d (omega arith),
    undo_while-undo_times fuel n block_num (cb.undo d),
  )

module _ {D C : Type 0} ⦃cb : Chainbase D⦄ ⦃ab : Abieos C⦄ where
  abbrev pub rolled_back : ℕ → World D C → World D C
  rolled_back n w = record (init_contract_abi_ctxt w) { db = undo_times n w.db }

  roll_back_lem :
      (n block_num : ℕ) (w : World D C)
      → n ≤ cb.depth w.db
      → cb.revision w.db + 1 ≡ block_num + n
      → 1 < block_num
      → roll_back block_num w ≡ (ok tt, rolled_back n w)
  unfolding roll_back ◌>>=◌ init_contract_abi_ctxt
  roll_back_lem n block_num w h e k =
      rw (undo_while-undo_times (suc (cb.revision w.db)) n block_num w.db (omega arith) h e)
        (ground (arith, revision-undo_times n w.db h))

  -- The state after a fork at a block, with `n` sessions undone.
  unfoldable pub forked : ℕ → ℕ → ℕ → State D C → State D C
  forked n block_num last_irreversible s = record s {
    flow = record (lower_ack block_num s.flow) { forked_at_block = block_num };
    world = record (rolled_back n s.world) {
      out =
          s.world.out ++ fork (fork_at block_num (s.chain.head - block_num) last_irreversible) ∷ [];
    };
  }

  -- With the undo sessions down to a block at hand, a fork at that block is handled without an
  -- exception: the sessions of that block and of all later ones are undone, the ABI cache starts
  -- anew, the acknowledged block is lowered to the one before, all further acknowledgements wait
  -- for that one, and an event tells of the fork.
  pub handle_fork_lem :
      (n block_num last_irreversible : ℕ) (s : State D C)
      → n ≤ cb.depth s.world.db
      → cb.revision s.world.db + 1 ≡ block_num + n
      → 1 < block_num
      → block_num ≤ s.chain.head
      → s.chain.head < u32_mod
      → handle_fork block_num last_irreversible s ≡ (ok tt, forked n block_num last_irreversible s)
  unfolding handle_fork ◌>>=◌ on_world forked init_contract_abi_ctxt
  handle_fork_lem n block_num last_irreversible s h e k le small =
      rw (roll_back_lem n block_num s.world h e k)
        (rw (sub32-sub s.chain.head block_num le small) refl)
