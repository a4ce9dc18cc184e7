-- ===== src/Receiver/Startup/Resume.antt =====
-- Taking up the work again (chronicle-receiver/receiver_plugin.cpp: revert_uncommitted_revisions,
-- load_state): whatever was not committed is undone, and the scan goes on behind the stored head.
use fio_chronicle.Prelude.{
  ℕ, zero, suc, ◌+◌, ◌<◌, ◌≡◌, ◌⊎◌, refl, some, arith, add32, inl, inr, false, Bool-cases, ltb, [],
  ◌∷◌, ◌++◌, leb, if◌then◌else◌,
}
use fio_chronicle.Prelude.Action.{ok, ◌>>=◌}
use fio_chronicle.Store.Tables.{StateObject}
use fio_chronicle.Store.Chainbase.{Chainbase}
use fio_chronicle.Store.Abieos.{Abieos}
use fio_chronicle.Receiver.State.{State, World, Config, ForkEvent, restart, fork, on_world}
use fio_chronicle.Receiver.Abi.{init_contract_abi_ctxt}
use fio_chronicle.Receiver.Blocks.Fork.{undo_times, revision-undo_times, depth-undo_times}
use fio_chronicle.Receiver.Startup.{revert_while, revert_uncommitted_revisions, load_state}

module _ {D : Type 0} ⦃cb : Chainbase D⦄ where
  revert_while-undo_times :
      (fuel : ℕ) (n : ℕ) (d : D)
      → n < fuel
      → cb.depth d ≡ n
      → revert_while fuel d ≡ some (undo_times n d)
  unfolding revert_while undo_times
  revert_while-undo_times zero n d f e = absurd (omega arith)
  revert_while-undo_times (suc fuel) zero d f e = ground arith
  revert_while-undo_times (suc fuel) (suc n) d f e =
      ground (arith, cb.depth-undo d (omega arith), revert_while-undo_times fuel n (cb.undo d))

module _ {D C : Type 0} ⦃cb : Chainbase D⦄ where
  abbrev pub reverted : World D C → World D C
  reverted w = record w { db = undo_times (cb.depth w.db) w.db }

  pub revert_uncommitted_revisions_lem :
      (w : World D C) → revert_uncommitted_revisions w ≡ (ok (cb.depth w.db), reverted w)
  unfolding revert_uncommitted_revisions ◌>>=◌
  revert_uncommitted_revisions_lem w =
      rw (revert_while-undo_times (suc (cb.depth w.db)) (cb.depth w.db) w.db (omega arith) refl)
        refl

  -- The loop always returns: no undo session is left, as many revisions were undone as there were
  -- sessions, and nothing but the database has changed.
  pub revert_uncommitted_revisions-all :
      (w : World D C)
      → (d : D) × (revert_uncommitted_revisions w ≡ (ok (cb.depth w.db), record w { db = d }))
        × (cb.depth d ≡ 0)
        × (cb.revision d + cb.depth w.db ≡ cb.revision w.db)
  revert_uncommitted_revisions-all w = (
    undo_times (cb.depth w.db) w.db,
    revert_uncommitted_revisions_lem w,
    omega (arith, depth-undo_times (cb.depth w.db) w.db (omega arith)),
    revision-undo_times (cb.depth w.db) w.db (omega arith),
  )

abbrev pub restart_at : StateObject → ℕ → ForkEvent
restart_at o depth = record {
  block_num = add32 o.head 1;
  depth = depth;
  fork_reason = restart;
  last_irreversible = o.irreversible;
}

module _ {D C : Type 0} ⦃cb : Chainbase D⦄ ⦃ab : Abieos C⦄ where
  abbrev stored_position : StateObject → State D C → State D C
  stored_position o s = record s {
    chain = record s.chain {
      head = o.head;
      head_id = o.head_id;
      irreversible = o.irreversible;
      irreversible_id = o.irreversible_id;
    };
    world = init_contract_abi_ctxt (reverted s.world);
  }

  -- The state after the start, where the database has a position.
  abbrev resumed : StateObject → State D C → State D C
  resumed o s = record (stored_position o s) {
    flow = record s.flow {
      forked_at_block =
          if ltb 0 (cb.depth s.world.db) then add32 o.head 1 else s.flow.forked_at_block;
      exporter_acked_block =
          if s.flow.exporter_will_ack then o.head else s.flow.exporter_acked_block;
    };
    world = record (stored_position o s).world {
      out =
          if ltb 0 (cb.depth s.world.db)
          then s.world.out ++ fork (restart_at o (cb.depth s.world.db)) ∷ []
          else s.world.out;
    };
  }

  load_state_lem :
      (c : Config) (o : StateObject) (s : State D C)
      → (cb.contents (reverted s.world).db).state ≡ some o
      → c.start_block_num ≡ 0
      → leb s.flow.end_block_num o.head ≡ false
      → load_state c s ≡ (ok tt, resumed o s)
  unfolding load_state ◌>>=◌ on_world init_contract_abi_ctxt
  load_state_lem c o s stored start before_end = elim (Bool-cases (ltb 0 (cb.depth s.world.db))) [
    | inl some_left ↦ elim (Bool-cases s.flow.exporter_will_ack) [
      | inl acks ↦
          rw (revert_uncommitted_revisions_lem s.world)
            (rw stored (rw start (rw some_left (rw acks (rw before_end refl)))))
      | inr silent ↦
          rw (revert_uncommitted_revisions_lem s.world)
            (rw stored (rw start (rw some_left (rw silent (rw before_end refl)))))
    ]
    | inr none_left ↦ elim (Bool-cases s.flow.exporter_will_ack) [
      | inl acks ↦
          rw (revert_uncommitted_revisions_lem s.world)
            (rw stored (rw start (rw none_left (rw acks (rw before_end refl)))))
      | inr silent ↦
          rw (revert_uncommitted_revisions_lem s.world)
            (rw stored (rw start (rw none_left (rw silent (rw before_end refl)))))
    ]
  ]

  -- A restart without a start block, with a database that has a position before the end block once
  -- all uncommitted sessions are undone: it succeeds. All uncommitted sessions are undone and none
  -- is left, scanning resumes behind the position that is then stored, and an acknowledging
  -- exporter is taken to have acknowledged it. Exactly if something was undone, a fork is announced
  -- at the block behind it, and its acknowledgement awaited.
  pub load_state-resumes :
      (c : Config) (o : StateObject) (s : State D C)
      → (cb.contents (undo_times (cb.depth s.world.db) s.world.db)).state ≡ some o
      → c.start_block_num ≡ 0
      → o.head < s.flow.end_block_num
      → (t : State D C) × (load_state c s ≡ (ok tt, t))
        × (t.world.db ≡ undo_times (cb.depth s.world.db) s.world.db)
        × (cb.depth t.world.db ≡ 0)
        × (t.chain.head ≡ o.head)
        × (t.chain.irreversible ≡ o.irreversible)
        × (t.flow.exporter_acked_block
            ≡ (if s.flow.exporter_will_ack then o.head else s.flow.exporter_acked_block))
        × (((cb.depth s.world.db ≡ 0)
              × (t.flow.forked_at_block ≡ s.flow.forked_at_block)
              × (t.world.out ≡ s.world.out))
            ⊎ ((0 < cb.depth s.world.db)
                × (t.flow.forked_at_block ≡ add32 o.head 1)
                × (t.world.out ≡ s.world.out ++ fork (restart_at o (cb.depth s.world.db)) ∷ [])))
  unfolding undo_times init_contract_abi_ctxt
  load_state-resumes c o s stored start before_end = (
    resumed o s,
    load_state_lem c o s stored start (ground arith),
    refl,
    omega (arith, depth-undo_times (cb.depth s.world.db) s.world.db (omega arith)),
    refl,
    refl,
    refl,
    elim (Bool-cases (ltb 0 (cb.depth s.world.db))) [
      | inl some_left ↦ inr (ground arith, rw some_left refl, rw some_left refl)
      | inr none_left ↦ inl (ground arith, rw none_left refl, rw none_left refl)
    ],
  )
