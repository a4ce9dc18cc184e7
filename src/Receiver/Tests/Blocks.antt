-- ===== src/Receiver/Tests/Blocks.antt =====
-- The theorems on blocks, sessions and forks at concrete inputs.
use fio_chronicle.Store.Tables.{ReceivedBlock}
use fio_chronicle.Prelude.{
  ◌≡◌, ◌≢◌, ◌↔◌, ◌⊎◌, refl, true, [], ◌∷◌, some, none, arith, All, Has, ◌≤◌,
}
use fio_chronicle.Prelude.Action.{ok, err, ◌>>=◌, for_each, decode_error, uniqueness_violated}
use fio_chronicle.Store.Index.{create}
use fio_chronicle.Store.Sample.{SampleDb, sample_chainbase, sample_abieos}
use fio_chronicle.Receiver.State.{State, World, on_world}
use fio_chronicle.Receiver.Message.{BlocksResult, get_type, check_variant_name}
use fio_chronicle.Receiver.Samples.{
  scanning, state_at_12, position, message, Context, flowing, db_at_12,
}
use fio_chronicle.Receiver.Abi.{init_contract_abi_ctxt}
use fio_chronicle.Receiver.Deltas.{receive_deltas, receive_delta}
use fio_chronicle.Receiver.Traces.{receive_traces}
use fio_chronicle.Receiver.Flow.{commit_rev, commit_db, continue_read}
use fio_chronicle.Receiver.Prepare.{
  prepare, prepare_scan, align_revision, is_detached, handle_fork, roll_back, undo_while, lower_ack,
}
use fio_chronicle.Receiver.Blocks.{
  receive_this, process_block, receive_block, apply_block, end_block, store_block, count_block,
  check_irreversible, in_session, write_block, record_block, truncate, save_state,
}
use fio_chronicle.Receiver.Blocks.Scan.{InStep, Scanned, receive_this-Scanned}
use fio_chronicle.Receiver.Blocks.Run.{Synced, Steps-Synced, next, continued, step, done}
use fio_chronicle.Receiver.Blocks.Fork.{forked, undo_times}
use fio_chronicle.Receiver.Blocks.Reorg.{prepare_scan-forked, receive_this-forked}
use fio_chronicle.Receiver.Blocks.Session.{store_block-err}
use fio_chronicle.Receiver.Blocks.Rows.{IsAscending, Numbered, rows_of, row_of, record_block-rows}

state_at_12-InStep : InStep state_at_12
unfolding commit_rev
state_at_12-InStep = ground arith

after_13 : (receive_this scanning (message 13 113 112 11) (position 13 113) state_at_12).0 ≡ ok true
unfolding receive_this process_block receive_block apply_block end_block store_block count_block
    check_irreversible prepare prepare_scan align_revision is_detached in_session write_block
    record_block truncate save_state receive_deltas receive_traces commit_db commit_rev create ◌>>=◌
    on_world for_each
after_13 = refl

receive_this-Scanned_example :
    Scanned
      (message 13 113 112 11)
      (position 13 113)
      (receive_this scanning (message 13 113 112 11) (position 13 113) state_at_12).1
receive_this-Scanned_example =
    receive_this-Scanned scanning (message 13 113 112 11) (position 13 113) state_at_12
      (receive_this scanning (message 13 113 112 11) (position 13 113) state_at_12).1 true refl
      state_at_12-InStep refl (omega arith)
      (λ i. (
        after_13 i,
        (receive_this scanning (message 13 113 112 11) (position 13 113) state_at_12).1,
      ))

after_fork :
    (receive_this scanning (message 12 212 111 10) (position 12 212) state_at_12).0 ≡ ok true
unfolding receive_this process_block receive_block apply_block end_block store_block count_block
    check_irreversible prepare prepare_scan align_revision is_detached in_session write_block
    record_block truncate save_state receive_deltas receive_traces commit_db commit_rev create
    handle_fork roll_back undo_while init_contract_abi_ctxt lower_ack ◌>>=◌ on_world for_each
after_fork = refl

prepare_scan-forked_example :
    prepare_scan scanning (message 12 212 111 10) (position 12 212) state_at_12
    ≡ (ok tt, forked 1 12 10 state_at_12)
prepare_scan-forked_example =
    prepare_scan-forked scanning (message 12 212 111 10) (position 12 212) state_at_12
      state_at_12-InStep (omega arith) (omega arith) (omega arith) (omega arith)

abbrev on_fork : State SampleDb Context
on_fork = (receive_this scanning (message 12 212 111 10) (position 12 212) state_at_12).1

receive_this-forked_example :
    Scanned (message 12 212 111 10) (position 12 212) on_fork
    × (on_fork.flow ≡ record flowing { forked_at_block = 12; exporter_acked_block = 11 })
    × ((sample_chainbase.depth on_fork.world.db ≡ 0)
        ⊎ (sample_chainbase.contents (sample_chainbase.undo on_fork.world.db)
            ≡ sample_chainbase.contents (undo_times 1 db_at_12)))
receive_this-forked_example =
    receive_this-forked scanning (message 12 212 111 10) (position 12 212) state_at_12 on_fork true
      refl state_at_12-InStep (omega arith) (omega arith) (omega arith)
      (λ i. (after_fork i, on_fork))

-- A message with a table delta that cannot be decoded.
abbrev broken : BlocksResult
broken = record (message 13 113 112 11) {
  deltas = some (record { variant = 0; table_delta = none } ∷ []);
}

broken_throws : (store_block scanning broken (position 13 113) state_at_12).0 ≡ err decode_error
unfolding store_block in_session write_block record_block truncate save_state receive_deltas
    receive_delta get_type check_variant_name commit_db commit_rev create ◌>>=◌ on_world for_each
broken_throws = refl

store_block-err_example :
    (store_block scanning broken (position 13 113) state_at_12).1.world.db ≡ db_at_12
store_block-err_example =
    store_block-err scanning broken (position 13 113) state_at_12
      (store_block scanning broken (position 13 113) state_at_12).1 decode_error
      (λ i. (broken_throws i, (store_block scanning broken (position 13 113) state_at_12).1))

record_block-rows_example :
    (Numbered 13 (rows_of state_at_12.world)
      × (record_block 11 (position 13 113) state_at_12.world
          ≡ (err uniqueness_violated, state_at_12.world)))
    ⊎ (All (λ r. r.block_index ≢ 13) (rows_of state_at_12.world)
        × ((w' : World SampleDb Context) × (record_block 11 (position 13 113) state_at_12.world
              ≡ (ok tt, w'))
            × IsAscending (rows_of w')
            × ((r : ReceivedBlock)
                → Has r (rows_of w') ↔ (
                    ((row_of (position 13 113) ≡ r) ⊎ Has r (rows_of state_at_12.world))
                    × (11 ≤ r.block_index)))))
record_block-rows_example =
    record_block-rows 11 (position 13 113) state_at_12.world (omega arith) (omega arith)

state_at_12-Synced : Synced state_at_12
state_at_12-Synced = record { in_step = state_at_12-InStep; stored = refl }

abbrev at_13 : State SampleDb Context
at_13 = (receive_this scanning (message 13 113 112 11) (position 13 113) state_at_12).1

Steps-Synced_example : Synced (continue_read scanning 0 at_13)
Steps-Synced_example =
    Steps-Synced scanning state_at_12 (continue_read scanning 0 at_13) refl state_at_12-Synced (
      step state_at_12 at_13 (continue_read scanning 0 at_13)
        (next (message 13 113 112 11) (position 13 113) true state_at_12 at_13 refl (omega arith)
          (λ i. (after_13 i, at_13)))
        (step at_13 (continue_read scanning 0 at_13) (continue_read scanning 0 at_13)
          (continued 0 at_13) (done (continue_read scanning 0 at_13))))
