-- ===== src/Receiver/Tests/Startup.antt =====
-- The theorems on the start and on snapshots at concrete inputs.
use fio_chronicle.Prelude.{◌<◌, ◌≡◌, ◌⊎◌, refl, [], ◌∷◌, some, arith, add32}
use fio_chronicle.Prelude.Action.{ok}
use fio_chronicle.Store.Tables.{Tables, StateObject, no_rows}
use fio_chronicle.Store.Sample.{SampleDb, sample_chainbase, sample_abieos}
use fio_chronicle.Receiver.State.{State, World, fork}
use fio_chronicle.Receiver.Samples.{scanning, state_at_12, db_at_12, Context, received}
use fio_chronicle.Receiver.Blocks.Fork.{undo_times}
use fio_chronicle.Receiver.Startup.{load_state}
use fio_chronicle.Receiver.Startup.Resume.{load_state-resumes, restart_at}
use fio_chronicle.Receiver.Snapshot.{Snapshot, write_snapshot, read_snapshot}
use fio_chronicle.Receiver.Snapshot.RoundTrip.{
  read_snapshot-write_snapshot, restored, base_tables, IsOrderedTables,
}

abbrev at_10 : StateObject
at_10 = record { head = 10; head_id = 112; irreversible = 10; irreversible_id = 110 }

stored_10 : (sample_chainbase.contents (undo_times 2 db_at_12)).state ≡ some at_10
unfolding undo_times
stored_10 = refl

load_state-resumes_example :
    (t : State SampleDb Context) × (load_state scanning state_at_12 ≡ (ok tt, t))
    × (t.world.db ≡ undo_times 2 db_at_12)
    × (sample_chainbase.depth t.world.db ≡ 0)
    × (t.chain.head ≡ 10)
    × (t.chain.irreversible ≡ 10)
    × (t.flow.exporter_acked_block ≡ 10)
    × (((sample_chainbase.depth db_at_12 ≡ 0) × (t.flow.forked_at_block ≡ 0) × (t.world.out ≡ []))
        ⊎ ((0 < 2)
            × (t.flow.forked_at_block ≡ add32 10 1)
            × (t.world.out ≡ fork (restart_at at_10 2) ∷ [])))
load_state-resumes_example =
    load_state-resumes scanning at_10 state_at_12 stored_10 refl (omega arith)

-- Two blocks, a contract with an ABI, and a history that ends with a removal.
abbrev full : Tables
full = record {
  state = some at_10;
  received_blocks = received 9 ∷ received 10 ∷ [];
  contract_abis = record { account = 4; abi = 1 ∷ [] } ∷ [];
  abi_history =
      record { account = 4; block_index = 3; abi = 1 ∷ [] }
      ∷ record { account = 4; block_index = 8; abi = [] }
      ∷ [];
}

abbrev with_tables : Tables → World SampleDb Context
with_tables t = record state_at_12.world { db = record { current = t; stack = []; base = 10 } }

full_state : (base_tables (with_tables full)).state ≡ some at_10
unfolding undo_times
full_state = refl

full_ordered : IsOrderedTables (base_tables (with_tables full))
unfolding undo_times
full_ordered = record {
  blocks = (((refl, refl), tt), (tt, tt));
  abis = (tt, tt);
  history = (((refl, refl), tt), (tt, tt));
}

read_snapshot-write_snapshot_example :
    (f : Snapshot) × ((write_snapshot "v3" (with_tables full)).0 ≡ ok f)
    × ((read_snapshot f (with_tables no_rows)).0 ≡ ok tt)
    × (sample_chainbase.contents (read_snapshot f (with_tables no_rows)).1.db
        ≡ restored (base_tables (with_tables full)))
read_snapshot-write_snapshot_example =
    read_snapshot-write_snapshot "v3" at_10 (with_tables full) (with_tables no_rows) full_state
      full_ordered refl
