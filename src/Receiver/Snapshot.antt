-- ===== src/Receiver/Snapshot.antt =====
-- Portable snapshots (chronicle-receiver/receiver_plugin.cpp: write_snapshot, read_snapshot;
-- chronicle-receiver/chronicle_portable_state.hpp). The packing of rows into bytes is the fc
-- library's; a snapshot is the magic number, the version and the rows in the order in which they
-- are packed. An exception leaves a file that has no end row.
pub mod RoundTrip
use Prim.Native.String.{String}
use fio_chronicle.Prelude.{
  ℕ, Bool, true, false, ◌||◌, not, List, [], ◌∷◌, ◌++◌, map, Option, none, some, ltb, ◌==◌, length,
  keep_if, if◌then◌else◌,
}
use fio_chronicle.Prelude.Action.{
  Action, pure, gets, or_throw, modify, throw_if, throw, skip, if_found, ◌>>=◌, ◌>>◌, decode_error,
  uniqueness_violated, no_valid_state, state_exists, bad_magic, bad_format_version, bad_end_magic,
}
use fio_chronicle.Store.Index.{create}
use fio_chronicle.Store.Tables.{
  StateObject, ReceivedBlock, ContractAbi, AbiHistory, Tables, by_blocknum, by_name,
  by_name_and_block,
}
use fio_chronicle.Store.Chainbase.{Chainbase}
use fio_chronicle.Receiver.State.{World}
use fio_chronicle.Receiver.Startup.{revert_uncommitted_revisions}

-- `chronicle_portable_state::row`
pub data SnapshotRow : Type 0 where
  state_object_v0 : StateObject → SnapshotRow
  received_block_object_v0 : ReceivedBlock → SnapshotRow
  contract_abi_object_v0 : ContractAbi → SnapshotRow
  contract_abi_history_v0 : AbiHistory → SnapshotRow
  stream_end_v0 : (magic_number : ℕ) → SnapshotRow

pub record Snapshot : Type 0 where
  pub magic_number : ℕ
  pub format_version : ℕ
  pub chronicle_version : String
  pub rows : List SnapshotRow

-- 0x67c7d12ce9fc56c1
abbrev pub snapshot_magic : ℕ
snapshot_magic = 7478175697106392769

abbrev pub min_version_supported : ℕ
min_version_supported = 0

abbrev pub max_version_supported : ℕ
max_version_supported = 0

abbrev pub current_version : ℕ
current_version = 0

-- `if( itr->abi.size() > 0 )`
abbrev pub has_abi : ContractAbi → Bool
has_abi o = ltb 0 (length o.abi)

abbrev pub has_history_abi : AbiHistory → Bool
has_history_abi o = ltb 0 (length o.abi)

-- The rows of the tables, and the end of the stream.
abbrev pub rows_of : StateObject → Tables → List SnapshotRow
rows_of o t =
    state_object_v0 o ∷ map received_block_object_v0 t.received_blocks
    ++ (map contract_abi_object_v0 (keep_if has_abi t.contract_abis)
        ++ (map contract_abi_history_v0 (keep_if has_history_abi t.abi_history)
            ++ stream_end_v0 snapshot_magic ∷ []))

module _ {D C : Type 0} ⦃cb : Chainbase D⦄ where
  unfoldable pub write_snapshot : String → Action (World D C) Snapshot
  write_snapshot version = do
    revert_uncommitted_revisions
    t ← gets (λ w. cb.contents w.db)
    o ← or_throw t.state no_valid_state
    pure (record {
      magic_number = snapshot_magic;
      format_version = current_version;
      chronicle_version = version;
      rows = rows_of o t;
    })

-- The row with the lowest id stays the first of its index.
abbrev pub first_state : Option StateObject → StateObject → StateObject
first_state none o = o
first_state (some first) o = first

-- One row; the result is whether the stream has ended.
unfoldable pub read_row : SnapshotRow → Action Tables Bool
read_row (state_object_v0 o) = do
  modify (λ t. record t { state = some (first_state t.state o) })
  pure false
read_row (received_block_object_v0 o) = do
  rows ← gets (λ t. t.received_blocks)
  rows' ← or_throw (create by_blocknum o rows) uniqueness_violated
  modify (λ t. record t { received_blocks = rows' })
  pure false
read_row (contract_abi_object_v0 o) = do
  rows ← gets (λ t. t.contract_abis)
  rows' ← or_throw (create by_name o rows) uniqueness_violated
  modify (λ t. record t { contract_abis = rows' })
  pure false
read_row (contract_abi_history_v0 o) = do
  rows ← gets (λ t. t.abi_history)
  rows' ← or_throw (create by_name_and_block o rows) uniqueness_violated
  modify (λ t. record t { abi_history = rows' })
  pure false
read_row (stream_end_v0 magic_number) =
    if magic_number == snapshot_magic then pure true else throw bad_end_magic

-- The rows up to the end of the stream; a stream that breaks off throws.
unfoldable pub read_rows : List SnapshotRow → Action Tables (Unit {0})
unfolding read_row
read_rows [] = throw decode_error
read_rows (r ∷ rest) = do ended ← read_row r; if ended then skip else read_rows rest

module _ {D C : Type 0} ⦃cb : Chainbase D⦄ where
  -- Rows that are created outside an undo session.
  abbrev pub on_tables : {A : Type 0} → Action Tables A → Action (World D C) A
  on_tables m w = let (r, t) = m (cb.contents w.db) in (r, record w { db = cb.write t w.db })

  unfoldable pub read_snapshot : Snapshot → Action (World D C) (Unit {0})
  unfolding read_rows
  read_snapshot f = do
    throw_if (not (f.magic_number == snapshot_magic)) bad_magic
    throw_if
        (ltb f.format_version min_version_supported || ltb max_version_supported f.format_version)
        bad_format_version
    t ← gets (λ w. cb.contents w.db)
    if_found t.state (λ o. throw state_exists) skip
    on_tables (read_rows f.rows)
