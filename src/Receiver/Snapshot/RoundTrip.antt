-- ===== src/Receiver/Snapshot/RoundTrip.antt =====
-- What a snapshot restores (chronicle-receiver/receiver_plugin.cpp: write_snapshot, read_snapshot).
use Prim.Native.String.{String}
use fio_chronicle.Prelude.{
  ◌≡◌, refl, sym, ap, subst, ◌∙◌, Bool, true, false, List, [], ◌∷◌, ◌++◌, map, append_assoc,
  append-nil, some, none, All, keep_if, Bool-cases, inl, inr,
}
use fio_chronicle.Prelude.Action.{ok, ◌>>=◌}
use fio_chronicle.Store.Index.{create}
use fio_chronicle.Store.Tables.{
  StateObject, ReceivedBlock, ContractAbi, AbiHistory, Tables, no_rows, by_blocknum, by_name,
  by_name_and_block,
}
use fio_chronicle.Store.Chainbase.{Chainbase}
use fio_chronicle.Receiver.State.{World}
use fio_chronicle.Receiver.Blocks.Fork.{undo_times}
use fio_chronicle.Receiver.Startup.Resume.{reverted, revert_uncommitted_revisions_lem}
use fio_chronicle.Receiver.Snapshot.{
  SnapshotRow, state_object_v0, received_block_object_v0, contract_abi_object_v0,
  contract_abi_history_v0, stream_end_v0, Snapshot, snapshot_magic, has_abi, has_history_abi,
  rows_of, write_snapshot, read_row, read_rows, read_snapshot,
}

module _ {A : Type 0} (before : A → A → Bool) where
  -- Each row stands before all that follow, and not behind them.
  abbrev pub Ordered : A → A → Type 0
  Ordered x y = (before x y ≡ true) × (before y x ≡ false)

  abbrev pub IsOrdered : List A → Type 0
  IsOrdered [] = Unit
  IsOrdered (x ∷ xs) = All (Ordered x) xs × IsOrdered xs

  All-keep_if :
      (x : A) (p : A → Bool) (xs : List A) → All (Ordered x) xs → All (Ordered x) (keep_if p xs)
  All-keep_if x p [] h = tt
  All-keep_if x p (y ∷ ys) h = elim (Bool-cases (p y)) [
    | inl yes_kept ↦ rw yes_kept (h.0, All-keep_if x p ys h.1)
    | inr dropped ↦ rw dropped (All-keep_if x p ys h.1)
  ]

  pub keep_if-IsOrdered : (p : A → Bool) (xs : List A) → IsOrdered xs → IsOrdered (keep_if p xs)
  keep_if-IsOrdered p [] h = tt
  keep_if-IsOrdered p (x ∷ xs) h = elim (Bool-cases (p x)) [
    | inl yes_kept ↦ rw yes_kept (All-keep_if x p xs h.0, keep_if-IsOrdered p xs h.1)
    | inr dropped ↦ rw dropped (keep_if-IsOrdered p xs h.1)
  ]

  -- What stands in front of a row comes before it.
  IsOrdered-front :
      (ys : List A) (x : A) (xs : List A) → IsOrdered (ys ++ x ∷ xs) → All (λ y. Ordered y x) ys
  IsOrdered-front [] x xs h = tt
  IsOrdered-front (y ∷ ys) x xs h = (All-at ys h.0, IsOrdered-front ys x xs h.1)
    where
      All-at : (zs : List A) → All (Ordered y) (zs ++ x ∷ xs) → Ordered y x
      All-at [] k = k.0
      All-at (z ∷ zs) k = All-at zs k.1

  -- A row behind all others is created at the end.
  create-last :
      (x : A) (ys : List A) → All (λ y. Ordered y x) ys → create before x ys ≡ some (ys ++ x ∷ [])
  unfolding create
  create-last x [] h = refl
  create-last x (y ∷ ys) h = rw (h.0.1) (rw (h.0.0) (rw (create-last x ys h.1) refl))

  -- A section of the stream, for the rows of one table.
  module _ (wrap : A → SnapshotRow) (put : List A → Tables → Tables)
      (step : (x : A) (ys rows : List A) (t : Tables)
        → create before x ys ≡ some rows
        → read_row (wrap x) (put ys t) ≡ (ok false, put rows t)) where
    pub read_rows-section :
        (ys xs : List A) (rest : List SnapshotRow) (t : Tables)
        → IsOrdered (ys ++ xs)
        → read_rows (map wrap xs ++ rest) (put ys t) ≡ read_rows rest (put (ys ++ xs) t)
    unfolding read_rows ◌>>=◌
    read_rows-section ys [] rest t h = ap (λ l. read_rows rest (put l t)) (sym (append-nil ys))
    read_rows-section ys (x ∷ xs) rest t h =
        rw (step x ys (ys ++ x ∷ []) t (create-last x ys (IsOrdered-front ys x xs h))) (
          read_rows-section (ys ++ x ∷ []) xs rest t
            (subst IsOrdered (sym (append_assoc ys (x ∷ []) xs)) h)
          ∙ ap (λ l. read_rows rest (put l t)) (append_assoc ys (x ∷ []) xs))

-- What a snapshot keeps of the tables: all rows but those with an empty ABI.
abbrev pub restored : Tables → Tables
restored t = record t {
  contract_abis = keep_if has_abi t.contract_abis;
  abi_history = keep_if has_history_abi t.abi_history;
}

-- As the unique indices keep their rows.
pub record IsOrderedTables (t : Tables) : Type 0 where
  pub blocks : IsOrdered by_blocknum t.received_blocks
  pub abis : IsOrdered by_name t.contract_abis
  pub history : IsOrdered by_name_and_block t.abi_history

read_rows-blocks :
    (xs : List ReceivedBlock) (rest : List SnapshotRow) (t : Tables)
    → IsOrdered by_blocknum xs
    → read_rows (map received_block_object_v0 xs ++ rest) (record t { received_blocks = [] })
      ≡ read_rows rest (record t { received_blocks = xs })
unfolding read_row ◌>>=◌
read_rows-blocks xs rest t h =
    read_rows-section by_blocknum received_block_object_v0 (λ l u. record u { received_blocks = l })
      (λ x ys rows u e. rw e refl) [] xs rest t h

read_rows-abis :
    (xs : List ContractAbi) (rest : List SnapshotRow) (t : Tables)
    → IsOrdered by_name xs
    → read_rows (map contract_abi_object_v0 xs ++ rest) (record t { contract_abis = [] })
      ≡ read_rows rest (record t { contract_abis = xs })
unfolding read_row ◌>>=◌
read_rows-abis xs rest t h =
    read_rows-section by_name contract_abi_object_v0 (λ l u. record u { contract_abis = l })
      (λ x ys rows u e. rw e refl) [] xs rest t h

read_rows-history :
    (xs : List AbiHistory) (rest : List SnapshotRow) (t : Tables)
    → IsOrdered by_name_and_block xs
    → read_rows (map contract_abi_history_v0 xs ++ rest) (record t { abi_history = [] })
      ≡ read_rows rest (record t { abi_history = xs })
unfolding read_row ◌>>=◌
read_rows-history xs rest t h =
    read_rows-section by_name_and_block contract_abi_history_v0
      (λ l u. record u { abi_history = l }) (λ x ys rows u e. rw e refl) [] xs rest t h

read_rows-start :
    (o : StateObject) (rest : List SnapshotRow)
    → read_rows (state_object_v0 o ∷ rest) no_rows
      ≡ read_rows rest (record no_rows { state = some o })
unfolding read_rows read_row ◌>>=◌
read_rows-start o rest = refl

read_rows-end : (t : Tables) → read_rows (stream_end_v0 snapshot_magic ∷ []) t ≡ (ok tt, t)
unfolding read_rows read_row ◌>>=◌
read_rows-end t = refl

-- The stream of a database's rows, read into an empty database.
read_rows-rows_of :
    (o : StateObject) (t : Tables)
    → t.state ≡ some o
    → IsOrderedTables t
    → read_rows (rows_of o t) no_rows ≡ (ok tt, restored t)
read_rows-rows_of o t e h =
    read_rows-start o _
    ∙ read_rows-blocks t.received_blocks _ (record no_rows { state = some o }) h.blocks
    ∙ read_rows-abis abis _ (record no_rows { state = some o; received_blocks = t.received_blocks })
        (keep_if-IsOrdered by_name has_abi t.contract_abis h.abis)
    ∙ read_rows-history hist _
        (record no_rows {
          state = some o;
          received_blocks = t.received_blocks;
          contract_abis = abis;
        })
        (keep_if-IsOrdered by_name_and_block has_history_abi t.abi_history h.history)
    ∙ read_rows-end _
    ∙ ap (λ s. (ok tt, record (restored t) { state = s })) (sym e)
  where
    abis : List ContractAbi
    abis = keep_if has_abi t.contract_abis

    hist : List AbiHistory
    hist = keep_if has_history_abi t.abi_history

module _ {D C : Type 0} ⦃cb : Chainbase D⦄ where
  abbrev pub base_tables : World D C → Tables
  base_tables w = cb.contents (undo_times (cb.depth w.db) w.db)

  write_snapshot_lem :
      (version : String) (o : StateObject) (w : World D C)
      → (base_tables w).state ≡ some o
      → write_snapshot version w ≡ (
        ok (record {
          magic_number = snapshot_magic;
          format_version = 0;
          chronicle_version = version;
          rows = rows_of o (base_tables w);
        }),
        reverted w,
      )
  unfolding write_snapshot ◌>>=◌
  write_snapshot_lem version o w e = rw (revert_uncommitted_revisions_lem w) (rw e refl)

  read_snapshot_lem :
      (f : Snapshot) (t : Tables) (w : World D C)
      → f.magic_number ≡ snapshot_magic
      → f.format_version ≡ 0
      → (cb.contents w.db).state ≡ none
      → read_rows f.rows (cb.contents w.db) ≡ (ok tt, t)
      → read_snapshot f w ≡ (ok tt, record w { db = cb.write t w.db })
  unfolding read_snapshot ◌>>=◌
  read_snapshot_lem f t w magic version fresh e = rw magic (rw version (rw fresh (rw e refl)))

  -- A snapshot can always be written of a database whose committed tables have a state and rows in
  -- the orders of their indices, and be read into an empty one. There it restores the committed
  -- tables, without the rows that have an empty ABI.
  pub read_snapshot-write_snapshot :
      (version : String) (o : StateObject) (w w' : World D C)
      → (base_tables w).state ≡ some o
      → IsOrderedTables (base_tables w)
      → cb.contents w'.db ≡ no_rows
      → (f : Snapshot) × ((write_snapshot version w).0 ≡ ok f)
        × ((read_snapshot f w').0 ≡ ok tt)
        × (cb.contents (read_snapshot f w').1.db ≡ restored (base_tables w))
  read_snapshot-write_snapshot version o w w' e h empty =
      let f : Snapshot = record {
        magic_number = snapshot_magic;
        format_version = 0;
        chronicle_version = version;
        rows = rows_of o (base_tables w);
      } in
      let read =
        read_snapshot_lem f (restored (base_tables w)) w' refl refl (ap (λ t. t.state) empty) (
          ap (λ t. read_rows (rows_of o (base_tables w)) t) empty
          ∙ read_rows-rows_of o (base_tables w) e h) in
      (
        f,
        ap (λ p. p.0) (write_snapshot_lem version o w e),
        ap (λ p. p.0) read,
        ap (λ p. cb.contents p.1.db) read ∙ cb.contents-write (restored (base_tables w)) w'.db,
      )
