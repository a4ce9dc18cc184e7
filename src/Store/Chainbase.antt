-- ===== src/Store/Chainbase.antt =====
-- The database library behind the receiver, as an interface. Its contents are the four tables; a
-- stack of undo sessions, each with a revision number, keeps what the contents were before.
pub mod Session
use fio_chronicle.Prelude.{ℕ, suc, ◌-◌, ◌<◌, ◌≡◌, Option, some, min}
use fio_chronicle.Store.Tables.{Tables}

pub record Chainbase (D : Type 0) : Type 0 where
  pub contents : D → Tables
  -- What `create`, `modify` and `remove` have made of the tables.
  pub write : Tables → D → D
  pub revision : D → ℕ
  -- The number of undo sessions: the width of `undo_stack_revision_range`.
  pub depth : D → ℕ
  pub start_undo_session : D → D
  pub undo : D → D
  pub commit : ℕ → D → D
  -- `none`: the call throws.
  pub set_revision : ℕ → D → Option D
  pub contents-write : (t : Tables) (d : D) → contents (write t d) ≡ t
  pub revision-write : (t : Tables) (d : D) → revision (write t d) ≡ revision d
  pub depth-write : (t : Tables) (d : D) → depth (write t d) ≡ depth d
  pub contents-start : (d : D) → contents (start_undo_session d) ≡ contents d
  pub revision-start : (d : D) → revision (start_undo_session d) ≡ suc (revision d)
  pub depth-start : (d : D) → depth (start_undo_session d) ≡ suc (depth d)
  pub undo-start : (d : D) → undo (start_undo_session d) ≡ d
  -- What a session has written is lost by its undoing.
  pub undo-write : (t : Tables) (d : D) → 0 < depth d → undo (write t d) ≡ undo d
  pub revision-undo : (d : D) → 0 < depth d → suc (revision (undo d)) ≡ revision d
  pub depth-undo : (d : D) → 0 < depth d → suc (depth (undo d)) ≡ depth d
  pub contents-commit : (r : ℕ) (d : D) → contents (commit r d) ≡ contents d
  pub revision-commit : (r : ℕ) (d : D) → revision (commit r d) ≡ revision d
  -- A commit drops the sessions up to its revision, and no other.
  pub depth-commit : (r : ℕ) (d : D) → depth (commit r d) ≡ min (depth d) (revision d - r)
  -- What is undone after a commit is what would have been undone without it.
  pub contents-undo-commit :
      (r : ℕ) (d : D) → 0 < depth (commit r d) → contents (undo (commit r d)) ≡ contents (undo d)
  pub set_revision-some :
      (r : ℕ) (d : D) {e : D}
      → set_revision r d ≡ some e
      → (revision e ≡ r) × (depth e ≡ depth d) × (contents e ≡ contents d)
