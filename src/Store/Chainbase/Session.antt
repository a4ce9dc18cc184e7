-- ===== src/Store/Chainbase/Session.antt =====
-- What holds of the database while an undo session is open on it, and the writes that keep it so.
use fio_chronicle.Prelude.{suc, ◌≡◌, ◌∙◌, arith}
use fio_chronicle.Store.Tables.{Tables}
use fio_chronicle.Store.Chainbase.{Chainbase}

module _ {D : Type 0} ⦃cb : Chainbase D⦄ where
  -- One session has been opened on `before`, and everything since then was written within it.
  pub record InSession (before : D) (d : D) : Type 0 where
    pub undoes : cb.undo d ≡ before
    pub one_revision : cb.revision d ≡ suc (cb.revision before)
    pub one_level : cb.depth d ≡ suc (cb.depth before)

  pub start-InSession : (d : D) → InSession d (cb.start_undo_session d)
  start-InSession d = record {
    undoes = cb.undo-start d;
    one_revision = cb.revision-start d;
    one_level = cb.depth-start d;
  }

  pub write-InSession :
      (before d : D) (t : Tables) → InSession before d → InSession before (cb.write t d)
  write-InSession before d t h = record {
    undoes = cb.undo-write t d (omega (arith, h.one_level)) ∙ h.undoes;
    one_revision = cb.revision-write t d ∙ h.one_revision;
    one_level = cb.depth-write t d ∙ h.one_level;
  }
