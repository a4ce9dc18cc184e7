-- ===== src/Receiver/Flow/Commit.antt =====
-- What `commit_db` commits (chronicle-receiver/receiver_plugin.cpp).
use fio_chronicle.Prelude.{◌-◌, ◌≤◌, ◌≡◌, true, arith, min}
use fio_chronicle.Store.Chainbase.{Chainbase}
use fio_chronicle.Receiver.State.{State, Chain, Flow}
use fio_chronicle.Receiver.Flow.{commit_rev, commit_db}

-- Nothing above the irreversible block is committed, nor anything that an acknowledging exporter
-- has not acknowledged; and the smaller of the two numbers is committed.
pub commit_rev_bounds :
    (ch : Chain) (f : Flow)
    → (commit_rev ch f ≤ ch.irreversible)
      × (f.exporter_will_ack ≡ true → commit_rev ch f ≡ min f.exporter_acked_block ch.irreversible)
unfolding commit_rev
commit_rev_bounds ch f = ground arith

module _ {D C : Type 0} ⦃cb : Chainbase D⦄ (s : State D C) where
  -- A commit leaves all but the undo sessions as it is.
  pub commit_db-revision : cb.revision (commit_db s).world.db ≡ cb.revision s.world.db
  unfolding commit_db
  commit_db-revision = cb.revision-commit _ s.world.db

  pub commit_db-contents : cb.contents (commit_db s).world.db ≡ cb.contents s.world.db
  unfolding commit_db
  commit_db-contents = cb.contents-commit _ s.world.db

  pub commit_db-depth :
      cb.depth (commit_db s).world.db
      ≡ min (cb.depth s.world.db) (cb.revision s.world.db - commit_rev s.chain s.flow)
  unfolding commit_db
  commit_db-depth = cb.depth-commit _ s.world.db

-- The committed revision turns on the irreversible block and the acknowledgements alone.
pub commit_rev-same :
    (ch ch' : Chain) (f f' : Flow)
    → ch.irreversible ≡ ch'.irreversible
    → f ≡ f'
    → commit_rev ch f ≡ commit_rev ch' f'
unfolding commit_rev
commit_rev-same ch ch' f f' e k = ground arith

-- It does not fall when the irreversible block rises.
pub commit_rev_mono :
    (ch ch' : Chain) (f : Flow)
    → ch.irreversible ≤ ch'.irreversible
    → commit_rev ch f ≤ commit_rev ch' f
unfolding commit_rev
commit_rev_mono ch ch' f e = ground arith
