-- ===== src/Receiver/State/Keeps.antt =====
-- Calls that leave the database alone, and what of the receiver's state they keep.
use fio_chronicle.Prelude.{◌≡◌, refl}
use fio_chronicle.Prelude.Action.{Action}
use fio_chronicle.Prelude.Keeps.{Keeps, Keeps-modify, keeps_rules}
use fio_chronicle.Receiver.State.{World, State, Output, publish, on_world}

pub record DbIs {D C : Type 0} (d : D) (w : World D C) : Type 0 where
  pub same_db : w.db ≡ d

module _ {D C : Type 0} {d : D} where
  pub Keeps-publish : (e : Output) → Keeps (DbIs {C = C} d) (publish e)
  Keeps-publish e = Keeps-modify _ λ w h. record { same_db = h.same_db }

pub ruleset db_rules = (keeps_rules, Keeps-publish)

module _ {D C A : Type 0} where
  -- What does not look beyond the database is kept by a call that leaves it alone.
  pub Keeps-on_world :
      (P : State D C → Type 0) (m : Action (World D C) A)
      → ((s : State D C) (w : World D C) → w.db ≡ s.world.db → P s → P (record s { world = w }))
      → ((d : D) → Keeps (DbIs d) m)
      → Keeps P (on_world m)
  unfolding on_world
  Keeps-on_world P m stable k = record {
    kept = λ s h.
        stable s (m s.world).1 ((k s.world.db).kept s.world (record { same_db = refl })).same_db h;
  }
