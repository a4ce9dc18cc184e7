-- ===== src/Receiver/Blocks/Session.antt =====
-- The undo session around the state changes of a block (receive_result of
-- chronicle-receiver/receiver_plugin.cpp, from start_undo_session to commit_db).
use fio_chronicle.Prelude.{
  subst, ℕ, suc, ◌-◌, ◌≡◌, refl, sym, ap, ◌∙◌, ◌<◌, Option, none, some, List, arith, min,
}
use fio_chronicle.Prelude.Action.{
  Action, Result, ok, err, Error, ◌>>=◌, continue, continue-eq-ok, modify,
}
use fio_chronicle.Prelude.Keeps.{Keeps, Keeps-skip}
use fio_chronicle.Prelude.Ensures.{Ensures, Ensures-last, Ensures-modify}
use fio_chronicle.Store.Tables.{StateObject}
use fio_chronicle.Store.Chainbase.{Chainbase}
use fio_chronicle.Store.Chainbase.Session.{start-InSession}
use fio_chronicle.Store.Abieos.{Abieos}
use fio_chronicle.Receiver.State.{World, State, Config, Chain, on_world}
use fio_chronicle.Receiver.Message.{BlocksResult, BlockPosition, DeltaEntry}
use fio_chronicle.Receiver.Abi.{Now}
use fio_chronicle.Receiver.Abi.Session.{Kept, session_rules}
use fio_chronicle.Receiver.Deltas.{receive_deltas}
use fio_chronicle.Receiver.Deltas.Session.{Keeps-receive_deltas}
use fio_chronicle.Receiver.Flow.{commit_rev, commit_db}
use fio_chronicle.Receiver.Blocks.{
  maybe, opened, end_session, state_row, record_block, save_state, write_block, in_session,
  store_block, now_of,
}

module _ {D C : Type 0} ⦃cb : Chainbase D⦄ where
  abbrev pub HasState : StateObject → World D C → Type 0
  HasState row w = (cb.contents w.db).state ≡ some row

module _ {D C : Type 0} ⦃cb : Chainbase D⦄ ⦃ab : Abieos C⦄ {before : D} where
  Keeps-record_block :
      (irreversible : ℕ) (b : BlockPosition)
      → Keeps (Kept {C = C} before) (record_block irreversible b)
  unfolding record_block
  Keeps-record_block irreversible b = search session_rules depth 9

  Keeps-maybe_deltas :
      (c : Config) (now : Now) (deltas : Option (List DeltaEntry))
      → Keeps (Kept {C = C} before) (maybe (receive_deltas c now) deltas)
  Keeps-maybe_deltas c now none = Keeps-skip
  Keeps-maybe_deltas c now (some entries) = Keeps-receive_deltas c now entries

  pub Keeps-write_block :
      (c : Config) (now : Now) (ch : Chain) (msg : BlocksResult) (b : BlockPosition)
      → Keeps (Kept {C = C} before) (write_block c now ch msg b)
  unfolding write_block save_state
  Keeps-write_block c now ch msg b =
      search (session_rules, Keeps-record_block, Keeps-maybe_deltas) depth 9

module _ {D C : Type 0} ⦃cb : Chainbase D⦄ ⦃ab : Abieos C⦄ where
  Kept-opened : (w : World D C) → Kept w.db (opened w)
  Kept-opened w = record { session = start-InSession w.db }

  end_session-ok :
      (before : D) (r : Result (Unit {0})) (w w' : World D C)
      → end_session r w ≡ (ok tt, w')
      → Kept before w
      → Kept before w' × (r ≡ ok tt) × (w ≡ w')
  end_session-ok before (ok tt) w w' h k = (subst (Kept before) (ap (λ p. p.1) h) k, refl, cc)
  end_session-ok before (err e) w w' h k = cc

  end_session-err :
      (before : D) (e : Error) (r : Result (Unit {0})) (w w' : World D C)
      → end_session r w ≡ (err e, w')
      → Kept before w
      → w'.db ≡ before
  end_session-err before e (ok tt) w w' h k = cc
  end_session-err before e (err x) w w' h k = sym (ap (λ p. p.1.db) h) ∙ k.session.undoes

  -- A body that returns has written its own session, and no other.
  in_session-ok :
      (body : Action (World D C) (Unit {0})) (w w' : World D C)
      → Keeps (Kept w.db) body
      → in_session body w ≡ (ok tt, w')
      → Kept w.db w' × ((body (opened w)).0 ≡ ok tt) × ((body (opened w)).1 ≡ w')
  unfolding in_session
  in_session-ok body w w' k h =
      let (r, u) = body (opened w) in
      end_session-ok w.db r u w' h (k.kept (opened w) (Kept-opened w))

  -- A body that throws has its writes undone.
  in_session-err :
      (body : Action (World D C) (Unit {0})) (w w' : World D C) (e : Error)
      → Keeps (Kept w.db) body
      → in_session body w ≡ (err e, w')
      → w'.db ≡ w.db
  unfolding in_session
  in_session-err body w w' e k h =
      let (r, u) = body (opened w) in
      end_session-err w.db e r u w' h (k.kept (opened w) (Kept-opened w))

  -- A block's session leaves the position in the state table.
  write_block-state :
      (c : Config) (now : Now) (ch : Chain) (msg : BlocksResult) (b : BlockPosition)
      → Ensures (HasState {D = D} {C = C} (state_row ch)) (write_block c now ch msg b)
  unfolding write_block save_state
  write_block-state c now ch msg b =
      Ensures-last _ _ λ _.
        Ensures-last _ _ λ _. Ensures-modify _ λ w. ap (λ t. t.state) (cb.contents-write _ w.db)

-- What storing a block has done, from `s` to `t`.
pub record Stored {D C : Type 0} ⦃cb : Chainbase D⦄ (s t : State D C) : Type 0 where
  pub same_chain : t.chain ≡ s.chain
  pub same_flow : t.flow ≡ s.flow
  pub revision : cb.revision t.world.db ≡ suc (cb.revision s.world.db)
  pub depth :
      cb.depth t.world.db
      ≡ min (suc (cb.depth s.world.db)) (suc (cb.revision s.world.db) - commit_rev s.chain s.flow)
  pub saved : HasState (state_row s.chain) t.world
  pub undoing : 0 < cb.depth t.world.db → cb.contents (cb.undo t.world.db) ≡ cb.contents s.world.db

module _ {D C : Type 0} ⦃cb : Chainbase D⦄ ⦃ab : Abieos C⦄ where
  -- The commit after a session that was opened on the database of `s`.
  commit_db-Stored :
      (s : State D C) (w : World D C)
      → Kept s.world.db w
      → HasState (state_row s.chain) w
      → Stored s (commit_db (record s { world = w }))
  unfolding commit_db
  commit_db-Stored s w k saved =
      let r = commit_rev s.chain s.flow in
      record {
        same_chain = refl;
        same_flow = refl;
        revision = cb.revision-commit r w.db ∙ k.session.one_revision;
        depth = omega (arith, cb.depth-commit r w.db, k.session.one_level, k.session.one_revision);
        saved = ap (λ t. t.state) (cb.contents-commit r w.db) ∙ saved;
        undoing = λ h. cb.contents-undo-commit r w.db h ∙ ap cb.contents k.session.undoes;
      }

  pub store_block-Stored :
      (c : Config) (msg : BlocksResult) (b : BlockPosition) (s t : State D C)
      → store_block c msg b s ≡ (ok tt, t)
      → Stored s t
  unfolding store_block ◌>>=◌ on_world
  store_block-Stored c msg b s t h =
      let body = write_block c (now_of s) s.chain msg b in
      let w : World D C = (in_session body s.world).1 in
      let (a, e, rest) =
        continue-eq-ok (in_session body s.world).0 (λ _. modify commit_db) (record s { world = w })
          h in
      let (k, returned, end) =
        in_session-ok body s.world w (Keeps-write_block c (now_of s) s.chain msg b)
          (λ i. (e i, w)) in
      subst (Stored s) (ap (λ p. p.1) rest) (
        commit_db-Stored s w k (
          (write_block-state c (now_of s) s.chain msg b).at (opened s.world) w tt
            (λ i. (returned i, end i))))

  commit-err :
      (r : Result (Unit {0})) (u t : State D C) (x : Error)
      → continue r (λ _. modify commit_db) u ≡ (err x, t)
      → (r ≡ err x) × (u ≡ t)
  unfolding modify
  commit-err (ok _) u t x h = cc
  commit-err (err e) u t x h = (cc, cc)

  -- If the storing of a block (its row, its deltas, the position) throws, the database is left as
  -- it was.
  pub store_block-err :
      (c : Config) (msg : BlocksResult) (b : BlockPosition) (s t : State D C) (x : Error)
      → store_block c msg b s ≡ (err x, t)
      → t.world.db ≡ s.world.db
  unfolding store_block ◌>>=◌ on_world
  store_block-err c msg b s t x h =
      let body = write_block c (now_of s) s.chain msg b in
      let w : World D C = (in_session body s.world).1 in
      let (e, end) = commit-err (in_session body s.world).0 (record s { world = w }) t x h in
      sym (ap (λ u. u.world.db) end)
      ∙ in_session-err body s.world w x (Keeps-write_block c (now_of s) s.chain msg b)
          (λ i. (e i, w))
