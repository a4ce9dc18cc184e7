-- ===== src/Receiver/Blocks/Process.antt =====
-- What a block that has become the head leaves behind in scanning mode (receive_result of
-- chronicle-receiver/receiver_plugin.cpp, from receive_block on).
use fio_chronicle.Prelude.{
  suc, ◌-◌, ◌<◌, ◌≡◌, refl, sym, ap, subst, ◌∙◌, Option, some, none, List, arith, false, min,
}
use fio_chronicle.Prelude.Action.{ok, >>=-eq-ok, gets, modify}
use fio_chronicle.Prelude.Keeps.{Keeps, Keeps-modify, Keeps-skip, keeps_rules}
use fio_chronicle.Store.Chainbase.{Chainbase}
use fio_chronicle.Store.Abieos.{Abieos}
use fio_chronicle.Receiver.State.{World, State, Config, Output, on_world, publish, set_chain}
use fio_chronicle.Receiver.Message.{BlocksResult, BlockPosition, SignedBlock, TransactionTrace}
use fio_chronicle.Receiver.State.Keeps.{DbIs, Keeps-on_world, Keeps-publish}
use fio_chronicle.Receiver.Abi.{Now}
use fio_chronicle.Receiver.Traces.{receive_traces}
use fio_chronicle.Receiver.Traces.Keeps.{Keeps-receive_traces}
use fio_chronicle.Receiver.Flow.Commit.{commit_rev-same}
use fio_chronicle.Receiver.Flow.{commit_rev}
use fio_chronicle.Receiver.Blocks.{
  maybe, state_row, now_of, receive_block, store_block, apply_block, end_block, process_block,
}
use fio_chronicle.Receiver.Blocks.Session.{HasState, Stored, store_block-Stored}

-- `u` differs from `s` in the block's header and in what was published.
record Follows {D C : Type 0} (s u : State D C) : Type 0 where
  head : u.chain.head ≡ s.chain.head
  head_id : u.chain.head_id ≡ s.chain.head_id
  irreversible : u.chain.irreversible ≡ s.chain.irreversible
  irreversible_id : u.chain.irreversible_id ≡ s.chain.irreversible_id
  flow : u.flow ≡ s.flow
  db : u.world.db ≡ s.world.db

-- The block of `s`, its new head, has been stored in `t`.
pub record Done {D C : Type 0} ⦃cb : Chainbase D⦄ (s t : State D C) : Type 0 where
  pub head : t.chain.head ≡ s.chain.head
  pub head_id : t.chain.head_id ≡ s.chain.head_id
  pub irreversible : t.chain.irreversible ≡ s.chain.irreversible
  pub irreversible_id : t.chain.irreversible_id ≡ s.chain.irreversible_id
  pub flow : t.flow ≡ s.flow
  pub revision : cb.revision t.world.db ≡ suc (cb.revision s.world.db)
  pub depth :
      cb.depth t.world.db
      ≡ min (suc (cb.depth s.world.db)) (suc (cb.revision s.world.db) - commit_rev s.chain s.flow)
  pub saved : HasState (state_row t.chain) t.world
  pub undoing : 0 < cb.depth t.world.db → cb.contents (cb.undo t.world.db) ≡ cb.contents s.world.db

module _ {D C : Type 0} {s : State D C} where
  Follows-refl : Follows s s
  Follows-refl = record {
    head = refl;
    head_id = refl;
    irreversible = refl;
    irreversible_id = refl;
    flow = refl;
    db = refl;
  }

  Follows-world :
      (u : State D C) (w : World D C)
      → w.db ≡ u.world.db
      → Follows s u
      → Follows s (record u { world = w })
  Follows-world u w e h = record {
    head = h.head;
    head_id = h.head_id;
    irreversible = h.irreversible;
    irreversible_id = h.irreversible_id;
    flow = h.flow;
    db = e ∙ h.db;
  }

  Keeps-publish_state : (e : Output) → Keeps (Follows s) (on_world (publish e))
  Keeps-publish_state e = Keeps-on_world (Follows s) (publish e) Follows-world λ d. Keeps-publish e

  Keeps-header :
      (b : SignedBlock)
      → Keeps (Follows s) (
          modify λ u.
            set_chain (record u.chain { block_header = b.header; trx_count = b.transactions }) u)
  Keeps-header b = Keeps-modify _ λ u h. record {
    head = h.head;
    head_id = h.head_id;
    irreversible = h.irreversible;
    irreversible_id = h.irreversible_id;
    flow = h.flow;
    db = h.db;
  }

module _ {D C : Type 0} ⦃cb : Chainbase D⦄ ⦃ab : Abieos C⦄ where
  apply_block-scan :
      (c : Config) (now : Now) (msg : BlocksResult) (b : BlockPosition) (u : State D C)
      → c.interactive_mode ≡ false
      → apply_block c now msg b u ≡ store_block c msg b u
  unfolding apply_block
  apply_block-scan c now msg b u scan = rw scan refl

module _ {D C : Type 0} ⦃cb : Chainbase D⦄ ⦃ab : Abieos C⦄ {s : State D C} where
  Keeps-receive_block :
      (c : Config) (b : Option SignedBlock) → Keeps (Follows s) (receive_block c b)
  unfolding receive_block
  Keeps-receive_block c b = search (keeps_rules, Keeps-header, Keeps-publish_state) depth 12

  Keeps-maybe_block :
      (c : Config) (b : Option (Option SignedBlock)) → Keeps (Follows s) (maybe (receive_block c) b)
  Keeps-maybe_block c none = Keeps-skip
  Keeps-maybe_block c (some b) = Keeps-receive_block c b

  Done-world :
      (t : State D C) (w : World D C)
      → w.db ≡ t.world.db
      → Done s t
      → Done s (record t { world = w })
  Done-world t w e h = record {
    head = h.head;
    head_id = h.head_id;
    irreversible = h.irreversible;
    irreversible_id = h.irreversible_id;
    flow = h.flow;
    revision = ap cb.revision e ∙ h.revision;
    depth = ap cb.depth e ∙ h.depth;
    saved = ap (λ d. (cb.contents d).state) e ∙ h.saved;
    undoing =
        subst (λ d. 0 < cb.depth d → cb.contents (cb.undo d) ≡ cb.contents s.world.db) (sym e)
          h.undoing;
  }

  Keeps-maybe_traces :
      (c : Config) (now : Now) (traces : Option (List (Option TransactionTrace)))
      → Keeps (Done s) (on_world (maybe (receive_traces c now) traces))
  Keeps-maybe_traces c now traces = Keeps-on_world (Done s) _ Done-world (left traces)
    where
      left :
          (e : Option (List (Option TransactionTrace))) (d : D)
          → Keeps (DbIs {C = C} d) (maybe (receive_traces c now) e)
      left none d = Keeps-skip
      left (some es) d = Keeps-receive_traces c now es

  Keeps-publish_event : (e : Output) → Keeps (Done s) (on_world (publish e))
  Keeps-publish_event e = Keeps-on_world (Done s) (publish e) Done-world λ d. Keeps-publish e

  Stored-Done : (u t : State D C) → Follows s u → Stored u t → Done s t
  Stored-Done u t f h = record {
    head = ap (λ x. x.head) h.same_chain ∙ f.head;
    head_id = ap (λ x. x.head_id) h.same_chain ∙ f.head_id;
    irreversible = ap (λ x. x.irreversible) h.same_chain ∙ f.irreversible;
    irreversible_id = ap (λ x. x.irreversible_id) h.same_chain ∙ f.irreversible_id;
    flow = h.same_flow ∙ f.flow;
    revision = h.revision ∙ ap (λ d. suc (cb.revision d)) f.db;
    depth = omega (
      arith,
      h.depth,
      ap cb.depth f.db,
      ap cb.revision f.db,
      commit_rev-same u.chain s.chain u.flow s.flow f.irreversible f.flow,
    );
    saved = h.saved ∙ ap (λ x. some (state_row x)) (sym h.same_chain);
    undoing = λ p. h.undoing p ∙ ap cb.contents f.db;
  }

  Keeps-end_block :
      (c : Config) (now : Now) (msg : BlocksResult) → Keeps (Done s) (end_block c now msg)
  unfolding end_block
  Keeps-end_block c now msg = search (keeps_rules, Keeps-maybe_traces, Keeps-publish_event) depth 9

  -- The block that is the head by now is stored: the position is in the state table, the revision
  -- has risen by one, and undoing it restores the tables from before the block.
  pub process_block-Done :
      (c : Config) (msg : BlocksResult) (b : BlockPosition) (t : State D C)
      → c.interactive_mode ≡ false
      → process_block c msg b s ≡ (ok tt, t)
      → Done s t
  unfolding process_block gets
  process_block-Done c msg b t scan h =
      let u : State D C = (maybe (receive_block c) msg.block s).1 in
      let followed : Follows s u = (Keeps-maybe_block c msg.block).kept s Follows-refl in
      let (_, _, h₁) = >>=-eq-ok (maybe (receive_block c) msg.block) _ s h in
      let (now, _, h₂) = >>=-eq-ok (gets now_of) _ u h₁ in
      let (_, e, h₃) = >>=-eq-ok (apply_block c now msg b) _ u h₂ in
      let v : State D C = (apply_block c now msg b u).1 in
      let stored : store_block c msg b u ≡ (ok tt, v) =
        sym (apply_block-scan c now msg b u scan) ∙ (λ i. (e i, v)) in
      subst (Done s) (ap (λ p. p.1) h₃) (
        (Keeps-end_block c now msg).kept v
          (Stored-Done u v followed (store_block-Stored c msg b u v stored)))
