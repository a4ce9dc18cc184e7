-- ===== src/Receiver/Blocks/Run.antt =====
-- A run of the receiver in scanning mode (chronicle-receiver/receiver_plugin.cpp), over blocks,
-- forks, acknowledgements and pauses.
use fio_chronicle.Prelude.{
  ℕ, ◌+◌, ◌<◌, ◌≤◌, ◌≡◌, refl, sym, ap, subst, ◌∙◌, ◌&&◌, not, if◌then◌else◌, Bool, true, false,
  some, [], ◌∷◌, arith, u32_mod,
}
use fio_chronicle.Prelude.Action.{ok}
use fio_chronicle.Store.Chainbase.{Chainbase}
use fio_chronicle.Store.Abieos.{Abieos}
use fio_chronicle.Receiver.State.{State, Config, Chain, Flow, set_flow, started_read}
use fio_chronicle.Receiver.Message.{BlocksResult, BlockPosition}
use fio_chronicle.Receiver.Flow.{
  ack_block, ack_flow, commit_rev, commit_db, abort_receiver, close, pause, check_pause,
  continue_read, must_pause, reached_end, put_out,
}
use fio_chronicle.Receiver.Flow.Commit.{
  commit_rev-same, commit_db-revision, commit_db-contents, commit_db-depth,
}
use fio_chronicle.Receiver.Blocks.{receive_this, state_row}
use fio_chronicle.Receiver.Blocks.Scan.{InStep, Scanned, receive_this-Scanned}
use fio_chronicle.Receiver.Blocks.Reorg.{receive_this-forked}

-- The database is in step, and the position is stored in it.
pub record Synced {D C : Type 0} ⦃cb : Chainbase D⦄ (s : State D C) : Type 0 where
  pub in_step : InStep s
  pub stored : (cb.contents s.world.db).state ≡ some (state_row s.chain)

ack_flow-commit_rev :
    (n : ℕ) (ch : Chain) (f : Flow)
    → f.exporter_acked_block ≤ n
    → commit_rev ch f ≤ commit_rev ch (ack_flow n f).0
unfolding ack_flow commit_rev
ack_flow-commit_rev n ch f h = ground arith

module _ {D C : Type 0} where
  -- `t` has the position and the database of `s`, and commits no less.
  record Same (s t : State D C) : Type 0 where
    chain : t.chain ≡ s.chain
    db : t.world.db ≡ s.world.db
    rev : commit_rev s.chain s.flow ≤ commit_rev s.chain t.flow

  Same-refl : (s : State D C) → Same s s
  Same-refl s = record { chain = refl; db = refl; rev = omega arith }

  Same-if : (b : Bool) (s x y : State D C) → Same s x → Same s y → Same s (if b then x else y)
  Same-if true s x y h k = h
  Same-if false s x y h k = k

  Same-close : (s : State D C) → Same s (close s)
  unfolding close commit_rev
  Same-close s =
      Same-if (not s.flow.aborting && s.flow.stream_open) s _ _
        (record { chain = refl; db = refl; rev = omega arith }) (Same-refl s)

  Same-abort_receiver : (s : State D C) → Same s (abort_receiver s)
  unfolding abort_receiver
  Same-abort_receiver s = let h = Same-close s in record { chain = h.chain; db = h.db; rev = h.rev }

  Same-ack_block :
      (n : ℕ) (s : State D C) → s.flow.exporter_acked_block ≤ n → Same s (ack_block n s)
  unfolding ack_block
  Same-ack_block n s h =
      Same-if (ack_flow n s.flow).1 s _ _ (Same-abort_receiver s)
        (record { chain = refl; db = refl; rev = ack_flow-commit_rev n s.chain s.flow h })

  Same-pause : (s : State D C) → Same s (pause s)
  unfolding pause commit_rev
  Same-pause s = record { chain = refl; db = refl; rev = omega arith }

module _ {D C : Type 0} ⦃cb : Chainbase D⦄ ⦃ab : Abieos C⦄ where
  -- What happens to the state between two messages of the node, and on a message.
  pub data Step (c : Config) : State D C → State D C → Type 0 where
    next :
        (msg : BlocksResult) (b : BlockPosition) (r : Bool) (s t : State D C)
        → b.block_num ≡ s.chain.head + 1
        → b.block_num < u32_mod
        → receive_this c msg b s ≡ (ok r, t)
        → Step c s t
    forked :
        (msg : BlocksResult) (b : BlockPosition) (r : Bool) (s t : State D C)
        → msg.last_irreversible.block_num < b.block_num
        → b.block_num ≤ s.chain.head
        → 1 < b.block_num
        → receive_this c msg b s ≡ (ok r, t)
        → Step c s t
    acknowledged :
        (n : ℕ) (s : State D C) → s.flow.exporter_acked_block ≤ n → Step c s (ack_block n s)
    continued : (queue_size : ℕ) (s : State D C) → Step c s (continue_read c queue_size s)

  Synced-Same : (s t : State D C) → Same s t → Synced s → Synced t
  Synced-Same s t h v = record {
    in_step = record {
      at_head = ap cb.revision h.db ∙ v.in_step.at_head ∙ ap (λ c. c.head) (sym h.chain);
      undoable = omega (
        arith,
        ap cb.revision h.db,
        ap cb.depth h.db,
        h.rev,
        v.in_step.undoable,
        commit_rev-same t.chain s.chain t.flow t.flow (ap (λ c. c.irreversible) h.chain) refl,
      );
      small = subst (λ c. c.head < u32_mod) (sym h.chain) v.in_step.small;
    };
    stored =
        ap (λ d. (cb.contents d).state) h.db
        ∙ v.stored
        ∙ ap (λ c. some (state_row c)) (sym h.chain);
  }

  Synced-commit_db : (s : State D C) → Synced s → Synced (commit_db s)
  unfolding commit_db
  Synced-commit_db s v = record {
    in_step = record {
      at_head = commit_db-revision s ∙ v.in_step.at_head;
      undoable = omega (arith, commit_db-revision s, commit_db-depth s, v.in_step.undoable);
      small = v.in_step.small;
    };
    stored = ap (λ t. t.state) (commit_db-contents s) ∙ v.stored;
  }

  Synced-if :
      (b : Bool) (x y : Bool × State D C) → Synced x.1 → Synced y.1 → Synced (if b then x else y).1
  Synced-if true x y h k = h
  Synced-if false x y h k = k

  abbrev reading : State D C → State D C
  reading s = put_out (started_read ∷ []) (set_flow (record s.flow { pause_time_msec = 0 }) s)

  Synced-check_pause :
      (c : Config) (queue_size : ℕ) (s : State D C)
      → Synced s
      → Synced (check_pause c queue_size s).1
  unfolding check_pause
  Synced-check_pause c queue_size s v =
      Synced-if (must_pause c queue_size s.chain s.flow) _ _
        (Synced-if (reached_end s.chain s.flow) _ _
          (Synced-Same _ _ (Same-abort_receiver (commit_db s)) (Synced-commit_db s v))
          (Synced-Same s _ (Same-pause s) v))
        v

  Same-reading : (s : State D C) → Same s (reading s)
  unfolding commit_rev
  Same-reading s = record { chain = refl; db = refl; rev = omega arith }

  Synced-continue_read :
      (c : Config) (queue_size : ℕ) (s : State D C)
      → Synced s
      → Synced (continue_read c queue_size s)
  unfolding continue_read
  Synced-continue_read c queue_size s v =
      let u : State D C = (check_pause c queue_size s).1 in
      Synced-Same u _ (Same-if (check_pause c queue_size s).0 u _ _ (Same-reading u) (Same-refl u))
        (Synced-check_pause c queue_size s v)

  Scanned-Synced :
      (msg : BlocksResult) (b : BlockPosition) (t : State D C) → Scanned msg b t → Synced t
  Scanned-Synced msg b t h = record { in_step = h.in_step; stored = h.saved }

  Synced-step :
      (c : Config) (s t : State D C) → c.interactive_mode ≡ false → Step c s t → Synced s → Synced t
  Synced-step c s t scan (next msg b r _ _ at small h) v =
      Scanned-Synced msg b t (receive_this-Scanned c msg b s t r scan v.in_step at small h)
  Synced-step c s t scan (forked msg b r _ _ above below later h) v =
      Scanned-Synced msg b t
        (receive_this-forked c msg b s t r scan v.in_step above below later h).0
  Synced-step c s t scan (acknowledged n _ up) v = Synced-Same s _ (Same-ack_block n s up) v
  Synced-step c s t scan (continued queue_size _) v = Synced-continue_read c queue_size s v

  -- A run of such steps.
  pub data Steps (c : Config) : State D C → State D C → Type 0 where
    done : (s : State D C) → Steps c s s
    step : (s t u : State D C) → Step c s t → Steps c t u → Steps c s u

  -- In scanning mode, from a state in which the revision of the database is the head, its undo
  -- sessions reach down to what may be committed and the position that it stores is the receiver's:
  -- all this still holds whatever blocks follow on the head or replace a part of the chain above
  -- the irreversible block without an exception, whatever the exporter acknowledges without going
  -- back, and wherever reading pauses or goes on, in any order and number.
  pub Steps-Synced :
      (c : Config) (s t : State D C)
      → c.interactive_mode ≡ false
      → Synced s
      → Steps c s t
      → Synced t
  Steps-Synced c s t scan v (done _) = v
  Steps-Synced c s u scan v (step _ t _ h rest) =
      Steps-Synced c t u scan (Synced-step c s t scan h v) rest
