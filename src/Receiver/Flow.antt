-- ===== src/Receiver/Flow.antt =====
-- Flow control (chronicle-receiver/receiver_plugin.cpp: continue_read, check_pause,
-- check_stale_head, commit_db, close, on_fail, catch_and_close, and the methods of receiver_plugin
-- that the exporters call: exporter_will_ack_blocks, ack_block, slowdown, abort_receiver).
pub mod Commit
pub mod Acks
pub mod Runs
pub mod Pausing
use fio_chronicle.Prelude.{
  ℕ, ◌+◌, ◌-◌, Bool, true, false, not, ◌&&◌, ◌||◌, List, [], ◌∷◌, ◌++◌, ltb, leb, ◌==◌, add32,
  sub32, if◌then◌else◌,
}
use fio_chronicle.Prelude.Action.{Action, Result, ok, err, ack_in_interactive, ack_in_noexport}
use fio_chronicle.Store.Chainbase.{Chainbase}
use fio_chronicle.Receiver.State.{
  State, Config, Chain, Flow, Output, World, receiver_pause, armed_pause_timer, armed_stale_timer,
  started_read, closed_stream, quit_app, set_flow,
}

-- `commit_db`: the revision that is committed.
unfoldable pub commit_rev : Chain → Flow → ℕ
commit_rev ch f =
    if f.exporter_will_ack && ltb f.exporter_acked_block ch.irreversible
    then f.exporter_acked_block
    else ch.irreversible

-- The condition on which `check_pause` pauses the reader.
unfoldable pub must_pause : Config → ℕ → Chain → Flow → Bool
must_pause c queue_size ch f =
    f.slowdown_requested
    || (f.exporter_will_ack
        && (ltb 0 f.forked_at_block
            || leb f.exporter_max_unconfirmed (sub32 ch.head f.exporter_acked_block)))
    || ltb c.max_queue_size queue_size
    || (not c.interactive_mode && ch.head == sub32 f.end_block_num 1)

-- The last block has arrived, is irreversible and is acknowledged.
unfoldable pub reached_end : Chain → Flow → Bool
reached_end ch f =
    ch.head == sub32 f.end_block_num 1
    && leb ch.head ch.irreversible
    && (not f.exporter_will_ack || f.exporter_acked_block == ch.head)

-- The next length of a pause, in milliseconds.
unfoldable pub next_pause : ℕ → ℕ
next_pause msec = if msec == 0 then 50 else if ltb msec 500 then msec + 50 else msec

-- What `ack_block` does of the fields: the new ones, and whether the receiver is aborted.
unfoldable pub ack_flow : ℕ → Flow → Flow × Bool
ack_flow block_num f =
    if ltb 0 f.forked_at_block
    then (if ltb (f.forked_at_block - 1) block_num
        then (f, false)
        else if block_num == f.forked_at_block - 1
        then (record f { forked_at_block = 0; exporter_acked_block = block_num }, false)
        else (record f { exporter_acked_block = block_num }, false))
    else if ltb block_num f.exporter_acked_block
    then (f, true)
    else (record f { exporter_acked_block = block_num }, false)

-- `exporter_will_ack_blocks`
unfoldable pub exporter_will_ack_blocks : Config → ℕ → Action Flow (Unit {0})
exporter_will_ack_blocks c max_unconfirmed f =
    if c.interactive_mode
    then (err ack_in_interactive, f)
    else if c.noexport_mode
    then (err ack_in_noexport, f)
    else (ok tt, record f { exporter_will_ack = true; exporter_max_unconfirmed = max_unconfirmed })

-- `slowdown`
unfoldable pub slowdown : Bool → Flow → Flow
slowdown pause f = record f { slowdown_requested = pause }

module _ {D C : Type 0} where
  abbrev pub put_out : List Output → State D C → State D C
  put_out es s = record s { world = record w { out = w.out ++ es } }
    where
      w : World D C
      w = s.world

  -- `close`
  unfoldable pub close : State D C → State D C
  close s =
      if not s.flow.aborting && s.flow.stream_open
      then put_out (closed_stream ∷ [])
          (set_flow (record s.flow { aborting = true; stream_open = false }) s)
      else s

  -- `abort_receiver`
  unfoldable pub abort_receiver : State D C → State D C
  unfolding close
  abort_receiver s = put_out (quit_app ∷ []) (close s)

  -- `on_fail`
  unfoldable pub on_fail : State D C → State D C
  unfolding abort_receiver
  on_fail s = abort_receiver (close s)

  -- `callback`: a failed operation closes and aborts, an exception closes the connection.
  unfoldable pub callback : Bool → Action (State D C) (Unit {0}) → State D C → State D C
  unfolding on_fail close
  callback failed f s =
      if failed then on_fail s else (let (r, s') = f s in elim r [ ok _ ↦ s' | err _ ↦ close s' ])

  -- `ack_block`
  unfoldable pub ack_block : ℕ → State D C → State D C
  unfolding ack_flow abort_receiver
  ack_block block_num s =
      let (f, aborts) = ack_flow block_num s.flow in
      if aborts then abort_receiver s else set_flow f s

  -- The pause itself: the event, and the timer that goes on reading.
  unfoldable pub pause : State D C → State D C
  unfolding next_pause
  pause s =
      put_out
        (receiver_pause s.chain.head s.flow.exporter_acked_block ∷ armed_pause_timer msec ∷ [])
        (set_flow (record s.flow { pause_time_msec = msec }) s)
    where
      msec : ℕ
      msec = next_pause s.flow.pause_time_msec

  -- `check_stale_head`
  unfoldable pub check_stale_head : Config → State D C → State D C
  unfolding abort_receiver
  check_stale_head c s =
      if f.stale_check_last_head == s.chain.head
        && f.pause_time_msec == 0
        && ltb 0 s.chain.received_blocks
      then abort_receiver s
      else put_out (armed_stale_timer c.stale_check_deadline_msec ∷ [])
          (set_flow (record f { stale_check_last_head = s.chain.head }) s)
    where
      f : Flow
      f = s.flow

  module _ ⦃cb : Chainbase D⦄ where
    unfoldable pub commit_db : State D C → State D C
    unfolding commit_rev
    commit_db s = record s { world = record w { db = cb.commit (commit_rev s.chain s.flow) w.db } }
      where
        w : World D C
        w = s.world

    -- `check_pause`: whether reading goes on.
    unfoldable pub check_pause : Config → ℕ → State D C → Bool × State D C
    unfolding must_pause reached_end pause commit_db abort_receiver
    check_pause c queue_size s =
        if must_pause c queue_size s.chain s.flow
        then (if reached_end s.chain s.flow
            then (false, abort_receiver (commit_db s))
            else (false, pause s))
        else (true, s)

    -- `continue_read`
    unfoldable pub continue_read : Config → ℕ → State D C → State D C
    unfolding check_pause
    continue_read c queue_size s =
        let (go_on, s') = check_pause c queue_size s in
        if go_on
        then put_out (started_read ∷ []) (set_flow (record s'.flow { pause_time_msec = 0 }) s')
        else s'
