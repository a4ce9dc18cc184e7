-- ===== src/Receiver/Tests/Flow.antt =====
-- The theorems on acknowledgements, pauses and interactive requests at concrete inputs.
use fio_chronicle.Prelude.{List, Has, ◌≤◌, ◌≡◌, ◌⊎◌, refl, true, false, [], ◌∷◌, ◌++◌, arith}
use fio_chronicle.Store.Sample.{SampleDb, sample_chainbase, sample_abieos}
use fio_chronicle.Receiver.State.{State, Flow, Chain, Output, quit_app}
use fio_chronicle.Receiver.Samples.{Context, scanning, interactive, state_at_12, flowing, at_12}
use fio_chronicle.Receiver.Flow.{must_pause, reached_end, continue_read}
use fio_chronicle.Receiver.Flow.Acks.{ack_all, must_pause-fork, must_pause-ahead}
use fio_chronicle.Receiver.Flow.Runs.{
  ascends, with_acked, Adds, ack_blocks, ack_blocks-ascends, ack_blocks-released,
}
use fio_chronicle.Receiver.Flow.Pausing.{IsPause, continue_read-IsPause}
use fio_chronicle.Receiver.Interactive.{on_block_req, accepts_request}
use fio_chronicle.Receiver.Interactive.Queue.{IsBusy, accepted_requests, on_block_req-order}

abbrev forked_at_12 : Flow
forked_at_12 = record flowing { forked_at_block = 12 }

-- After the fork: other blocks, the awaited one, and two that follow.
ack_blocks-released_example :
    (ack_blocks (10 ∷ 12 ∷ []) (record state_at_12 { flow = forked_at_12 })
      ≡ record state_at_12 { flow = record forked_at_12 { exporter_acked_block = 10 } })
    × (ack_blocks (10 ∷ 12 ∷ 11 ∷ 12 ∷ 13 ∷ []) (record state_at_12 { flow = forked_at_12 })
        ≡ record state_at_12 {
          flow = record forked_at_12 { forked_at_block = 0; exporter_acked_block = 13 };
        })
ack_blocks-released_example =
    ack_blocks-released (10 ∷ 12 ∷ []) (12 ∷ 13 ∷ []) 11
      (record state_at_12 { flow = forked_at_12 }) (omega arith, (omega arith, tt)) refl refl

-- From 11 on: 12, and back to 10.
ack_blocks-ascends_example :
    ((ascends 11 (12 ∷ 10 ∷ []) ≡ true)
      × (ack_blocks (12 ∷ 10 ∷ []) state_at_12 ≡ with_acked 10 state_at_12))
    ⊎ ((ascends 11 (12 ∷ 10 ∷ []) ≡ false)
        × ((es : List Output) × Adds state_at_12 es (ack_blocks (12 ∷ 10 ∷ []) state_at_12)
            × Has quit_app es))
ack_blocks-ascends_example = ack_blocks-ascends (12 ∷ 10 ∷ []) state_at_12 refl

must_pause-fork_example :
    must_pause scanning 0 at_12 (ack_all (10 ∷ 12 ∷ 9 ∷ []) forked_at_12) ≡ true
must_pause-fork_example =
    must_pause-fork scanning 0 at_12 (10 ∷ 12 ∷ 9 ∷ []) forked_at_12 refl (omega arith)
      (omega arith, (omega arith, (omega arith, tt)))

abbrev acked_14 : Flow
acked_14 = record flowing { exporter_acked_block = 14 }

must_pause-ahead_example : must_pause scanning 0 at_12 acked_14 ≡ true
must_pause-ahead_example =
    must_pause-ahead scanning 0 at_12 acked_14 refl (omega arith) (omega arith) (omega arith)

-- The exporter asks to slow down after a pause of 100 ms.
abbrev slowed : State SampleDb Context
slowed = record state_at_12 {
  flow = record flowing { slowdown_requested = true; pause_time_msec = 100 };
}

continue_read-IsPause_example :
    ((must_pause scanning 0 slowed.chain slowed.flow ≡ false)
      × ((continue_read scanning 0 slowed).flow.pause_time_msec ≡ 0))
    ⊎ ((must_pause scanning 0 slowed.chain slowed.flow ≡ true)
        × (reached_end slowed.chain slowed.flow ≡ false)
        × IsPause (continue_read scanning 0 slowed).flow.pause_time_msec
        × (50 ≤ (continue_read scanning 0 slowed).flow.pause_time_msec)
        × (100 ≤ (continue_read scanning 0 slowed).flow.pause_time_msec))
    ⊎ ((must_pause scanning 0 slowed.chain slowed.flow ≡ true)
        × (reached_end slowed.chain slowed.flow ≡ true)
        × ((continue_read scanning 0 slowed).flow.pause_time_msec ≡ 100))
continue_read-IsPause_example = continue_read-IsPause scanning 0 slowed (refl, omega arith)

-- The end block 12 has arrived, is irreversible and acknowledged.
abbrev at_end : Chain
at_end = record at_12 { irreversible = 12 }

abbrev flow_at_end : Flow
flow_at_end = record flowing { exporter_acked_block = 12; end_block_num = 13 }

at_end-reached_end : reached_end at_end flow_at_end ≡ true
unfolding reached_end
at_end-reached_end = refl

on_block_req-order_example :
    IsBusy (on_block_req interactive (11, 12) state_at_12).requests
    × (((accepts_request (sample_chainbase.contents state_at_12.world.db).state (11, 12) ≡ true)
          × (accepted_requests interactive (on_block_req interactive (11, 12) state_at_12)
              ≡ accepted_requests interactive state_at_12 ++ (11, 12) ∷ []))
        ⊎ ((accepts_request (sample_chainbase.contents state_at_12.world.db).state (11, 12) ≡ false)
            × (on_block_req interactive (11, 12) state_at_12 ≡ state_at_12)))
on_block_req-order_example =
    on_block_req-order interactive (11, 12) state_at_12
      (record { busy = λ ready waits. absurd (waits refl) })
