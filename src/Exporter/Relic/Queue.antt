-- ===== src/Exporter/Relic/Queue.antt =====
-- The queue of the exporter to the relic database (chronicle-receiver/exp_relic_plugin.cpp,
-- async_send_events, push_msg, on_event_json, on_event_bin, plugin_initialize, start).
use Prim.Native.String.{String}
use fio_chronicle.Prelude.{
  ℕ, ◌/◌, true, false, List, [], ◌∷◌, ◌++◌, length, if◌then◌else◌, ltb, leb, ◌==◌, mul32, sub32,
}
use fio_chronicle.Prelude.Action.{ok, err}
use fio_chronicle.Exporter.Text.{text}
use fio_chronicle.Exporter.Json.{Json, null, string, object, no_members, member}
use fio_chronicle.Exporter.Relic.{
  Services, Relic, slowed, armed_timer, cancelled_timer, aborted, emit, finish_if_lost,
}
use fio_chronicle.Exporter.Relic.Blocks.{on_document}

-- `queue_lwm = queue_hwm * 3 / 4`
abbrev pub low_water : ℕ → ℕ
low_water hwm = mul32 hwm 3 / 4

-- The pause when there is nothing to do.
abbrev pub longer_pause : ℕ → ℕ
longer_pause p = if p == 0 then 5 else if ltb p 256 then mul32 p 2 else p

-- The document that a message of on_event_json parses to.
abbrev pub event_document : String → Json → Json
event_document msgtype event =
    object (member (text "msgtype") (string (text msgtype)) (member (text "data") event no_members))

module _ {D : Type 0} where
  -- The branch of the empty queue.
  unfoldable pub wait : Relic D → Relic D
  wait s =
      emit (armed_timer (longer_pause s.pause_time_msec))
        (record s { pause_time_msec = longer_pause s.pause_time_msec })

  -- The receiver is slowed down from the high mark on, and set free below the low mark.
  unfoldable pub regulate : ℕ → Relic D → Relic D
  regulate size s =
      if leb s.queue_hwm size
      then emit (slowed true) s
      else if ltb size s.queue_lwm
      then emit (slowed false) s
      else s

  -- What precedes the handling of the first message.
  abbrev pub take : List Json → Json → Relic D → Relic D
  take rest document s =
      record (regulate (length (document ∷ rest)) (record s { pause_time_msec = 0 })) {
        async_queue = rest;
      }

  unfoldable pub push_msg : Json → Relic D → Relic D
  push_msg document s =
      counted (cancelled (record s { async_queue = s.async_queue ++ document ∷ [] }))
    where
      cancelled : Relic D → Relic D
      cancelled u = if ltb 0 u.pause_time_msec then emit cancelled_timer u else u

      counted : Relic D → Relic D
      counted u = record u {
        msg_report_counter =
            if sub32 u.msg_report_counter 1 == 0 then 10000 else sub32 u.msg_report_counter 1;
      }

  unfoldable pub on_event_json : String → Json → Relic D → Relic D
  unfolding push_msg
  on_event_json msgtype event s = push_msg (event_document msgtype event) s

  -- The bytes behind the two numbers are no JSON text: the parser leaves a null document.
  unfoldable pub on_event_bin : Relic D → Relic D
  unfolding push_msg
  on_event_bin s = push_msg null s

  module _ (sv : Services D) where
    -- `catch(...)`
    unfoldable pub fail : Relic D → Relic D
    unfolding finish_if_lost
    fail s = emit aborted (finish_if_lost sv s)

    -- The rest of the queue is handled if the message was.
    unfoldable pub drain : List Json → Relic D → Relic D
    unfolding wait regulate on_document fail
    drain [] s = wait s
    drain (document ∷ rest) s =
        let (r, s') = on_document sv document (take rest document s) in
        elim r [ err e ↦ fail s' | ok _ ↦ drain rest s' ]

    -- The call of itself at the end of async_send_events handles the queue to its end.
    unfoldable pub async_send_events : Relic D → Relic D
    unfolding drain
    async_send_events s = drain s.async_queue s
