-- ===== src/Exporter/Tests/Relic.antt =====
-- The theorems on the exporter to the relic database at concrete inputs.
use fio_chronicle.Prelude.{◌≡◌, refl, Bool, true, false, List, [], ◌∷◌, ◌++◌, none, some, arith}
use fio_chronicle.Prelude.Action.{◌>>=◌}
use fio_chronicle.Exporter.Text.{Text, text}
use fio_chronicle.Exporter.Text.Numbers.{pos, stoul}
use fio_chronicle.Exporter.Json.{
  Json, null, string, object, no_members, member, field, get_json_string,
}
use fio_chronicle.Exporter.Relic.{
  Services, Relic, get, ran, finished_connection, aborted, acked, armed_timer, slowed,
}
use fio_chronicle.Exporter.Relic.Queue.{event_document, async_send_events}
use fio_chronicle.Exporter.Relic.Blocks.{on_document}
use fio_chronicle.Exporter.Relic.Acks.{Acks, acknowledgement, on_document-Acks}
use fio_chronicle.Exporter.Relic.Pauses.{
  json_event, binary_event, send, on_calls, Paused, on_calls-Paused,
}
use fio_chronicle.Exporter.Relic.EndBlock.{Waits, IsUpTo, take_acks, async_send_events-reached_end}
use fio_chronicle.Exporter.Relic.Quiet.{acks}
use fio_chronicle.Receiver.State.{Chain, Flow}
use fio_chronicle.Receiver.Flow.{reached_end}
use fio_chronicle.Receiver.Samples.{header}

-- A database that takes every statement, and one that was lost.
abbrev pub answering : Bool → Services (Unit {0})
answering up = record {
  exec = λ q d. (record { tuples_ok = up; ntuples = 0; value = λ r c. none }, d);
  connected = λ d. up;
  finish = λ d. d;
  escape_literal = λ t. some (39 ∷ t ++ 39 ∷ []);
  write_json = λ j. [];
  parse_json = λ t. null;
  key_to_account = λ k. text "aloha";
}

abbrev pub numbered : Text → Json
numbered n = object (member (text "block_num") (string n) no_members)

abbrev pub fork_event : Json
fork_event = event_document "FORK" (numbered (text "7"))

abbrev pub completed_event : Json
completed_event = event_document "BLOCK_COMPLETED" (numbered (text "8"))

abbrev other_event : Json
other_event = event_document "ABI_UPD" (numbered (text "8"))

abbrev pub relic : List Json → Relic (Unit {0})
relic q = record {
  db = tt;
  pending = record {
    domainjsons = [];
    handlejsons = [];
    burnaddresses = [];
    burnexpiredthisblock = false;
    burnexpiredtrid = pos 0;
    burnexpiredtimestamp = [];
  };
  async_queue = q;
  queue_hwm = 10;
  queue_lwm = 7;
  pause_time_msec = 0;
  msg_report_counter = 1000;
  out = [];
}

fork_acknowledgement : acknowledgement (answering true) fork_event ≡ 6 ∷ []
unfolding acknowledgement field stoul get_json_string
fork_acknowledgement = refl

three_messages :
    (async_send_events
      (answering true)
      (relic (other_event ∷ fork_event ∷ completed_event ∷ []))).out
    ≡ slowed false
      ∷ slowed false
      ∷ ran (text "SELECT rbfork(7);")
      ∷ acked 6
      ∷ slowed false
      ∷ acked 7
      ∷ armed_timer 5
      ∷ []
unfolding async_send_events field ◌>>=◌ get_json_string
three_messages = refl

lost_connection :
    (async_send_events (answering false) (relic (fork_event ∷ completed_event ∷ []))).out
    ≡ slowed false
      ∷ ran (text "SELECT rbfork(7);")
      ∷ finished_connection
      ∷ finished_connection
      ∷ aborted
      ∷ []
unfolding async_send_events field ◌>>=◌ get_json_string
lost_connection = refl

on_document-Acks_example :
    Acks (acknowledgement (answering true) fork_event) (on_document (answering true) fork_event)
on_document-Acks_example = on_document-Acks (answering true) fork_event

on_calls-Paused_example : Paused (answering true) (
    on_calls
      (answering true)
      (send ∷ json_event "FORK" (numbered (text "7")) ∷ send ∷ binary_event ∷ send ∷ [])
      (relic []))
on_calls-Paused_example =
    on_calls-Paused (answering true)
      (send ∷ json_event "FORK" (numbered (text "7")) ∷ send ∷ binary_event ∷ send ∷ []) (relic [])
      refl

abbrev pub chain_at_eight : Chain
chain_at_eight = record {
  head = 8;
  head_id = 80;
  irreversible = 8;
  irreversible_id = 80;
  block_header = header;
  trx_count = 0;
  received_blocks = 0;
}

abbrev pub flow_at_six : Flow
flow_at_six = record {
  exporter_will_ack = true;
  exporter_acked_block = 6;
  exporter_max_unconfirmed = 100;
  forked_at_block = 0;
  pause_time_msec = 0;
  slowdown_requested = false;
  stale_check_last_head = 0;
  aborting = false;
  stream_open = true;
  end_block_num = 9;
}

pub eight_read : stoul (get (answering true) (field completed_event "data") "block_num") ≡ some 8
unfolding stoul field get_json_string
eight_read = refl

pub completed_IsUpTo : IsUpTo (answering true) 8 completed_event
completed_IsUpTo = record {
  block_num = 8;
  number = eight_read;
  pos_block = omega arith;
  below = omega arith;
}

abbrev pub at_end : Relic (Unit {0})
at_end = relic (completed_event ∷ [])

pub none_acked : acks at_end.out ≡ []
unfolding acks
none_acked = refl

async_send_events-reached_end_example :
    Waits 8 (take_acks (acks (async_send_events (answering true) at_end).out) flow_at_six)
    × (reached_end chain_at_eight
          (take_acks (acks (async_send_events (answering true) at_end).out) flow_at_six)
        ≡ false)
async_send_events-reached_end_example =
    async_send_events-reached_end (answering true) chain_at_eight flow_at_six at_end none_acked
      (completed_IsUpTo, tt) (omega arith) (record { will_ack = refl; behind = omega arith })
