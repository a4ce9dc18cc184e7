-- ===== src/Exporter/Tests/Ws.antt =====
-- The theorems on the exporter over a websocket at concrete inputs.
use fio_chronicle.Prelude.{ℕ, ◌≡◌, refl, true, false, List, [], ◌∷◌, ◌++◌, some, arith}
use fio_chronicle.Exporter.Text.{Text, text}
use fio_chronicle.Exporter.Ws.{Ws, writing, on_interactive_req, async_send_events, read_request}
use fio_chronicle.Exporter.Ws.Messages.{block, read_message, message, read_message-message}
use fio_chronicle.Exporter.Ws.Requests.{Served, on_interactive_req-Served}
use fio_chronicle.Exporter.Ws.Order.{event, timer, written, on_calls, queue_of}
use fio_chronicle.Exporter.Ws.Order.Runs.{taken, messages, on_calls-taken}
use fio_chronicle.Exporter.Ws.Marks.{at_last, async_send_events-last}

abbrev ws : ℕ → ℕ → List Text → Ws
ws hwm lwm q = record {
  interactive_mode = false;
  ws_host = text "localhost";
  ws_port = text "8800";
  ws_path = text "/";
  use_bin_headers = true;
  maxunack = 1000;
  is_open = true;
  async_queue = q;
  queue_hwm = hwm;
  queue_lwm = lwm;
  pause_time_msec = 0;
  msg_report_counter = 1000;
  out = [];
}

read_range : read_request (text "10-20") ≡ some (10, 20)
unfolding read_request
read_range = refl

truncated_range : read_request (text "4294967297-4294967299") ≡ some (1, 3)
unfolding read_request
truncated_range = refl

read_message-message_example :
    read_message (message true block (text "{}")) ≡ some (block, text "{}")
read_message-message_example = read_message-message block (text "{}")

on_interactive_req-Served_example :
    Served
      (ws 10 7 [])
      (some (text "20-10"))
      (on_interactive_req (some (text "20-10")) (ws 10 7 []))
on_interactive_req-Served_example = on_interactive_req-Served (some (text "20-10")) (ws 10 7 [])

on_calls-taken_example :
    taken (queue_of (on_calls (event block (text "{}") ∷ timer ∷ written false ∷ []) (ws 10 7 [])))
    ≡ taken (queue_of (ws 10 7 []))
      ++ messages true (event block (text "{}") ∷ timer ∷ written false ∷ [])
on_calls-taken_example =
    on_calls-taken (event block (text "{}") ∷ timer ∷ written false ∷ []) (ws 10 7 [])

async_send_events-last_example :
    (async_send_events (ws 2 1 (text "a" ∷ []))).out ≡ [] ++ at_last 2 ++ writing (text "a") ∷ []
async_send_events-last_example =
    async_send_events-last (text "a") (ws 2 1 (text "a" ∷ [])) (omega arith) (omega arith) refl refl
