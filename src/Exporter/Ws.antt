-- ===== src/Exporter/Ws.antt =====
-- The exporter over a websocket (chronicle-receiver/exp_ws_plugin.cpp, class exp_ws_plugin_impl):
-- its state and its callbacks. The socket is Boost's: what the exporter asks of it is an effect, and
-- what it answers is the argument of a callback.
pub mod Messages
pub mod Order
pub mod Requests
pub mod Marks
use Prim.Native.String.{String}
use fio_chronicle.Prelude.{
  ℕ, ◌+◌, ◌*◌, ◌/◌, ◌%◌, Bool, true, false, List, [], ◌∷◌, ◌++◌, Option, none, some, length,
  if◌then◌else◌, ltb, leb, ◌==◌, mul32, sub32, add32, u32_mod,
}
use fio_chronicle.Prelude.Action.{
  Action, Result, ok, err, pure, throw, throw_if, or_throw, modify, skip, ◌>>=◌, ◌>>◌, if_found,
  ack_too_large, bad_request, bad_number, option_error,
}
use fio_chronicle.Exporter.Text.{Text, text, split_at}
use fio_chronicle.Exporter.Text.Numbers.{stoul}
use fio_chronicle.Exporter.Ws.Messages.{Kind, message}

-- What the exporter asks of the socket, the timer and the receiver.
pub data Effect : Type 0 where
  will_ack_blocks : (max_unconfirmed : ℕ) → Effect
  connected : Text → Text → Text → Effect
  reading : Effect
  writing : Text → Effect
  acked : (block_num : ℕ) → Effect
  requested : (block_num_start block_num_end : ℕ) → Effect
  slowed : Bool → Effect
  armed_timer : (msec : ℕ) → Effect
  cancelled_timer : Effect
  cancelled_reads : Effect
  closing : Effect
  aborted : Effect

pub record Ws : Type 0 where
  pub interactive_mode : Bool
  pub ws_host : Text
  pub ws_port : Text
  pub ws_path : Text
  pub use_bin_headers : Bool
  pub maxunack : ℕ
  pub is_open : Bool
  pub async_queue : List Text
  pub queue_hwm : ℕ
  pub queue_lwm : ℕ
  pub pause_time_msec : ℕ
  pub msg_report_counter : ℕ
  pub out : List Effect

abbrev pub emit : Effect → Ws → Ws
emit e s = record s { out = s.out ++ e ∷ [] }

unfoldable pub close_ws : Ws → Ws
close_ws s = if s.is_open then emit closing (emit cancelled_reads s) else emit aborted s

-- `stop`
abbrev pub stop : Ws → Ws
stop s = close_ws s

-- The handler of async_close.
abbrev pub on_closed : Ws → Ws
on_closed s = emit aborted s

abbrev pub longer_pause : ℕ → ℕ
longer_pause p = if p == 0 then 5 else if ltb p 256 then mul32 p 2 else p

-- The receiver is slowed down from the high mark on, and set free below the low mark.
unfoldable pub regulate : Ws → Ws
regulate s =
    if leb s.queue_hwm (length s.async_queue)
    then emit (slowed true) s
    else if ltb (length s.async_queue) s.queue_lwm
    then emit (slowed false) s
    else s

unfoldable pub write_first : List Text → Ws → Ws
write_first [] s =
    emit (armed_timer (longer_pause s.pause_time_msec))
      (record s { pause_time_msec = longer_pause s.pause_time_msec })
write_first (first ∷ rest) s =
    emit (writing first)
      (record (regulate (record s { pause_time_msec = 0 })) { async_queue = rest })

-- The handler of the timer too.
unfoldable pub async_send_events : Ws → Ws
unfolding write_first regulate
async_send_events s = write_first s.async_queue s

-- The handler of async_write.
unfoldable pub on_written : (failed : Bool) → Ws → Ws
unfolding close_ws async_send_events
on_written failed s = if failed then close_ws s else async_send_events s

unfoldable pub push_msg : Text → Ws → Ws
push_msg buf s = counted (cancelled (record s { async_queue = s.async_queue ++ buf ∷ [] }))
  where
    cancelled : Ws → Ws
    cancelled u = if ltb 0 u.pause_time_msec then emit cancelled_timer u else u

    counted : Ws → Ws
    counted u = record u {
      msg_report_counter =
          if sub32 u.msg_report_counter 1 == 0 then 10000 else sub32 u.msg_report_counter 1;
    }

-- An event of a channel.
unfoldable pub on_event : Kind → Text → Ws → Ws
unfolding push_msg message
on_event kind event s = push_msg (message s.use_bin_headers kind event) s

unfoldable pub accept_ack : Option ℕ → Action Ws (Unit {0})
unfolding ◌>>=◌
accept_ack read = do
  ack ← or_throw read bad_number
  throw_if (leb u32_mod ack) ack_too_large
  modify (emit (acked ack))
  modify (emit reading)

-- The handler of the read in async_read_acks: what was read, unless it failed.
unfoldable pub on_ack : Option Text → Action Ws (Unit {0})
unfolding close_ws stoul accept_ack
on_ack none = modify close_ws
on_ack (some in_data) = accept_ack (stoul in_data)

-- The two numbers of a request, as uint32_t.
abbrev pub pair_of : Option ℕ → Option ℕ → Option (ℕ × ℕ)
pair_of none end = none
pair_of (some start) none = none
pair_of (some start) (some end) = some (start % u32_mod, end % u32_mod)

abbrev pub single_of : Option ℕ → Option (ℕ × ℕ)
single_of none = none
single_of (some start) = some (start % u32_mod, add32 (start % u32_mod) 1)

abbrev pub read_parts : Text → Option (Text × Text) → Option (ℕ × ℕ)
read_parts t none = single_of (stoul t)
read_parts t (some (before, behind)) = pair_of (stoul before) (stoul behind)

unfoldable pub read_request : Text → Option (ℕ × ℕ)
unfolding stoul
read_request t = read_parts t (split_at 45 t)

unfoldable pub publish_request : Option (ℕ × ℕ) → Action Ws (Unit {0})
unfolding ◌>>=◌
publish_request read = do
  req ← or_throw read bad_number
  throw_if (leb req.1 req.0) bad_request
  modify (emit (requested req.0 req.1))
  modify (emit reading)

-- The handler of the read in async_read_interactive_reqs.
unfoldable pub on_interactive_req : Option Text → Action Ws (Unit {0})
unfolding close_ws read_request publish_request
on_interactive_req none = modify close_ws
on_interactive_req (some reqstr) = publish_request (read_request reqstr)

unfoldable pub start : Ws → Ws
unfolding async_send_events
start s = async_send_events (
    emit reading
      (record (connect (if s.interactive_mode then s else emit (will_ack_blocks s.maxunack) s)) {
        is_open = true;
      }))
  where
    connect : Ws → Ws
    connect u = emit (connected u.ws_host u.ws_port u.ws_path) u

-- The options; `none` is an option that is not given once.
pub record Options : Type 0 where
  pub exp_ws_host : Option Text
  pub exp_ws_port : Option Text
  pub exp_ws_path : Text
  pub exp_ws_max_unack : ℕ
  pub exp_ws_max_queue : ℕ
  pub exp_ws_bin_header : Bool

-- `queue_hwm * 3 / 4`
abbrev pub low_water : ℕ → ℕ
low_water hwm = mul32 hwm 3 / 4

-- `plugin_initialize` where blocks are exported.
unfoldable pub plugin_initialize : Options → Action Ws (Unit {0})
plugin_initialize o = do
  host ← or_throw o.exp_ws_host option_error
  port ← or_throw o.exp_ws_port option_error
  throw_if (o.exp_ws_max_unack == 0) option_error
  throw_if (o.exp_ws_max_queue == 0) option_error
  modify λ s. record s {
    ws_host = host;
    ws_port = port;
    ws_path = o.exp_ws_path;
    maxunack = o.exp_ws_max_unack;
    queue_hwm = o.exp_ws_max_queue;
    queue_lwm = low_water o.exp_ws_max_queue;
    use_bin_headers = o.exp_ws_bin_header;
  }
