-- ===== src/Exporter/Ws/Order.antt =====
-- The order of the messages that the exporter writes to the websocket
-- (chronicle-receiver/exp_ws_plugin.cpp: push_msg, async_send_events and their callers), against
-- a plain queue.
pub mod Runs
use fio_chronicle.Prelude.{
  ℕ, ◌≡◌, refl, ap, sym, subst, ◌∙◌, append_assoc, append-nil, Bool, true, false, List, [], ◌∷◌,
  ◌++◌, if◌then◌else◌, Bool-cases, inl, inr, length, leb, ltb,
}
use mathlib.Core.Path.{ap₂}
use fio_chronicle.Exporter.Text.{Text}
use fio_chronicle.Exporter.Ws.Messages.{Kind, message}
use fio_chronicle.Exporter.Ws.{
  Ws, Effect, will_ack_blocks, connected, reading, writing, acked, requested, slowed, armed_timer,
  cancelled_timer, cancelled_reads, closing, aborted, emit, close_ws, on_closed, regulate,
  write_first, async_send_events, on_written, push_msg, on_event, longer_pause,
}

-- What the channels and the event loop call.
pub data Call : Type 0 where
  event : Kind → Text → Call
  timer : Call
  written : (failed : Bool) → Call
  closed : Call

unfoldable pub on_call : Call → Ws → Ws
unfolding on_event async_send_events on_written
on_call (event kind t) s = on_event kind t s
on_call timer s = async_send_events s
on_call (written failed) s = on_written failed s
on_call closed s = on_closed s

unfoldable pub on_calls : List Call → Ws → Ws
unfolding on_call
on_calls [] s = s
on_calls (call ∷ rest) s = on_calls rest (on_call call s)

-- The messages that were given to the socket, in their order.
abbrev written_by : Effect → List Text
written_by (writing m) = m ∷ []
written_by (will_ack_blocks n) = []
written_by (connected a b c) = []
written_by reading = []
written_by (acked n) = []
written_by (requested a b) = []
written_by (slowed b) = []
written_by (armed_timer n) = []
written_by cancelled_timer = []
written_by cancelled_reads = []
written_by closing = []
written_by aborted = []

unfoldable pub writes : List Effect → List Text
writes [] = []
writes (e ∷ es) = written_by e ++ writes es

writes-append : (xs ys : List Effect) → writes (xs ++ ys) ≡ writes xs ++ writes ys
unfolding writes
writes-append [] ys = refl
writes-append (x ∷ xs) ys =
    ap (λ l. written_by x ++ l) (writes-append xs ys)
    ∙ sym (append_assoc (written_by x) (writes xs) (writes ys))

writes-silent : (xs ys : List Effect) → writes ys ≡ [] → writes (xs ++ ys) ≡ writes xs
writes-silent xs ys silent =
    writes-append xs ys ∙ ap (λ l. writes xs ++ l) silent ∙ append-nil (writes xs)

-- A plain queue: what was sent, and what waits.
pub record Spec : Type 0 where
  pub sent : List Text
  pub waiting : List Text

pub data Sends : Spec → Spec → Type 0 where
  stays : {p : Spec} → Sends p p
  sends :
      (m : Text) (done rest : List Text)
      → Sends
          (record { sent = done; waiting = m ∷ rest })
          (record { sent = done ++ m ∷ []; waiting = rest })

-- What a call does to a plain queue.
abbrev pub Performs : Bool → Call → Spec → Spec → Type 0
Performs b (event kind t) p q =
    q ≡ record { sent = p.sent; waiting = p.waiting ++ message b kind t ∷ [] }
Performs b timer p q = Sends p q
Performs b (written failed) p q = Sends p q
Performs b closed p q = Sends p q

abbrev pub queue_of : Ws → Spec
queue_of s = record { sent = writes s.out; waiting = s.async_queue }

-- Effects that write nothing.
queue_of-silent :
    (es : List Effect) (s : Ws)
    → writes es ≡ []
    → queue_of (record s { out = s.out ++ es }) ≡ queue_of s
queue_of-silent es s silent =
    ap (λ l. record { sent = l; waiting = s.async_queue }) (writes-silent s.out es silent)

queue_of-push_msg :
    (m : Text) (s : Ws)
    → queue_of (push_msg m s) ≡ record { sent = writes s.out; waiting = s.async_queue ++ m ∷ [] }
unfolding push_msg writes
queue_of-push_msg m s = elim (Bool-cases (ltb 0 s.pause_time_msec)) [
  | inl waiting ↦ rw waiting (
      queue_of-silent (cancelled_timer ∷ []) (record s { async_queue = s.async_queue ++ m ∷ [] })
        refl)
  | inr busy ↦ rw busy refl
]

writes-regulate : (s : Ws) → writes (regulate s).out ≡ writes s.out
unfolding regulate writes
writes-regulate s = elim (Bool-cases (leb s.queue_hwm (length s.async_queue))) [
  | inl full ↦ rw full (writes-silent s.out (slowed true ∷ []) refl)
  | inr free ↦ elim (Bool-cases (ltb (length s.async_queue) s.queue_lwm)) [
    | inl low ↦ rw (free, low) (writes-silent s.out (slowed false ∷ []) refl)
    | inr high ↦ rw (free, high) refl
  ]
]

writes-write : (m : Text) (xs : List Effect) → writes (xs ++ writing m ∷ []) ≡ writes xs ++ m ∷ []
unfolding writes
writes-write m xs = writes-append xs (writing m ∷ [])

queue_of-close_ws : (s : Ws) → queue_of (close_ws s) ≡ queue_of s
unfolding close_ws writes
queue_of-close_ws s = elim (Bool-cases s.is_open) [
  | inl is_open ↦ rw is_open (
      queue_of-silent (closing ∷ []) (emit cancelled_reads s) refl
      ∙ queue_of-silent (cancelled_reads ∷ []) s refl)
  | inr is_closed ↦ rw is_closed (queue_of-silent (aborted ∷ []) s refl)
]

write_first-Sends :
    (q : List Text) (s : Ws)
    → s.async_queue ≡ q
    → Sends (record { sent = writes s.out; waiting = q }) (queue_of (write_first q s))
unfolding write_first writes
write_first-Sends [] s empty =
    subst (Sends (record { sent = writes s.out; waiting = [] }))
      (sym (
        queue_of-silent (armed_timer (longer_pause s.pause_time_msec) ∷ [])
          (record s { pause_time_msec = longer_pause s.pause_time_msec }) refl
        ∙ ap (λ l. record { sent = writes s.out; waiting = l }) empty))
      stays
write_first-Sends (m ∷ rest) s queue =
    subst
      (λ l.
        Sends (record { sent = writes s.out; waiting = m ∷ rest })
          (record { sent = l; waiting = rest }))
      (sym (
        writes-write m (regulate (record s { pause_time_msec = 0 })).out
        ∙ ap (λ l. l ++ m ∷ []) (writes-regulate (record s { pause_time_msec = 0 }))))
      (sends m (writes s.out) rest)

async_send_events-Sends : (s : Ws) → Sends (queue_of s) (queue_of (async_send_events s))
unfolding async_send_events
async_send_events-Sends s = write_first-Sends s.async_queue s refl

stays-at : (s t : Ws) → queue_of t ≡ queue_of s → Sends (queue_of s) (queue_of t)
stays-at s t same = subst (Sends (queue_of s)) (sym same) stays

writes-aborted : writes (aborted ∷ []) ≡ []
unfolding writes
writes-aborted = refl

-- Each callback does to the messages what a plain queue does: an event puts its message in at the
-- end, and any other sends the first message or none.
pub on_call-Performs :
    (call : Call) (s : Ws)
    → Performs s.use_bin_headers call (queue_of s) (queue_of (on_call call s))
unfolding on_call on_event
on_call-Performs (event kind t) s = queue_of-push_msg (message s.use_bin_headers kind t) s
on_call-Performs timer s = async_send_events-Sends s
on_call-Performs (written true) s = stays-at s (close_ws s) (queue_of-close_ws s)
on_call-Performs (written false) s = async_send_events-Sends s
on_call-Performs closed s =
    stays-at s (on_closed s) (queue_of-silent (aborted ∷ []) s writes-aborted)
