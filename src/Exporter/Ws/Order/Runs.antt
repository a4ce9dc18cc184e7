-- ===== src/Exporter/Ws/Order/Runs.antt =====
-- Runs of the exporter over a websocket: no message is lost, doubled or overtaken.
use fio_chronicle.Prelude.{
  ◌≡◌, refl, ap, sym, ◌∙◌, append_assoc, append-nil, Bool, true, false, List, [], ◌∷◌, ◌++◌,
  Bool-cases, inl, inr, length, leb, ltb,
}
use mathlib.Core.Path.{ap₂}
use fio_chronicle.Exporter.Text.{Text}
use fio_chronicle.Exporter.Ws.Messages.{message}
use fio_chronicle.Exporter.Ws.{
  Ws, close_ws, regulate, write_first, async_send_events, push_msg, on_event,
}
use fio_chronicle.Exporter.Ws.Order.{
  Call, event, timer, written, closed, on_call, on_calls, Spec, Sends, stays, sends, Performs,
  queue_of, on_call-Performs,
}

-- The messages of the events, in their order.
unfoldable pub messages : Bool → List Call → List Text
messages b [] = []
messages b (event kind t ∷ rest) = message b kind t ∷ messages b rest
messages b (timer ∷ rest) = messages b rest
messages b (written failed ∷ rest) = messages b rest
messages b (closed ∷ rest) = messages b rest

-- All messages that were taken, whether sent or not.
abbrev pub taken : Spec → List Text
taken p = p.sent ++ p.waiting

Sends-taken : (p q : Spec) → Sends p q → taken q ≡ taken p
Sends-taken p q stays = refl
Sends-taken p q (sends m done rest) = append_assoc done (m ∷ []) rest

bin-regulate : (s : Ws) → (regulate s).use_bin_headers ≡ s.use_bin_headers
unfolding regulate
bin-regulate s = elim (Bool-cases (leb s.queue_hwm (length s.async_queue))) [
  | inl full ↦ rw full refl
  | inr free ↦ elim (Bool-cases (ltb (length s.async_queue) s.queue_lwm)) [
    | inl low ↦ rw (free, low) refl
    | inr high ↦ rw (free, high) refl
  ]
]

bin-write_first : (q : List Text) (s : Ws) → (write_first q s).use_bin_headers ≡ s.use_bin_headers
unfolding write_first
bin-write_first [] s = refl
bin-write_first (m ∷ rest) s = bin-regulate (record s { pause_time_msec = 0 })

bin-close_ws : (s : Ws) → (close_ws s).use_bin_headers ≡ s.use_bin_headers
unfolding close_ws
bin-close_ws s = elim (Bool-cases s.is_open) [
  | inl is_open ↦ rw is_open refl
  | inr is_closed ↦ rw is_closed refl
]

bin-push_msg : (m : Text) (s : Ws) → (push_msg m s).use_bin_headers ≡ s.use_bin_headers
unfolding push_msg
bin-push_msg m s = elim (Bool-cases (ltb 0 s.pause_time_msec)) [
  | inl waiting ↦ rw waiting refl
  | inr busy ↦ rw busy refl
]

bin-on_call : (call : Call) (s : Ws) → (on_call call s).use_bin_headers ≡ s.use_bin_headers
unfolding on_call on_event async_send_events
bin-on_call (event kind t) s = bin-push_msg (message s.use_bin_headers kind t) s
bin-on_call timer s = bin-write_first s.async_queue s
bin-on_call (written true) s = bin-close_ws s
bin-on_call (written false) s = bin-write_first s.async_queue s
bin-on_call closed s = refl

taken-call :
    (b : Bool) (call : Call) (p q : Spec)
    → Performs b call p q
    → taken q ≡ taken p ++ messages b (call ∷ [])
unfolding messages
taken-call b (event kind t) p q e =
    ap taken e ∙ sym (append_assoc p.sent p.waiting (message b kind t ∷ []))
taken-call b timer p q e = Sends-taken p q e ∙ sym (append-nil (taken p))
taken-call b (written failed) p q e = Sends-taken p q e ∙ sym (append-nil (taken p))
taken-call b closed p q e = Sends-taken p q e ∙ sym (append-nil (taken p))

messages-cons :
    (b : Bool) (call : Call) (rest : List Call)
    → messages b (call ∷ rest) ≡ messages b (call ∷ []) ++ messages b rest
unfolding messages
messages-cons b (event kind t) rest = refl
messages-cons b timer rest = refl
messages-cons b (written failed) rest = refl
messages-cons b closed rest = refl

-- In any sequence of callbacks, what was written and what still waits are together what was there
-- before and the messages of the events, in their order: none is lost, doubled or overtaken.
pub on_calls-taken :
    (calls : List Call) (s : Ws)
    → taken (queue_of (on_calls calls s)) ≡ taken (queue_of s) ++ messages s.use_bin_headers calls
unfolding on_calls messages
on_calls-taken [] s = sym (append-nil (taken (queue_of s)))
on_calls-taken (call ∷ rest) s =
    on_calls-taken rest (on_call call s)
    ∙ ap₂ (λ l b. l ++ messages b rest)
        (taken-call s.use_bin_headers call (queue_of s) (queue_of (on_call call s))
          (on_call-Performs call s))
        (bin-on_call call s)
    ∙ append_assoc (taken (queue_of s)) (messages s.use_bin_headers (call ∷ []))
        (messages s.use_bin_headers rest)
    ∙ ap (λ l. taken (queue_of s) ++ l) (sym (messages-cons s.use_bin_headers call rest))
