-- ===== src/Exporter/Relic/Pauses.antt =====
-- The pauses of the exporter to the relic database (chronicle-receiver/exp_relic_plugin.cpp,
-- async_send_events, push_msg), over any sequence of events and calls of the timer.
use Prim.Native.String.{String}
use fio_chronicle.Prelude.{
  ℕ, ◌≡◌, refl, ap, ◌∙◌, Bool, true, ◌||◌, List, [], ◌∷◌, Bool-cases, inl, inr, length, leb, ltb,
  arith, ◌==◌,
}
use fio_chronicle.Prelude.Action.{Result, ok, err}
use fio_chronicle.Exporter.Json.{Json, null}
use fio_chronicle.Exporter.Relic.{Services, Relic}
use fio_chronicle.Exporter.Relic.Quiet.{view-finish_if_lost}
use fio_chronicle.Exporter.Relic.Blocks.{on_document}
use fio_chronicle.Exporter.Relic.Queue.{
  wait, regulate, take, push_msg, fail, drain, async_send_events, longer_pause, on_event_json,
  on_event_bin, event_document,
}
use fio_chronicle.Exporter.Relic.Acks.{on_document-Acks}

-- What the event loop calls.
pub data Call : Type 0 where
  json_event : (msgtype : String) (event : Json) → Call
  binary_event : Call
  send : Call

-- None, or 5 ms doubled up to six times.
abbrev pub is_pause : ℕ → Bool
is_pause p = p == 0 || p == 5 || p == 10 || p == 20 || p == 40 || p == 80 || p == 160 || p == 320

longer_pause-is_pause : (p : ℕ) → is_pause p ≡ true → is_pause (longer_pause p) ≡ true
longer_pause-is_pause p h = ground arith

module _ {D : Type 0} (sv : Services D) where
  unfoldable pub on_call : Call → Relic D → Relic D
  unfolding on_event_json on_event_bin async_send_events
  on_call (json_event msgtype event) s = on_event_json msgtype event s
  on_call binary_event s = on_event_bin s
  on_call send s = async_send_events sv s

  unfoldable pub on_calls : List Call → Relic D → Relic D
  unfolding on_call
  on_calls [] s = s
  on_calls (call ∷ rest) s = on_calls rest (on_call call s)

  abbrev pub Paused : Relic D → Type 0
  Paused s = is_pause s.pause_time_msec ≡ true

  push_msg-pause :
      (document : Json) (s : Relic D) → (push_msg document s).pause_time_msec ≡ s.pause_time_msec
  unfolding push_msg
  push_msg-pause document s = elim (Bool-cases (ltb 0 s.pause_time_msec)) [
    | inl waiting ↦ rw waiting refl
    | inr busy ↦ rw busy refl
  ]

  take-pause :
      (rest : List Json) (document : Json) (s : Relic D)
      → (take rest document s).pause_time_msec ≡ 0
  unfolding regulate
  take-pause rest document s = elim (Bool-cases (leb s.queue_hwm (length (document ∷ rest)))) [
    | inl full ↦ rw full refl
    | inr free ↦ elim (Bool-cases (ltb (length (document ∷ rest)) s.queue_lwm)) [
      | inl low ↦ rw (free, low) refl
      | inr high ↦ rw (free, high) refl
    ]
  ]

  fail-pause : (s : Relic D) → (fail sv s).pause_time_msec ≡ s.pause_time_msec
  unfolding fail
  fail-pause s = ap (λ v. v.pause_time_msec) (view-finish_if_lost sv s)

  after-Paused :
      (rest : List Json) (r : Result (Unit {0})) (u : Relic D)
      → u.pause_time_msec ≡ 0
      → ((v : Relic D) → Paused v → Paused (drain sv rest v))
      → Paused (elim r [ err e ↦ fail sv u | ok _ ↦ drain sv rest u ])
  after-Paused rest (err e) u none_now later = ap is_pause (fail-pause u ∙ none_now)
  after-Paused rest (ok _) u none_now later = later u (ap is_pause none_now)

  drain-Paused : (q : List Json) (s : Relic D) → Paused s → Paused (drain sv q s)
  unfolding drain wait
  drain-Paused [] s held = longer_pause-is_pause s.pause_time_msec held
  drain-Paused (document ∷ rest) s held =
      let u = take rest document s in
      after-Paused rest (on_document sv document u).0 (on_document sv document u).1
        (ap (λ v. v.pause_time_msec) ((on_document-Acks sv document).at u)
          ∙ take-pause rest document s)
        (drain-Paused rest)

  on_call-Paused : (call : Call) (s : Relic D) → Paused s → Paused (on_call call s)
  unfolding on_call
  on_call-Paused (json_event msgtype event) s held =
      ap is_pause (push_msg-pause (event_document msgtype event) s) ∙ held
  on_call-Paused binary_event s held = ap is_pause (push_msg-pause null s) ∙ held
  on_call-Paused send s held = drain-Paused s.async_queue s held

  -- Whatever events arrive and however often the timer calls, the pause stays 0 or one of 5, 10,
  -- 20, 40, 80, 160 and 320 ms.
  pub on_calls-Paused : (calls : List Call) (s : Relic D) → Paused s → Paused (on_calls calls s)
  unfolding on_calls
  on_calls-Paused [] s held = held
  on_calls-Paused (call ∷ rest) s held =
      on_calls-Paused rest (on_call call s) (on_call-Paused call s held)
