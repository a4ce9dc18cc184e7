-- ===== src/Exporter/Ws/Marks.antt =====
-- The marks of the queue that slow the receiver down and set it free
-- (chronicle-receiver/exp_ws_plugin.cpp: plugin_initialize, async_send_events).
use fio_chronicle.Prelude.{
  ℕ, ◌*◌, ◌<◌, ◌≡◌, refl, ap, sym, ◌∙◌, append-nil, true, false, List, [], ◌∷◌, ◌++◌, if◌then◌else◌,
  Bool-cases, inl, inr, arith, u32_mod, length, leb, ltb, ◌==◌,
}
use fio_chronicle.Exporter.Text.{Text}
use fio_chronicle.Exporter.Ws.{
  Ws, Effect, slowed, writing, regulate, write_first, async_send_events, low_water,
}

-- What is said to the receiver when one message is left.
abbrev pub at_last : ℕ → List Effect
at_last hwm = if hwm == 1 then slowed true ∷ [] else if hwm == 2 then [] else slowed false ∷ []

regulate-last :
    (s : Ws)
    → 0 < s.queue_hwm
    → s.queue_hwm * 3 < u32_mod
    → s.queue_lwm ≡ low_water s.queue_hwm
    → length s.async_queue ≡ 1
    → (regulate s).out ≡ s.out ++ at_last s.queue_hwm
unfolding regulate
regulate-last s positive fits marks one = elim (Bool-cases (s.queue_hwm == 1)) [
  | inl is_one ↦ rw (is_one, full (ground arith)) refl
  | inr other ↦ elim (Bool-cases (s.queue_hwm == 2)) [
    | inl is_two ↦
        rw (other, is_two, free (ground arith), not_low (ground arith)) (sym (append-nil s.out))
    | inr more ↦ rw (other, more, free (ground arith), low (ground arith)) refl
  ]
]
  where
    full : s.queue_hwm ≡ 1 → leb s.queue_hwm (length s.async_queue) ≡ true
    full e = ground arith

    free : 1 < s.queue_hwm → leb s.queue_hwm (length s.async_queue) ≡ false
    free h = ground arith

    not_low : s.queue_hwm ≡ 2 → ltb (length s.async_queue) s.queue_lwm ≡ false
    not_low e = ground arith

    low : 2 < s.queue_hwm → ltb (length s.async_queue) s.queue_lwm ≡ true
    low h = ground arith

-- With the marks that plugin_initialize sets, the call that writes the last message of the queue
-- sets the receiver free if the high mark is from 3 to 1431655765; with a high mark of 2 it says
-- nothing, and with 1 it slows the receiver down.
pub async_send_events-last :
    (m : Text) (s : Ws)
    → 0 < s.queue_hwm
    → s.queue_hwm * 3 < u32_mod
    → s.queue_lwm ≡ low_water s.queue_hwm
    → s.async_queue ≡ m ∷ []
    → (async_send_events s).out ≡ s.out ++ at_last s.queue_hwm ++ writing m ∷ []
unfolding async_send_events write_first
async_send_events-last m s positive fits marks queue =
    ap (λ q. (write_first q s).out) queue
    ∙ ap (λ l. l ++ writing m ∷ [])
        (regulate-last (record s { pause_time_msec = 0 }) positive fits marks (ap length queue))
