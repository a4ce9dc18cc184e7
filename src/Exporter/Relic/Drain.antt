-- ===== src/Exporter/Relic/Drain.antt =====
-- The order in which the exporter to the relic database handles its queue, and its pauses
-- (chronicle-receiver/exp_relic_plugin.cpp, async_send_events, push_msg).
use fio_chronicle.Prelude.{
  ℕ, ◌≡◌, refl, ap, sym, subst, ◌∙◌, true, false, List, [], ◌∷◌, ◌++◌, append-nil, append_assoc,
  Bool-cases, inl, inr, length, leb, ltb,
}
use fio_chronicle.Prelude.Action.{Result, Error, ok, err}
use fio_chronicle.Exporter.Json.{Json}
use fio_chronicle.Exporter.Relic.{Services, Relic, slowed, armed_timer, aborted, finish_if_lost}
use fio_chronicle.Exporter.Relic.Quiet.{acks, acks-silent, view-finish_if_lost}
use fio_chronicle.Exporter.Relic.Blocks.{on_document}
use fio_chronicle.Exporter.Relic.Queue.{
  wait, regulate, take, fail, drain, async_send_events, longer_pause,
}
use fio_chronicle.Exporter.Relic.Acks.{acknowledgement, on_document-Acks, if_returned}

module _ {D : Type 0} (sv : Services D) where
  unfoldable pub acknowledgements : List Json → List ℕ
  acknowledgements [] = []
  acknowledgements (document ∷ rest) = acknowledgement sv document ++ acknowledgements rest

  -- These messages are handled one after the other and each returns, with others behind them.
  pub data Run (behind : List Json) : List Json → Relic D → Relic D → Type 0 where
    all_handled : (s : Relic D) → Run behind [] s s
    handled :
        (document : Json) (rest : List Json) (s u t : Relic D)
        → on_document sv document (take (rest ++ behind) document s) ≡ (ok tt, u)
        → Run behind rest u t
        → Run behind (document ∷ rest) s t

  -- What follows: with no message left, the timer is set; otherwise the handling of the first one
  -- throws, and the receiver is aborted.
  pub data Ended : List Json → Relic D → Relic D → Type 0 where
    emptied : (u : Relic D) → Ended [] u (wait u)
    failed :
        (document : Json) (rest : List Json) (u v : Relic D) (e : Error)
        → on_document sv document (take rest document u) ≡ (err e, v)
        → Ended (document ∷ rest) u (fail sv v)

  abbrev pub behind_first : List Json → List Json
  behind_first [] = []
  behind_first (document ∷ rest) = rest

  -- A queue that was handled: its first part in order, then either nothing is left, or the next
  -- message fails; what is behind that one stays in the queue.
  pub record Handled (q : List Json) (s t : Relic D) : Type 0 where
    pub done : List Json
    pub left : List Json
    pub parts : q ≡ done ++ left
    pub reached : Relic D
    pub runs : Run left done s reached
    pub ended : Ended left reached t
    pub queue_left : t.async_queue ≡ behind_first left
    pub in_order : acks t.out ≡ acks s.out ++ acknowledgements done

  acks-take :
      (rest : List Json) (document : Json) (s : Relic D)
      → acks (take rest document s).out ≡ acks s.out
  unfolding regulate acks
  acks-take rest document s = elim (Bool-cases (leb s.queue_hwm (length (document ∷ rest)))) [
    | inl full ↦ rw full (acks-silent s.out (slowed true ∷ []) refl)
    | inr free ↦ elim (Bool-cases (ltb (length (document ∷ rest)) s.queue_lwm)) [
      | inl low ↦ rw (free, low) (acks-silent s.out (slowed false ∷ []) refl)
      | inr high ↦ rw (free, high) refl
    ]
  ]

  acks-fail : (s : Relic D) → acks (fail sv s).out ≡ acks s.out
  unfolding fail acks
  acks-fail s =
      acks-silent (finish_if_lost sv s).out (aborted ∷ []) refl
      ∙ ap (λ v. v.acknowledged) (view-finish_if_lost sv s)

  acks-wait : (s : Relic D) → acks (wait s).out ≡ acks s.out
  unfolding wait acks
  acks-wait s = acks-silent s.out (armed_timer (longer_pause s.pause_time_msec) ∷ []) refl

  queue-fail : (s : Relic D) → (fail sv s).async_queue ≡ s.async_queue
  unfolding fail
  queue-fail s = ap (λ v. v.async_queue) (view-finish_if_lost sv s)

  Handled-after :
      (document : Json) (rest : List Json) (r : Result (Unit {0})) (s u : Relic D)
      → on_document sv document (take rest document s) ≡ (r, u)
      → acks u.out ≡ acks s.out ++ if_returned r (acknowledgement sv document)
      → u.async_queue ≡ rest
      → ((v : Relic D) → v.async_queue ≡ rest → Handled rest v (drain sv rest v))
      → Handled (document ∷ rest) s (elim r [ err e ↦ fail sv u | ok _ ↦ drain sv rest u ])
  unfolding acknowledgements
  Handled-after document rest (err e) s u threw acked_u queue_u later = record {
    done = [];
    left = document ∷ rest;
    parts = refl;
    reached = s;
    runs = all_handled s;
    ended = failed document rest s u e threw;
    queue_left = queue-fail u ∙ queue_u;
    in_order = acks-fail u ∙ acked_u;
  }
  Handled-after document rest (ok _) s u returned acked_u queue_u later =
      let h = later u queue_u in
      record {
        done = document ∷ h.done;
        left = h.left;
        parts = ap (λ l. document ∷ l) h.parts;
        reached = h.reached;
        runs =
            handled document h.done s u h.reached
              (subst (λ l. on_document sv document (take l document s) ≡ (ok tt, u)) h.parts
                returned)
              h.runs;
        ended = h.ended;
        queue_left = h.queue_left;
        in_order =
            h.in_order
            ∙ ap (λ l. l ++ acknowledgements h.done) acked_u
            ∙ append_assoc (acks s.out) (acknowledgement sv document) (acknowledgements h.done);
      }

  queue-wait : (s : Relic D) → (wait s).async_queue ≡ s.async_queue
  unfolding wait
  queue-wait s = refl

  drain-Handled : (q : List Json) (s : Relic D) → s.async_queue ≡ q → Handled q s (drain sv q s)
  unfolding drain acknowledgements
  drain-Handled [] s empty = record {
    done = [];
    left = [];
    parts = refl;
    reached = s;
    runs = all_handled s;
    ended = emptied s;
    queue_left = queue-wait s ∙ empty;
    in_order = acks-wait s ∙ sym (append-nil (acks s.out));
  }
  drain-Handled (document ∷ rest) s queue =
      let u = take rest document s in
      let same_view = (on_document-Acks sv document).at u in
      Handled-after document rest (on_document sv document u).0 s (on_document sv document u).1 refl
        (ap (λ v. v.acknowledged) same_view
          ∙ ap (λ l. l ++ if_returned (on_document sv document u).0 (acknowledgement sv document))
              (acks-take rest document s))
        (ap (λ v. v.async_queue) same_view) (drain-Handled rest)

  pub async_send_events-Handled : (s : Relic D) → Handled s.async_queue s (async_send_events sv s)
  unfolding async_send_events
  async_send_events-Handled s = drain-Handled s.async_queue s refl
