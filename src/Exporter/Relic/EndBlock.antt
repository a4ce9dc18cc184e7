-- ===== src/Exporter/Relic/EndBlock.antt =====
-- The exporter to the relic database together with the receiver (chronicle-receiver/
-- exp_relic_plugin.cpp: ack_block; chronicle-receiver/receiver_plugin.cpp: check_pause).
use fio_chronicle.Prelude.{
  ℕ, ◌%◌, ◌≤◌, ◌<◌, ◌≡◌, Bool, true, false, ◌&&◌, List, [], ◌∷◌, some, arith, sub32, u32_mod,
  if◌then◌else◌,
}
use fio_chronicle.Exporter.Text.Numbers.{stoul}
use fio_chronicle.Exporter.Json.{Json, field}
use fio_chronicle.Exporter.Relic.{Services, Relic, get}
use fio_chronicle.Exporter.Relic.Acks.{acknowledgement, acknowledges, previous_of}
use fio_chronicle.Exporter.Relic.Blocks.{is_event}
use fio_chronicle.Receiver.State.{Chain, Flow}
use fio_chronicle.Receiver.Flow.{ack_flow, reached_end, must_pause}
use fio_chronicle.Receiver.State.{Config}
use fio_chronicle.Prelude.{All, refl, ◌∙◌, ◌++◌}
use fio_chronicle.Exporter.Relic.Drain.{acknowledgements, async_send_events-Handled}
use fio_chronicle.Exporter.Relic.Queue.{async_send_events}
use fio_chronicle.Exporter.Relic.Quiet.{acks}
use fio_chronicle.Prelude.{sym, ap, subst}

-- The receiver's fields after these acknowledgements.
unfoldable pub take_acks : List ℕ → Flow → Flow
unfolding ack_flow
take_acks [] f = f
take_acks (n ∷ ns) f = take_acks ns (ack_flow n f).0

-- A receiver that waits for the acknowledgement of its head.
pub record Waits (head : ℕ) (f : Flow) : Type 0 where
  pub will_ack : f.exporter_will_ack ≡ true
  pub behind : f.exporter_acked_block < head

Waits-ack_flow : (head n : ℕ) (f : Flow) → n < head → Waits head f → Waits head (ack_flow n f).0
unfolding ack_flow
Waits-ack_flow head n f below w = record {
  will_ack = let h = w.will_ack in ground arith;
  behind = let h = w.behind in ground arith;
}

Waits-reached_end : (ch : Chain) (f : Flow) → Waits ch.head f → reached_end ch f ≡ false
unfolding reached_end
Waits-reached_end ch f w = let h = w.will_ack in let k = w.behind in ground arith

take_acks-append :
    (ns ks : List ℕ) (f : Flow) → take_acks (ns ++ ks) f ≡ take_acks ks (take_acks ns f)
unfolding take_acks
take_acks-append [] ks f = refl
take_acks-append (n ∷ ns) ks f = take_acks-append ns ks (ack_flow n f).0

ack_flow-max :
    (n : ℕ) (f : Flow) → (ack_flow n f).0.exporter_max_unconfirmed ≡ f.exporter_max_unconfirmed
unfolding ack_flow
ack_flow-max n f = ground arith

take_acks-max :
    (ns : List ℕ) (f : Flow)
    → (take_acks ns f).exporter_max_unconfirmed ≡ f.exporter_max_unconfirmed
unfolding take_acks
take_acks-max [] f = refl
take_acks-max (n ∷ ns) f = take_acks-max ns (ack_flow n f).0 ∙ ack_flow-max n f

Waits-must_pause :
    (c : Config) (queue_size : ℕ) (ch : Chain) (f : Flow)
    → f.exporter_max_unconfirmed ≡ 1
    → ch.head < u32_mod
    → Waits ch.head f
    → must_pause c queue_size ch f ≡ true
unfolding must_pause
Waits-must_pause c queue_size ch f one fits w =
    let h = w.will_ack in let k = w.behind in ground arith

All-first : {A : Type 0} (P : A → Type 0) (xs ys : List A) → All P (xs ++ ys) → All P xs
All-first P [] ys all = tt
All-first P (x ∷ xs) ys all = (all.0, All-first P xs ys all.1)

module _ {D : Type 0} (sv : Services D) where
  Waits-previous :
      (head n : ℕ) (b : Bool) (f : Flow)
      → 0 < n
      → n ≤ head
      → head < u32_mod
      → Waits head f
      → Waits head (take_acks (if b then previous_of (some n) else []) f)
  unfolding take_acks
  Waits-previous head n true f pos_n below fits w =
      Waits-ack_flow head (sub32 (n % u32_mod) 1) f (omega arith) w
  Waits-previous head n false f pos_n below fits w = w

  -- The document is about a block up to this one.
  pub record IsUpTo (head : ℕ) (document : Json) : Type 0 where
    pub block_num : ℕ
    pub number : stoul (get sv (field document "data") "block_num") ≡ some block_num
    pub pos_block : 0 < block_num
    pub below : block_num ≤ head

  Waits-acknowledgement :
      (head : ℕ) (document : Json) (f : Flow)
      → IsUpTo head document
      → head < u32_mod
      → Waits head f
      → Waits head (take_acks (acknowledgement sv document) f)
  unfolding acknowledgement
  Waits-acknowledgement head document f up_to fits w = rw (up_to.number) (
      Waits-previous head up_to.block_num
        (is_event document && acknowledges (get sv document "msgtype")) f up_to.pos_block
        up_to.below fits w)

  Waits-acknowledgements :
      (head : ℕ) (documents : List Json) (f : Flow)
      → All (IsUpTo head) documents
      → head < u32_mod
      → Waits head f
      → Waits head (take_acks (acknowledgements sv documents) f)
  unfolding acknowledgements take_acks
  Waits-acknowledgements head [] f up_to fits w = w
  Waits-acknowledgements head (d ∷ rest) f (h, up_to) fits w =
      rw (take_acks-append (acknowledgement sv d) (acknowledgements sv rest) f) (
        Waits-acknowledgements head rest (take_acks (acknowledgement sv d) f) up_to fits
          (Waits-acknowledgement head d f h fits w))

  -- The acknowledgements of one call of the exporter, which has none outstanding.
  Waits-async_send_events :
      (head : ℕ) (f : Flow) (s : Relic D)
      → acks s.out ≡ []
      → All (IsUpTo head) s.async_queue
      → head < u32_mod
      → Waits head f
      → Waits head (take_acks (acks (async_send_events sv s).out) f)
  Waits-async_send_events head f s none_out up_to fits w =
      let h = async_send_events-Handled sv s in
      subst (λ ns. Waits head (take_acks ns f))
        (sym (h.in_order ∙ ap (λ l. l ++ acknowledgements sv h.done) none_out))
        (Waits-acknowledgements head h.done f
          (All-first (IsUpTo head) h.done h.left (subst (All (IsUpTo head)) h.parts up_to)) fits w)

  -- A receiver that waits for the acknowledgement of its head stays short of the end block whatever
  -- messages about blocks up to its head the exporter handles in a call of async_send_events, where
  -- none of its acknowledgements was outstanding: they are all of earlier blocks.
  pub async_send_events-reached_end :
      (ch : Chain) (f : Flow) (s : Relic D)
      → acks s.out ≡ []
      → All (IsUpTo ch.head) s.async_queue
      → ch.head < u32_mod
      → Waits ch.head f
      → Waits ch.head (take_acks (acks (async_send_events sv s).out) f)
        × (reached_end ch (take_acks (acks (async_send_events sv s).out) f) ≡ false)
  async_send_events-reached_end ch f s none_out up_to fits w =
      let after = Waits-async_send_events ch.head f s none_out up_to fits w in
      (after, Waits-reached_end ch _ after)

  -- With at most one unacknowledged block allowed, a receiver that waits for the acknowledgement of
  -- its head is paused after any messages about blocks up to its head that the exporter handles in
  -- a call of async_send_events, where none of its acknowledgements was outstanding.
  pub async_send_events-must_pause :
      (c : Config) (queue_size : ℕ) (ch : Chain) (f : Flow) (s : Relic D)
      → acks s.out ≡ []
      → All (IsUpTo ch.head) s.async_queue
      → ch.head < u32_mod
      → f.exporter_max_unconfirmed ≡ 1
      → Waits ch.head f
      → must_pause c queue_size ch (take_acks (acks (async_send_events sv s).out) f) ≡ true
  async_send_events-must_pause c queue_size ch f s none_out up_to fits one w =
      Waits-must_pause c queue_size ch (take_acks (acks (async_send_events sv s).out) f)
        (take_acks-max (acks (async_send_events sv s).out) f ∙ one) fits
        (Waits-async_send_events ch.head f s none_out up_to fits w)
