-- ===== src/Receiver/Flow/Acks.antt =====
-- Acknowledgements from the exporter (chronicle-receiver/receiver_plugin.cpp: ack_block).
use fio_chronicle.Prelude.{
  ℕ, ◌+◌, ◌<◌, ◌≤◌, ◌≡◌, ◌≢◌, refl, ◌∙◌, true, List, [], ◌∷◌, arith, All, u32_mod,
}
use fio_chronicle.Receiver.State.{Config, Chain, Flow}
use fio_chronicle.Receiver.Flow.{ack_flow, must_pause}

ack_flow-unaware :
    (n : ℕ) (f : Flow)
    → 0 < f.forked_at_block
    → n + 1 ≢ f.forked_at_block
    → (ack_flow n f).0.forked_at_block ≡ f.forked_at_block
unfolding ack_flow
ack_flow-unaware n f h other = ground arith

-- A run of acknowledgements.
pub ack_all : List ℕ → Flow → Flow
ack_all [] f = f
ack_all (n ∷ ns) f = ack_all ns (ack_flow n f).0

ack_flow-will_ack : (n : ℕ) (f : Flow) → (ack_flow n f).0.exporter_will_ack ≡ f.exporter_will_ack
unfolding ack_flow
ack_flow-will_ack n f = ground arith

-- None of these is the awaited one, so the waiting goes on.
ack_all-waiting :
    (k : ℕ) (ns : List ℕ) (f : Flow)
    → 0 < k
    → f.forked_at_block ≡ k
    → f.exporter_will_ack ≡ true
    → All (λ n. n + 1 ≢ k) ns
    → ((ack_all ns f).forked_at_block ≡ k) × ((ack_all ns f).exporter_will_ack ≡ true)
unfolding ack_all
ack_all-waiting k [] f h e w all = (e, w)
ack_all-waiting k (n ∷ ns) f h e w all =
    ack_all-waiting k ns (ack_flow n f).0 h
      (ack_flow-unaware n f (omega arith) (λ eq. all.0 (omega arith)) ∙ e)
      (ack_flow-will_ack n f ∙ w) all.1

-- With an acknowledging exporter, after a fork: any acknowledgements of other blocks than the one
-- before the fork leave the receiver pausing.
pub must_pause-fork :
    (c : Config) (queue_size : ℕ) (ch : Chain) (ns : List ℕ) (f : Flow)
    → f.exporter_will_ack ≡ true
    → 0 < f.forked_at_block
    → All (λ n. n + 1 ≢ f.forked_at_block) ns
    → must_pause c queue_size ch (ack_all ns f) ≡ true
unfolding must_pause
must_pause-fork c queue_size ch ns f w h all =
    ground (arith, ack_all-waiting f.forked_at_block ns f h refl w all)

-- An exporter that has acknowledged a block ahead of the head: the difference wraps around, and the
-- reader is paused, unless that block and the limit of unconfirmed blocks together lie more than
-- 2^32 ahead of the head.
pub must_pause-ahead :
    (c : Config) (queue_size : ℕ) (ch : Chain) (f : Flow)
    → f.exporter_will_ack ≡ true
    → ch.head < f.exporter_acked_block
    → f.exporter_acked_block < u32_mod
    → f.exporter_acked_block + f.exporter_max_unconfirmed ≤ ch.head + u32_mod
    → must_pause c queue_size ch f ≡ true
unfolding must_pause
must_pause-ahead c queue_size ch f w ahead small room = ground arith
