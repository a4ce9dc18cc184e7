-- ===== src/Receiver/Flow/Pausing.antt =====
-- When the reader goes on and when it pauses (chronicle-receiver/receiver_plugin.cpp: check_pause,
-- continue_read).
use fio_chronicle.Prelude.{
  ℕ, ◌%◌, ◌<◌, ◌≤◌, ◌≡◌, ◌↔◌, ◌≢◌, ◌⊎◌, refl, true, false, arith, sub32, Bool-cases, inl, inr,
}
use fio_chronicle.Store.Chainbase.{Chainbase}
use fio_chronicle.Receiver.State.{State, Config, Chain, Flow}
use fio_chronicle.Receiver.Flow.{
  must_pause, reached_end, next_pause, commit_rev, pause, check_pause, continue_read, commit_db,
  abort_receiver, close,
}

-- What must hold for the reader to go on.
pub record MayRead (c : Config) (queue_size : ℕ) (ch : Chain) (f : Flow) : Type 0 where
  pub not_slowed : f.slowdown_requested ≡ false
  pub no_fork : f.exporter_will_ack ≡ true → f.forked_at_block ≡ 0
  pub within_limit :
      f.exporter_will_ack ≡ true → sub32 ch.head f.exporter_acked_block < f.exporter_max_unconfirmed
  pub queue_fits : queue_size ≤ c.max_queue_size
  pub before_end : c.interactive_mode ≡ false → ch.head ≢ sub32 f.end_block_num 1

must_pause-MayRead :
    (c : Config) (q : ℕ) (ch : Chain) (f : Flow) → must_pause c q ch f ≡ false → MayRead c q ch f
unfolding must_pause
must_pause-MayRead c q ch f h = record {
  not_slowed = ground arith;
  no_fork = ground arith;
  within_limit = ground arith;
  queue_fits = ground arith;
  before_end = ground arith;
}

MayRead-must_pause :
    (c : Config) (q : ℕ) (ch : Chain) (f : Flow) → MayRead c q ch f → must_pause c q ch f ≡ false
unfolding must_pause
MayRead-must_pause c q ch f h =
    ground (arith, h.not_slowed, h.no_fork, h.within_limit, h.queue_fits, h.before_end)

-- The lengths of pauses: a multiple of 50 milliseconds, half a second at most.
abbrev pub IsPause : ℕ → Type 0
IsPause msec = (msec % 50 ≡ 0) × (msec ≤ 500)

next_pause-IsPause :
    (msec : ℕ)
    → IsPause msec
    → IsPause (next_pause msec) × (50 ≤ next_pause msec) × (msec ≤ next_pause msec)
unfolding next_pause
next_pause-IsPause msec h = ground arith

module _ {D C : Type 0} ⦃cb : Chainbase D⦄ where
  -- Reading goes on, with the state unchanged, exactly when the exporter has not asked to slow down,
  -- no fork waits for its acknowledgement, the unacknowledged blocks and the queue are within their
  -- limits, and scanning has not come to the end block.
  pub check_pause-goes_on :
      (c : Config) (q : ℕ) (s : State D C)
      → (check_pause c q s ≡ (true, s)) ↔ MayRead c q s.chain s.flow
  unfolding check_pause
  check_pause-goes_on c q s = (
    λ e. elim (Bool-cases (must_pause c q s.chain s.flow)) [
      | inl stop ↦ absurd (ground arith)
      | inr go ↦ must_pause-MayRead c q s.chain s.flow go
    ],
    λ m. rw (MayRead-must_pause c q s.chain s.flow m) refl,
  )

  -- The lengths of pauses: a step of the reader sets the length to 0 and goes on; or it pauses for
  -- a multiple of 50 ms that is 50 ms at least, half a second at most and no less than the one
  -- before; or, at the end block, it leaves the length.
  pub continue_read-IsPause :
      (c : Config) (q : ℕ) (s : State D C)
      → IsPause s.flow.pause_time_msec
      → ((must_pause c q s.chain s.flow ≡ false) × ((continue_read c q s).flow.pause_time_msec ≡ 0))
        ⊎ ((must_pause c q s.chain s.flow ≡ true)
            × (reached_end s.chain s.flow ≡ false)
            × IsPause (continue_read c q s).flow.pause_time_msec
            × (50 ≤ (continue_read c q s).flow.pause_time_msec)
            × (s.flow.pause_time_msec ≤ (continue_read c q s).flow.pause_time_msec))
        ⊎ ((must_pause c q s.chain s.flow ≡ true)
            × (reached_end s.chain s.flow ≡ true)
            × ((continue_read c q s).flow.pause_time_msec ≡ s.flow.pause_time_msec))
  unfolding continue_read check_pause pause commit_db abort_receiver close
  continue_read-IsPause c q s h = elim (Bool-cases (must_pause c q s.chain s.flow)) [
    | inr go ↦ inl (go, ground arith)
    | inl stop ↦ elim (Bool-cases (reached_end s.chain s.flow)) [
      | inr more ↦
          let (p, ge, le) = next_pause-IsPause s.flow.pause_time_msec h in
          inr (inl (stop, more, rw stop (rw more p), rw stop (rw more ge), rw stop (rw more le)))
      | inl end ↦ inr (inr (stop, end, ground arith))
    ]
  ]

-- When the test for the end block holds, the revision to be committed is not below the head, and
-- the head is the block before the end.
pub reached_end-commit_rev :
    (ch : Chain) (f : Flow)
    → reached_end ch f ≡ true
    → (ch.head ≤ commit_rev ch f) × (ch.head ≡ sub32 f.end_block_num 1)
unfolding reached_end commit_rev
reached_end-commit_rev ch f h = ground arith
