-- ===== src/Receiver/Tests/Launch.antt =====
-- The theorems on the launch at concrete inputs.
use fio_chronicle.Prelude.{ℕ, ◌≡◌, ◌≢◌, refl, true, Bool, [], ◌∷◌, All, ◌==◌}
use fio_chronicle.Prelude.Action.{◌>>=◌}
use fio_chronicle.Store.Sample.{SampleDb, sample_chainbase, sample_abieos}
use fio_chronicle.Receiver.Samples.{interactive, state_at_12, Context}
use fio_chronicle.Receiver.Launch.{
  Launch, dependencies, timer, on_callbacks, on_callback, start, start_after_dependencies,
  start_or_wait, drop_started, ended, add_dependency,
}
use fio_chronicle.Receiver.Launch.Dependencies.{
  on_callbacks-seen_started, on_callback-start, seen_started,
}

-- Two plugins to wait for, as they start one after the other.
abbrev waiting : Launch SampleDb Context
waiting = record {
  dependent_plugins = (7, "exp_relic_plugin") ∷ (8, "decoder_plugin") ∷ [];
  pending = dependencies;
  state = state_at_12;
}

abbrev first_started : ℕ → Bool
first_started plug = plug == 7

abbrev both_started : ℕ → Bool
both_started plug = true

-- The two registrations make this list.
registrations :
    add_dependency 8 "decoder_plugin"
      (add_dependency 7 "exp_relic_plugin" (record waiting { dependent_plugins = [] }))
    ≡ waiting
unfolding add_dependency
registrations = refl

left_dependencies :
    (on_callbacks interactive (timer first_started ∷ timer both_started ∷ []) waiting).pending
    ≢ dependencies
unfolding on_callbacks on_callback start_after_dependencies start_or_wait drop_started start ◌>>=◌
left_dependencies e = cc

on_callbacks-seen_started_example :
    All
      (λ d. seen_started (timer first_started ∷ timer both_started ∷ []) d ≡ true)
      waiting.dependent_plugins
on_callbacks-seen_started_example =
    on_callbacks-seen_started interactive (timer first_started ∷ timer both_started ∷ []) waiting
      refl left_dependencies

still_waiting : (on_callbacks interactive (timer first_started ∷ []) waiting).pending ≡ dependencies
unfolding on_callbacks on_callback start_after_dependencies start_or_wait drop_started ◌>>=◌
still_waiting = refl

on_callback-start_example :
    on_callback interactive
      (on_callbacks interactive (timer first_started ∷ []) waiting).pending
      (timer both_started)
      (on_callbacks interactive (timer first_started ∷ []) waiting)
    ≡ ended (
        start interactive (record (on_callbacks interactive (timer first_started ∷ []) waiting) {
          dependent_plugins = [];
        }))
on_callback-start_example =
    on_callback-start interactive (timer first_started ∷ []) both_started waiting still_waiting refl
