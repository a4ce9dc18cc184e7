-- ===== src/Exporter/Tests/Setup.antt =====
-- The theorems on setting up the exporter to the relic database at concrete inputs.
use fio_chronicle.Prelude.{◌≡◌, refl, true, false, [], ◌∷◌, arith}
use fio_chronicle.Prelude.Action.{ok, err, second_exporter, ◌>>=◌}
use fio_chronicle.Exporter.Dummy.{Dummy, plugin_initialize as dummy_initialize}
use fio_chronicle.Exporter.Dummy.Single.{plugin_initialize-second}
use fio_chronicle.Exporter.Text.{text}
use fio_chronicle.Exporter.Ws.Messages.{block_completed}
use fio_chronicle.Exporter.Relic.Quiet.{acks}
use fio_chronicle.Exporter.Relic.Queue.{async_send_events}
use fio_chronicle.Exporter.Relic.EndBlock.{take_acks, async_send_events-must_pause}
use fio_chronicle.Exporter.Relic.Setup.{Application, default_options, plugin_initialize}
use fio_chronicle.Exporter.Relic.Setup.Lost.{on_channels, plugin_initialize-lost}
use fio_chronicle.Exporter.Tests.Relic.{
  answering, relic, numbered, chain_at_eight, flow_at_six, at_end, none_acked, completed_IsUpTo,
}
use fio_chronicle.Store.Sample.{SampleDb}
use fio_chronicle.Receiver.Samples.{scanning, state_at_12, Context}
use fio_chronicle.Receiver.Flow.{must_pause}
use fio_chronicle.Receiver.Launch.{dependencies}

abbrev application : Application (Unit {0}) SampleDb Context
application = record {
  setup = record { options = default_options; relic = relic []; subscribed = false };
  receiver = record { dependent_plugins = []; pending = dependencies; state = state_at_12 };
  have_exporter = false;
}

plugin_initialize-lost_example :
    (t : Application (Unit {0}) SampleDb Context) × (plugin_initialize
        (answering false)
        (λ info. tt)
        (ok false)
        7
        default_options
        application
      ≡ (ok tt, t))
    × (t.have_exporter ≡ true)
    × (on_channels ((block_completed, numbered (text "8")) ∷ []) t.setup ≡ t.setup)
plugin_initialize-lost_example =
    plugin_initialize-lost (answering false) (λ info. tt) 7 default_options (text "localhost")
      (text "5432") application ((block_completed, numbered (text "8")) ∷ []) refl refl refl refl
      refl refl refl

async_send_events-must_pause_example :
    must_pause scanning 0 chain_at_eight (
      take_acks
        (acks (async_send_events (answering true) at_end).out)
        (record flow_at_six { exporter_max_unconfirmed = 1 }))
    ≡ true
async_send_events-must_pause_example =
    async_send_events-must_pause (answering true) scanning 0 chain_at_eight
      (record flow_at_six { exporter_max_unconfirmed = 1 }) at_end none_acked (completed_IsUpTo, tt)
      (omega arith) refl (record { will_ack = refl; behind = omega arith })

-- The relic exporter with its connection, and then the example.
abbrev connected_relic : Application (Unit {0}) SampleDb Context
connected_relic =
    (plugin_initialize (answering true) (λ info. tt) (ok false) 7 default_options application).1

relic_returns :
    plugin_initialize (answering true) (λ info. tt) (ok false) 7 default_options application
    ≡ (ok tt, connected_relic)
unfolding plugin_initialize ◌>>=◌
relic_returns = refl

abbrev example : Dummy (Unit {0}) SampleDb Context
example = record { application = connected_relic; subscribed = false; log = [] }

plugin_initialize-second_example :
    (application.have_exporter ≡ false) × ((dummy_initialize 8 example).0 ≡ err second_exporter)
plugin_initialize-second_example =
    plugin_initialize-second (answering true) (λ info. tt) 7 8 default_options application example
      relic_returns
