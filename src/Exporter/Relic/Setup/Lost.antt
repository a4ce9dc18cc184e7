-- ===== src/Exporter/Relic/Setup/Lost.antt =====
-- The exporter to the relic database without its connection (chronicle-receiver/
-- exp_relic_plugin.cpp: init, plugin_initialize).
use fio_chronicle.Prelude.{
  ℕ, ◌≡◌, refl, ap, ◌∙◌, true, false, List, [], ◌∷◌, some, ◌==◌, Bool, not, if◌then◌else◌,
}
use fio_chronicle.Prelude.Action.{ok, ◌>>=◌}
use fio_chronicle.Exporter.Text.{Text}
use fio_chronicle.Exporter.Json.{Json}
use fio_chronicle.Exporter.Relic.{Services, emit, finished_connection}
use fio_chronicle.Exporter.Relic.Queue.{low_water}
use fio_chronicle.Exporter.Ws.Messages.{Kind}
use fio_chronicle.Receiver.Launch.{add_dependency}
use fio_chronicle.Exporter.Relic.Setup.{
  RelicOptions, Setup, Application, conninfo, init, initialize_exporter, plugin_initialize,
  on_channel, exporter_initialized,
}

if_not : {A : Type 0} (b : Bool) (x y : A) → b ≡ false → (if not b then x else y) ≡ x
if_not b x y e = rw e refl

module _ {D : Type 0} where
  -- A run of events on the channels.
  abbrev pub on_channels : List (Kind × Json) → Setup D → Setup D
  on_channels [] s = s
  on_channels ((kind, event) ∷ rest) s = on_channels rest (on_channel kind event s)

  on_channels-unsubscribed :
      (events : List (Kind × Json)) (s : Setup D) → s.subscribed ≡ false → on_channels events s ≡ s
  unfolding on_channel
  on_channels-unsubscribed [] s e = refl
  on_channels-unsubscribed ((kind, event) ∷ rest) s e =
      ap (on_channels rest) (if_not s.subscribed _ _ e) ∙ on_channels-unsubscribed rest s e

module _ {D B C : Type 0} (sv : Services D) (connect_db : Text → D) where
  -- The application with the exporter set up but without its connection.
  abbrev without_connection : ℕ → RelicOptions → Text → Application D B C → Application D B C
  without_connection plug o info a = record {
    setup = record a.setup {
      options = o;
      relic = emit finished_connection (record a.setup.relic {
        db = connect_db info;
        queue_hwm = o.max_queue;
        queue_lwm = low_water o.max_queue;
      });
    };
    receiver = add_dependency plug "exp_relic_plugin" a.receiver;
    have_exporter = true;
  }

  initialize-lost :
      (plug : ℕ) (o : RelicOptions) (host port : Text) (a : Application D B C)
      → o.relic_host ≡ some host
      → o.relic_port ≡ some port
      → (o.max_unack == 0) ≡ false
      → (o.max_queue == 0) ≡ false
      → a.have_exporter ≡ false
      → sv.connected (connect_db (conninfo o host port)) ≡ false
      → plugin_initialize sv connect_db (ok false) plug o a
        ≡ (ok tt, without_connection plug o (conninfo o host port) a)
  unfolding plugin_initialize initialize_exporter init exporter_initialized ◌>>=◌
  initialize-lost plug o host port a eh ep eu eq none_yet lost =
      rw (eh, ep, eu, eq, lost, none_yet) refl

  -- Where blocks are exported and the options are accepted, an exporter that is the first and gets
  -- no connection to its database is initialised without an error all the same, and counts as the
  -- exporter; but no event on any channel changes anything in it, so it exports and acknowledges
  -- nothing.
  pub plugin_initialize-lost :
      (plug : ℕ) (o : RelicOptions) (host port : Text) (a : Application D B C)
      (events : List (Kind × Json))
      → o.relic_host ≡ some host
      → o.relic_port ≡ some port
      → (o.max_unack == 0) ≡ false
      → (o.max_queue == 0) ≡ false
      → a.have_exporter ≡ false
      → a.setup.subscribed ≡ false
      → sv.connected (connect_db (conninfo o host port)) ≡ false
      → (t : Application D B C) × (plugin_initialize sv connect_db (ok false) plug o a ≡ (ok tt, t))
        × (t.have_exporter ≡ true)
        × (on_channels events t.setup ≡ t.setup)
  plugin_initialize-lost plug o host port a events eh ep eu eq none_yet unsubscribed lost = (
    without_connection plug o (conninfo o host port) a,
    initialize-lost plug o host port a eh ep eu eq none_yet lost,
    refl,
    on_channels-unsubscribed events _ unsubscribed,
  )
