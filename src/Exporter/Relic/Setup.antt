-- ===== src/Exporter/Relic/Setup.antt =====
-- Setting up the exporter to the relic database (chronicle-receiver/exp_relic_plugin.cpp:
-- set_program_options, plugin_initialize, init, start, plugin_startup; chronicle-receiver/
-- receiver_plugin.cpp: exporter_initialized, donot_start_receiver_before). PQconnectdb is a
-- parameter: the database that a connection string leads to.
pub mod Lost
use Prim.Native.String.{String}
use fio_chronicle.Prelude.{
  ℕ, Bool, true, false, not, List, [], ◌∷◌, ◌++◌, Option, none, some, if◌then◌else◌, ◌==◌,
}
use fio_chronicle.Prelude.Action.{
  Action, Result, ok, err, or_throw, modify, throw_if, skip, gets, ◌>>=◌, ◌>>◌, option_error,
  second_exporter,
}
use fio_chronicle.Exporter.Text.{Text, text}
use fio_chronicle.Exporter.Json.{Json}
use fio_chronicle.Exporter.Relic.{Services, Relic, emit, finished_connection}
use fio_chronicle.Exporter.Relic.Queue.{low_water, on_event_json, on_event_bin, async_send_events}
use fio_chronicle.Exporter.Ws.Messages.{Kind, name}
use fio_chronicle.Receiver.State.{State, Config, Flow, set_flow}
use fio_chronicle.Receiver.Flow.{exporter_will_ack_blocks}
use fio_chronicle.Receiver.Launch.{Launch, add_dependency}

-- `set_program_options`; `none` is an option that is not given once.
pub record RelicOptions : Type 0 where
  pub relic_host : Option Text
  pub relic_port : Option Text
  pub relic_user : Text
  pub relic_password : Text
  pub relic_db : Text
  pub max_unack : ℕ
  pub max_queue : ℕ
  pub bin_header : Bool

-- The defaults of `set_program_options`.
abbrev pub default_options : RelicOptions
default_options = record {
  relic_host = some (text "localhost");
  relic_port = some (text "5432");
  relic_user = text "chronicle_user";
  relic_password = text "1234!";
  relic_db = text "relicdb";
  max_unack = 1000;
  max_queue = 10000;
  bin_header = false;
}

-- The plugin object around the exporter's state.
pub record Setup (D : Type 0) : Type 0 where
  pub options : RelicOptions
  pub relic : Relic D
  pub subscribed : Bool

-- The exporter, the receiver, and the static variable `have_exporter`.
pub record Application (D B C : Type 0) : Type 0 where
  pub setup : Setup D
  pub receiver : Launch B C
  pub have_exporter : Bool

-- `exporter_initialized`
unfoldable pub exporter_initialized : {D B C : Type 0} → Action (Application D B C) (Unit {0})
exporter_initialized = do
  have ← gets (λ a. a.have_exporter)
  throw_if have second_exporter
  modify (λ a. record a { have_exporter = true })

-- "dbname=... user=... password=... host=... port=..."
unfoldable pub conninfo : RelicOptions → Text → Text → Text
conninfo o host port =
    text "dbname="
    ++ o.relic_db
    ++ text " user="
    ++ o.relic_user
    ++ text " password="
    ++ o.relic_password
    ++ text " host="
    ++ host
    ++ text " port="
    ++ port

module _ {D : Type 0} where
  -- An event on one of the channels of the decoder.
  unfoldable pub on_channel : Kind → Json → Setup D → Setup D
  unfolding on_event_json on_event_bin
  on_channel kind event s =
      if not s.subscribed
      then s
      else if s.options.bin_header
      then record s { relic = on_event_bin s.relic }
      else record s { relic = on_event_json (name kind) event s.relic }

  module _ {B C : Type 0} where
    abbrev pub on_setup : (Setup D → Setup D) → Application D B C → Application D B C
    on_setup f a = record a { setup = f a.setup }

    -- A call of the receiver that only touches its acknowledgements.
    abbrev on_flow : Action Flow (Unit {0}) → Action (Application D B C) (Unit {0})
    on_flow m a =
        let (r, f) = m a.receiver.state.flow in
        (r, record a { receiver = record a.receiver { state = set_flow f a.receiver.state } })

module _ {D : Type 0} (sv : Services D) (connect_db : Text → D) where
  -- `init`: without a connection it returns before it subscribes to any channel.
  unfoldable pub init : Text → Setup D → Setup D
  init info s =
      if sv.connected (connect_db info)
      then record s { relic = record s.relic { db = connect_db info }; subscribed = true }
      else record s { relic = emit finished_connection (record s.relic { db = connect_db info }) }

  module _ {B C : Type 0} where
    -- What `plugin_initialize` does unless the receiver is in noexport mode.
    unfoldable pub initialize_exporter :
        (plug : ℕ) → RelicOptions → Action (Application D B C) (Unit {0})
    unfolding init conninfo exporter_initialized add_dependency
    initialize_exporter plug o = do
      modify (λ a. record a { receiver = add_dependency plug "exp_relic_plugin" a.receiver })
      host ← or_throw o.relic_host option_error
      port ← or_throw o.relic_port option_error
      modify (on_setup (λ s. record s { options = o }))
      throw_if (o.max_unack == 0) option_error
      throw_if (o.max_queue == 0) option_error
      modify (
          on_setup (λ s. record s {
            relic = record s.relic { queue_hwm = o.max_queue; queue_lwm = low_water o.max_queue };
          }))
      modify (on_setup (init (conninfo o host port)))
      exporter_initialized

    -- `plugin_initialize`, with what `is_noexport_opt` says.
    unfoldable pub plugin_initialize :
        Result Bool → (plug : ℕ) → RelicOptions → Action (Application D B C) (Unit {0})
    unfolding initialize_exporter
    plugin_initialize (err x) plug o a = (err x, a)
    plugin_initialize (ok true) plug o a = (ok tt, a)
    plugin_initialize (ok false) plug o a = initialize_exporter plug o a

    -- `start`, which `plugin_startup` calls unless the receiver is in noexport mode.
    unfoldable pub start : Config → Action (Application D B C) (Unit {0})
    unfolding async_send_events exporter_will_ack_blocks
    start c = do
      s ← gets (λ a. a.setup)
      if c.interactive_mode then skip else on_flow (exporter_will_ack_blocks c s.options.max_unack)
      modify (on_setup (λ t. record t { relic = async_send_events sv t.relic }))

    unfoldable pub plugin_startup : Config → Action (Application D B C) (Unit {0})
    unfolding start
    plugin_startup c = if c.noexport_mode then skip else start c
