-- ===== src/Exporter/Dummy.antt =====
-- The example exporter (examples/exp-dummy-plugin/exp_dummy_plugin.cpp), which logs the type of each
-- event, beside the exporter to the relic database. Its option is only logged.
pub mod Single
use Prim.Native.String.{String}
use fio_chronicle.Prelude.{
  ℕ, Bool, true, false, List, [], ◌∷◌, ◌++◌, Option, none, some, if◌then◌else◌, ◌&&◌,
}
use fio_chronicle.Prelude.Action.{Action, modify, ◌>>=◌, ◌>>◌}
use fio_chronicle.Exporter.Ws.Messages.{
  Kind, name, fork, block, tx_trace, abi_upd, abi_rem, abi_err, tbl_row, encoder_err, rcvr_pause,
}
use fio_chronicle.Exporter.Relic.Setup.{Application, exporter_initialized}
use fio_chronicle.Receiver.Launch.{add_dependency}

pub record Dummy (D B C : Type 0) : Type 0 where
  pub application : Application D B C
  pub subscribed : Bool
  pub log : List String

-- The channels that it subscribes to.
abbrev pub listens : Kind → Bool
listens fork = true
listens block = true
listens tx_trace = true
listens abi_upd = true
listens abi_rem = true
listens abi_err = true
listens tbl_row = true
listens rcvr_pause = true
listens encoder_err = true
listens kind = false

module _ {D B C : Type 0} where
  -- `on_event`, from the channel of an event.
  unfoldable pub on_event : Kind → Dummy D B C → Dummy D B C
  on_event kind s =
      if s.subscribed && listens kind then record s { log = s.log ++ name kind ∷ [] } else s

  abbrev on_application : {A : Type 0} → Action (Application D B C) A → Action (Dummy D B C) A
  on_application m s = let (r, a) = m s.application in (r, record s { application = a })

  unfoldable pub plugin_initialize : (plug : ℕ) → Action (Dummy D B C) (Unit {0})
  unfolding exporter_initialized add_dependency
  plugin_initialize plug = do
    modify (λ s. record s {
      application = record s.application {
        receiver = add_dependency plug "exp_dummy_plugin" s.application.receiver;
      };
    })
    modify (λ s. record s { subscribed = true })
    on_application exporter_initialized
