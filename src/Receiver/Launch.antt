-- ===== src/Receiver/Launch.antt =====
-- Launching the receiver (chronicle-receiver/receiver_plugin.cpp: add_dependency,
-- start_after_dependencies, start, plugin_startup, plugin_shutdown). The states of the other plugins
-- are appbase's, and the operations of the connection are Boost's: a call asks for one, which calls
-- back with its error code. `stream->is_open()` is true from the handshake on.
pub mod Dependencies
pub mod Connection
use Prim.Native.String.{String}
use fio_chronicle.Prelude.{ℕ, Bool, true, false, List, [], ◌∷◌, ◌++◌, if◌then◌else◌}
use fio_chronicle.Prelude.Action.{Action, Result, ok, err, skip, modify, ◌>>=◌, ◌>>◌}
use fio_chronicle.Store.Chainbase.{Chainbase}
use fio_chronicle.Store.Abieos.{Abieos}
use fio_chronicle.Receiver.State.{State, Config, armed_pause_timer, set_flow}
use fio_chronicle.Receiver.Flow.{callback, close, put_out}
use fio_chronicle.Receiver.Startup.{load_state, start_read}

-- The operation that is under way.
pub data Pending : Type 0 where
  nothing dependencies resolve connect handshake messages : Pending

-- A plugin and its name.
abbrev pub Dependent : Type 0
Dependent = ℕ × String

pub record Launch (D C : Type 0) : Type 0 where
  pub dependent_plugins : List Dependent
  pub pending : Pending
  pub state : State D C

-- The loop of `start_after_dependencies`: the plugins that are left.
unfoldable pub drop_started : (ℕ → Bool) → List Dependent → List Dependent
drop_started started [] = []
drop_started started ((plug, name) ∷ rest) =
    let rest' = drop_started started rest in if started plug then rest' else (plug, name) ∷ rest

-- What is called back: the timer, with the plugins that have started by then, or an operation
-- of the connection, with whether it failed.
pub data Callback : Type 0 where
  timer : (ℕ → Bool) → Callback
  completed : (failed : Bool) → Callback

module _ {D C : Type 0} where
  -- `add_dependency`
  unfoldable pub add_dependency : ℕ → String → Launch D C → Launch D C
  add_dependency plug name l = record l {
    dependent_plugins = l.dependent_plugins ++ (plug, name) ∷ [];
  }

  -- `plugin_shutdown`
  unfoldable pub plugin_shutdown : Launch D C → Launch D C
  unfolding close
  plugin_shutdown l = record l { state = close l.state }

  abbrev pub on_state : {A : Type 0} → Action (State D C) A → Action (Launch D C) A
  on_state m l = let (r, s) = m l.state in (r, record l { state = s })

  -- A callback of the connection: what it does, and what it asks for next.
  unfoldable pub on_connection : Bool → (State D C → State D C) → Pending → Launch D C → Launch D C
  unfolding callback
  on_connection failed f next l = record l {
    pending = if failed then nothing else next;
    state = callback failed (modify f) l.state;
  }

  abbrev open_stream : Bool → State D C → State D C
  open_stream b s = set_flow (record s.flow { stream_open = b }) s

  -- The callbacks of `async_resolve`, `async_connect` and `async_handshake`.
  unfoldable pub on_resolved : Bool → Launch D C → Launch D C
  unfolding on_connection
  on_resolved failed = on_connection failed (λ s. s) connect

  unfoldable pub on_connected : Bool → Launch D C → Launch D C
  unfolding on_connection
  on_connected failed = on_connection failed (λ s. s) handshake

  -- An exception out of the timer ends the application.
  abbrev pub ended : Result (Unit {0}) × Launch D C → Launch D C
  ended (ok _, l) = l
  ended (err _, l) = record l { pending = nothing }

  module _ ⦃cb : Chainbase D⦄ ⦃ab : Abieos C⦄ where
    unfoldable pub on_handshake : Config → Bool → Launch D C → Launch D C
    unfolding on_connection start_read
    on_handshake c failed = on_connection failed (λ s. start_read c (open_stream true s)) messages

    -- `start`
    unfoldable pub start : Config → Action (Launch D C) (Unit {0})
    unfolding load_state
    start c = do
      on_state (modify (open_stream false))
      if c.interactive_mode then skip else on_state (load_state c)
      modify (λ l. record l { pending = resolve })

    unfoldable pub start_or_wait : Config → List Dependent → Action (Launch D C) (Unit {0})
    unfolding start
    start_or_wait c [] = do modify (λ l. record l { dependent_plugins = [] }); start c
    start_or_wait c (d ∷ rest) = modify (λ l. record l {
      dependent_plugins = d ∷ rest;
      pending = dependencies;
      state = put_out (armed_pause_timer 50 ∷ []) l.state;
    })

    -- `start_after_dependencies`, which `plugin_startup` and the timer call.
    unfoldable pub start_after_dependencies : Config → (ℕ → Bool) → Action (Launch D C) (Unit {0})
    unfolding drop_started start_or_wait
    start_after_dependencies c started l =
        start_or_wait c (drop_started started l.dependent_plugins) l

    -- A callback of the operation that is under way.
    unfoldable pub on_callback : Config → Pending → Callback → Launch D C → Launch D C
    unfolding start_after_dependencies on_resolved on_connected on_handshake
    on_callback c dependencies (timer started) l = ended (start_after_dependencies c started l)
    on_callback c resolve (completed failed) l = on_resolved failed l
    on_callback c connect (completed failed) l = on_connected failed l
    on_callback c handshake (completed failed) l = on_handshake c failed l
    on_callback c pending call l = l

    unfoldable pub on_callbacks : Config → List Callback → Launch D C → Launch D C
    unfolding on_callback
    on_callbacks c [] l = l
    on_callbacks c (call ∷ rest) l = on_callbacks c rest (on_callback c l.pending call l)
