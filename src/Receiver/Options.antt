-- ===== src/Receiver/Options.antt =====
-- The options of the receiver and its initialisation (chronicle-receiver/receiver_plugin.cpp:
-- set_program_options, plugin_initialize, init, is_noexport_opt). The values are read from the
-- command line and the configuration by boost::program_options; `boost::split` and
-- `eosio::string_to_name_strict`, which are not part of the repository, are the parameters `Names`.
-- Whether the database can be opened is one of them too. A file is the snapshot in it, where it has
-- one.
pub mod Reading
pub mod Steps
pub mod Accepted
pub mod Modes
pub mod Filters
pub mod Traces
pub mod TableRows
use Prim.Native.String.{String}
use text.Mathlib.Text.{◌==◌ as str_eq}
use fio_chronicle.Prelude.{
  ℕ, Bool, true, false, not, ◌&&◌, ◌||◌, List, [], ◌∷◌, Option, none, some, ltb, insert, u32_mod,
  ◌-◌, if◌then◌else◌,
}
use fio_chronicle.Prelude.Action.{
  Action, Result, ok, err, pure, gets, or_throw, modify, throw_if, throw, skip, for_each, ◌>>=◌,
  ◌>>◌, option_error, database_error, bad_magic,
}
use fio_chronicle.Store.Chainbase.{Chainbase}
use fio_chronicle.Receiver.State.{State, World, Config, TraceFilter, TablesFilter, quit_app}
use fio_chronicle.Receiver.Flow.{put_out}
use fio_chronicle.Receiver.Snapshot.{Snapshot, write_snapshot, read_snapshot}

-- `set_program_options`: an option without a default may be missing.
pub record Options : Type 0 where
  pub data_dir : Option String
  pub save_snapshot : Option String
  pub restore_snapshot : Option String
  pub mode : Option String
  pub host : String
  pub port : String
  pub report_every : ℕ
  pub max_queue_size : ℕ
  pub skip_block_events : Bool
  pub skip_table_deltas : Bool
  pub skip_traces : Bool
  pub skip_account_info : Bool
  pub irreversible_only : Bool
  pub start_block : ℕ
  pub end_block : ℕ
  pub stale_deadline : ℕ
  pub enable_receiver_filter : Bool
  pub include_receiver : Option (List String)
  pub enable_auth_filter : Bool
  pub include_auth : Option (List String)
  pub blacklist_action : Option (List String)
  pub enable_tables_filter : Bool
  pub include_tables_contract : Option (List String)
  pub blacklist_tables_contract : Option (List String)

-- The defaults of `set_program_options`.
abbrev pub default_options : Options
default_options = record {
  data_dir = none;
  save_snapshot = none;
  restore_snapshot = none;
  mode = none;
  host = "localhost";
  port = "8080";
  report_every = 10000;
  max_queue_size = 10000;
  skip_block_events = false;
  skip_table_deltas = false;
  skip_traces = false;
  skip_account_info = false;
  irreversible_only = false;
  start_block = 0;
  end_block = u32_mod - 1;
  stale_deadline = 10000;
  enable_receiver_filter = false;
  include_receiver = none;
  enable_auth_filter = false;
  include_auth = none;
  blacklist_action = none;
  enable_tables_filter = false;
  include_tables_contract = none;
  blacklist_tables_contract = none;
}

-- `options.count(option) > 0`
abbrev pub given : {A : Type 0} → Option A → Bool
given none = false
given (some a) = true

-- `eosio::string_to_name_strict`, which throws where there is no result, `boost::split` at ':', and
-- whether the lock file and the database of the options can be opened (in interactive mode for
-- reading only) and its indexes be added, without an exception.
pub record Names : Type 0 where
  pub string_to_name_strict : String → Option ℕ
  pub split : String → List String
  pub opens : Options → (read_only : Bool) → Bool

-- The plugin object around the receiver's state.
pub record Plugin (D C : Type 0) : Type 0 where
  pub config : Config
  pub state : State D C
  pub host : String
  pub port : String
  pub report_every : ℕ
  pub subscribed_requests : Bool
  pub files : String → Option Snapshot

-- The branches on the mode; another mode leaves the flags as they are.
unfoldable pub with_mode : String → Config → Config
with_mode m c =
    if str_eq m "scan"
    then record c { noexport_mode = false; interactive_mode = false }
    else if str_eq m "scan-noexport"
    then record c { noexport_mode = true; interactive_mode = false }
    else if str_eq m "interactive"
    then record c { noexport_mode = false; interactive_mode = true; irreversible_only = true }
    else c

module _ {D C : Type 0} where
  abbrev pub set_config : (Config → Config) → Plugin D C → Plugin D C
  set_config f p = record p { config = f p.config }

  abbrev pub set_traces : (TraceFilter → TraceFilter) → Plugin D C → Plugin D C
  set_traces f = set_config (λ c. record c { traces = f c.traces })

  abbrev pub set_tables : (TablesFilter → TablesFilter) → Plugin D C → Plugin D C
  set_tables f = set_config (λ c. record c { tables = f c.tables })

  abbrev pub set_file : String → Option Snapshot → Plugin D C → Plugin D C
  set_file name f p = record p { files = λ n. if str_eq n name then f else p.files n }

  -- `app().quit()`
  abbrev quit : Plugin D C → Plugin D C
  quit p = record p { state = put_out (quit_app ∷ []) p.state }

  abbrev on_database : {A : Type 0} → Action (World D C) A → Action (Plugin D C) A
  on_database m p =
      let (r, w) = m p.state.world in (r, record p { state = record p.state { world = w } })

  -- The flags, before the database is opened.
  unfoldable pub choose_mode : Options → Action (Plugin D C) (Unit {0})
  unfolding with_mode
  choose_mode o =
      if given o.save_snapshot || given o.restore_snapshot
      then (do
        throw_if (given o.save_snapshot && given o.restore_snapshot) option_error
        modify (set_config (λ c. record c { noexport_mode = true; interactive_mode = false })))
      else (do
        m ← or_throw o.mode option_error
        modify (set_config (λ c. record c { irreversible_only = o.irreversible_only }))
        modify (set_config (with_mode m)))

  -- The options that are only taken over, and the one that interactive mode excludes.
  unfoldable pub take_options : Options → Action (Plugin D C) (Unit {0})
  take_options o = do
    modify (λ p. record p { host = o.host; port = o.port; report_every = o.report_every })
    modify (
        set_config (λ c. record c {
          max_queue_size = o.max_queue_size;
          skip_block_events = o.skip_block_events;
          skip_table_deltas = o.skip_table_deltas;
          skip_traces = o.skip_traces;
          skip_account_info = o.skip_account_info;
          start_block_num = o.start_block;
        }))
    interactive ← gets (λ p. p.config.interactive_mode)
    throw_if (interactive && ltb 0 o.start_block) option_error
    modify (λ p. record p {
      state = record p.state { flow = record p.state.flow { end_block_num = o.end_block } };
    })
    modify (set_config (λ c. record c { stale_check_deadline_msec = o.stale_deadline }))

  -- `init`
  abbrev pub init : Plugin D C → Plugin D C
  init p = record p {
    subscribed_requests = if p.config.interactive_mode then true else p.subscribed_requests;
  }

  -- One more name in a filter.
  abbrev pub add_receiver : ℕ → Plugin D C → Plugin D C
  add_receiver n = set_traces (λ f. record f { rcvr_filter = insert n f.rcvr_filter })

  abbrev pub add_auth : ℕ → Plugin D C → Plugin D C
  add_auth n = set_traces (λ f. record f { auth_filter = insert n f.auth_filter })

  abbrev pub add_table : ℕ → Plugin D C → Plugin D C
  add_table n = set_tables (λ f. record f { tables_filter = insert n f.tables_filter })

  abbrev pub add_listed_table : ℕ → Plugin D C → Plugin D C
  add_listed_table n = set_tables (λ f. record f { tables_blacklist = insert n f.tables_blacklist })

  -- `blacklist_actions[contract].insert(action)`
  abbrev pub add_listed : ℕ → ℕ → Plugin D C → Plugin D C
  add_listed contract action =
      set_traces (λ f. record f { blacklist_actions = (contract, action) ∷ f.blacklist_actions })

module _ (names : Names) {D C : Type 0} where
  -- `uint64_t accname = string_to_name_strict(accstr); filter.insert(accname);`
  unfoldable pub add_name : (ℕ → Plugin D C → Plugin D C) → String → Action (Plugin D C) (Unit {0})
  add_name add s = do n ← or_throw (names.string_to_name_strict s) option_error; modify (add n)

  -- A filter that needs at least one name when it is enabled.
  unfoldable pub read_filter :
      Bool → Option (List String) → (ℕ → Plugin D C → Plugin D C) → Action (Plugin D C) (Unit {0})
  unfolding for_each add_name
  read_filter enabled accounts add =
      if enabled then (do l ← or_throw accounts option_error; for_each (add_name add) l) else skip

  -- "contract:action"
  unfoldable pub add_pair : List String → Action (Plugin D C) (Unit {0})
  add_pair (contract ∷ action ∷ []) = do
    c ← or_throw (names.string_to_name_strict contract) option_error
    a ← or_throw (names.string_to_name_strict action) option_error
    modify (add_listed c a)
  add_pair parts = throw option_error

  unfoldable pub read_blacklist : Option (List String) → Action (Plugin D C) (Unit {0})
  unfolding for_each add_pair
  read_blacklist none = skip
  read_blacklist (some entries) = do
    modify (set_traces (λ f. record f { do_trace_blacklist = true }))
    for_each (λ entry. add_pair (names.split entry)) entries

  unfoldable pub read_tables_blacklist : Option (List String) → Action (Plugin D C) (Unit {0})
  unfolding for_each add_name
  read_tables_blacklist none = skip
  read_tables_blacklist (some accounts) = do
    modify (set_tables (λ f. record f { enable_tables_blacklist = true }))
    for_each (add_name add_listed_table) accounts

  unfoldable pub read_trace_filters : Options → Action (Plugin D C) (Unit {0})
  unfolding read_filter
  read_trace_filters o = do
    modify (set_traces (λ f. record f { enable_rcvr_filter = o.enable_receiver_filter }))
    read_filter o.enable_receiver_filter o.include_receiver add_receiver
    modify (set_traces (λ f. record f { enable_auth_filter = o.enable_auth_filter }))
    read_filter o.enable_auth_filter o.include_auth add_auth
    modify (
        set_traces (λ f. record f {
          do_trace_filter = f.do_trace_filter || (f.enable_rcvr_filter || f.enable_auth_filter);
        }))

  unfoldable pub read_tables_filters : Options → Action (Plugin D C) (Unit {0})
  unfolding read_filter read_tables_blacklist
  read_tables_filters o = do
    modify (set_tables (λ f. record f { enable_tables_filter = o.enable_tables_filter }))
    read_filter o.enable_tables_filter o.include_tables_contract add_table
    read_tables_blacklist o.blacklist_tables_contract

  -- The lock file, `make_shared<chainbase::database>(...)` and `add_index`.
  unfoldable pub open_database : Options → Action (Plugin D C) (Unit {0})
  open_database o = do
    interactive ← gets (λ p. p.config.interactive_mode)
    throw_if (not (names.opens o interactive)) database_error

  -- Neither snapshot option: the rest of the options.
  unfoldable pub prepare : Options → Action (Plugin D C) (Unit {0})
  unfolding take_options read_trace_filters read_blacklist read_tables_filters
  prepare o = do
    take_options o
    read_trace_filters o
    read_blacklist o.blacklist_action
    read_tables_filters o
    modify init

  module _ ⦃cb : Chainbase D⦄ (version : String) where
    -- Opening a file for writing leaves nothing of what was in it.
    unfoldable pub save_to : String → Action (Plugin D C) (Unit {0})
    unfolding write_snapshot
    save_to name = do
      modify (set_file name none)
      f ← on_database (write_snapshot version)
      modify (set_file name (some f))
      modify quit

    unfoldable pub restore_from : String → Action (Plugin D C) (Unit {0})
    unfolding read_snapshot
    restore_from name = do
      content ← gets (λ p. p.files name)
      f ← or_throw content bad_magic
      on_database (read_snapshot f)
      modify quit

    unfoldable pub run_options :
        Options → Option String → Option String → Action (Plugin D C) (Unit {0})
    unfolding save_to restore_from prepare
    run_options o (some name) restore = save_to name
    run_options o none (some name) = restore_from name
    run_options o none none = prepare o

    unfoldable pub plugin_initialize : Options → Action (Plugin D C) (Unit {0})
    unfolding choose_mode open_database run_options
    plugin_initialize o = do
      throw_if (not (given o.data_dir)) option_error
      choose_mode o
      open_database o
      run_options o o.save_snapshot o.restore_snapshot

-- `is_noexport_opt`
unfoldable pub is_noexport_opt : Options → Result Bool
is_noexport_opt o =
    if given o.save_snapshot || given o.restore_snapshot
    then ok true
    else elim o.mode [ some m ↦ ok (str_eq m "scan-noexport") | none ↦ err option_error ]
