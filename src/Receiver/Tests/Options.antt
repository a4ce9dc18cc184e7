-- ===== src/Receiver/Tests/Options.antt =====
-- The theorems on the options at concrete inputs.
use text.Mathlib.Text.{◌==◌ as str_eq}
use fio_chronicle.Prelude.{
  ◌≡◌, ◌↔◌, ◌⊎◌, inr, refl, true, false, [], ◌∷◌, none, some, if◌then◌else◌,
}
use fio_chronicle.Prelude.Action.{ok, ◌>>=◌}
use fio_chronicle.Store.Index.{lower_bound}
use fio_chronicle.Store.Sample.{SampleDb, sample_chainbase, sample_abieos}
use fio_chronicle.Receiver.Message.{ActionTrace, TransactionTrace, contract_row}
use fio_chronicle.Receiver.Traces.{receive_trace}
use fio_chronicle.Receiver.Abi.{Now, get_contract_abi_ready}
use fio_chronicle.Receiver.State.{abi_error}
use fio_chronicle.Receiver.Traces.Filter.{SelectedBy}
use fio_chronicle.Receiver.Samples.{scanning, state_at_12, Context}
use fio_chronicle.Receiver.Options.{
  Options, Names, Plugin, default_options, plugin_initialize, is_noexport_opt,
}
use fio_chronicle.Receiver.Options.Accepted.{
  Parsed, IsAccepted, flags_of, configured, plugin_initialize-IsAccepted,
}
use fio_chronicle.Receiver.Options.Modes.{
  clashes, plugin_initialize-modes, plugin_initialize-unknown,
}
use fio_chronicle.Receiver.Deltas.{filter_row}
use fio_chronicle.Receiver.Options.TableRows.{is_taken, with_event, filter_row-is_taken}
use fio_chronicle.Receiver.Options.Traces.{
  with_trace, receive_trace-Selected, receive_trace-blacklist,
}
use fio_chronicle.Receiver.Options.Filters.{IsFresh, is_listed, is_wanted}

-- Two names, and one entry of a blacklist.
abbrev sample_names : Names
sample_names = record {
  string_to_name_strict =
      λ s. if str_eq s "alice" then some 4 else if str_eq s "buy" then some 5 else none;
  split = λ s. if str_eq s "alice:buy" then "alice" ∷ "buy" ∷ [] else s ∷ [];
  opens = λ o read_only. true;
}

abbrev plugin : Plugin SampleDb Context
plugin = record {
  config = scanning;
  state = state_at_12;
  host = "";
  port = "";
  report_every = 0;
  subscribed_requests = false;
  files = λ n. none;
}

fresh : IsFresh plugin.config.traces
fresh = record {
  no_actions = refl;
  no_receivers = refl;
  no_auths = refl;
  filter_off = refl;
  blacklist_off = refl;
}

-- A blacklist alone, a blacklist with a filter, and a mode that there is not.
abbrev with_blacklist : Options
with_blacklist = record default_options {
  data_dir = some "data";
  mode = some "scan";
  blacklist_action = some ("alice:buy" ∷ []);
}

abbrev with_filter : Options
with_filter = record with_blacklist {
  enable_receiver_filter = true;
  include_receiver = some ("alice" ∷ []);
}

abbrev with_typo : Options
with_typo = record with_blacklist { mode = some "scann" }

abbrev parsed : Parsed
parsed = record {
  mode = "scan";
  receivers = [];
  auths = [];
  listed = (4, 5) ∷ [];
  tables = [];
  listed_tables = [];
}

abbrev parsed_filter : Parsed
parsed_filter = record parsed { receivers = 4 ∷ [] }

abbrev parsed_typo : Parsed
parsed_typo = record parsed { mode = "scann" }

blacklist-IsAccepted : IsAccepted sample_names with_blacklist parsed scanning
unfolding flags_of
blacklist-IsAccepted = record {
  data_dir = refl;
  mode = refl;
  opened = refl;
  start_block = refl;
  parsed = record {
    receivers = refl;
    auths = refl;
    listed = (("alice", "buy", refl, refl, refl), tt);
    tables = refl;
    listed_tables = refl;
  };
}

filter-IsAccepted : IsAccepted sample_names with_filter parsed_filter scanning
unfolding flags_of
filter-IsAccepted = record {
  data_dir = refl;
  mode = refl;
  opened = refl;
  start_block = refl;
  parsed = record {
    receivers = (refl, tt);
    auths = refl;
    listed = (("alice", "buy", refl, refl, refl), tt);
    tables = refl;
    listed_tables = refl;
  };
}

typo-IsAccepted : IsAccepted sample_names with_typo parsed_typo scanning
unfolding flags_of
typo-IsAccepted = record {
  data_dir = refl;
  mode = refl;
  opened = refl;
  start_block = refl;
  parsed = record {
    receivers = refl;
    auths = refl;
    listed = (("alice", "buy", refl, refl, refl), tt);
    tables = refl;
    listed_tables = refl;
  };
}

abbrev started : Options → Parsed → Plugin SampleDb Context
started o r = configured o r plugin

blacklist-returns :
    plugin_initialize sample_names "v3" with_blacklist plugin
    ≡ (ok tt, started with_blacklist parsed)
blacklist-returns =
    (plugin_initialize-IsAccepted sample_names "v3" with_blacklist plugin
        (started with_blacklist parsed) refl refl).1
      (parsed, blacklist-IsAccepted, refl)

filter-returns :
    plugin_initialize sample_names "v3" with_filter plugin
    ≡ (ok tt, started with_filter parsed_filter)
filter-returns =
    (plugin_initialize-IsAccepted sample_names "v3" with_filter plugin
        (started with_filter parsed_filter) refl refl).1
      (parsed_filter, filter-IsAccepted, refl)

-- alice receives a transfer, and alice:buy.
abbrev transfer : ActionTrace
transfer = record { index = 1; account = 6; name = 7; receiver = 4; authorization = [] }

abbrev buy : ActionTrace
buy = record { index = 1; account = 4; name = 5; receiver = 4; authorization = [] }

plugin_initialize-IsAccepted_example :
    (plugin_initialize sample_names "v3" with_filter plugin
      ≡ (ok tt, started with_filter parsed_filter))
    ↔ ((r : Parsed) × IsAccepted sample_names with_filter r scanning
        × (started with_filter parsed_filter ≡ configured with_filter r plugin))
plugin_initialize-IsAccepted_example =
    plugin_initialize-IsAccepted sample_names "v3" with_filter plugin
      (started with_filter parsed_filter) refl refl

abbrev now : Now
now = record { head = 12; timestamp = 24 }

abbrev trace : TransactionTrace
trace = record { body = 3; action_traces = transfer ∷ buy ∷ [] }

receive_trace-Selected_example :
    (SelectedBy
        (is_listed sample_names with_filter.blacklist_action)
        (is_wanted sample_names with_filter)
        (transfer ∷ buy ∷ [])
      × (receive_trace (started with_filter parsed_filter).config now (some trace) state_at_12.world
          ≡ (ok tt, with_trace now trace state_at_12.world)))
    ⊎ ((SelectedBy
            (is_listed sample_names with_filter.blacklist_action)
            (is_wanted sample_names with_filter)
            (transfer ∷ buy ∷ [])
          → ⊥)
        × (receive_trace
              (started with_filter parsed_filter).config
              now
              (some trace)
              state_at_12.world
            ≡ (ok tt, state_at_12.world)))
receive_trace-Selected_example =
    receive_trace-Selected sample_names "v3" with_filter plugin (started with_filter parsed_filter)
      now trace state_at_12.world refl refl fresh filter-returns refl (inr refl, (inr refl, tt))

receive_trace-blacklist_example :
    receive_trace (started with_blacklist parsed).config now (some trace) state_at_12.world
    ≡ (ok tt, state_at_12.world)
receive_trace-blacklist_example =
    receive_trace-blacklist sample_names "v3" with_blacklist plugin (started with_blacklist parsed)
      now trace state_at_12.world refl refl fresh blacklist-returns refl (inr refl, (inr refl, tt))

plugin_initialize-modes_example :
    (is_noexport_opt with_filter ≡ ok (started with_filter parsed_filter).config.noexport_mode)
    × (clashes (started with_filter parsed_filter).config ≡ false)
plugin_initialize-modes_example =
    plugin_initialize-modes sample_names "v3" with_filter "scan" plugin
      (started with_filter parsed_filter) refl refl refl refl filter-returns

plugin_initialize-unknown_example :
    ((plugin_initialize sample_names "v3" with_typo plugin).0 ≡ ok tt)
    × ((plugin_initialize sample_names "v3" with_typo plugin).1.config.interactive_mode ≡ false)
    × ((plugin_initialize sample_names "v3" with_typo plugin).1.config.noexport_mode ≡ false)
plugin_initialize-unknown_example =
    plugin_initialize-unknown sample_names "v3" with_typo parsed_typo plugin refl refl
      typo-IsAccepted refl

-- alice's tables, but not those of buy.
abbrev with_tables : Options
with_tables = record default_options {
  data_dir = some "data";
  mode = some "interactive";
  enable_tables_filter = true;
  include_tables_contract = some ("alice" ∷ []);
  blacklist_tables_contract = some ("buy" ∷ []);
}

abbrev parsed_tables : Parsed
parsed_tables = record {
  mode = "interactive";
  receivers = [];
  auths = [];
  listed = [];
  tables = 4 ∷ [];
  listed_tables = 5 ∷ [];
}

tables-IsAccepted : IsAccepted sample_names with_tables parsed_tables scanning
unfolding flags_of
tables-IsAccepted = record {
  data_dir = refl;
  mode = refl;
  opened = refl;
  start_block = refl;
  parsed = record {
    receivers = refl;
    auths = refl;
    listed = refl;
    tables = (refl, tt);
    listed_tables = (refl, tt);
  };
}

no_abi : get_contract_abi_ready true 12 4 state_at_12.world ≡ (ok false, state_at_12.world)
unfolding get_contract_abi_ready lower_bound ◌>>=◌
no_abi = refl

filter_row-is_taken_example :
    filter_row
      (started with_tables parsed_tables).config
      now
      true
      (contract_row 4 9)
      state_at_12.world
    ≡ (ok tt, with_event (abi_error 12 24 4) state_at_12.world)
unfolding flags_of
filter_row-is_taken_example =
    filter_row-is_taken sample_names "v3" with_tables plugin (started with_tables parsed_tables) now
      true false 4 9 state_at_12.world state_at_12.world refl refl
      (record { no_tables = refl; no_blacklist = refl; blacklist_off = refl })
      ((plugin_initialize-IsAccepted sample_names "v3" with_tables plugin
          (started with_tables parsed_tables) refl refl).1
        (parsed_tables, tables-IsAccepted, refl))
      no_abi

alice_taken : is_taken sample_names with_tables 4 ≡ true
alice_taken = refl
