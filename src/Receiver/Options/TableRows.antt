-- ===== src/Receiver/Options/TableRows.antt =====
-- From the options of the table filters to the rows that are published
-- (chronicle-receiver/receiver_plugin.cpp: plugin_initialize, receive_deltas).
use Prim.Native.String.{String}
use fio_chronicle.Prelude.{
  ℕ, ◌≡◌, refl, ap, ◌∙◌, Bool, false, not, ◌&&◌, ◌||◌, List, [], Option, none, some, insert,
  contains, arith, ◌∷◌, ◌++◌, Bool-cases, inl, inr, if◌then◌else◌,
}
use mathlib.Core.Path.{ap₂}
use fio_chronicle.Prelude.Action.{ok, skip, ◌>>=◌}
use fio_chronicle.Store.Chainbase.{Chainbase}
use fio_chronicle.Receiver.State.{World, Output, Config, TablesFilter, table_row_update, abi_error}
use fio_chronicle.Receiver.Message.{contract_row}
use fio_chronicle.Receiver.Abi.{Now, get_contract_abi_ready}
use fio_chronicle.Store.Abieos.{Abieos}
use fio_chronicle.Receiver.Deltas.{takes_table, filter_row, publish_table_row}
use fio_chronicle.Receiver.Options.{Options, Names, Plugin, given, plugin_initialize}
use fio_chronicle.Receiver.Options.Reading.{add_all, Lists, IsName}
use fio_chronicle.Receiver.Options.Accepted.{
  flags_of, Parsed, AreParsed, tables_of, plugin_initialize-IsAccepted,
}
use fio_chronicle.Receiver.Options.Filters.{
  is_named, Gives-contains, AreRead-contains, contains-add_all, or_false,
}

-- The fields of the filter before the options are read.
pub record IsFreshTables (f : TablesFilter) : Type 0 where
  pub no_tables : f.tables_filter ≡ []
  pub no_blacklist : f.tables_blacklist ≡ []
  pub blacklist_off : f.enable_tables_blacklist ≡ false

takes_table-lem :
    (f : TablesFilter) (code : ℕ)
    → takes_table f code
      ≡ not (f.enable_tables_blacklist && contains f.tables_blacklist code)
        && (not f.enable_tables_filter || (f.enable_tables_filter && contains f.tables_filter code))
unfolding takes_table
takes_table-lem f code = ground arith

flags_of-tables : (m : String) (c : Config) → (flags_of m c).tables ≡ c.tables
unfolding flags_of
flags_of-tables m c = refl

-- The event about a row of a contract whose ABI is there, or is not.
abbrev event_of : Now → (added ready : Bool) → (code body : ℕ) → Output
event_of now added ready code body =
    if ready
    then table_row_update now.head now.timestamp added code body
    else abi_error now.head now.timestamp code

abbrev pub with_event : {D C : Type 0} → Output → World D C → World D C
with_event e w = record w { out = w.out ++ e ∷ [] }

module _ {D C : Type 0} ⦃cb : Chainbase D⦄ ⦃ab : Abieos C⦄ where
  publish_table_row_lem :
      (c : Config) (now : Now) (added ready : Bool) (code body : ℕ) (w u : World D C)
      → get_contract_abi_ready c.interactive_mode now.head code w ≡ (ok ready, u)
      → publish_table_row c now added code body w
        ≡ (ok tt, with_event (event_of now added ready code body) u)
  unfolding publish_table_row ◌>>=◌
  publish_table_row_lem c now added ready code body w u found = rw found refl

  filter_row_lem :
      (c : Config) (now : Now) (added ready : Bool) (code body : ℕ) (w u : World D C)
      → get_contract_abi_ready c.interactive_mode now.head code w ≡ (ok ready, u)
      → filter_row c now added (contract_row code body) w ≡ (
        ok tt,
        if takes_table c.tables code then with_event (event_of now added ready code body) u else w,
      )
  unfolding filter_row skip
  filter_row_lem c now added ready code body w u found =
      elim (Bool-cases (takes_table c.tables code)) [
        | inl on ↦ rw on (publish_table_row_lem c now added ready code body w u found)
        | inr off ↦ rw off refl
      ]

module _ (names : Names) where
  Lists-contains :
      (accounts : Option (List String)) (ns : List ℕ) (x : ℕ)
      → Lists names (IsName names) accounts ns
      → given accounts && contains (add_all insert ns []) x ≡ is_named names accounts x
  Lists-contains none ns x g = refl
  Lists-contains (some l) ns x g =
      contains-add_all ns [] x ∙ or_false (contains ns x) ∙ AreRead-contains names l ns x g

  -- The contract passes the options.
  abbrev pub is_taken : Options → ℕ → Bool
  is_taken o code =
      not (is_named names o.blacklist_tables_contract code)
      && (not o.enable_tables_filter
          || (o.enable_tables_filter && is_named names o.include_tables_contract code))

  tables_of-taken :
      (o : Options) (r : Parsed) (f : TablesFilter) (code : ℕ)
      → IsFreshTables f
      → AreParsed names o r
      → takes_table (tables_of o r f) code ≡ is_taken o code
  tables_of-taken o r f code fresh g =
      takes_table-lem (tables_of o r f) code
      ∙ rw
          (
            fresh.no_tables,
            fresh.no_blacklist,
            fresh.blacklist_off,
            or_false (given o.blacklist_tables_contract),
          )
          (ap₂ (λ p q. not p && (not o.enable_tables_filter || q))
            (Lists-contains o.blacklist_tables_contract r.listed_tables code g.listed_tables)
            (Gives-contains names o.enable_tables_filter o.include_tables_contract r.tables code
              g.tables))

  module _ {D C : Type 0} ⦃cb : Chainbase D⦄ ⦃ab : Abieos C⦄ (version : String) (o : Options) where
    plugin_initialize-takes_table :
        (p q : Plugin D C) (code : ℕ)
        → o.save_snapshot ≡ none
        → o.restore_snapshot ≡ none
        → IsFreshTables p.config.tables
        → plugin_initialize names version o p ≡ (ok tt, q)
        → takes_table q.config.tables code ≡ is_taken o code
    plugin_initialize-takes_table p q code s t fresh h =
        let (r, a, e) = (plugin_initialize-IsAccepted names version o p q s t).0 h in
        let c : Config = record p.config { irreversible_only = o.irreversible_only } in
        ap (λ w. takes_table w.config.tables code) e
        ∙ ap (λ f. takes_table (tables_of o r f) code) (flags_of-tables r.mode c)
        ∙ tables_of-taken o r p.config.tables code fresh a.parsed

    -- Without a snapshot option, after an initialisation of a fresh plugin object that returns, a
    -- contract's row that comes to the filter, where the search for the contract's ABI does not
    -- throw: unless the contract is named in `blacklist-tables-contract`, or the filter is enabled
    -- and it is not named in `include-tables-contract`, one event is published behind what that
    -- search has published, with the row if there is an ABI and of an error if not; otherwise
    -- nothing is done.
    pub filter_row-is_taken :
        (p q : Plugin D C) (now : Now) (added ready : Bool) (code body : ℕ) (w u : World D C)
        → o.save_snapshot ≡ none
        → o.restore_snapshot ≡ none
        → IsFreshTables p.config.tables
        → plugin_initialize names version o p ≡ (ok tt, q)
        → get_contract_abi_ready q.config.interactive_mode now.head code w ≡ (ok ready, u)
        → filter_row q.config now added (contract_row code body) w ≡ (
          ok tt,
          if is_taken o code
              then with_event
                  (if ready
                    then table_row_update now.head now.timestamp added code body
                    else abi_error now.head now.timestamp code)
                  u
              else w,
        )
    filter_row-is_taken p q now added ready code body w u s t fresh h found =
        filter_row_lem q.config now added ready code body w u found
        ∙ ap (λ b. (ok tt, if b then with_event (event_of now added ready code body) u else w))
            (plugin_initialize-takes_table p q code s t fresh h)
