-- ===== src/Receiver/Options/Steps.antt =====
-- The groups of options, each read in turn (chronicle-receiver/receiver_plugin.cpp:
-- plugin_initialize): when reading them returns, and what it leaves.
use fio_chronicle.Prelude.{ℕ, ◌≡◌, refl, ap, ◌∙◌, sym, false, ◌&&◌, ◌||◌, List, ltb, insert}
use fio_chronicle.Prelude.Action.{ok, ◌>>=◌, >>=-returns}
use fio_chronicle.Prelude.Action.{throw_if, throw_if-returns, option_error}
use fio_chronicle.Receiver.Options.{read_filter}
use fio_chronicle.Receiver.Options.{
  Options, Names, Plugin, given, take_options, read_trace_filters, read_tables_filters, set_traces,
  set_tables, add_receiver, add_auth, add_table,
}
use fio_chronicle.Receiver.Options.Reading.{
  add_all, add_all-add_receiver, add_all-add_auth, add_all-add_table, Gives, Lists, IsName,
  put_receivers, put_auths, put_tables, put_listed_tables, read_filter-returns, read_filter-Gives,
  read_tables_blacklist-returns, read_tables_blacklist-Lists,
}

module _ {D C : Type 0} where
  -- After the trace filters.
  abbrev pub put_filters : Options → List ℕ → List ℕ → Plugin D C → Plugin D C
  put_filters o ns ms = set_traces (λ f. record f {
    enable_rcvr_filter = o.enable_receiver_filter;
    rcvr_filter = add_all insert ns f.rcvr_filter;
    enable_auth_filter = o.enable_auth_filter;
    auth_filter = add_all insert ms f.auth_filter;
    do_trace_filter = f.do_trace_filter || (o.enable_receiver_filter || o.enable_auth_filter);
  })

  abbrev enable_receivers : Options → Plugin D C → Plugin D C
  enable_receivers o = set_traces (λ f. record f { enable_rcvr_filter = o.enable_receiver_filter })

  abbrev enable_auths : Options → Plugin D C → Plugin D C
  enable_auths o = set_traces (λ f. record f { enable_auth_filter = o.enable_auth_filter })

  abbrev enable_tables : Options → Plugin D C → Plugin D C
  enable_tables o = set_tables (λ f. record f { enable_tables_filter = o.enable_tables_filter })

  abbrev pub put_all_tables : Options → List ℕ → List ℕ → Plugin D C → Plugin D C
  put_all_tables o ns ms p =
      put_listed_tables (given o.blacklist_tables_contract) ms (put_tables ns (enable_tables o p))

  abbrev enable_any : Plugin D C → Plugin D C
  enable_any = set_traces (λ f. record f {
    do_trace_filter = f.do_trace_filter || (f.enable_rcvr_filter || f.enable_auth_filter);
  })

module _ (names : Names) {D C : Type 0} where
  pub read_trace_filters-returns :
      (o : Options) (p q : Plugin D C)
      → read_trace_filters names o p ≡ (ok tt, q)
      → (ns ms : List ℕ) × Gives names o.enable_receiver_filter o.include_receiver ns
        × Gives names o.enable_auth_filter o.include_auth ms
        × (q ≡ put_filters o ns ms p)
  unfolding read_trace_filters ◌>>=◌
  read_trace_filters-returns o p q h =
      let (_, u, first, after) =
        >>=-returns (read_filter names o.enable_receiver_filter o.include_receiver add_receiver) _
          (enable_receivers o p) h in
      let (_, v, second, last) =
        >>=-returns (read_filter names o.enable_auth_filter o.include_auth add_auth) _
          (enable_auths o u) after in
      let (ns, g, e) = read_filter-returns names _ _ add_receiver _ u first in
      let (ms, k, l) = read_filter-returns names _ _ add_auth _ v second in
      let x = e ∙ add_all-add_receiver ns (enable_receivers o p) in
      let y = l ∙ add_all-add_auth ms (enable_auths o u) in
      (
        ns,
        ms,
        g,
        k,
        sym (ap (λ r. r.1) last) ∙ ap enable_any (y ∙ ap (λ w. put_auths ms (enable_auths o w)) x),
      )

  pub read_trace_filters-Gives :
      (o : Options) (ns ms : List ℕ) (p : Plugin D C)
      → Gives names o.enable_receiver_filter o.include_receiver ns
      → Gives names o.enable_auth_filter o.include_auth ms
      → read_trace_filters names o p ≡ (ok tt, put_filters o ns ms p)
  unfolding read_trace_filters ◌>>=◌
  read_trace_filters-Gives o ns ms p g k =
      rw
        (
          read_filter-Gives names o.enable_receiver_filter o.include_receiver add_receiver ns
              (enable_receivers o p) g,
          add_all-add_receiver ns (enable_receivers o p),
          read_filter-Gives names o.enable_auth_filter o.include_auth add_auth ms
              (enable_auths o (put_receivers ns (enable_receivers o p))) k,
          add_all-add_auth ms (enable_auths o (put_receivers ns (enable_receivers o p))),
        )
        refl

  pub read_tables_filters-returns :
      (o : Options) (p q : Plugin D C)
      → read_tables_filters names o p ≡ (ok tt, q)
      → (ns ms : List ℕ) × Gives names o.enable_tables_filter o.include_tables_contract ns
        × Lists names (IsName names) o.blacklist_tables_contract ms
        × (q ≡ put_all_tables o ns ms p)
  unfolding read_tables_filters ◌>>=◌
  read_tables_filters-returns o p q h =
      let (_, u, first, last) =
        >>=-returns (read_filter names o.enable_tables_filter o.include_tables_contract add_table) _
          (enable_tables o p) h in
      let (ns, g, e) = read_filter-returns names _ _ add_table _ u first in
      let (ms, k, l) = read_tables_blacklist-returns names o.blacklist_tables_contract u q last in
      let x = e ∙ add_all-add_table ns (enable_tables o p) in
      (ns, ms, g, k, l ∙ ap (put_listed_tables (given o.blacklist_tables_contract) ms) x)

  pub read_tables_filters-Gives :
      (o : Options) (ns ms : List ℕ) (p : Plugin D C)
      → Gives names o.enable_tables_filter o.include_tables_contract ns
      → Lists names (IsName names) o.blacklist_tables_contract ms
      → read_tables_filters names o p ≡ (ok tt, put_all_tables o ns ms p)
  unfolding read_tables_filters ◌>>=◌
  read_tables_filters-Gives o ns ms p g k =
      rw
        (
          read_filter-Gives names o.enable_tables_filter o.include_tables_contract add_table ns
              (enable_tables o p) g,
          add_all-add_table ns (enable_tables o p),
        )
        (read_tables_blacklist-Lists names o.blacklist_tables_contract ms
          (put_tables ns (enable_tables o p)) k)

module _ {D C : Type 0} where
  abbrev pub taken : Options → Plugin D C → Plugin D C
  taken o p = record p {
    config = record p.config {
      max_queue_size = o.max_queue_size;
      skip_block_events = o.skip_block_events;
      skip_table_deltas = o.skip_table_deltas;
      skip_traces = o.skip_traces;
      skip_account_info = o.skip_account_info;
      start_block_num = o.start_block;
      stale_check_deadline_msec = o.stale_deadline;
    };
    state = record p.state { flow = record p.state.flow { end_block_num = o.end_block } };
    host = o.host;
    port = o.port;
    report_every = o.report_every;
  }

  abbrev take_late : Options → Plugin D C → Plugin D C
  take_late o p = record p {
    config = record p.config { stale_check_deadline_msec = o.stale_deadline };
    state = record p.state { flow = record p.state.flow { end_block_num = o.end_block } };
  }

  pub take_options-returns :
      (o : Options) (p q : Plugin D C)
      → take_options o p ≡ (ok tt, q)
      → (p.config.interactive_mode && ltb 0 o.start_block ≡ false) × (q ≡ taken o p)
  unfolding take_options ◌>>=◌
  take_options-returns o p q h =
      let (_, u, first, last) =
        >>=-returns (throw_if (p.config.interactive_mode && ltb 0 o.start_block) option_error) _ _
          h in
      let (e, k) = throw_if-returns _ _ _ u first in
      (e, sym (ap (λ r. r.1) last) ∙ ap (take_late o) k)

  pub take_options-gives :
      (o : Options) (p : Plugin D C)
      → p.config.interactive_mode && ltb 0 o.start_block ≡ false
      → take_options o p ≡ (ok tt, taken o p)
  unfolding take_options ◌>>=◌
  take_options-gives o p e = rw e refl
