-- ===== src/Receiver/Options/Accepted.antt =====
-- The options that the receiver accepts, and what it makes of them
-- (chronicle-receiver/receiver_plugin.cpp: plugin_initialize without a snapshot option).
use Prim.Native.String.{String}
use text.Mathlib.Text.{◌==◌ as str_eq}
use text.Mathlib.TextEquality.{eq_iff}
use fio_chronicle.Prelude.{
  ℕ, ◌≡◌, ◌↔◌, refl, ap, ◌∙◌, sym, subst, Bool, true, false, not, ◌&&◌, ◌||◌, List, ◌∷◌, Option,
  none, some, Option-cases, Bool-cases, inl, inr, ltb, insert, if◌then◌else◌, arith,
}
use fio_chronicle.Prelude.Action.{ok, ◌>>=◌, >>=-returns, >>=-ok}
use fio_chronicle.Prelude.Action.{
  throw_if, throw_if-returns, throw_if-passes, option_error, database_error,
}
use fio_chronicle.Receiver.Options.{read_blacklist}
use fio_chronicle.Store.Chainbase.{Chainbase}
use fio_chronicle.Receiver.State.{Config, TraceFilter, TablesFilter}
use fio_chronicle.Receiver.Options.{
  Options, run_options, Names, Plugin, given, with_mode, choose_mode, take_options,
  read_trace_filters, read_tables_filters, open_database, prepare, plugin_initialize, set_config,
  init,
}
use fio_chronicle.Receiver.Options.Reading.{
  add_all, Gives, Lists, IsName, IsPair, put_listed, read_blacklist-returns, read_blacklist-Lists,
}
use fio_chronicle.Receiver.Options.Steps.{
  put_filters, put_all_tables, taken, read_trace_filters-returns, read_trace_filters-Gives,
  read_tables_filters-returns, read_tables_filters-Gives, take_options-returns, take_options-gives,
}

-- The names in the options, as numbers.
pub record Parsed : Type 0 where
  pub mode : String
  pub receivers : List ℕ
  pub auths : List ℕ
  pub listed : List (ℕ × ℕ)
  pub tables : List ℕ
  pub listed_tables : List ℕ

-- The modes that there are.
abbrev pub is_known : String → Bool
is_known m = str_eq m "scan" || str_eq m "scan-noexport" || str_eq m "interactive"

-- The flags that a mode stands for, flag by flag; those of the mode keep their values where there is
-- no such mode.
unfoldable pub flags_of : String → Config → Config
flags_of m c = record c {
  interactive_mode = str_eq m "interactive" || (not (is_known m) && c.interactive_mode);
  noexport_mode = str_eq m "scan-noexport" || (not (is_known m) && c.noexport_mode);
  irreversible_only = str_eq m "interactive" || c.irreversible_only;
}

pub is_scan-not_noexport : (m : String) → str_eq m "scan" ≡ true → str_eq m "scan-noexport" ≡ false
is_scan-not_noexport m h =
    subst (λ t. str_eq t "scan-noexport" ≡ false) (sym ((eq_iff m "scan").0 h)) refl

is_scan-not_interactive : (m : String) → str_eq m "scan" ≡ true → str_eq m "interactive" ≡ false
is_scan-not_interactive m h =
    subst (λ t. str_eq t "interactive" ≡ false) (sym ((eq_iff m "scan").0 h)) refl

pub is_noexport-not_interactive :
    (m : String) → str_eq m "scan-noexport" ≡ true → str_eq m "interactive" ≡ false
is_noexport-not_interactive m h =
    subst (λ t. str_eq t "interactive" ≡ false) (sym ((eq_iff m "scan-noexport").0 h)) refl

-- The branches on the mode set just these flags.
with_mode-flags_of : (m : String) (c : Config) → with_mode m c ≡ flags_of m c
unfolding with_mode flags_of
with_mode-flags_of m c = elim (Bool-cases (str_eq m "scan")) [
  | inl scan ↦ rw (scan, is_scan-not_noexport m scan, is_scan-not_interactive m scan) refl
  | inr no_scan ↦ elim (Bool-cases (str_eq m "scan-noexport")) [
    | inl noexport ↦ rw (no_scan, noexport, is_noexport-not_interactive m noexport) refl
    | inr export ↦ elim (Bool-cases (str_eq m "interactive")) [
      | inl interactive ↦ rw (no_scan, export, interactive) refl
      | inr other ↦ rw (no_scan, export, other) refl
    ]
  ]
]

-- The flags of the mode, after the option that interactive mode overrides.
abbrev pub mode_config : Options → Parsed → Config → Config
mode_config o r c = flags_of r.mode (record c { irreversible_only = o.irreversible_only })

-- The names in the options can be read, as these numbers.
pub record AreParsed (names : Names) (o : Options) (r : Parsed) : Type 0 where
  pub receivers : Gives names o.enable_receiver_filter o.include_receiver r.receivers
  pub auths : Gives names o.enable_auth_filter o.include_auth r.auths
  pub listed : Lists names (IsPair names) o.blacklist_action r.listed
  pub tables : Gives names o.enable_tables_filter o.include_tables_contract r.tables
  pub listed_tables : Lists names (IsName names) o.blacklist_tables_contract r.listed_tables

pub record IsAccepted (names : Names) (o : Options) (r : Parsed) (c : Config) : Type 0 where
  pub data_dir : given o.data_dir ≡ true
  pub mode : o.mode ≡ some r.mode
  pub opened : names.opens o (mode_config o r c).interactive_mode ≡ true
  pub start_block : (mode_config o r c).interactive_mode && ltb 0 o.start_block ≡ false
  pub parsed : AreParsed names o r

abbrev pub traces_of : Options → Parsed → TraceFilter → TraceFilter
traces_of o r f = record {
  blacklist_actions = add_all (λ b l. b ∷ l) r.listed f.blacklist_actions;
  enable_rcvr_filter = o.enable_receiver_filter;
  rcvr_filter = add_all insert r.receivers f.rcvr_filter;
  enable_auth_filter = o.enable_auth_filter;
  auth_filter = add_all insert r.auths f.auth_filter;
  do_trace_filter = f.do_trace_filter || (o.enable_receiver_filter || o.enable_auth_filter);
  do_trace_blacklist = given o.blacklist_action || f.do_trace_blacklist;
}

abbrev pub tables_of : Options → Parsed → TablesFilter → TablesFilter
tables_of o r f = record {
  enable_tables_filter = o.enable_tables_filter;
  tables_filter = add_all insert r.tables f.tables_filter;
  enable_tables_blacklist = given o.blacklist_tables_contract || f.enable_tables_blacklist;
  tables_blacklist = add_all insert r.listed_tables f.tables_blacklist;
}

-- The configuration, from the one with the flags of the mode.
abbrev pub config_of : Options → Parsed → Config → Config
config_of o r c = record c {
  max_queue_size = o.max_queue_size;
  skip_block_events = o.skip_block_events;
  skip_table_deltas = o.skip_table_deltas;
  skip_traces = o.skip_traces;
  skip_account_info = o.skip_account_info;
  start_block_num = o.start_block;
  stale_check_deadline_msec = o.stale_deadline;
  traces = traces_of o r c.traces;
  tables = tables_of o r c.tables;
}

not-not : (b : Bool) → not b ≡ false → b ≡ true
not-not b h = ground arith

module _ {D C : Type 0} where
  -- The plugin object afterwards.
  abbrev pub configured : Options → Parsed → Plugin D C → Plugin D C
  configured o r p = record p {
    config = config_of o r (mode_config o r p.config);
    state = record p.state { flow = record p.state.flow { end_block_num = o.end_block } };
    host = o.host;
    port = o.port;
    report_every = o.report_every;
    subscribed_requests =
        if (mode_config o r p.config).interactive_mode then true else p.subscribed_requests;
  }

  -- The steps of `prepare`, one after the other.
  abbrev prepared : Options → Parsed → Plugin D C → Plugin D C
  prepared o r p = init (
      put_all_tables o r.tables r.listed_tables (
        put_listed (given o.blacklist_action) r.listed
          (put_filters o r.receivers r.auths (taken o p))))

module _ (names : Names) {D C : Type 0} where
  prepare-returns :
      (o : Options) (m : String) (p q : Plugin D C)
      → prepare names o p ≡ (ok tt, q)
      → (r : Parsed) × (r.mode ≡ m)
        × (p.config.interactive_mode && ltb 0 o.start_block ≡ false)
        × AreParsed names o r
        × (q ≡ prepared o r p)
  unfolding prepare ◌>>=◌
  prepare-returns o m p q h =
      let (_, u, h1, after1) = >>=-returns (take_options o) _ p h in
      let (_, v, h2, after2) = >>=-returns (read_trace_filters names o) _ u after1 in
      let (_, w, h3, after3) = >>=-returns (read_blacklist names o.blacklist_action) _ v after2 in
      let (_, x, h4, last) = >>=-returns (read_tables_filters names o) _ w after3 in
      let (e, k1) = take_options-returns o p u h1 in
      let (ns, ms, g1, g2, k2) = read_trace_filters-returns names o u v h2 in
      let (bs, g3, k3) = read_blacklist-returns names o.blacklist_action v w h3 in
      let (ts, ls, g4, g5, k4) = read_tables_filters-returns names o w x h4 in
      let y =
        k3 ∙ ap (put_listed (given o.blacklist_action) bs) (k2 ∙ ap (put_filters o ns ms) k1) in
      (
        record {
          mode = m;
          receivers = ns;
          auths = ms;
          listed = bs;
          tables = ts;
          listed_tables = ls;
        },
        refl,
        e,
        record { receivers = g1; auths = g2; listed = g3; tables = g4; listed_tables = g5 },
        sym (ap (λ r. r.1) last) ∙ ap init (k4 ∙ ap (put_all_tables o ts ls) y),
      )

  prepare-gives :
      (o : Options) (r : Parsed) (p : Plugin D C)
      → p.config.interactive_mode && ltb 0 o.start_block ≡ false
      → AreParsed names o r
      → prepare names o p ≡ (ok tt, prepared o r p)
  unfolding prepare ◌>>=◌
  prepare-gives o r p e g =
      rw
        (
          take_options-gives o p e,
          read_trace_filters-Gives names o r.receivers r.auths (taken o p) g.receivers g.auths,
          read_blacklist-Lists names o.blacklist_action r.listed
              (put_filters o r.receivers r.auths (taken o p)) g.listed,
          read_tables_filters-Gives names o r.tables r.listed_tables
              (put_listed (given o.blacklist_action) r.listed
                (put_filters o r.receivers r.auths (taken o p)))
              g.tables g.listed_tables,
        )
        refl

module _ {D C : Type 0} where
  abbrev in_mode : Options → String → Plugin D C → Plugin D C
  in_mode o m = set_config (λ c. flags_of m (record c { irreversible_only = o.irreversible_only }))

  choose_mode-gives :
      (o : Options) (m : String) (p : Plugin D C)
      → o.save_snapshot ≡ none
      → o.restore_snapshot ≡ none
      → o.mode ≡ some m
      → choose_mode o p ≡ (ok tt, in_mode o m p)
  unfolding choose_mode ◌>>=◌
  choose_mode-gives o m p s t e =
      let c : Config = record p.config { irreversible_only = o.irreversible_only } in
      rw (s, t, e) (ap (λ d. (ok tt, record p { config = d })) (with_mode-flags_of m c))

  choose_mode-returns :
      (o : Options) (p q : Plugin D C)
      → o.save_snapshot ≡ none
      → o.restore_snapshot ≡ none
      → choose_mode o p ≡ (ok tt, q)
      → (m : String) × (o.mode ≡ some m) × (q ≡ in_mode o m p)
  unfolding choose_mode ◌>>=◌
  choose_mode-returns o p q s t h = elim (Option-cases o.mode) [
    | inl e ↦ absurd (ground arith)
    | inr (m, e) ↦ (m, e, ap (λ r. r.1) (sym h ∙ choose_mode-gives o m p s t e))
  ]

  prepared-configured :
      (o : Options) (r : Parsed) (p : Plugin D C)
      → prepared o r (in_mode o r.mode p) ≡ configured o r p
  prepared-configured o r p = refl

  assemble :
      (names : Names) (o : Options) (p q : Plugin D C) (r : Parsed) (m : String)
      → r.mode ≡ m
      → given o.data_dir ≡ true
      → o.mode ≡ some m
      → names.opens o (in_mode o m p).config.interactive_mode ≡ true
      → (in_mode o m p).config.interactive_mode && ltb 0 o.start_block ≡ false
      → AreParsed names o r
      → q ≡ prepared o r (in_mode o m p)
      → IsAccepted names o r p.config × (q ≡ configured o r p)
  assemble names o p q r m em d e can_open c parsed k = (
    record {
      data_dir = d;
      mode = e ∙ ap some (sym em);
      opened =
          subst (λ n. names.opens o (in_mode o n p).config.interactive_mode ≡ true) (sym em)
            can_open;
      start_block =
          subst (λ n. (in_mode o n p).config.interactive_mode && ltb 0 o.start_block ≡ false)
            (sym em) c;
      parsed = parsed;
    },
    subst (λ n. q ≡ prepared o r (in_mode o n p)) (sym em) k,
  )

module _ (names : Names) {D C : Type 0} ⦃cb : Chainbase D⦄ (version : String) where
  run_options-prepare :
      (o : Options) (x y : Option String) (p : Plugin D C)
      → x ≡ none
      → y ≡ none
      → run_options names version o x y p ≡ prepare names o p
  unfolding run_options
  run_options-prepare o x y p e k = rw (e, k) refl

  open_database-returns :
      (o : Options) (p q : Plugin D C)
      → open_database names o p ≡ (ok tt, q)
      → (names.opens o p.config.interactive_mode ≡ true) × (q ≡ p)
  unfolding open_database ◌>>=◌
  open_database-returns o p q h =
      let (e, k) =
        throw_if-returns (not (names.opens o p.config.interactive_mode)) database_error p q h in
      (not-not _ e, k)

  open_database-gives :
      (o : Options) (p : Plugin D C)
      → names.opens o p.config.interactive_mode ≡ true
      → open_database names o p ≡ (ok tt, p)
  unfolding open_database ◌>>=◌
  open_database-gives o p e = rw e refl

  initialize-returns :
      (o : Options) (p q : Plugin D C)
      → o.save_snapshot ≡ none
      → o.restore_snapshot ≡ none
      → plugin_initialize names version o p ≡ (ok tt, q)
      → (r : Parsed) × IsAccepted names o r p.config × (q ≡ configured o r p)
  unfolding plugin_initialize
  initialize-returns o p q s t h =
      let (_, u, h1, after1) = >>=-returns (throw_if (not (given o.data_dir)) option_error) _ p h in
      let (_, v, h2, after2) = >>=-returns (choose_mode o) _ u after1 in
      let (_, w, h4, last) = >>=-returns (open_database names o) _ v after2 in
      let (e, k) = throw_if-returns _ _ p u h1 in
      let (m, e2, k2) = choose_mode-returns o u v s t h2 in
      let (can_open, k5) = open_database-returns o v w h4 in
      let k6 = k2 ∙ ap (in_mode o m) k in
      let k3 = k5 ∙ k6 in
      let (r, em, c, parsed, k4) = prepare-returns names o m (in_mode o m p) q (
        subst (λ x. prepare names o x ≡ (ok tt, q)) k3
          (sym (run_options-prepare o _ _ w s t) ∙ last)) in
      let (accepted, left) =
        assemble names o p q r m em (not-not _ e) e2
          (subst (λ x. names.opens o x.config.interactive_mode ≡ true) k6 can_open) c parsed k4 in
      (r, accepted, left)

  initialize-gives :
      (o : Options) (r : Parsed) (p : Plugin D C)
      → o.save_snapshot ≡ none
      → o.restore_snapshot ≡ none
      → IsAccepted names o r p.config
      → plugin_initialize names version o p ≡ (ok tt, configured o r p)
  unfolding plugin_initialize
  initialize-gives o r p s t a =
      >>=-ok (throw_if (not (given o.data_dir)) option_error) _ p tt p tt _
        (throw_if-passes _ _ p (rw a.data_dir refl))
        (>>=-ok (choose_mode o) _ p tt (in_mode o r.mode p) tt _
          (choose_mode-gives o r.mode p s t a.mode)
          (>>=-ok (open_database names o) _ (in_mode o r.mode p) tt (in_mode o r.mode p) tt _
            (open_database-gives o (in_mode o r.mode p) a.opened)
            (run_options-prepare o _ _ (in_mode o r.mode p) s t
              ∙ prepare-gives names o r (in_mode o r.mode p) a.start_block a.parsed)))
      ∙ ap (λ w. (ok tt, w)) (prepared-configured o r p)

  -- Without a snapshot option, initialising returns exactly when the data directory and the mode
  -- are given, the database can be opened (for reading only in interactive mode), interactive mode
  -- has no start block, an enabled filter has its names, and all names can be read; and then it
  -- leaves the plugin object with exactly these options: interactive exactly in mode `interactive`,
  -- without export exactly in mode `scan-noexport`, or with both flags as they were in an unknown
  -- mode.
  pub plugin_initialize-IsAccepted :
      (o : Options) (p q : Plugin D C)
      → o.save_snapshot ≡ none
      → o.restore_snapshot ≡ none
      → (plugin_initialize names version o p ≡ (ok tt, q))
        ↔ ((r : Parsed) × IsAccepted names o r p.config × (q ≡ configured o r p))
  plugin_initialize-IsAccepted o p q s t = (
    initialize-returns o p q s t,
    λ (r, a, e). initialize-gives o r p s t a ∙ ap (λ w. (ok tt, w)) (sym e),
  )
