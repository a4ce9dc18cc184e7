-- ===== src/Receiver/Options/Traces.antt =====
-- From the options of the filters to the traces that are published
-- (chronicle-receiver/receiver_plugin.cpp: plugin_initialize, receive_traces).
use Prim.Native.String.{String}
use fio_chronicle.Prelude.{
  ◌≡◌, ◌⊎◌, refl, ap, sym, ◌∙◌, Bool, true, false, not, ◌||◌, ◌==◌, List, [], ◌∷◌, ◌++◌, Option,
  Option-cases, none, some, any, inl, inr, arith, if◌then◌else◌, All, Bool-cases,
}
use fio_chronicle.Prelude.Action.{ok, err, Result, modify, skip, ◌>>=◌}
use fio_chronicle.Store.Chainbase.{Chainbase}
use fio_chronicle.Receiver.State.{World, Config, TraceFilter, transaction_trace}
use fio_chronicle.Receiver.Message.{ActionTrace, TransactionTrace}
use fio_chronicle.Receiver.Abi.{Now}
use fio_chronicle.Receiver.Traces.{
  Matched, nothing_matched, match_actions, match_trace, passes, publish_if_passes, receive_trace,
}
use fio_chronicle.Receiver.Traces.Filter.{SelectedBy}
use fio_chronicle.Receiver.Options.{Options, Names, Plugin, given, plugin_initialize}
use fio_chronicle.Receiver.Options.Filters.{
  IsFresh, is_listed, is_wanted, matches-Selected, matches-blacklist, filter_on,
}

-- The action is one of the variants that the code knows.
abbrev pub HasVariant : ActionTrace → Type 0
HasVariant a = (a.index ≡ 0) ⊎ (a.index ≡ 1)

value : {A : Type 0} → Result A → Option A
value (ok a) = some a
value (err e) = none

value-some : {A : Type 0} (r : Result A) (a : A) → value r ≡ some a → r ≡ ok a
unfolding value
value-some (ok b) a e = cc
value-some (err x) a e = cc

true-not_false : true ≡ false → ⊥
true-not_false e = cc

-- The loop over such actions does not throw.
match_actions-returns :
    (f : TraceFilter) (actions : List ActionTrace)
    → All HasVariant actions
    → (m : Matched) × (match_actions f actions ≡ ok m)
unfolding match_actions value
match_actions-returns f [] all = (nothing_matched, refl)
match_actions-returns f (a ∷ rest) (known, all) =
    let (m, e) = match_actions-returns f rest all in
    let variant : (a.index == 0 || a.index == 1) ≡ true = elim known [
      | inl zero_index ↦ ground arith
      | inr one_index ↦ ground arith
    ] in
    elim (Option-cases (value (match_actions f (a ∷ rest)))) [
      | inl threw ↦ absurd (ground (arith, e, variant))
      | inr (k, found) ↦ (k, value-some (match_actions f (a ∷ rest)) k found)
    ]

module _ {D C : Type 0} where
  -- The trace is published, and nothing else happens.
  abbrev pub with_trace : Now → TransactionTrace → World D C → World D C
  with_trace now t w = record w {
    out = w.out ++ transaction_trace now.head now.timestamp t.body ∷ [];
  }

  publish_if_passes_lem :
      (c : Config) (now : Now) (t : TransactionTrace) (m : Matched) (w : World D C)
      → publish_if_passes c now t (ok m) w
        ≡ (ok tt, if passes c.traces m then with_trace now t w else w)
  unfolding publish_if_passes modify skip
  publish_if_passes_lem c now t m w = elim (Bool-cases (passes c.traces m)) [
    | inl on ↦ rw on refl
    | inr off ↦ rw off refl
  ]

  receive_trace-matched :
      (c : Config) (now : Now) (t : TransactionTrace) (m : Matched) (w : World D C)
      → match_trace c.traces t ≡ ok m
      → receive_trace c now (some t) w
        ≡ (ok tt, if passes c.traces m then with_trace now t w else w)
  unfolding receive_trace ◌>>=◌
  receive_trace-matched c now t m w e =
      ap (λ r. publish_if_passes c now t r w) e ∙ publish_if_passes_lem c now t m w

match_trace-on :
    (f : TraceFilter) (t : TransactionTrace)
    → (f.do_trace_filter || f.do_trace_blacklist) ≡ true
    → match_trace f t ≡ match_actions f t.action_traces
unfolding match_trace
match_trace-on f t on = rw on refl

match_trace-off :
    (f : TraceFilter) (t : TransactionTrace)
    → f.do_trace_filter ≡ false
    → f.do_trace_blacklist ≡ false
    → (match_trace f t ≡ ok nothing_matched) × (passes f nothing_matched ≡ true)
unfolding match_trace passes
match_trace-off f t no_filter no_list = (rw (no_filter, no_list) refl, rw no_filter refl)

none_listed :
    (names : Names) (actions : List ActionTrace) → any (is_listed names none) actions ≡ false
none_listed names [] = refl
none_listed names (a ∷ rest) = none_listed names rest

if-not :
    {A : Type 0} (b c : Bool) (x y : A) → b ≡ not c → (if b then x else y) ≡ (if c then y else x)
if-not b true x y e = rw e refl
if-not b false x y e = rw e refl

module _ (names : Names) {D C : Type 0} ⦃cb : Chainbase D⦄ (version : String) (o : Options) where
  -- Without a snapshot option, after an initialisation of a fresh plugin object that returns, with
  -- a filter enabled, a trace that is handled and whose actions are of known variants is either
  -- published once, with nothing else done, and has an action whose receiver or authorizer is named
  -- in the option of an enabled filter, while neither that action nor one before it is named in
  -- `blacklist-action`; or nothing is done, and it has no such action.
  pub receive_trace-Selected :
      (p q : Plugin D C) (now : Now) (t : TransactionTrace) (w : World D C)
      → o.save_snapshot ≡ none
      → o.restore_snapshot ≡ none
      → IsFresh p.config.traces
      → plugin_initialize names version o p ≡ (ok tt, q)
      → o.enable_receiver_filter || o.enable_auth_filter ≡ true
      → All HasVariant t.action_traces
      → (SelectedBy (is_listed names o.blacklist_action) (is_wanted names o) t.action_traces
          × (receive_trace q.config now (some t) w ≡ (ok tt, with_trace now t w)))
        ⊎ ((SelectedBy (is_listed names o.blacklist_action) (is_wanted names o) t.action_traces → ⊥)
            × (receive_trace q.config now (some t) w ≡ (ok tt, w)))
  receive_trace-Selected p q now t w no_save no_restore fresh h on known =
      let (m, e) = match_actions-returns q.config.traces t.action_traces known in
      let (same_filter, same_list) = filter_on names version o p q no_save no_restore fresh h in
      let looked = match_trace-on q.config.traces t (rw (same_filter, on) refl) ∙ e in
      let done = receive_trace-matched q.config now t m w looked in
      let selected =
        matches-Selected names version o p q t.action_traces m no_save no_restore fresh h on e in
      elim (Bool-cases (passes q.config.traces m)) [
        | inl pass ↦
            inl
              (selected.0 pass, done ∙ ap (λ b. (ok tt, if b then with_trace now t w else w)) pass)
        | inr stop ↦ inr (
          λ s. true-not_false (sym (selected.1 s) ∙ stop),
          done ∙ ap (λ b. (ok tt, if b then with_trace now t w else w)) stop,
        )
      ]

  -- Without a snapshot option, after an initialisation of a fresh plugin object that returns, with
  -- no filter enabled, a trace that is handled and whose actions are of known variants is
  -- published, with nothing else done, exactly when none of its actions is named in
  -- `blacklist-action`; otherwise nothing is done.
  pub receive_trace-blacklist :
      (p q : Plugin D C) (now : Now) (t : TransactionTrace) (w : World D C)
      → o.save_snapshot ≡ none
      → o.restore_snapshot ≡ none
      → IsFresh p.config.traces
      → plugin_initialize names version o p ≡ (ok tt, q)
      → o.enable_receiver_filter || o.enable_auth_filter ≡ false
      → All HasVariant t.action_traces
      → receive_trace q.config now (some t) w ≡ (
        ok tt,
        if any (is_listed names o.blacklist_action) t.action_traces then w else with_trace now t w,
      )
  receive_trace-blacklist p q now t w no_save no_restore fresh h off known =
      let (m, e) = match_actions-returns q.config.traces t.action_traces known in
      let (same_filter, same_list) = filter_on names version o p q no_save no_restore fresh h in
      let unlisted =
        matches-blacklist names version o p q t.action_traces m no_save no_restore fresh h off e in
      elim (Option-cases o.blacklist_action) [
        | inr (entries, listed) ↦
            receive_trace-matched q.config now t m w
              (match_trace-on q.config.traces t (rw (same_filter, off, same_list, listed) refl) ∙ e)
            ∙ ap (λ v. (ok tt, v))
                (if-not (passes q.config.traces m)
                  (any (is_listed names o.blacklist_action) t.action_traces) (with_trace now t w) w
                  unlisted)
        | inl unset ↦
            let (skipped, pass) =
              match_trace-off q.config.traces t (same_filter ∙ off) (same_list ∙ ap given unset) in
            let none_blocked =
              ap (λ l. any (is_listed names l) t.action_traces) unset
              ∙ none_listed names t.action_traces in
            receive_trace-matched q.config now t nothing_matched w skipped
            ∙ ap (λ v. (ok tt, v))
                (if-not (passes q.config.traces nothing_matched)
                  (any (is_listed names o.blacklist_action) t.action_traces) (with_trace now t w) w
                  (pass ∙ sym (ap not none_blocked)))
      ]
