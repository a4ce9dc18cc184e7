-- ===== src/Receiver/Traces.antt =====
-- Transaction traces and their filters (chronicle-receiver/receiver_plugin.cpp: receive_traces).
pub mod Keeps
pub mod Filter
use fio_chronicle.Prelude.{
  ℕ, Bool, true, false, not, ◌&&◌, ◌||◌, List, [], ◌∷◌, Option, none, some, ◌==◌, if◌then◌else◌,
  any, contains,
}
use fio_chronicle.Prelude.Action.{
  Action, Result, ok, err, pure, throw, or_throw, skip, ◌>>=◌, ◌>>◌, for_each, decode_error,
  invalid_action_trace,
}
use fio_chronicle.Receiver.State.{World, Config, TraceFilter, publish, transaction_trace}
use fio_chronicle.Receiver.Message.{ActionTrace, TransactionTrace}
use fio_chronicle.Receiver.Abi.{Now}

pub record Matched : Type 0 where
  pub blacklist : Bool
  pub rcvr_filter : Bool
  pub auth_filter : Bool

abbrev pub nothing_matched : Matched
nothing_matched = record { blacklist = false; rcvr_filter = false; auth_filter = false }

-- The action is on the blacklist of its account.
abbrev pub is_blacklisted : TraceFilter → ActionTrace → Bool
is_blacklisted f a = any (λ e. e.0 == a.account && e.1 == a.name) f.blacklist_actions

-- One of the action's authorizers is looked for.
abbrev pub is_authorized : TraceFilter → ActionTrace → Bool
is_authorized f a = any (contains f.auth_filter) a.authorization

-- The loop over the actions of a trace, which stops at the first match of any kind.
unfoldable pub match_actions : TraceFilter → List ActionTrace → Result Matched
match_actions f [] = ok nothing_matched
match_actions f (a ∷ rest) =
    if not (a.index == 0 || a.index == 1)
    then err invalid_action_trace
    else if f.do_trace_blacklist && is_blacklisted f a
    then ok (record nothing_matched { blacklist = true })
    else if f.enable_rcvr_filter && contains f.rcvr_filter a.receiver
    then ok (record nothing_matched { rcvr_filter = true })
    else if f.enable_auth_filter && is_authorized f a
    then ok (record nothing_matched { auth_filter = true })
    else match_actions f rest

-- The matches of a trace; no action is looked at where no filter and no blacklist is enabled.
unfoldable pub match_trace : TraceFilter → TransactionTrace → Result Matched
match_trace f t =
    if f.do_trace_filter || f.do_trace_blacklist
    then match_actions f t.action_traces
    else ok nothing_matched

-- Whether a trace with these matches is published.
unfoldable pub passes : TraceFilter → Matched → Bool
passes f m =
    not m.blacklist
    && (not f.do_trace_filter
        || ((f.enable_rcvr_filter && m.rcvr_filter) || (f.enable_auth_filter && m.auth_filter)))

module _ {D C : Type 0} (c : Config) (now : Now) where
  unfoldable pub publish_if_passes :
      TransactionTrace → Result Matched → Action (World D C) (Unit {0})
  publish_if_passes t (err e) = throw e
  publish_if_passes t (ok m) =
      if passes c.traces m then publish (transaction_trace now.head now.timestamp t.body) else skip

  unfoldable pub receive_trace : Option TransactionTrace → Action (World D C) (Unit {0})
  unfolding publish_if_passes
  receive_trace entry = do
    t ← or_throw entry decode_error
    publish_if_passes t (match_trace c.traces t)

  unfoldable pub receive_traces : List (Option TransactionTrace) → Action (World D C) (Unit {0})
  unfolding receive_trace
  receive_traces entries =
      if c.subscribers.transaction_traces then for_each receive_trace entries else skip
