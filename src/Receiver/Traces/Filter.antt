-- ===== src/Receiver/Traces/Filter.antt =====
-- Which traces are published (chronicle-receiver/receiver_plugin.cpp: receive_traces).
use fio_chronicle.Prelude.{
  ◌≡◌, ◌↔◌, refl, ap, subst, Bool, true, false, not, ◌&&◌, ◌||◌, List, [], ◌∷◌, ◌++◌, arith, any,
  contains, inl, inr, Bool-cases,
}
use fio_chronicle.Prelude.Action.{ok}
use fio_chronicle.Receiver.State.{TraceFilter}
use fio_chronicle.Receiver.Message.{ActionTrace}
use fio_chronicle.Receiver.Traces.{Matched, is_blacklisted, is_authorized, match_actions, passes}

-- As `plugin_initialize` sets the flags.
pub record IsConsistent (f : TraceFilter) : Type 0 where
  pub any_filter : f.do_trace_filter ≡ (f.enable_rcvr_filter || f.enable_auth_filter)

abbrev pub is_blocked : TraceFilter → ActionTrace → Bool
is_blocked f a = f.do_trace_blacklist && is_blacklisted f a

-- One of the enabled filters looks for the action.
abbrev pub is_selected : TraceFilter → ActionTrace → Bool
is_selected f a =
    (f.enable_rcvr_filter && contains f.rcvr_filter a.receiver)
    || (f.enable_auth_filter && is_authorized f a)

-- With no filter enabled, and actions of known variants: a trace is published exactly when none of
-- its actions is on an enabled blacklist.
pub passes-blacklist :
    (f : TraceFilter) (actions : List ActionTrace) (m : Matched)
    → IsConsistent f
    → f.do_trace_filter ≡ false
    → match_actions f actions ≡ ok m
    → passes f m ≡ not (any (is_blocked f) actions)
unfolding match_actions passes
passes-blacklist f [] m k off h = ground arith
passes-blacklist f (a ∷ rest) m k off h = ground (arith, passes-blacklist f rest m k off)

-- A selected action stands in the trace, and no blocked one stands before it, nor is it itself.
abbrev pub SelectedBy : (ActionTrace → Bool) → (ActionTrace → Bool) → List ActionTrace → Type 0
SelectedBy blocked selected actions =
    (before : List ActionTrace) × (a : ActionTrace) × (after : List ActionTrace) × (actions
      ≡ before ++ a ∷ after)
    × (any blocked before ≡ false)
    × (blocked a ≡ false)
    × (selected a ≡ true)

abbrev pub Selected : TraceFilter → List ActionTrace → Type 0
Selected f = SelectedBy (is_blocked f) (is_selected f)

passed-Selected :
    (f : TraceFilter) (actions : List ActionTrace) (m : Matched)
    → IsConsistent f
    → f.do_trace_filter ≡ true
    → match_actions f actions ≡ ok m
    → passes f m ≡ true
    → Selected f actions
unfolding match_actions passes
passed-Selected f [] m k on h p = absurd (ground arith)
passed-Selected f (a ∷ rest) m k on h p = elim (Bool-cases (is_blocked f a)) [
  | inl blocked ↦ absurd (ground arith)
  | inr free ↦ elim (Bool-cases (is_selected f a)) [
    | inl hit ↦ ([], a, rest, refl, refl, free, hit)
    | inr miss ↦
        let (before, x, after, e, q, free_x, hit) =
          passed-Selected f rest m k on (ground arith) p in
        (a ∷ before, x, after, ap (λ l. a ∷ l) {y = before ++ x ∷ after} e, rw free q, free_x, hit)
  ]
]

Selected-passes :
    (f : TraceFilter) (before : List ActionTrace) (a : ActionTrace) (after : List ActionTrace)
    (m : Matched)
    → f.do_trace_filter ≡ true
    → match_actions f (before ++ a ∷ after) ≡ ok m
    → any (is_blocked f) before ≡ false
    → is_blocked f a ≡ false
    → is_selected f a ≡ true
    → passes f m ≡ true
unfolding match_actions passes
Selected-passes f [] a after m on h none_before free hit = ground arith
Selected-passes f (x ∷ before) a after m on h none_before free hit =
    ground (arith, Selected-passes f before a after m on)

-- With a filter enabled, where the loop over the actions does not throw: a trace is published exactly when it has a selected action with no blacklisted
-- one up to it. The actions behind are not looked at, whatever the blacklist says of them.
pub passes-Selected :
    (f : TraceFilter) (actions : List ActionTrace) (m : Matched)
    → IsConsistent f
    → f.do_trace_filter ≡ true
    → match_actions f actions ≡ ok m
    → (passes f m ≡ true) ↔ Selected f actions
passes-Selected f actions m k on h = (
  passed-Selected f actions m k on h,
  λ (before, a, after, e, q, free, hit).
      Selected-passes f before a after m on (subst (λ l. match_actions f l ≡ ok m) e h) q free hit,
)

-- The blacklist has no precedence over the filters: with a filter enabled, a trace whose first
-- action is selected and not blacklisted is published, though a blacklisted one follows.
pub passes-before_blacklisted :
    (f : TraceFilter) (a : ActionTrace) (rest : List ActionTrace) (m : Matched)
    → f.do_trace_filter ≡ true
    → is_blocked f a ≡ false
    → is_selected f a ≡ true
    → any (is_blocked f) rest ≡ true
    → match_actions f (a ∷ rest) ≡ ok m
    → passes f m ≡ true
passes-before_blacklisted f a rest m on free hit listed h =
    Selected-passes f [] a rest m on h refl free hit
