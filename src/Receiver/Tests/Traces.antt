-- ===== src/Receiver/Tests/Traces.antt =====
-- The theorems on trace filters at concrete inputs.
use fio_chronicle.Prelude.{◌≡◌, refl, true, [], ◌∷◌}
use fio_chronicle.Prelude.Action.{ok}
use fio_chronicle.Receiver.State.{TraceFilter}
use fio_chronicle.Receiver.Message.{ActionTrace}
use fio_chronicle.Receiver.Samples.{no_trace_filter}
use fio_chronicle.Receiver.Traces.{nothing_matched, match_actions}

-- Receiver 5, contract 6: an action that is looked for; and contract 1, action 2: a listed one.
abbrev wanted : ActionTrace
wanted = record { index = 1; account = 6; name = 7; receiver = 5; authorization = [] }

abbrev unwanted : ActionTrace
unwanted = record { index = 0; account = 1; name = 2; receiver = 1; authorization = 9 ∷ [] }

abbrev blacklist : TraceFilter
blacklist = record no_trace_filter { blacklist_actions = (1, 2) ∷ []; do_trace_blacklist = true }

abbrev both : TraceFilter
both = record blacklist { enable_rcvr_filter = true; rcvr_filter = 5 ∷ []; do_trace_filter = true }

blacklist_matched :
    match_actions blacklist (wanted ∷ unwanted ∷ [])
    ≡ ok (record nothing_matched { blacklist = true })
unfolding match_actions
blacklist_matched = refl

both_matched :
    match_actions both (wanted ∷ unwanted ∷ []) ≡ ok (record nothing_matched { rcvr_filter = true })
unfolding match_actions
both_matched = refl
