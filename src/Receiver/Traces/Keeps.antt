-- ===== src/Receiver/Traces/Keeps.antt =====
-- Receiving traces leaves the database alone.
use fio_chronicle.Prelude.{Option, List}
use fio_chronicle.Prelude.Action.{Result, ok, err}
use fio_chronicle.Prelude.Keeps.{Keeps, Keeps-throw}
use fio_chronicle.Receiver.State.{Config}
use fio_chronicle.Receiver.State.Keeps.{DbIs, db_rules}
use fio_chronicle.Receiver.Message.{TransactionTrace}
use fio_chronicle.Receiver.Abi.{Now}
use fio_chronicle.Receiver.Traces.{Matched, publish_if_passes, receive_trace, receive_traces}

module _ {D C : Type 0} {d : D} (c : Config) (now : Now) where
  Keeps-publish_if_passes :
      (t : TransactionTrace) (r : Result Matched)
      → Keeps (DbIs {C = C} d) (publish_if_passes c now t r)
  unfolding publish_if_passes
  Keeps-publish_if_passes t (ok m) = search db_rules
  Keeps-publish_if_passes t (err e) = Keeps-throw e

  Keeps-receive_trace :
      (entry : Option TransactionTrace) → Keeps (DbIs {C = C} d) (receive_trace c now entry)
  unfolding receive_trace
  Keeps-receive_trace entry = search (db_rules, Keeps-publish_if_passes)

  pub Keeps-receive_traces :
      (entries : List (Option TransactionTrace))
      → Keeps (DbIs {C = C} d) (receive_traces c now entries)
  unfolding receive_traces
  Keeps-receive_traces entries = search (db_rules, Keeps-receive_trace)
