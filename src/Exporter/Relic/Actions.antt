-- ===== src/Exporter/Relic/Actions.antt =====
-- The actions of a transaction trace (chronicle-receiver/exp_relic_plugin.cpp, async_send_events,
-- the branch of "TX_TRACE").
use fio_chronicle.Prelude.{
  Bool, true, false, not, ◌&&◌, List, [], ◌∷◌, Option, none, some, if◌then◌else◌, ◌==◌,
}
use fio_chronicle.Prelude.Action.{Action, pure, skip, ◌>>=◌, ◌>>◌}
use fio_chronicle.Exporter.Text.{Text, text, is}
use fio_chronicle.Exporter.Json.{Json, field, elements, is_object, get_json_string}
use fio_chronicle.Exporter.Relic.{
  Services, Relic, Context, raw, quoted, run, call, get, get_nonempty, get_escaped, in_transaction,
}
use fio_chronicle.Exporter.Text.Numbers.{ℤ, pos, negsuc, atoi}
use fio_chronicle.Exporter.Relic.Transfers.{token_action}
use fio_chronicle.Prelude.{ltb}
use fio_chronicle.Exporter.Relic.Choice.{on_action}

-- `if (PQgetvalue(res, 0, 0)) n = atoi(PQgetvalue(res, 0, 0));`
abbrev pub number_or : ℤ → Option Text → ℤ
number_or n none = n
number_or n (some t) = atoi t

-- An ordinal that is missing is -1.
unfoldable pub ordinal : Text → ℤ
unfolding atoi
ordinal t = if is t "NULL" then negsuc 0 else atoi t

abbrev pub is_zero : ℤ → Bool
is_zero (pos n) = n == 0
is_zero (negsuc n) = false

abbrev pub is_above_one : ℤ → Bool
is_above_one (pos n) = ltb 1 n
is_above_one (negsuc n) = false

-- n > -1
abbrev pub is_natural : ℤ → Bool
is_natural (pos n) = true
is_natural (negsuc n) = false

abbrev first_or : Json → List Json → Json
first_or v [] = v
first_or v (w ∷ ws) = w

module _ {D : Type 0} (sv : Services D) (c : Context) where
  -- "SELECT instraces("
  unfoldable pub insert_trace : Action (Relic D) (Unit {0})
  unfolding call
  insert_trace = call sv "instraces" (
      in_transaction sv c (
        quoted c.actionaccount
        ∷ quoted c.receiveraccount
        ∷ raw c.actionordinal
        ∷ quoted c.actionname
        ∷ raw c.requestdata
        ∷ quoted c.blocktimestamp
        ∷ []))

  -- "SELECT instransactions(", which answers with the number of the transaction.
  unfoldable pub insert_transaction : Text → Text → Text → Action (Relic D) ℤ
  unfolding run
  insert_transaction tpid fee response = do
    a ← run sv (record {
      all_columns = false;
      function = text "instransactions";
      arguments =
          raw c.bnums
          ∷ quoted c.blocktimestamp
          ∷ quoted c.trid
          ∷ quoted c.contractaccount
          ∷ quoted c.actionaccount
          ∷ quoted c.actionname
          ∷ quoted tpid
          ∷ raw fee
          ∷ raw c.requestdata
          ∷ quoted response
          ∷ quoted c.status
          ∷ [];
    })
    pure (number_or c.transaction (a.value 0 0))

module _ {D : Type 0} (sv : Services D) where
  -- What is read of an action trace.
  abbrev pub context_of : Text → Json → ℤ → Json → Context
  context_of bnums event transaction v = record {
    bnums = bnums;
    blocktimestamp = get_nonempty sv "" event "block_timestamp";
    trid = get_nonempty sv "" (field event "trace") "id";
    status = get_nonempty sv "" (field event "trace") "status";
    transaction = transaction;
    contractaccount = get_nonempty sv "" (field v "act") "account";
    receiveraccount = get_nonempty sv "" v "receiver";
    actionname = get_nonempty sv "" (field v "act") "name";
    actionaccount =
        get_nonempty sv "" (first_or v (elements (field (field v "act") "authorization"))) "actor";
    actionordinal = get_nonempty sv "NULL" v "action_ordinal";
    requestdata = get_escaped sv (field v "act") "data";
    actdata = field (field v "act") "data";
    respdoc = sv.parse_json (get sv (field v "receipt") "response");
  }

  -- The first action of a transaction: no action has created it.
  abbrev pub is_root : Context → Json → Bool
  is_root c v =
      is_zero (ordinal (get_nonempty sv "NULL" v "creator_action_ordinal"))
      && not (is c.actionname "onblock")
      && not (is c.actionname "nonce")

  abbrev is_traced : Context → Bool
  is_traced c = is_above_one (ordinal c.actionordinal) && is_natural c.transaction

  -- The action as a transaction or as a trace; the result is the transaction's number.
  unfoldable pub record_action : Context → Json → Action (Relic D) ℤ
  unfolding insert_transaction on_action insert_trace
  record_action c v =
      if is_root c v
      then (do
        transaction ← insert_transaction sv c tpid fee response
        on_action sv (record c { transaction = transaction })
        pure transaction)
      else if is_traced c
      then (do insert_trace sv c; pure c.transaction)
      else pure c.transaction
    where
      tpid : Text
      tpid = if is_object c.actdata then get sv c.actdata "tpid" else []

      fee : Text
      fee = get_json_string sv.write_json (text "0") (field c.respdoc "fee_collected") true

      response : Text
      response = get sv (field v "receipt") "response"

  -- One action trace. Nothing more is done for a root action "wraptokens".
  unfoldable pub on_action_trace : Text → Json → Json → ℤ → Action (Relic D) ℤ
  unfolding record_action token_action
  on_action_trace bnums event v transaction =
      if is_object v
      then (do
        transaction' ← record_action c v
        if is_root c v && is c.actionname "wraptokens"
            then skip
            else token_action sv (record c { transaction = transaction' })
        pure transaction')
      else pure transaction
    where
      c : Context
      c = context_of bnums event transaction v

  unfoldable pub on_action_traces : Text → Json → List Json → ℤ → Action (Relic D) (Unit {0})
  unfolding on_action_trace
  on_action_traces bnums event [] transaction = skip
  on_action_traces bnums event (v ∷ vs) transaction = do
    transaction' ← on_action_trace bnums event v transaction
    on_action_traces bnums event vs transaction'

  -- "TX_TRACE"
  unfoldable pub on_trace : Text → Json → Action (Relic D) (Unit {0})
  unfolding on_action_traces
  on_trace bnums event =
      on_action_traces bnums event (elements (field (field event "trace") "action_traces"))
        (negsuc 0)
