-- ===== src/Exporter/Relic/Requests.antt =====
-- The actions on requests for funds (chronicle-receiver/exp_relic_plugin.cpp, async_send_events):
-- newfundsreq, recordobt, cancelfndreq, rejectfndreq.
use Prim.Native.String.{String}
use fio_chronicle.Prelude.{true, [], ◌∷◌}
use fio_chronicle.Prelude.Action.{Action, ◌>>◌}
use fio_chronicle.Exporter.Text.{Text, text}
use fio_chronicle.Exporter.Json.{field, get_json_string}
use fio_chronicle.Exporter.Relic.{
  Services, Relic, Context, raw, quoted, call, escape_sql_string, get, get_nonempty, get_escaped,
  in_transaction, handle_activity,
}

module _ {D : Type 0} (sv : Services D) (c : Context) where
  abbrev payer : Text
  payer = get sv c.actdata "payer_fio_address"

  abbrev payee : Text
  payee = get sv c.actdata "payee_fio_address"

  -- "SELECT insaccountactivitieshandle("
  abbrev account_activity_of_handle : Text → Action (Relic D) (Unit {0})
  account_activity_of_handle handle =
      call sv "insaccountactivitieshandle"
        (in_transaction sv c (quoted handle ∷ quoted (text "receiver") ∷ []))

  abbrev update_request_status : Text → String → Action (Relic D) (Unit {0})
  update_request_status request_id status =
      call sv "updfiorequestsstatus" (raw request_id ∷ quoted (text status) ∷ [])

  unfoldable pub on_new_funds_request : Action (Relic D) (Unit {0})
  unfolding handle_activity call escape_sql_string
  on_new_funds_request = do
    handle_activity sv c payee "new_request"
    account_activity_of_handle payer
    call sv "insfiorequests" (
        in_transaction sv c (
          raw (get_json_string sv.write_json (text "NULL") (field c.respdoc "fio_request_id") true)
          ∷ quoted payer
          ∷ quoted payee
          ∷ raw (get_escaped sv c.actdata "content")
          ∷ quoted (text "pending")
          ∷ quoted c.blocktimestamp
          ∷ []))

  unfoldable pub on_record_obt : Action (Relic D) (Unit {0})
  unfolding handle_activity call escape_sql_string
  on_record_obt = do
    handle_activity sv c payer "record_obt"
    account_activity_of_handle payee
    call sv "insfiodatas" (
        in_transaction sv c (
          raw request_id
          ∷ quoted payer
          ∷ quoted payee
          ∷ raw (get_escaped sv c.actdata "content")
          ∷ quoted (text "sent_to_blockchain")
          ∷ quoted c.blocktimestamp
          ∷ []))
    update_request_status request_id "sent_to_blockchain"
    where
      request_id : Text
      request_id = get_nonempty sv "NULL" c.actdata "fio_request_id"

  -- "SELECT inshandleactivitiesfiorequest(", and the new status of the request.
  unfoldable pub end_request : String → String → Action (Relic D) (Unit {0})
  unfolding call
  end_request type status = do
    call sv "inshandleactivitiesfiorequest"
        (in_transaction sv c (raw request_id ∷ quoted (text type) ∷ quoted c.blocktimestamp ∷ []))
    update_request_status request_id status
    where
      request_id : Text
      request_id = get sv c.actdata "fio_request_id"

  unfoldable pub on_cancel_funds_request : Action (Relic D) (Unit {0})
  unfolding end_request
  on_cancel_funds_request = end_request "cancel_request" "cancelled"

  unfoldable pub on_reject_funds_request : Action (Relic D) (Unit {0})
  unfolding end_request
  on_reject_funds_request = end_request "reject_request" "rejected"
