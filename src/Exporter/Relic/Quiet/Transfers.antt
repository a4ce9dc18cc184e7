-- ===== src/Exporter/Relic/Quiet/Transfers.antt =====
-- The actions on requests and tokens leave the acknowledgements, the queue and its pauses alone.
use Prim.Native.String.{String}
use fio_chronicle.Exporter.Text.{Text}
use fio_chronicle.Exporter.Relic.{Services, Context, Argument}
use fio_chronicle.Exporter.Relic.Quiet.{View, Quiet, quiet_rules}
use fio_chronicle.Exporter.Relic.Requests.{
  on_new_funds_request, on_record_obt, end_request, on_cancel_funds_request,
  on_reject_funds_request,
}
use fio_chronicle.Exporter.Relic.Transfers.{
  token_transfer, on_transfer_tokens, staking, on_stake, on_unstake, on_retire, fip48_transfer,
  on_fip48, on_transfer, on_issue, on_bind2eosio, token_action,
}

module _ {D : Type 0} (sv : Services D) (c : Context) (v : View) where
  pub Quiet-on_new_funds_request : Quiet v (on_new_funds_request sv c)
  unfolding on_new_funds_request
  Quiet-on_new_funds_request = search (quiet_rules) depth 30

  pub Quiet-on_record_obt : Quiet v (on_record_obt sv c)
  unfolding on_record_obt
  Quiet-on_record_obt = search (quiet_rules) depth 30

  pub Quiet-end_request : (x0 : String) (x1 : String) → Quiet v (end_request sv c x0 x1)
  unfolding end_request
  Quiet-end_request x0 x1 = search (quiet_rules) depth 30

  pub Quiet-on_cancel_funds_request : Quiet v (on_cancel_funds_request sv c)
  unfolding on_cancel_funds_request
  Quiet-on_cancel_funds_request = search (quiet_rules, Quiet-end_request) depth 30

  pub Quiet-on_reject_funds_request : Quiet v (on_reject_funds_request sv c)
  unfolding on_reject_funds_request
  Quiet-on_reject_funds_request = search (quiet_rules, Quiet-end_request) depth 30

  pub Quiet-token_transfer :
      (x0 : Text) (x1 : Text) (x2 : Text) (x3 : String) (x4 : Argument)
      → Quiet v (token_transfer sv c x0 x1 x2 x3 x4)
  unfolding token_transfer
  Quiet-token_transfer x0 x1 x2 x3 x4 = search (quiet_rules) depth 30

  pub Quiet-on_transfer_tokens : Quiet v (on_transfer_tokens sv c)
  unfolding on_transfer_tokens
  Quiet-on_transfer_tokens = search (quiet_rules) depth 30

  pub Quiet-staking : (x0 : Text) → Quiet v (staking sv c x0)
  unfolding staking
  Quiet-staking x0 = search (quiet_rules) depth 30

  pub Quiet-on_stake : Quiet v (on_stake sv c)
  unfolding on_stake
  Quiet-on_stake = search (quiet_rules) depth 30

  pub Quiet-on_unstake : Quiet v (on_unstake sv c)
  unfolding on_unstake
  Quiet-on_unstake = search (quiet_rules) depth 30

  pub Quiet-on_retire : Quiet v (on_retire sv c)
  unfolding on_retire
  Quiet-on_retire = search (quiet_rules) depth 30

  pub Quiet-fip48_transfer : (x0 : Text × Text) → Quiet v (fip48_transfer sv c x0)
  unfolding fip48_transfer
  Quiet-fip48_transfer x0 = search (quiet_rules, Quiet-token_transfer) depth 30

  pub Quiet-on_fip48 : Quiet v (on_fip48 sv c)
  unfolding on_fip48
  Quiet-on_fip48 = search (quiet_rules, Quiet-fip48_transfer) depth 30

  pub Quiet-on_transfer : Quiet v (on_transfer sv c)
  unfolding on_transfer
  Quiet-on_transfer = search (quiet_rules) depth 30

  pub Quiet-on_issue : Quiet v (on_issue sv c)
  unfolding on_issue
  Quiet-on_issue = search (quiet_rules) depth 30

  pub Quiet-on_bind2eosio : Quiet v (on_bind2eosio sv c)
  unfolding on_bind2eosio
  Quiet-on_bind2eosio = search (quiet_rules) depth 30

  pub Quiet-token_action : Quiet v (token_action sv c)
  unfolding token_action
  Quiet-token_action =
      search (quiet_rules, Quiet-on_transfer, Quiet-on_issue, Quiet-on_bind2eosio) depth 30
