-- ===== src/Exporter/Relic/Quiet/Traces.antt =====
-- A transaction trace leaves the acknowledgements, the queue and its pauses alone.
use fio_chronicle.Prelude.{List, [], ◌∷◌}
use fio_chronicle.Prelude.Keeps.{Keeps-if, Keeps-skip}
use fio_chronicle.Exporter.Text.{Text}
use fio_chronicle.Exporter.Text.Numbers.{ℤ}
use fio_chronicle.Exporter.Json.{Json}
use fio_chronicle.Exporter.Relic.{Services, Context}
use fio_chronicle.Exporter.Relic.Quiet.{View, Quiet, quiet_rules}
use fio_chronicle.Exporter.Relic.Quiet.Domains.{
  Quiet-on_register_domain, Quiet-on_renew_domain, Quiet-on_transfer_domain,
  Quiet-on_set_domain_public, Quiet-on_wrap_domain, Quiet-on_transfer_escrow,
}
use fio_chronicle.Exporter.Relic.Quiet.Handles.{
  Quiet-on_register_address, Quiet-on_renew_address, Quiet-on_add_bundles, Quiet-on_add_nft,
  Quiet-on_remove_nft, Quiet-on_remove_all_nfts, Quiet-on_transfer_address,
  Quiet-on_remove_all_addresses, Quiet-on_add_address, Quiet-on_remove_address,
  Quiet-on_update_encrypt_key, Quiet-on_burn_address,
}
use fio_chronicle.Exporter.Relic.Quiet.Transfers.{
  Quiet-on_new_funds_request, Quiet-on_record_obt, Quiet-on_cancel_funds_request,
  Quiet-on_reject_funds_request, Quiet-on_transfer_tokens, Quiet-on_stake, Quiet-on_unstake,
  Quiet-on_retire, Quiet-on_fip48, Quiet-token_action,
}
use fio_chronicle.Exporter.Relic.Actions.{
  insert_trace, insert_transaction, record_action, on_action_trace, on_action_traces, on_trace,
}
use fio_chronicle.Exporter.Relic.Choice.{on_burn_expired, on_action}

module _ {D : Type 0} (sv : Services D) (c : Context) (v : View) where
  Quiet-on_burn_expired : Quiet v (on_burn_expired sv c)
  unfolding on_burn_expired
  Quiet-on_burn_expired = search quiet_rules

  Quiet-on_action : Quiet v (on_action sv c)
  unfolding on_action
  Quiet-on_action =
      search
        (
          Keeps-if, Keeps-skip, Quiet-on_transfer_tokens, Quiet-on_register_domain,
          Quiet-on_renew_domain, Quiet-on_transfer_domain, Quiet-on_set_domain_public,
          Quiet-on_wrap_domain, Quiet-on_transfer_escrow, Quiet-on_update_encrypt_key,
          Quiet-on_burn_expired, Quiet-on_burn_address, Quiet-on_new_funds_request,
          Quiet-on_record_obt, Quiet-on_cancel_funds_request, Quiet-on_reject_funds_request,
          Quiet-on_register_address, Quiet-on_renew_address, Quiet-on_add_bundles, Quiet-on_add_nft,
          Quiet-on_remove_nft, Quiet-on_remove_all_nfts, Quiet-on_transfer_address,
          Quiet-on_remove_all_addresses, Quiet-on_add_address, Quiet-on_remove_address,
          Quiet-on_stake, Quiet-on_unstake, Quiet-on_retire, Quiet-on_fip48,
        )
        depth 60

  Quiet-insert_trace : Quiet v (insert_trace sv c)
  unfolding insert_trace
  Quiet-insert_trace = search quiet_rules

  Quiet-insert_transaction :
      (tpid fee response : Text) → Quiet v (insert_transaction sv c tpid fee response)
  unfolding insert_transaction
  Quiet-insert_transaction tpid fee response = search quiet_rules depth 9

module _ {D : Type 0} (sv : Services D) (v : View) where
  Quiet-record_action : (c : Context) (w : Json) → Quiet v (record_action sv c w)
  unfolding record_action
  Quiet-record_action c w = search (quiet_rules, Quiet-insert_transaction, Quiet-on_action) depth 12

  Quiet-on_action_trace :
      (bnums : Text) (event w : Json) (transaction : ℤ)
      → Quiet v (on_action_trace sv bnums event w transaction)
  unfolding on_action_trace
  Quiet-on_action_trace bnums event w transaction =
      search (quiet_rules, Quiet-record_action, Quiet-token_action) depth 12

  Quiet-on_action_traces :
      (bnums : Text) (event : Json) (traces : List Json) (transaction : ℤ)
      → Quiet v (on_action_traces sv bnums event traces transaction)
  unfolding on_action_traces
  Quiet-on_action_traces bnums event [] transaction = search quiet_rules
  Quiet-on_action_traces bnums event (w ∷ ws) transaction =
      search (quiet_rules, Quiet-on_action_trace, Quiet-on_action_traces bnums event ws) depth 9

  pub Quiet-on_trace : (bnums : Text) (event : Json) → Quiet v (on_trace sv bnums event)
  unfolding on_trace
  Quiet-on_trace bnums event = search Quiet-on_action_traces
