-- ===== src/Exporter/Relic/Choice.antt =====
-- The choice of the handler of an action by its name (chronicle-receiver/exp_relic_plugin.cpp,
-- async_send_events).
use fio_chronicle.Prelude.{true, ◌&&◌, ◌||◌, if◌then◌else◌}
use fio_chronicle.Prelude.Action.{Action, skip}
use fio_chronicle.Exporter.Text.{is}
use fio_chronicle.Exporter.Relic.{Services, Relic, Context, change_pending}
use fio_chronicle.Exporter.Relic.Domains.{
  on_register_domain, on_renew_domain, on_transfer_domain, on_set_domain_public, on_wrap_domain,
  on_transfer_escrow,
}
use fio_chronicle.Exporter.Relic.Handles.{
  on_update_encrypt_key, on_burn_address, on_register_address, on_renew_address, on_add_bundles,
  on_add_nft, on_remove_nft, on_remove_all_nfts, on_transfer_address, on_remove_all_addresses,
  on_add_address, on_remove_address,
}
use fio_chronicle.Exporter.Relic.Requests.{
  on_new_funds_request, on_record_obt, on_cancel_funds_request, on_reject_funds_request,
}
use fio_chronicle.Exporter.Relic.Transfers.{
  on_transfer_tokens, on_stake, on_unstake, on_retire, on_fip48,
}

module _ {D : Type 0} (sv : Services D) (c : Context) where
  -- The rows that the block deletes are handled at its end.
  unfoldable pub on_burn_expired : Action (Relic D) (Unit {0})
  on_burn_expired = change_pending (λ p. record p {
    burnexpiredthisblock = true;
    burnexpiredtimestamp = c.blocktimestamp;
    burnexpiredtrid = c.transaction;
  })

  -- What an action of the user does, by its name.
  unfoldable pub on_action : Action (Relic D) (Unit {0})
  on_action =
      if is c.actionname "trnsfiopubky" || is c.actionname "trnsloctoks"
      then on_transfer_tokens sv c
      else if is c.actionname "regdomain" || is c.actionname "regdomadd"
      then on_register_domain sv c
      else if is c.actionname "renewdomain"
      then on_renew_domain sv c
      else if is c.actionname "xferdomain"
      then on_transfer_domain sv c
      else if is c.actionname "setdomainpub"
      then on_set_domain_public sv c
      else if is c.actionname "wrapdomain"
      then on_wrap_domain sv c
      else if is c.actionname "xferescrow"
      then on_transfer_escrow sv c
      else if is c.actionname "updcryptkey"
      then on_update_encrypt_key sv c
      else if is c.actionname "burnexpired"
      then on_burn_expired
      else if is c.actionname "burnaddress"
      then on_burn_address sv c
      else if is c.actionname "newfundsreq"
      then on_new_funds_request sv c
      else if is c.actionname "recordobt"
      then on_record_obt sv c
      else if is c.actionname "cancelfndreq"
      then on_cancel_funds_request sv c
      else if is c.actionname "rejectfndreq"
      then on_reject_funds_request sv c
      else if is c.actionname "regaddress"
      then on_register_address sv c
      else if is c.actionname "renewaddress"
      then on_renew_address sv c
      else if is c.actionname "addbundles"
      then on_add_bundles sv c
      else if is c.actionname "addnft"
      then on_add_nft sv c
      else if is c.actionname "remnft"
      then on_remove_nft sv c
      else if is c.actionname "remallnfts"
      then on_remove_all_nfts sv c
      else if is c.actionname "xferaddress"
      then on_transfer_address sv c
      else if is c.actionname "remalladdr"
      then on_remove_all_addresses sv c
      else if is c.actionname "addaddress"
      then on_add_address sv c
      else if is c.actionname "remaddress"
      then on_remove_address sv c
      else if is c.actionname "wraptokens"
      then skip
      else if is c.actionname "stakefio"
      then on_stake sv c
      else if is c.actionname "unstakefio"
      then on_unstake sv c
      else if is c.actionname "retire"
      then on_retire sv c
      else if is c.actionname "fipxlviii" && is c.contractaccount "fio.token"
      then on_fip48 sv c
      else skip
