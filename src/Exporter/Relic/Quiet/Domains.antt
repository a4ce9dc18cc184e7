-- ===== src/Exporter/Relic/Quiet/Domains.antt =====
-- The actions on domains leave the acknowledgements, the queue and its pauses alone.
use fio_chronicle.Exporter.Text.{Text}
use fio_chronicle.Exporter.Relic.{Services, Context}
use fio_chronicle.Exporter.Relic.Quiet.{View, Quiet, quiet_rules}
use fio_chronicle.Exporter.Relic.Domains.{
  on_new_handle, on_register_domain, on_renew_domain, domain_owner, on_transfer_domain,
  on_set_domain_public, on_wrap_domain, on_transfer_escrow,
}

module _ {D : Type 0} (sv : Services D) (c : Context) (v : View) where
  pub Quiet-on_new_handle :
      (x0 : Text) (x1 : Text) (x2 : Text) (x3 : Text) → Quiet v (on_new_handle sv c x0 x1 x2 x3)
  unfolding on_new_handle
  Quiet-on_new_handle x0 x1 x2 x3 = search (quiet_rules) depth 30

  pub Quiet-on_register_domain : Quiet v (on_register_domain sv c)
  unfolding on_register_domain
  Quiet-on_register_domain = search (quiet_rules, Quiet-on_new_handle) depth 30

  pub Quiet-on_renew_domain : Quiet v (on_renew_domain sv c)
  unfolding on_renew_domain
  Quiet-on_renew_domain = search (quiet_rules) depth 30

  pub Quiet-domain_owner : (x0 : Text) (x1 : Text) → Quiet v (domain_owner sv c x0 x1)
  unfolding domain_owner
  Quiet-domain_owner x0 x1 = search (quiet_rules) depth 30

  pub Quiet-on_transfer_domain : Quiet v (on_transfer_domain sv c)
  unfolding on_transfer_domain
  Quiet-on_transfer_domain = search (quiet_rules, Quiet-domain_owner) depth 30

  pub Quiet-on_set_domain_public : Quiet v (on_set_domain_public sv c)
  unfolding on_set_domain_public
  Quiet-on_set_domain_public = search (quiet_rules) depth 30

  pub Quiet-on_wrap_domain : Quiet v (on_wrap_domain sv c)
  unfolding on_wrap_domain
  Quiet-on_wrap_domain = search (quiet_rules) depth 30

  pub Quiet-on_transfer_escrow : Quiet v (on_transfer_escrow sv c)
  unfolding on_transfer_escrow
  Quiet-on_transfer_escrow = search (quiet_rules) depth 30
