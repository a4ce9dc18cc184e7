-- ===== src/Exporter/Relic/Quiet/Handles.antt =====
-- The actions on handles leave the acknowledgements, the queue and its pauses alone.
use fio_chronicle.Prelude.{◌≡◌, refl, List, [], ◌∷◌, ◌++◌, if◌then◌else◌, Bool-cases, inl, inr}
use fio_chronicle.Exporter.Json.{Json}
use fio_chronicle.Exporter.Relic.{Services, Context, Effect, finished_connection, aborted}
use fio_chronicle.Exporter.Relic.Quiet.{View, Quiet, quiet_rules, Quiet-modify, view-emit, acks}
use fio_chronicle.Exporter.Relic.Handles.{
  on_register_address, on_renew_address, on_add_bundles, bad_element, add_nft, on_add_nft,
  remove_nft, on_remove_nft, on_remove_all_nfts, on_transfer_address, on_remove_all_addresses,
  add_address, on_add_address, remove_address, on_remove_address, on_update_encrypt_key,
  on_burn_address, lost_twice,
}

module _ {D : Type 0} (sv : Services D) (c : Context) (v : View) where
  pub Quiet-on_register_address : Quiet v (on_register_address sv c)
  unfolding on_register_address
  Quiet-on_register_address = search (quiet_rules) depth 30

  pub Quiet-on_renew_address : Quiet v (on_renew_address sv c)
  unfolding on_renew_address
  Quiet-on_renew_address = search (quiet_rules) depth 30

  pub Quiet-on_add_bundles : Quiet v (on_add_bundles sv c)
  unfolding on_add_bundles
  Quiet-on_add_bundles = search (quiet_rules) depth 30

  acks-lost : acks lost_twice ≡ []
  unfolding acks
  acks-lost = refl

  acks-lost_once : acks (finished_connection ∷ finished_connection ∷ aborted ∷ []) ≡ []
  unfolding acks
  acks-lost_once = refl

  Quiet-bad_element :
      (effects : List Effect) → acks effects ≡ [] → Quiet v (bad_element sv c effects)
  unfolding bad_element
  Quiet-bad_element effects silent =
      Quiet-modify v (λ s. if sv.connected s.db then s else record s { out = s.out ++ effects })
        (λ s. elim (Bool-cases (sv.connected s.db)) [
          | inl here ↦ rw here refl
          | inr lost ↦ rw lost (view-emit effects s silent)
        ])

  pub Quiet-add_nft : (x0 : Json) → Quiet v (add_nft sv c x0)
  unfolding add_nft
  Quiet-add_nft x0 = search (quiet_rules, Quiet-bad_element, acks-lost_once) depth 30

  pub Quiet-on_add_nft : Quiet v (on_add_nft sv c)
  unfolding on_add_nft
  Quiet-on_add_nft = search (quiet_rules, Quiet-add_nft) depth 30

  pub Quiet-remove_nft : (x0 : Json) → Quiet v (remove_nft sv c x0)
  unfolding remove_nft
  Quiet-remove_nft x0 = search (quiet_rules, Quiet-bad_element, acks-lost) depth 30

  pub Quiet-on_remove_nft : Quiet v (on_remove_nft sv c)
  unfolding on_remove_nft
  Quiet-on_remove_nft = search (quiet_rules, Quiet-remove_nft) depth 30

  pub Quiet-on_remove_all_nfts : Quiet v (on_remove_all_nfts sv c)
  unfolding on_remove_all_nfts
  Quiet-on_remove_all_nfts = search (quiet_rules) depth 30

  pub Quiet-on_transfer_address : Quiet v (on_transfer_address sv c)
  unfolding on_transfer_address
  Quiet-on_transfer_address = search (quiet_rules) depth 30

  pub Quiet-on_remove_all_addresses : Quiet v (on_remove_all_addresses sv c)
  unfolding on_remove_all_addresses
  Quiet-on_remove_all_addresses = search (quiet_rules) depth 30

  pub Quiet-add_address : (x0 : Json) → Quiet v (add_address sv c x0)
  unfolding add_address
  Quiet-add_address x0 = search (quiet_rules, Quiet-bad_element, acks-lost) depth 30

  pub Quiet-on_add_address : Quiet v (on_add_address sv c)
  unfolding on_add_address
  Quiet-on_add_address = search (quiet_rules, Quiet-add_address) depth 30

  pub Quiet-remove_address : (x0 : Json) → Quiet v (remove_address sv c x0)
  unfolding remove_address
  Quiet-remove_address x0 = search (quiet_rules, Quiet-bad_element, acks-lost) depth 30

  pub Quiet-on_remove_address : Quiet v (on_remove_address sv c)
  unfolding on_remove_address
  Quiet-on_remove_address = search (quiet_rules, Quiet-remove_address) depth 30

  pub Quiet-on_update_encrypt_key : Quiet v (on_update_encrypt_key sv c)
  unfolding on_update_encrypt_key
  Quiet-on_update_encrypt_key = search (quiet_rules) depth 30

  pub Quiet-on_burn_address : Quiet v (on_burn_address sv c)
  unfolding on_burn_address
  Quiet-on_burn_address = search (quiet_rules) depth 30
