-- ===== src/Exporter/Relic/Handles.antt =====
-- The actions on handles (chronicle-receiver/exp_relic_plugin.cpp, async_send_events): regaddress,
-- renewaddress, addbundles, addnft, remnft, remallnfts, xferaddress, remalladdr, addaddress,
-- remaddress, updcryptkey, burnaddress.
use fio_chronicle.Prelude.{Bool, ◌&&◌, ◌||◌, List, [], ◌∷◌, ◌++◌, if◌then◌else◌}
use fio_chronicle.Prelude.Action.{Action, modify, skip, ◌>>=◌, ◌>>◌, for_each}
use fio_chronicle.Exporter.Text.{Text, text, is}
use fio_chronicle.Exporter.Json.{Json, field, elements, is_object}
use fio_chronicle.Exporter.Relic.{
  Services, Relic, Context, raw, quoted, call, escape_sql_string, get, get_escaped, handle_activity,
  account_activity, insert_pub_address, delete_nft_signatures, resolve_owner, Effect, aborted,
  finished_connection, change_pending,
}
use fio_chronicle.Exporter.Relic.Domains.{domain_of, insert_handle, unless_actor}

-- Both tests of the connection in the branch find it lost.
abbrev pub lost_twice : List Effect
lost_twice = finished_connection ∷ aborted ∷ finished_connection ∷ aborted ∷ []

module _ {D : Type 0} (sv : Services D) (c : Context) where
  -- The member "fio_address" of the action.
  abbrev pub handle : Text
  handle = get sv c.actdata "fio_address"

  unfoldable pub on_register_address : Action (Relic D) (Unit {0})
  unfolding domain_of resolve_owner call handle_activity account_activity insert_pub_address
  on_register_address = do
    (owner, pubkey) ← resolve_owner sv c actor (get sv c.actdata "owner_fio_public_key")
    insert_handle sv c (domain_of handle) owner handle pubkey
    handle_activity sv c handle "register"
    unless_actor sv c actor owner
    insert_pub_address sv c handle (text "FIO") (text "FIO") pubkey
    where
      actor : Text
      actor = get sv c.actdata "actor"

  unfoldable pub on_renew_address : Action (Relic D) (Unit {0})
  unfolding handle_activity
  on_renew_address = handle_activity sv c handle "renew"

  unfoldable pub on_add_bundles : Action (Relic D) (Unit {0})
  unfolding handle_activity
  on_add_bundles = handle_activity sv c handle "add_bundles"

  -- An element of an array that is no object: nothing, while the connection is there.
  unfoldable pub bad_element : List Effect → Action (Relic D) (Unit {0})
  bad_element effects =
      modify λ s. if sv.connected s.db then s else record s { out = s.out ++ effects }

  unfoldable pub add_nft : Json → Action (Relic D) (Unit {0})
  unfolding call escape_sql_string bad_element
  add_nft nft =
      if is_object nft
      then call sv "insupdnftsignatures" (
          raw c.bnums
          ∷ quoted handle
          ∷ quoted (get sv nft "chain_code")
          ∷ raw (get_escaped sv nft "contract_address")
          ∷ raw (get_escaped sv nft "token_id")
          ∷ raw (get_escaped sv nft "url")
          ∷ raw (get_escaped sv nft "hash")
          ∷ raw (get_escaped sv nft "metadata")
          ∷ [])
      else bad_element (finished_connection ∷ finished_connection ∷ aborted ∷ [])

  unfoldable pub on_add_nft : Action (Relic D) (Unit {0})
  unfolding handle_activity add_nft
  on_add_nft = do
    handle_activity sv c handle "add_nft"
    for_each add_nft (elements (field c.actdata "nfts"))

  unfoldable pub remove_nft : Json → Action (Relic D) (Unit {0})
  unfolding call bad_element
  remove_nft nft =
      if is_object nft
      then call sv "delnftsignature" (
          quoted handle
          ∷ quoted (get sv nft "chain_code")
          ∷ quoted (get sv nft "contract_address")
          ∷ quoted (get sv nft "token_id")
          ∷ [])
      else bad_element lost_twice

  unfoldable pub on_remove_nft : Action (Relic D) (Unit {0})
  unfolding handle_activity remove_nft
  on_remove_nft = do
    handle_activity sv c handle "rem_nft"
    for_each remove_nft (elements (field c.actdata "nfts"))

  unfoldable pub on_remove_all_nfts : Action (Relic D) (Unit {0})
  unfolding handle_activity delete_nft_signatures
  on_remove_all_nfts = do
    handle_activity sv c handle "rem_all_nft"
    delete_nft_signatures sv c handle

  unfoldable pub on_transfer_address : Action (Relic D) (Unit {0})
  unfolding resolve_owner call handle_activity account_activity insert_pub_address
      delete_nft_signatures
  on_transfer_address = do
    (owner, pubkey) ←
        resolve_owner sv c (get sv c.actdata "actor") (get sv c.actdata "new_owner_fio_public_key")
    call sv "updhandlesxferowner"
        (raw c.bnums ∷ quoted handle ∷ quoted owner ∷ raw pubkey ∷ quoted (text "false") ∷ [])
    handle_activity sv c handle "transfer"
    account_activity sv c owner "receiver"
    call sv "delpubaddresses" (quoted handle ∷ [])
    insert_pub_address sv c handle (text "FIO") (text "FIO") pubkey
    delete_nft_signatures sv c handle

  unfoldable pub on_remove_all_addresses : Action (Relic D) (Unit {0})
  unfolding handle_activity call
  on_remove_all_addresses = do
    handle_activity sv c handle "rem_all_pubadd"
    call sv "clearpubaddresses" (quoted handle ∷ [])

  abbrev is_encrypt_key : Text → Text → Bool
  is_encrypt_key chaincode tokencode =
      is chaincode "FIO" && (is tokencode "FIO" || is tokencode "*")

  unfoldable pub add_address : Json → Action (Relic D) (Unit {0})
  unfolding handle_activity insert_pub_address call escape_sql_string bad_element
  add_address entry =
      if is_object entry
      then (do
        handle_activity sv c handle "add_pubadd"
        insert_pub_address sv c handle chaincode tokencode address
        if is_encrypt_key chaincode tokencode
            then call sv "updhandlesencryptkey" (raw c.bnums ∷ quoted handle ∷ raw address ∷ [])
            else skip)
      else bad_element lost_twice
    where
      chaincode : Text
      chaincode = get sv entry "chain_code"

      tokencode : Text
      tokencode = get sv entry "token_code"

      address : Text
      address = get_escaped sv entry "public_address"

  unfoldable pub on_add_address : Action (Relic D) (Unit {0})
  unfolding add_address
  on_add_address = for_each add_address (elements (field c.actdata "public_addresses"))

  unfoldable pub remove_address : Json → Action (Relic D) (Unit {0})
  unfolding handle_activity call bad_element
  remove_address entry =
      if is_object entry
      then (do
        handle_activity sv c handle "rem_pubadd"
        call sv "delpubaddress" (
            quoted handle
            ∷ quoted (get sv entry "chain_code")
            ∷ quoted (get sv entry "token_code")
            ∷ quoted (get sv entry "public_address")
            ∷ []))
      else bad_element lost_twice

  unfoldable pub on_remove_address : Action (Relic D) (Unit {0})
  unfolding remove_address
  on_remove_address = for_each remove_address (elements (field c.actdata "public_addresses"))

  unfoldable pub on_update_encrypt_key : Action (Relic D) (Unit {0})
  unfolding call handle_activity
  on_update_encrypt_key = do
    call sv "updhandlessetencryptkey"
        (raw c.bnums ∷ quoted handle ∷ quoted (get sv c.actdata "encrypt_public_key") ∷ [])
    handle_activity sv c handle "upd_encryptkey"

  -- The handle is remembered, so that the end of the block does not burn it again.
  unfoldable pub on_burn_address : Action (Relic D) (Unit {0})
  unfolding call handle_activity delete_nft_signatures
  on_burn_address = do
    change_pending (λ p. record p { burnaddresses = p.burnaddresses ++ handle ∷ [] })
    call sv "updhandleburnt" (raw c.bnums ∷ quoted handle ∷ [])
    handle_activity sv c handle "self_burn"
    call sv "delpubaddresses" (quoted handle ∷ [])
    delete_nft_signatures sv c handle
