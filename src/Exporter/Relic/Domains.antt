-- ===== src/Exporter/Relic/Domains.antt =====
-- The actions on domains (chronicle-receiver/exp_relic_plugin.cpp, async_send_events): regdomain,
-- regdomadd, renewdomain, xferdomain, setdomainpub, wrapdomain, xferescrow.
use fio_chronicle.Prelude.{true, [], ◌∷◌, none, some, if◌then◌else◌, ltb}
use fio_chronicle.Prelude.Action.{Action, pure, modify, skip, ◌>>=◌, ◌>>◌, throw, sql_failed}
use fio_chronicle.Exporter.Text.{Text, text, same, is, split_at}
use fio_chronicle.Exporter.Relic.{
  Services, Relic, Context, raw, quoted, run, call, escape_sql_string, get, handle_activity,
  domain_activity, account_activity, insert_account, insert_pub_address, resolve_owner,
  finish_if_lost,
}
use fio_chronicle.Exporter.Timestamp.{normalize_contract_expiration_timestamp}

-- What stands behind the first '@'.
unfoldable pub domain_of : Text → Text
domain_of handle = elim (split_at 64 handle) [ none ↦ [] | some (before, behind) ↦ behind ]

module _ {D : Type 0} (sv : Services D) (c : Context) where
  abbrev insert_domain : Text → Text → Action (Relic D) (Unit {0})
  insert_domain domain owner = call sv "insdomains" (
      raw c.bnums
      ∷ quoted domain
      ∷ quoted owner
      ∷ quoted (text "false")
      ∷ quoted (get sv c.respdoc "expiration")
      ∷ quoted (text "active")
      ∷ [])

  abbrev pub insert_handle : Text → Text → Text → Text → Action (Relic D) (Unit {0})
  insert_handle domain owner handle pubkey = call sv "insupdhandles" (
      raw c.bnums
      ∷ quoted domain
      ∷ quoted owner
      ∷ quoted handle
      ∷ raw pubkey
      ∷ quoted (text "false")
      ∷ quoted (get sv c.respdoc "expiration")
      ∷ quoted (text "active")
      ∷ [])

  abbrev update_domain_owner : Text → Text → Action (Relic D) (Unit {0})
  update_domain_owner domain owner = call sv "upddomainowner" (quoted domain ∷ quoted owner ∷ [])

  -- An account that is not the actor's is a receiver.
  abbrev pub unless_actor : Text → Text → Action (Relic D) (Unit {0})
  unless_actor actor owner =
      if same actor owner then skip else account_activity sv c owner "receiver"

  -- The handle that regdomadd registers with its domain.
  unfoldable pub on_new_handle : Text → Text → Text → Text → Action (Relic D) (Unit {0})
  unfolding call handle_activity insert_pub_address
  on_new_handle domain owner handle pubkey = do
    insert_handle domain owner handle pubkey
    handle_activity sv c handle "register"
    insert_pub_address sv c handle (text "FIO") (text "FIO") pubkey

  unfoldable pub on_register_domain : Action (Relic D) (Unit {0})
  unfolding domain_of resolve_owner call domain_activity account_activity on_new_handle
  on_register_domain = do
    (owner, pubkey) ← resolve_owner sv c actor (get sv c.actdata "owner_fio_public_key")
    insert_domain domain owner
    domain_activity sv c domain "register"
    if is c.actionname "regdomadd" then on_new_handle domain owner handle pubkey else skip
    unless_actor actor owner
    where
      actor : Text
      actor = get sv c.actdata "actor"

      handle : Text
      handle = get sv c.actdata "fio_address"

      domain : Text
      domain =
          if is c.actionname "regdomain" then get sv c.actdata "fio_domain" else domain_of handle

  unfoldable pub on_renew_domain : Action (Relic D) (Unit {0})
  unfolding call domain_activity normalize_contract_expiration_timestamp
  on_renew_domain = do
    call sv "upddomainexp" (
        quoted domain
        ∷ quoted (
            normalize_contract_expiration_timestamp (is c.actionname "renewdomain")
              (get sv c.respdoc "expiration"))
        ∷ [])
    domain_activity sv c domain "renew"
    where
      domain : Text
      domain = get sv c.actdata "fio_domain"

  -- The new owner of xferdomain; unlike elsewhere, the actor's key is asked for but not read.
  unfoldable pub domain_owner : Text → Text → Action (Relic D) Text
  unfolding run insert_account escape_sql_string
  domain_owner actor pubkey =
      if same pubkey []
      then (do
        a ← run sv (record {
          all_columns = true;
          function = text "getaccountpubkeyandid";
          arguments = quoted actor ∷ [];
        })
        if ltb 1 a.ntuples then (do modify (finish_if_lost sv); throw sql_failed) else skip
        pure actor)
      else (do
        insert_account sv c (sv.key_to_account pubkey) (escape_sql_string sv pubkey) "false"
        pure (sv.key_to_account pubkey))

  unfoldable pub on_transfer_domain : Action (Relic D) (Unit {0})
  unfolding domain_owner call domain_activity account_activity
  on_transfer_domain = do
    owner ← domain_owner (get sv c.actdata "actor") (get sv c.actdata "new_owner_fio_public_key")
    update_domain_owner domain owner
    domain_activity sv c domain "transfer"
    account_activity sv c owner "receiver"
    where
      domain : Text
      domain = get sv c.actdata "fio_domain"

  unfoldable pub on_set_domain_public : Action (Relic D) (Unit {0})
  unfolding call domain_activity
  on_set_domain_public = do
    call sv "upddomainispublic" (quoted domain ∷ quoted is_public ∷ [])
    domain_activity sv c domain (if is is_public "0" then "non-public" else "public")
    where
      domain : Text
      domain = get sv c.actdata "fio_domain"

      is_public : Text
      is_public = get sv c.actdata "is_public"

  unfoldable pub on_wrap_domain : Action (Relic D) (Unit {0})
  unfolding call domain_activity account_activity
  on_wrap_domain = do
    update_domain_owner domain (text "fio.oracle")
    domain_activity sv c domain "wrap"
    account_activity sv c (text "fio.oracle") "receiver"
    where
      domain : Text
      domain = get sv c.actdata "fio_domain"

  unfoldable pub on_transfer_escrow : Action (Relic D) (Unit {0})
  unfolding call domain_activity account_activity
  on_transfer_escrow = do
    update_domain_owner domain owner
    domain_activity sv c domain "unwrap"
    account_activity sv c owner "receiver"
    account_activity sv c (text "fio.oracle") "sender"
    where
      domain : Text
      domain = get sv c.actdata "fio_domain"

      owner : Text
      owner = sv.key_to_account (get sv c.actdata "public_key")
