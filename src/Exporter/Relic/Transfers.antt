-- ===== src/Exporter/Relic/Transfers.antt =====
-- The actions on tokens (chronicle-receiver/exp_relic_plugin.cpp, async_send_events): trnsfiopubky,
-- trnsloctoks, stakefio, unstakefio, retire, fipxlviii, and transfer, issue and bind2eosio, which
-- are looked at in inline actions too.
use Prim.Native.String.{String}
use fio_chronicle.Prelude.{◌&&◌, List, [], ◌∷◌, ◌++◌, if◌then◌else◌}
use fio_chronicle.Prelude.Action.{Action, skip, ◌>>◌, for_each}
use fio_chronicle.Exporter.Text.{Text, text, is, contains_text, erase_all, erase_first}
use fio_chronicle.Exporter.Relic.{
  Services, Relic, Context, Argument, raw, quoted, call, escape_sql_string, get, get_nonempty,
  get_escaped, in_transaction, account_activity, insert_account,
}

-- The type of a transfer, by the first phrase that its memo has.
unfoldable pub transfer_type : Text → String
transfer_type memo =
    if contains_text memo (text "FIO fee")
    then "blockchain_fee"
    else if contains_text memo (text "Paying TPID from treasury")
    then "tpid_reward"
    else if contains_text memo (text "Paying Staking Rewards")
    then "staking_reward"
    else if contains_text memo (text "Paying producer from treasury")
    then "bp_reward"
    else if contains_text memo (text "Paying foundation from treasury")
    then "foundation_reward"
    else if contains_text memo (text "Token Wrapping Oracle Fee")
    then "oracle_fee"
    else if contains_text memo (text "Token Unwrapping")
    then "unwrap"
    else if contains_text memo (text "Token Wrapping")
    then "wrap"
    else "transfer"

-- "1.000000000 FIO" becomes "1000000000".
unfoldable pub amount_of : Text → Text
amount_of quantity = erase_first (erase_all quantity 46) (text " FIO")

-- `fip48_transfers`
abbrev pub fip48_transfers : List (Text × Text)
fip48_transfers =
    (text "xkezj1ocwe4r", text "9999960000000000")
    ∷ (text "mck32myftiau", text "10000000000000000")
    ∷ (text "hjvwdy5p4zvs", text "7000000000000000")
    ∷ (text "2mskjvkhj334", text "5500000000000000")
    ∷ (text "oadme4v54cly", text "2500000000000000")
    ∷ (text "jsniuyaaeblr", text "1999999400000000")
    ∷ (text "nadppzyxtxjx", text "1500000000000000")
    ∷ (text "zvt11xu5czlk", text "1000000000000")
    ∷ (text "dioxleem5hmr", text "1000000000000")
    ∷ (text "iud1tjwtt2ey", text "1000000000000")
    ∷ (text "xgyg22tfizja", text "1000000000000")
    ∷ (text "4urqjmtfvmjj", text "1000000000000")
    ∷ (text "deq54dxuyquh", text "1000000000000")
    ∷ []

module _ {D : Type 0} (sv : Services D) (c : Context) where
  -- "SELECT instokentransfers("; the memo is an argument of its own.
  unfoldable pub token_transfer :
      Text → Text → Text → String → Argument → Action (Relic D) (Unit {0})
  unfolding call
  token_transfer payer payee amount type memo = call sv "instokentransfers" (
      in_transaction sv c (
        quoted payer
        ∷ quoted payee
        ∷ raw amount
        ∷ quoted (text type)
        ∷ memo
        ∷ quoted c.blocktimestamp
        ∷ []))

  unfoldable pub on_transfer_tokens : Action (Relic D) (Unit {0})
  unfolding token_transfer
  on_transfer_tokens =
      token_transfer (get sv c.actdata "actor")
        (sv.key_to_account (get sv c.actdata "payee_public_key")) (get sv c.actdata "amount")
        (if is c.actionname "trnsloctoks" then "transfer_locked" else "transfer") (quoted [])

  unfoldable pub staking : Text → Action (Relic D) (Unit {0})
  unfolding call
  staking amount =
      call sv "instokenstakings"
        (in_transaction sv c (quoted (get sv c.actdata "actor") ∷ quoted amount ∷ []))

  unfoldable pub on_stake : Action (Relic D) (Unit {0})
  unfolding staking
  on_stake = staking (get_nonempty sv "" c.actdata "amount")

  unfoldable pub on_unstake : Action (Relic D) (Unit {0})
  unfolding staking
  on_unstake = staking (text "-" ++ get_nonempty sv "" c.actdata "amount")

  unfoldable pub on_retire : Action (Relic D) (Unit {0})
  unfolding token_transfer escape_sql_string
  on_retire =
      token_transfer (get sv c.actdata "actor") (text "fio.token")
        (get_nonempty sv "" c.actdata "quantity") "retire" (raw (get_escaped sv c.actdata "memo"))

  -- One entry of the table: the transfer, and the activities of both sides.
  unfoldable pub fip48_transfer : Text × Text → Action (Relic D) (Unit {0})
  unfolding token_transfer account_activity escape_sql_string
  fip48_transfer (payer, amount) = do
    token_transfer payer (text "pkfbwyi2qzii") amount "transfer"
        (raw (escape_sql_string sv (text "FIP-48")))
    account_activity sv c payer "sender"
    account_activity sv c (text "pkfbwyi2qzii") "receiver"

  unfoldable pub on_fip48 : Action (Relic D) (Unit {0})
  unfolding fip48_transfer
  on_fip48 = for_each fip48_transfer fip48_transfers

  -- "transfer" to fio.token, which is an inline action as a rule.
  unfoldable pub on_transfer : Action (Relic D) (Unit {0})
  unfolding token_transfer transfer_type amount_of escape_sql_string
  on_transfer =
      token_transfer (get_nonempty sv "" c.actdata "from") (get_nonempty sv "" c.actdata "to")
        (amount_of (get_nonempty sv "" c.actdata "quantity")) (transfer_type memo)
        (raw (escape_sql_string sv memo))
    where
      memo : Text
      memo = get_nonempty sv "" c.actdata "memo"

  unfoldable pub on_issue : Action (Relic D) (Unit {0})
  unfolding token_transfer amount_of escape_sql_string
  on_issue =
      token_transfer (text "fio.token") (text "eosio")
        (amount_of (get_nonempty sv "" c.actdata "quantity")) "token_mint"
        (raw (escape_sql_string sv (get_nonempty sv "" c.actdata "memo")))

  unfoldable pub on_bind2eosio : Action (Relic D) (Unit {0})
  unfolding insert_account account_activity escape_sql_string
  on_bind2eosio = do
    insert_account sv c (get sv c.actdata "account")
        (escape_sql_string sv (get sv c.actdata "client_key")) "true"
    account_activity sv c (get sv c.actdata "account") "receiver"

  -- The token actions that are looked at wherever they stand in the transaction.
  unfoldable pub token_action : Action (Relic D) (Unit {0})
  unfolding on_transfer on_issue on_bind2eosio
  token_action =
      if is c.actionname "transfer" && is c.receiveraccount "fio.token"
      then on_transfer
      else if is c.actionname "issue" && is c.receiveraccount "fio.token"
      then on_issue
      else if is c.actionname "bind2eosio"
      then on_bind2eosio
      else skip
