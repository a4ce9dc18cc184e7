-- ===== src/Exporter/Relic.antt =====
-- The exporter to the relic database (chronicle-receiver/exp_relic_plugin.cpp, class
-- exp_relic_plugin_impl): its state, and the statements that it sends to PostgreSQL.
-- libpq and rapidjson are the fields of `Services`. The queue holds the documents that
-- rapidjson parses from the messages; the rows of a block that wait for its end are kept as
-- values rather than as their text, which is what parsing the text again gives.
pub mod Domains
pub mod Handles
pub mod Requests
pub mod Transfers
pub mod Choice
pub mod Actions
pub mod Blocks
pub mod Queue
pub mod Quiet
pub mod Acks
pub mod Drain
pub mod Pauses
pub mod Ends
pub mod EndBlock
pub mod Setup
use Prim.Native.String.{String}
use fio_chronicle.Prelude.{
  ℕ, ◌+◌, ◌-◌, Bool, true, false, not, List, [], ◌∷◌, ◌++◌, Option, none, some, ltb, if◌then◌else◌,
}
use fio_chronicle.Prelude.Action.{
  Action, Result, ok, err, pure, throw, gets, or_throw, modify, throw_if, skip, ◌>>=◌, ◌>>◌,
  for_each, sql_failed,
}
use fio_chronicle.Exporter.Text.{Text, text, same, starts_with}
use fio_chronicle.Exporter.Text.Numbers.{ℤ, print_integer}
use fio_chronicle.Exporter.Json.{Json, field, get_json_string}

-- A PGresult: PQresultStatus is PGRES_TUPLES_OK, PQntuples, and PQgetvalue (`none` is a null
-- pointer).
pub record Answer : Type 0 where
  pub tuples_ok : Bool
  pub ntuples : ℕ
  pub value : ℕ → ℕ → Option Text

-- What the exporter uses of libpq, of rapidjson and of key_to_account. Nothing is known of the status
-- of a connection after PQfinish, which `finish` stands for: libpq does not define it.
pub record Services (D : Type 0) : Type 0 where
  pub exec : Text → D → Answer × D
  pub connected : D → Bool
  pub finish : D → D
  pub escape_literal : Text → Option Text
  pub write_json : Json → Text
  pub parse_json : Text → Json
  pub key_to_account : Text → Text

-- An argument of an SQL function: put in as it is, or between quotes.
pub data Argument : Type 0 where
  raw : Text → Argument
  quoted : Text → Argument

pub record Query : Type 0 where
  pub all_columns : Bool
  pub function : Text
  pub arguments : List Argument

abbrev pub render_argument : Argument → Text
render_argument (raw t) = t
render_argument (quoted t) = 39 ∷ t ++ 39 ∷ []

abbrev pub render_arguments : List Argument → Text
render_arguments [] = []
render_arguments (a ∷ []) = render_argument a
render_arguments (a ∷ b ∷ rest) = render_argument a ++ 44 ∷ render_arguments (b ∷ rest)

-- "SELECT f(1,'a');", or "SELECT * FROM f('a');"
unfoldable pub render : Query → Text
render q =
    text (if q.all_columns then "SELECT * FROM " else "SELECT ")
    ++ q.function
    ++ 40 ∷ render_arguments q.arguments
    ++ text ");"

-- What the exporter does besides changing its fields.
pub data Effect : Type 0 where
  ran : Text → Effect
  acked : (block_num : ℕ) → Effect
  slowed : Bool → Effect
  armed_timer : (msec : ℕ) → Effect
  cancelled_timer : Effect
  finished_connection : Effect
  aborted : Effect

pub record Pending : Type 0 where
  pub domainjsons : List Json
  pub handlejsons : List Json
  pub burnaddresses : List Text
  pub burnexpiredthisblock : Bool
  pub burnexpiredtrid : ℤ
  pub burnexpiredtimestamp : Text

pub record Relic (D : Type 0) : Type 0 where
  pub db : D
  pub pending : Pending
  pub async_queue : List Json
  pub queue_hwm : ℕ
  pub queue_lwm : ℕ
  pub pause_time_msec : ℕ
  pub msg_report_counter : ℕ
  pub out : List Effect

module _ {D : Type 0} where
  abbrev pub emit : Effect → Relic D → Relic D
  emit e s = record s { out = s.out ++ e ∷ [] }

  abbrev pub change_pending : (Pending → Pending) → Action (Relic D) (Unit {0})
  change_pending f = modify (λ s. record s { pending = f s.pending })

  module _ (sv : Services D) where
    -- `if (PQstatus(conn) != CONNECTION_OK) PQfinish(conn);`
    unfoldable pub finish_if_lost : Relic D → Relic D
    finish_if_lost s =
        if sv.connected s.db then s else emit finished_connection (record s { db = sv.finish s.db })

    abbrev pub checked : Answer → Action (Relic D) Answer
    checked a s = if a.tuples_ok then (ok a, s) else (err sql_failed, finish_if_lost s)

    -- PQexec, the test of its result, and terminalerror.
    unfoldable pub run : Query → Action (Relic D) Answer
    unfolding render finish_if_lost
    run q s =
        let (a, d) = sv.exec (render q) s.db in
        checked a (emit (ran (render q)) (record s { db = d }))

    -- A statement whose result is not read.
    unfoldable pub call : String → List Argument → Action (Relic D) (Unit {0})
    unfolding run
    call function arguments = do
      run (record { all_columns = false; function = text function; arguments = arguments })
      skip

    -- `escapesqlstring`: "" where PQescapeLiteral fails.
    unfoldable pub escape_sql_string : Text → Text
    escape_sql_string t = elim (sv.escape_literal t) [
      | none ↦ []
      | some escaped ↦ if starts_with escaped (text "'") then text " E" ++ escaped else escaped
    ]

    -- `getjsonstring` of a member, with UNKNOWN_STRING and ALLOW_EMPTY_VALUES.
    abbrev pub get : Json → String → Text
    get v key = get_json_string sv.write_json [] (field v key) true

    -- ... with a default and DISALLOW_EMPTY_VALUES.
    abbrev pub get_nonempty : String → Json → String → Text
    get_nonempty default v key = get_json_string sv.write_json (text default) (field v key) false

    -- `getjsonsqlescapedstring` of a member.
    abbrev pub get_escaped : Json → String → Text
    get_escaped v key = escape_sql_string (get v key)

-- What the handler of a transaction trace has read of the block, the transaction and the action.
pub record Context : Type 0 where
  pub bnums : Text
  pub blocktimestamp : Text
  pub trid : Text
  pub status : Text
  pub transaction : ℤ
  pub contractaccount : Text
  pub receiveraccount : Text
  pub actionname : Text
  pub actionaccount : Text
  pub actionordinal : Text
  pub requestdata : Text
  pub actdata : Json
  pub respdoc : Json

module _ {D : Type 0} (sv : Services D) (c : Context) where
  -- The arguments with which most statements start.
  abbrev pub in_transaction : List Argument → List Argument
  in_transaction rest = raw (print_integer c.transaction) ∷ raw c.bnums ∷ rest

  -- "SELECT inshandleactivities(", the same for domains, and "SELECT insaccountactivities(".
  unfoldable pub handle_activity : Text → String → Action (Relic D) (Unit {0})
  unfolding call
  handle_activity handle type =
      call sv "inshandleactivities"
        (in_transaction (quoted handle ∷ quoted (text type) ∷ quoted c.blocktimestamp ∷ []))

  unfoldable pub domain_activity : Text → String → Action (Relic D) (Unit {0})
  unfolding call
  domain_activity domain type =
      call sv "insdomainactivities"
        (in_transaction (quoted domain ∷ quoted (text type) ∷ quoted c.blocktimestamp ∷ []))

  unfoldable pub account_activity : Text → String → Action (Relic D) (Unit {0})
  unfolding call
  account_activity account role =
      call sv "insaccountactivities" (in_transaction (quoted account ∷ quoted (text role) ∷ []))

  unfoldable pub insert_account : Text → Text → String → Action (Relic D) (Unit {0})
  unfolding call
  insert_account account pubkey is_eosio = call sv "insupdaccounts" (
      raw c.bnums
      ∷ quoted account
      ∷ raw pubkey
      ∷ quoted c.blocktimestamp
      ∷ quoted (text is_eosio)
      ∷ [])

  unfoldable pub insert_pub_address : Text → Text → Text → Text → Action (Relic D) (Unit {0})
  unfolding call
  insert_pub_address handle chaincode tokencode address =
      call sv "insupdpubaddresses"
        (raw c.bnums ∷ quoted handle ∷ quoted chaincode ∷ quoted tokencode ∷ raw address ∷ [])

  unfoldable pub delete_nft_signatures : Text → Action (Relic D) (Unit {0})
  unfolding call
  delete_nft_signatures handle = call sv "delnftsignatures" (quoted handle ∷ [])

  -- The key of an account from the database; `none` of PQgetvalue makes a std::string of a null
  -- pointer, which throws.
  unfoldable pub stored_key : Text → Action (Relic D) Text
  unfolding run finish_if_lost
  stored_key account = do
    a ← run sv (record {
      all_columns = true;
      function = text "getaccountpubkeyandid";
      arguments = quoted account ∷ [];
    })
    if ltb 1 a.ntuples then (do modify (finish_if_lost sv); throw sql_failed) else skip
    or_throw (a.value 0 1) sql_failed

  -- The owner that an action names by a key, with the key as an SQL literal: without a key it is
  -- the actor; a key's account is put in first.
  unfoldable pub resolve_owner : Text → Text → Action (Relic D) (Text × Text)
  unfolding stored_key insert_account escape_sql_string
  resolve_owner actor pubkey =
      if same pubkey []
      then (do stored ← stored_key actor; pure (actor, escape_sql_string sv stored))
      else (do
        insert_account (sv.key_to_account pubkey) (escape_sql_string sv pubkey) "false"
        pure (sv.key_to_account pubkey, escape_sql_string sv pubkey))
