-- ===== src/Exporter/Relic/Blocks.antt =====
-- The messages of the exporter to the relic database (chronicle-receiver/exp_relic_plugin.cpp,
-- async_send_events from the parsed document on): the end of a block, blocks, rows of tables and
-- forks.
use Prim.Native.String.{String}
use fio_chronicle.Prelude.{
  ℕ, ◌-◌, ◌%◌, Bool, true, false, not, ◌&&◌, ◌||◌, List, [], ◌∷◌, ◌++◌, if◌then◌else◌, ◌==◌, sub32,
  u32_mod,
}
use fio_chronicle.Prelude.Action.{
  Action, pure, gets, or_throw, modify, skip, ◌>>=◌, ◌>>◌, for_each, bad_number,
}
use fio_chronicle.Exporter.Text.{Text, text, same, is}
use fio_chronicle.Exporter.Text.Numbers.{ℤ, pos, negsuc, atoi, stoul, print_number, u64_mod}
use fio_chronicle.Exporter.Json.{Json, field, elements, is_object, is_string}
use fio_chronicle.Exporter.Relic.{
  Services, Relic, Pending, Argument, raw, quoted, run, call, get, get_nonempty, acked, emit,
  change_pending,
}
use fio_chronicle.Exporter.Relic.Actions.{number_or, is_zero, on_trace}

-- `burnexpiredtrid`, an int64_t that is kept as a uint64_t.
abbrev pub print_unsigned : ℤ → Text
print_unsigned (pos n) = print_number n
print_unsigned (negsuc n) = print_number (u64_mod - 1 - n)

abbrev pub is_one : ℤ → Bool
is_one (pos n) = n == 1
is_one (negsuc n) = false

abbrev pub contains_same : List Text → Text → Bool
contains_same [] t = false
contains_same (u ∷ us) t = same u t || contains_same us t

-- The row of a table as it is published: "kvo", "value".
abbrev pub row_value : Json → Json
row_value row = field (field row "kvo") "value"

abbrev nothing_pending : Pending → Pending
nothing_pending p = record {
  domainjsons = [];
  handlejsons = [];
  burnaddresses = [];
  burnexpiredthisblock = false;
  burnexpiredtrid = pos 0;
  burnexpiredtimestamp = [];
}

-- The members that a message must have.
abbrev pub is_event : Json → Bool
is_event document =
    is_string (field document "msgtype")
    && is_object (field document "data")
    && is_string (field (field document "data") "block_num")

module _ {D : Type 0} (sv : Services D) where
  -- A statement that answers with a number; without one it is 0.
  unfoldable pub number_of : String → List Argument → Action (Relic D) ℤ
  unfolding run atoi
  number_of function arguments = do
    a ← run sv (record { all_columns = false; function = text function; arguments = arguments })
    pure (number_or (pos 0) (a.value 0 0))

  -- "auto_burn"
  unfoldable pub burn_activity : String → Text → Text → Action (Relic D) (Unit {0})
  unfolding call
  burn_activity function bnums name = do
    p ← gets (λ s. s.pending)
    call sv function (
        raw (print_unsigned p.burnexpiredtrid)
        ∷ raw bnums
        ∷ quoted name
        ∷ quoted (text "auto_burn")
        ∷ quoted p.burnexpiredtimestamp
        ∷ [])

  unfoldable pub burn_domain : Text → Json → Action (Relic D) (Unit {0})
  unfolding number_of burn_activity
  burn_domain bnums row =
      if same bnums (get sv row "block_num")
      then (do
        burnt ← number_of "upddomainburnt" (quoted domname ∷ [])
        if is_one burnt then burn_activity "insdomainactivities" bnums domname else skip)
      else skip
    where
      domname : Text
      domname = get sv (row_value row) "name"

  -- Whether the database has an address; what is no object is passed over.
  unfoldable pub has_address : Text → Json → Action (Relic D) Bool
  unfolding number_of
  has_address handle v =
      if is_object v
      then (do
        found ← number_of "existspubaddress" (
            quoted handle
            ∷ quoted (get_nonempty sv "" v "chain_code")
            ∷ quoted (get_nonempty sv "" v "token_code")
            ∷ quoted (get_nonempty sv "" v "public_address")
            ∷ [])
        pure (not (is_zero found)))
      else pure true

  -- ... all of them; it stops at the first that is missing.
  unfoldable pub has_addresses : Text → List Json → Action (Relic D) Bool
  unfolding has_address
  has_addresses handle [] = pure true
  has_addresses handle (v ∷ vs) = do
    here ← has_address handle v
    if here then has_addresses handle vs else pure false

  unfoldable pub update_burnt_handle : Text → Text → Action (Relic D) (Unit {0})
  unfolding number_of burn_activity
  update_burnt_handle bnums handle = do
    burnt ← number_of "updhandleburnt" (raw bnums ∷ quoted handle ∷ [])
    if is_one burnt then burn_activity "inshandleactivities" bnums handle else skip

  -- The addresses are looked for in the message that ends the block, not in the row.
  unfoldable pub burn_handle : Text → Json → Json → Action (Relic D) (Unit {0})
  unfolding has_addresses update_burnt_handle
  burn_handle bnums document row = do
    p ← gets (λ s. s.pending)
    if contains_same p.burnaddresses handle
        then skip
        else if same bnums (get sv row "block_num")
        then (do
          burnt ← has_addresses handle (elements (field (row_value document) "addresses"))
          if burnt then update_burnt_handle bnums handle else skip)
        else skip
    where
      handle : Text
      handle = get sv (row_value row) "name"

  -- The rows that the block has deleted, if one of its actions was "burnexpired".
  unfoldable pub burn_rows : Text → Json → Action (Relic D) (Unit {0})
  unfolding burn_domain burn_handle
  burn_rows bnums document = do
    p ← gets (λ s. s.pending)
    if p.burnexpiredthisblock
        then (do
          for_each (burn_domain bnums) p.domainjsons
          for_each (burn_handle bnums document) p.handlejsons)
        else skip

  -- `ack_block(bnum-1)`
  unfoldable pub acknowledge_previous : ℕ → Action (Relic D) (Unit {0})
  acknowledge_previous bnum = modify (emit (acked (sub32 bnum 1)))

  -- "BLOCK_COMPLETED"
  unfoldable pub on_block_completed : Text → ℕ → Json → Action (Relic D) (Unit {0})
  unfolding burn_rows acknowledge_previous
  on_block_completed bnums bnum document = do
    burn_rows bnums document
    change_pending nothing_pending
    acknowledge_previous bnum

  -- "BLOCK"
  unfoldable pub on_block : Text → Json → Action (Relic D) (Unit {0})
  unfolding call
  on_block bnums event = call sv "insblocks" (
      raw bnums
      ∷ quoted (get_nonempty sv "" (field event "block") "timestamp")
      ∷ quoted (get_nonempty sv "" event "block_id")
      ∷ quoted (get_nonempty sv "" (field event "block") "producer")
      ∷ quoted (get_nonempty sv "" (field event "block") "schedule_version")
      ∷ [])

  -- "TBL_ROW": rows that were deleted are kept until the end of the block.
  unfoldable pub on_table_row : Json → Action (Relic D) (Unit {0})
  on_table_row event =
      if is (get_nonempty sv "" event "added") "false" && is table "domains"
      then change_pending (λ p. record p { domainjsons = p.domainjsons ++ event ∷ [] })
      else if is (get_nonempty sv "" event "added") "false" && is table "fiohandles"
      then change_pending (λ p. record p { handlejsons = p.handlejsons ++ event ∷ [] })
      else skip
    where
      table : Text
      table = get_nonempty sv "" (field event "kvo") "table"

  -- "FORK"
  unfoldable pub on_fork : Text → ℕ → Action (Relic D) (Unit {0})
  unfolding call acknowledge_previous
  on_fork bnums bnum = do call sv "rbfork" (raw bnums ∷ []); acknowledge_previous bnum

  unfoldable pub dispatch : Text → Text → ℕ → Json → Action (Relic D) (Unit {0})
  unfolding on_block_completed on_block on_trace on_table_row on_fork
  dispatch msgtype bnums bnum document =
      if is msgtype "BLOCK_COMPLETED"
      then on_block_completed bnums bnum document
      else if is msgtype "BLOCK"
      then on_block bnums (field document "data")
      else if is msgtype "TX_TRACE"
      then on_trace sv bnums (field document "data")
      else if is msgtype "TBL_ROW"
      then on_table_row (field document "data")
      else if is msgtype "FORK"
      then on_fork bnums bnum
      else skip

  -- What one message does. Other documents are passed over.
  unfoldable pub on_document : Json → Action (Relic D) (Unit {0})
  unfolding dispatch stoul
  on_document document =
      if is_event document
      then (do
        n ← or_throw (stoul bnums) bad_number
        dispatch (get sv document "msgtype") bnums (n % u32_mod) document)
      else skip
    where
      bnums : Text
      bnums = get sv (field document "data") "block_num"
