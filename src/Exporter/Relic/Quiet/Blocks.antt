-- ===== src/Exporter/Relic/Quiet/Blocks.antt =====
-- The ends of blocks, blocks and rows of tables leave the acknowledgements, the queue and its pauses
-- alone until a block is acknowledged.
use Prim.Native.String.{String}
use fio_chronicle.Prelude.{false, List, [], ◌∷◌, if◌then◌else◌}
use fio_chronicle.Prelude.Action.{pure}
use fio_chronicle.Prelude.Keeps.{Keeps-bind, Keeps-if, Keeps-pure}
use fio_chronicle.Exporter.Text.{Text}
use fio_chronicle.Exporter.Json.{Json}
use fio_chronicle.Exporter.Relic.{Services, Argument}
use fio_chronicle.Exporter.Relic.Quiet.{View, Quiet, quiet_rules}
use fio_chronicle.Exporter.Relic.Blocks.{
  number_of, burn_activity, burn_domain, has_address, has_addresses, update_burnt_handle,
  burn_handle, burn_rows, on_block, on_table_row,
}

module _ {D : Type 0} (sv : Services D) (v : View) where
  Quiet-number_of :
      (function : String) (arguments : List Argument) → Quiet v (number_of sv function arguments)
  unfolding number_of
  Quiet-number_of function arguments = search quiet_rules depth 9

  Quiet-burn_activity :
      (function : String) (bnums name : Text) → Quiet v (burn_activity sv function bnums name)
  unfolding burn_activity
  Quiet-burn_activity function bnums name = search quiet_rules depth 9

  Quiet-burn_domain : (bnums : Text) (row : Json) → Quiet v (burn_domain sv bnums row)
  unfolding burn_domain
  Quiet-burn_domain bnums row = search (quiet_rules, Quiet-number_of, Quiet-burn_activity) depth 12

  Quiet-has_address : (handle : Text) (w : Json) → Quiet v (has_address sv handle w)
  unfolding has_address
  Quiet-has_address handle w = search (quiet_rules, Quiet-number_of) depth 9

  Quiet-has_addresses : (handle : Text) (vs : List Json) → Quiet v (has_addresses sv handle vs)
  unfolding has_addresses
  Quiet-has_addresses handle [] = search quiet_rules
  Quiet-has_addresses handle (w ∷ ws) =
      Keeps-bind (λ here. if here then has_addresses sv handle ws else pure false)
        (has_address sv handle w) (Quiet-has_address handle w)
        (λ here.
          Keeps-if here (has_addresses sv handle ws) (pure false) (Quiet-has_addresses handle ws)
            (Keeps-pure false))

  Quiet-update_burnt_handle : (bnums handle : Text) → Quiet v (update_burnt_handle sv bnums handle)
  unfolding update_burnt_handle
  Quiet-update_burnt_handle bnums handle =
      search (quiet_rules, Quiet-number_of, Quiet-burn_activity) depth 12

  Quiet-burn_handle :
      (bnums : Text) (document row : Json) → Quiet v (burn_handle sv bnums document row)
  unfolding burn_handle
  Quiet-burn_handle bnums document row =
      search (quiet_rules, Quiet-has_addresses, Quiet-update_burnt_handle) depth 12

  pub Quiet-burn_rows : (bnums : Text) (document : Json) → Quiet v (burn_rows sv bnums document)
  unfolding burn_rows
  Quiet-burn_rows bnums document =
      search (quiet_rules, Quiet-burn_domain, Quiet-burn_handle) depth 12

  pub Quiet-on_block : (bnums : Text) (event : Json) → Quiet v (on_block sv bnums event)
  unfolding on_block
  Quiet-on_block bnums event = search quiet_rules

  pub Quiet-on_table_row : (event : Json) → Quiet v (on_table_row sv event)
  unfolding on_table_row
  Quiet-on_table_row event = search quiet_rules depth 9
