-- ===== src/Exporter/Relic/Ends.antt =====
-- What the end of a block does with the deleted handles (chronicle-receiver/exp_relic_plugin.cpp,
-- async_send_events).
use fio_chronicle.Prelude.{◌≡◌, refl, if◌then◌else◌, Bool-cases, inl, inr}
use fio_chronicle.Prelude.Action.{skip, ◌>>=◌}
use fio_chronicle.Exporter.Text.{Text, same}
use fio_chronicle.Exporter.Json.{Json, field, elements}
use fio_chronicle.Exporter.Relic.{Services, Relic, get}
use fio_chronicle.Exporter.Relic.Queue.{event_document}
use fio_chronicle.Exporter.Relic.Blocks.{
  burn_handle, has_addresses, update_burnt_handle, contains_same, row_value,
}

module _ {D : Type 0} (sv : Services D) where
  -- When a block ends, a deleted handle of the block that no action has burnt is marked as burnt
  -- whatever addresses its row has: none of them is looked for in the database.
  pub burn_handle-ignores_addresses :
      (bnums : Text) (event row : Json) (s : Relic D)
      → burn_handle sv bnums (event_document "BLOCK_COMPLETED" event) row s
        ≡ (if contains_same s.pending.burnaddresses (get sv (row_value row) "name")
              then skip
              else if same bnums (get sv row "block_num")
              then update_burnt_handle sv bnums (get sv (row_value row) "name")
              else skip)
            s
  unfolding burn_handle skip has_addresses field elements ◌>>=◌
  burn_handle-ignores_addresses bnums event row s =
      elim (Bool-cases (contains_same s.pending.burnaddresses (get sv (row_value row) "name"))) [
        | inl burnt ↦ rw burnt refl
        | inr other ↦ elim (Bool-cases (same bnums (get sv row "block_num"))) [
          | inl this_block ↦ rw (other, this_block) refl
          | inr earlier ↦ rw (other, earlier) refl
        ]
      ]
