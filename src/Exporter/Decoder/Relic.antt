-- ===== src/Exporter/Decoder/Relic.antt =====
-- The end of a block from the receiver through the decoder to the relic exporter
-- (chronicle-receiver/decoder_plugin.cpp: on_block_completed; chronicle-receiver/
-- exp_relic_plugin.cpp: async_send_events).
use fio_chronicle.Prelude.{
  ℕ, ◌<◌, ◌≡◌, refl, ap, ◌∙◌, [], ◌∷◌, ◌++◌, some, true, false, arith, sub32, u32_mod, ◌⊎◌, inl,
  inr, Bool-cases,
}
use fio_chronicle.Prelude.Action.{ok, ◌>>=◌}
use fio_chronicle.Exporter.Text.{Text, text}
use fio_chronicle.Exporter.Text.Numbers.{
  pos, print_integer, stoul, stoul-print_number, print_number,
}
use fio_chronicle.Exporter.Json.{Json, field, get_json_string}
use fio_chronicle.Exporter.Relic.{Services, Relic}
use fio_chronicle.Exporter.Relic.Quiet.{acks}
use fio_chronicle.Exporter.Relic.Blocks.{
  on_document, dispatch, on_block_completed, burn_rows, acknowledge_previous,
}
use fio_chronicle.Exporter.Relic.Queue.{event_document}
use fio_chronicle.Exporter.Relic.Acks.{acknowledgement, previous_of, if_returned, on_document-Acks}
use fio_chronicle.Exporter.Decoder.{
  Printers, Native, struct, with_field, end_of_struct, integer, bytes, microseconds, name_value,
  json_of,
}
use fio_chronicle.Receiver.State.{BlockFinished}

-- `block_finished`, in the order of its reflection, with the bytes of the checksums that the numbers
-- stand for.
abbrev pub native_of : (checksum_bytes : ℕ → Text) → BlockFinished → Native
native_of checksum_bytes b = struct (
    with_field (text "block_num") (integer (pos b.block_num)) (
      with_field (text "block_id") (bytes (checksum_bytes b.block_id)) (
        with_field (text "block_timestamp") (microseconds b.header.timestamp) (
          with_field (text "producer") (name_value b.header.producer) (
            with_field (text "previous") (bytes (checksum_bytes b.header.previous)) (
              with_field (text "transaction_mroot")
                (bytes (checksum_bytes b.header.transaction_mroot))
                (with_field (text "action_mroot") (bytes (checksum_bytes b.header.action_mroot)) (
                  with_field (text "trx_count") (integer (pos b.trx_count)) (
                    with_field (text "last_irreversible") (integer (pos b.last_irreversible))
                      end_of_struct)))))))))

module _ {D : Type 0} (sv : Services D) (pr : Printers) (checksum_bytes : ℕ → Text) where
  -- The document of this event.
  abbrev pub document_of : BlockFinished → Json
  document_of b = event_document "BLOCK_COMPLETED" (json_of pr (native_of checksum_bytes b))

  read_back :
      (b : BlockFinished)
      → b.block_num < u32_mod
      → stoul (print_number b.block_num) ≡ some b.block_num
  read_back b fits = stoul-print_number b.block_num (omega arith)

  acknowledgement-json_of :
      (b : BlockFinished)
      → b.block_num < u32_mod
      → acknowledgement sv (document_of b) ≡ sub32 b.block_num 1 ∷ []
  unfolding acknowledgement json_of field get_json_string print_integer
  acknowledgement-json_of b fits =
      ap previous_of (read_back b fits) ∙ ap (λ n. sub32 n 1 ∷ []) (omega arith)

  returns-unburnt :
      (b : BlockFinished) (s : Relic D)
      → b.block_num < u32_mod
      → s.pending.burnexpiredthisblock ≡ false
      → (on_document sv (document_of b) s).0 ≡ ok tt
  unfolding on_document dispatch on_block_completed burn_rows acknowledge_previous json_of field
      get_json_string print_integer ◌>>=◌
  returns-unburnt b s fits off = rw (read_back b fits) (rw off refl)

  -- The event that ends a block, as the decoder writes it, is read by the relic exporter, which
  -- acknowledges the block before, and no other, when its handler returns, and none when it throws;
  -- and it returns unless an action of the block was `burnexpired`.
  pub on_document-json_of :
      (b : BlockFinished) (s : Relic D)
      → b.block_num < u32_mod
      → (acks (on_document sv (document_of b) s).1.out
          ≡ acks s.out
            ++ if_returned (on_document sv (document_of b) s).0 (sub32 b.block_num 1 ∷ []))
        × (((on_document sv (document_of b) s).0 ≡ ok tt) ⊎ (s.pending.burnexpiredthisblock ≡ true))
  on_document-json_of b s fits = (
    ap (λ v. v.acknowledged) ((on_document-Acks sv (document_of b)).at s)
        ∙ ap (λ ns. acks s.out ++ if_returned (on_document sv (document_of b) s).0 ns)
            (acknowledgement-json_of b fits),
    elim (Bool-cases s.pending.burnexpiredthisblock) [
      | inl on ↦ inr on
      | inr off ↦ inl (returns-unburnt b s fits off)
    ],
  )
