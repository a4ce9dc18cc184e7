-- ===== src/Exporter/Tests/Decoder.antt =====
-- The theorem on the decoder and the exporter to the relic database at a concrete input, and the
-- report of an error.
use fio_chronicle.Prelude.{◌≡◌, ◌⊎◌, ◌++◌, refl, true, [], ◌∷◌, none, some, arith}
use fio_chronicle.Exporter.Text.{text}
use fio_chronicle.Exporter.Json.{
  Json, null, string, object, array, no_members, member, no_elements, element,
}
use fio_chronicle.Exporter.Relic.{Services}
use fio_chronicle.Exporter.Relic.Acks.{if_returned}
use fio_chronicle.Exporter.Ws.Messages.{tbl_row, encoder_err, block}
use fio_chronicle.Exporter.Decoder.{
  Printers, Native, struct, with_field, end_of_struct, contract_row, json_of, publish,
}
use fio_chronicle.Exporter.Decoder.Relic.{document_of, on_document-json_of}
use fio_chronicle.Exporter.Relic.Quiet.{acks}
use fio_chronicle.Exporter.Relic.Blocks.{on_document}
use fio_chronicle.Exporter.Tests.Relic.{relic}
use fio_chronicle.Prelude.Action.{ok}
use fio_chronicle.Receiver.State.{BlockFinished}
use fio_chronicle.Receiver.Samples.{header}

abbrev printers : Printers
printers = record {
  name_to_string = λ n. text "eosio";
  microseconds_to_str = λ t. text "2024-01-01T00:00:00.000";
  key_to_string = λ k. text "K";
  to_hex = λ bs. text "00";
  decode_action = λ a n bs. none;
  decode_row = λ c t bs. none;
  get_error = text "Unknown type";
}

abbrev services : Services (Unit {0})
services = record {
  exec = λ q d. (record { tuples_ok = true; ntuples = 0; value = λ r c. none }, d);
  connected = λ d. true;
  finish = λ d. d;
  escape_literal = λ t. some t;
  write_json = λ j. [];
  parse_json = λ t. null;
  key_to_account = λ k. [];
}

abbrev finished : BlockFinished
finished = record {
  block_num = 8;
  block_id = 80;
  header = header;
  trx_count = 1;
  last_irreversible = 5;
}

abbrev undecoded_row : Native
undecoded_row = struct (with_field (text "kvo") (contract_row 1 2 3 4 5 (0 ∷ [])) end_of_struct)

row_reported :
    publish printers tbl_row ((text "where", text "table_row_update") ∷ []) undecoded_row
    ≡ (tbl_row, json_of printers undecoded_row)
      ∷ (
        encoder_err,
        object (
            member (text "where") (string (text "table_row_update")) (
              member
                (text "errors")
                (array (
                  element
                    (string (text "Cannot decode table row for eosio: eosio - Unknown type"))
                    no_elements))
                no_members)),
      )
      ∷ []
unfolding publish
row_reported = refl

block_not_reported :
    publish printers block [] undecoded_row ≡ (block, json_of printers undecoded_row) ∷ []
unfolding publish
block_not_reported = refl

abbrev eighth : Json
eighth = document_of services printers (λ n. n ∷ []) finished

on_document-json_of_example :
    (acks (on_document services eighth (relic [])).1.out
      ≡ acks (relic []).out ++ if_returned (on_document services eighth (relic [])).0 (7 ∷ []))
    × (((on_document services eighth (relic [])).0 ≡ ok tt)
        ⊎ ((relic []).pending.burnexpiredthisblock ≡ true))
on_document-json_of_example =
    on_document-json_of services printers (λ n. n ∷ []) finished (relic []) (omega arith)
