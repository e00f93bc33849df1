-- ===== src/HttpClient/Tests.antt =====
-- Runs over the client of src/port/src/libcurl/portHttpClient.c, with a server that answers 404.
use modbus_things.Base.{
  ◌+◌, ◌≡◌, refl, true, none, some, List, [], ◌∷◌, ◌++◌, arith, leb, ◌==◌, if◌then◌else◌, length,
  ok,
}
use modbus_things.Base.Int.{pos, neg}
use modbus_things.Base.Text.{Text, codes, text_eq, before_nul}
use modbus_things.Base.Decimal.{digits_from, digits, print_int}
use modbus_things.Attributes.Key
use modbus_things.Attributes.Tests.{Memory, memory, memory-IsIntStore}
use modbus_things.Bulk.{Bulk, load_int}
use modbus_things.Bulk.Tests.{spool, accepts, api, spool-api}
use modbus_things.Bulk.Uploading.{Uploaded, SameHead}
use modbus_things.Core.BulkService.{scan_fail, check_do_bulk_service}
use modbus_things.Server.{failed, parse_token, service_dev_provision}
use modbus_things.Server.Tests.{json, show_length}
use modbus_things.HttpClient.{Curl, max_write_size, string_body_write, received, post_file, client}
use modbus_things.HttpClient.Answers.{joined, received_lem}
use modbus_things.HttpClient.Provisioning.{provisioning_lem}
use modbus_things.HttpClient.Uploads.{refused_upload}

abbrev chunks : List Text
chunks = codes "not " ∷ codes "found" ∷ []

abbrev curl : Curl
curl = record {
  easy_init = true;
  slist_append = λ lines line. lines ++ (line ∷ []);
  perform = λ t. (0, 404, chunks);
}

received_lem_example : received (codes "x") chunks ≡ (
    if leb (1 + length (joined chunks) + 1) max_write_size
    then some (codes "x" ++ joined chunks)
    else none)
received_lem_example = received_lem (codes "x") chunks (omega arith)

provisioning_lem_example :
    service_dev_provision json show_length (client curl true) (codes "server") (codes "id")
    ≡ (if 404 == 200 then parse_token json (some (joined chunks)) else failed)
unfolding before_nul
provisioning_lem_example =
    provisioning_lem json show_length curl (codes "server") (codes "id") 0 404 chunks (omega arith)
      (omega arith) refl refl (omega arith)

refused_upload_example :
    (s' : Bulk Memory) × (check_do_bulk_service memory accepts true scan_fail (spool 9)
      ≡ ok (neg 1) s')
    × (load_int memory Key.bulk_file_tail_index s' ≡ some (pos 4))
    × Uploaded 3 (spool 9) s'
    × SameHead (spool 9) s'
unfolding before_nul text_eq print_int digits digits_from post_file received string_body_write
refused_upload_example =
    refused_upload memory accepts curl (spool 9) 3 404 api (codes "{3}") chunks memory-IsIntStore
      refl (omega arith) (spool-api 9) refl refl refl refl (omega arith)
