-- ===== src/HttpClient/Uploads.antt =====
-- The uploads of src/core/src/MBT_bulk.c over the client of src/port/src/libcurl/portHttpClient.c.
use modbus_things.Base.{
  ℕ, suc, ◌<◌, ◌≡◌, refl, sym, ◌∙◌, true, Option, none, some, List, ◌^◌, length, ok,
}
use modbus_things.Base.Int.{ℤ, pos, neg}
use modbus_things.Base.Text.{Text, codes}
use modbus_things.Attributes.{Db}
use modbus_things.Attributes.Key
use modbus_things.Attributes.Laws.{IsIntStore}
use modbus_things.Bulk.{Bulk, Post, load_int}
use modbus_things.Bulk.Names.{bulk_api}
use modbus_things.Bulk.Uploading.{dat, Uploaded, SameHead}
use modbus_things.Core.BulkService.{scan_fail, check_do_bulk_service}
use modbus_things.Core.Draining.{upload_round}
use modbus_things.HttpClient.{Curl, max_write_size, post_file}
use modbus_things.HttpClient.Answers.{joined}
use modbus_things.HttpClient.Provisioning.{received-joined}

-- `service_bulk_post`: the field of the form is BULK_SERVICE_FORM_STR.
abbrev pub service_bulk_post : Curl → Text → Text → Option ℤ
service_bulk_post curl server_uri filename =
    post_file curl true server_uri filename (codes "filed1")

post_file_lem :
    (curl : Curl) (uri name form : Text) (rc code : ℕ) (chunks : List Text)
    → curl.easy_init ≡ true
    → curl.perform (record { url = uri; header = none; post = none; form = some (form, name) })
      ≡ (rc, code, chunks)
    → length (joined chunks) < max_write_size
    → post_file curl true uri name form ≡ some (pos rc)
unfolding post_file
post_file_lem curl uri name form rc code chunks i p h = rw (i, p, received-joined chunks h) refl

-- Over libcurl a file that the server refuses counts as uploaded. The store keeps an `int` under each key
-- in range, as that of EasyFlash does. Where the transfer itself ends with 0 and the answer fits in its
-- buffer, a call of check_do_bulk_service after a failed scan gives the file at the tail its second name
-- and moves the tail one further, whatever the code of the response. (`post` is what the posts of
-- the client return.)
pub refused_upload :
    {D : Type 0} (db : Db D) (post : Post) (curl : Curl) (s : Bulk D) (k code : ℕ) (api c : Text)
    (chunks : List Text)
    → IsIntStore db
    → load_int db Key.bulk_file_tail_index s ≡ some (pos k)
    → suc k < 2 ^ 31
    → bulk_api s.dev_token ≡ some api
    → s.disk.files (dat k) ≡ some c
    → service_bulk_post curl api (dat k) ≡ some (post api (dat k))
    → curl.easy_init ≡ true
    → curl.perform
        (record { url = api; header = none; post = none; form = some (codes "filed1", dat k) })
      ≡ (0, code, chunks)
    → length (joined chunks) < max_write_size
    → (s' : Bulk D) × (check_do_bulk_service db post true scan_fail s ≡ ok (neg 1) s')
      × (load_int db Key.bulk_file_tail_index s' ≡ some (pos (suc k)))
      × Uploaded k s s'
      × SameHead s s'
refused_upload db post curl s k code api c chunks laws tail small named file posts i p h =
    let taken : some (post api (dat k)) ≡ some (pos 0) =
      sym posts ∙ post_file_lem curl api (dat k) (codes "filed1") 0 code chunks i p h in
    upload_round db post s k api tail small named laws c file cc
