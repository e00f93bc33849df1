-- ===== src/HttpClient/Provisioning.antt =====
-- service_dev_provision of src/port/src/ThingsBoard/portServer.c over the client of
-- src/port/src/libcurl/portHttpClient.c.
use modbus_things.Base.{
  ℕ, ◌<◌, ◌≡◌, refl, ◌∙◌, true, Option, none, some, List, [], arith, ◌==◌, if◌then◌else◌, length,
}
use modbus_things.Base.Int.{pos, neg}
use modbus_things.Base.Text.{Text}
use modbus_things.Scan.{Cjson}
use modbus_things.Server.{
  failed, answered, provision_uri, device_name, provision_request, parse_token,
  service_dev_provision,
}
use modbus_things.Server.Requests.{service_dev_provision_posts}
use modbus_things.HttpClient.{Curl, Header, max_write_size, received, request, client}
use modbus_things.HttpClient.Answers.{joined, received_lem}

pub received-joined :
    (chunks : List Text)
    → length (joined chunks) < max_write_size
    → received [] chunks ≡ some (joined chunks)
received-joined chunks h = received_lem [] chunks (omega arith) ∙ ground arith

-- A request whose answer fits in the buffer.
request_lem :
    (curl : Curl) (uri : Text) (header : Header) (post : Option Text) (rc code : ℕ)
    (chunks : List Text)
    → curl.easy_init ≡ true
    → curl.perform (record { url = uri; header = header; post = post; form = none })
      ≡ (rc, code, chunks)
    → length (joined chunks) < max_write_size
    → request curl true uri header post
      ≡ (if code == 200 then some (pos rc, some (joined chunks)) else some (neg 1, none))
unfolding request
request_lem curl uri header post rc code chunks i p h = rw (i, p, received-joined chunks h) refl

-- Over libcurl the request for a token is sent without a header, neither of the two that are added,
-- since the list of headers is not stored. Where the answer fits in the buffer, service_dev_provision
-- gives what parse_token makes of its bytes if the response has the code 200, whatever the code of
-- the transfer, and fails with -1 otherwise.
pub provisioning_lem :
    {J : Type 0} (json : Cjson J) (show_length : Text → Text) (curl : Curl) (server devid : Text)
    (rc code : ℕ) (chunks : List Text)
    → length (provision_uri server) < 128
    → length (device_name devid) < 64
    → curl.easy_init ≡ true
    → curl.perform (record {
      url = provision_uri server;
      header = none;
      post = some (provision_request (device_name devid));
      form = none;
    })
      ≡ (rc, code, chunks)
    → length (joined chunks) < max_write_size
    → service_dev_provision json show_length (client curl true) server devid
      ≡ (if code == 200 then parse_token json (some (joined chunks)) else failed)
unfolding answered
provisioning_lem json show_length curl server devid rc code chunks u n i p h =
    service_dev_provision_posts json show_length (client curl true) server devid u n
    ∙ rw
        (request_lem curl (provision_uri server) none (some (provision_request (device_name devid)))
          rc code chunks i p h)
        (ground arith)
