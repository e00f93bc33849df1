-- ===== src/Server/Requests.antt =====
-- What the requests of src/port/src/ThingsBoard/portServer.c send, and what their answers give.
use modbus_things.Base.{◌≤◌, ◌<◌, ◌≡◌, some, ◌++◌, arith, if◌then◌else◌, length, length-append, ◌⊎◌}
use modbus_things.Base.Int.{pos}
use modbus_things.Base.Text.{Text, codes, text_eq}
use modbus_things.Scan.{Cjson}
use modbus_things.Server.{
  Http, Reply, answered, provision_uri, device_name, provision_request, parse_token,
  service_dev_provision, failed,
}

-- The data of the request for a name of at most 63 bytes fit in the buffer.
pub length-provision_request :
    (name : Text) → length name < 64 → length (provision_request name) < 256
unfolding provision_request
length-provision_request name h = omega (
  arith,
  length-append {0} name (
      codes "\",\"provisionDeviceKey\": \"nvjmil2xbub4w3jui3mj\","
      ++ codes "\"provisionDeviceSecret\": \"zs78vd565a6jjzzgt2y4\"}"),
)

module _ {J : Type 0} (json : Cjson J) (show_length : Text → Text) {H : Type 0}
    (http : Http H) where
  -- What service_dev_provision posts.
  abbrev pub posted : Text → Text → Reply
  posted server devid =
      http.request (provision_uri server)
        (http.add_header
          (http.add_header http.no_header (show_length (provision_request (device_name devid))))
          (codes "Content-Type: application/json\r\n"))
        (some (provision_request (device_name devid)))

  -- service_dev_provision, where the address and the name fit in their buffers, posts one request,
  -- whose data stay inside their buffer. It fails with -1 if the client does, and otherwise gives
  -- what parse_token makes of the answer.
  pub service_dev_provision_posts :
      (server devid : Text)
      → length (provision_uri server) < 128
      → length (device_name devid) < 64
      → service_dev_provision json show_length http server devid
        ≡ answered json (posted server devid)
  unfolding service_dev_provision
  service_dev_provision_posts server devid u n =
      ground (arith, length-provision_request (device_name devid) n)

  -- Where one of them does not fit, it fails with -1 whatever the client would answer.
  pub service_dev_provision_long :
      (server devid : Text)
      → (128 ≤ length (provision_uri server)) ⊎ (64 ≤ length (device_name devid))
      → service_dev_provision json show_length http server devid ≡ failed
  unfolding service_dev_provision
  service_dev_provision_long server devid h = ground arith

  -- parse_token gives the token of an answer whose status is SUCCESS, and fails with -1 on an answer
  -- of another status.
  pub parse_token_lem :
      (rsp token status : Text) (root s c : J)
      → json.parse rsp ≡ some root
      → json.get_object_item root (codes "status") ≡ some s
      → json.valuestring s ≡ some status
      → json.get_object_item root (codes "credentialsValue") ≡ some c
      → json.valuestring c ≡ some token
      → parse_token json (some rsp)
        ≡ (if text_eq status (codes "SUCCESS") then some (pos 0, some token) else failed)
  unfolding parse_token
  parse_token_lem rsp token status root s c p g v h w = ground arith
