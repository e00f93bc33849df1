-- ===== src/Server.antt =====
-- src/port/src/ThingsBoard/portServer.c: the requests to the server. The HTTP client
-- (src/port/inc/MBT_portHttpClient.h) and cJSON are parameters. `none` is undefined behaviour.
pub mod Requests
pub mod Tests
use modbus_things.Base.{
  ℕ, ◌<◌, Bool, true, false, Option, none, some, List, ◌++◌, leb, if◌then◌else◌, length,
}
use modbus_things.Base.Int.{ℤ, pos, neg, is_neg}
use modbus_things.Base.Text.{Text, codes, text_eq}
use modbus_things.Scan.{Cjson}

-- what a call gives: a code, and the text if it wrote one
abbrev pub Reply : Type 0
Reply = Option (ℤ × Option Text)

-- What the port uses of the client: NULL for the headers, the headers after one more line, and the
-- code and the answer of a request with headers and data.
pub record Http (H : Type 0) : Type 0 where
  pub no_header : H
  pub add_header : H → Text → H
  pub request : Text → H → Option Text → Reply

abbrev pub failed : Reply
failed = some (neg 1, none)

-- the URI of the provisioning, "%s:%d%s"
abbrev pub provision_uri : Text → Text
provision_uri server = server ++ (codes ":8080" ++ codes "/api/v1/provision")

-- "%s_%s"
abbrev pub device_name : Text → Text
device_name devid = codes "trans_" ++ devid

-- GENE_PROVISION_REQUEST
unfoldable pub provision_request : Text → Text
provision_request name =
    codes "{\"deviceName\": \""
    ++ (name
        ++ (codes "\",\"provisionDeviceKey\": \"nvjmil2xbub4w3jui3mj\","
            ++ codes "\"provisionDeviceSecret\": \"zs78vd565a6jjzzgt2y4\"}"))

-- the request to the server, into a buffer of 256 bytes
abbrev pub ask_provision : {H : Type 0} → (Text → Text) → Http H → Text → Text → Reply
ask_provision show_length http uri name =
    let body = provision_request name in
    let header =
      http.add_header (http.add_header http.no_header (show_length body))
        (codes "Content-Type: application/json\r\n") in
    if leb 256 (length body) then none else http.request uri header (some body)

module _ {J : Type 0} (json : Cjson J) where
  -- `cJSON_Parse` of what may be NULL
  abbrev pub parse : Option Text → Option J
  parse none = none
  parse (some t) = json.parse t

  -- a text that is copied; `m_strdup` of NULL is undefined
  abbrev pub copy : Option Text → Reply
  copy none = none
  copy (some t) = some (pos 0, some t)

  -- the token of an answer with the status SUCCESS
  abbrev pub credentials : J → Reply
  credentials root = elim (json.get_object_item root (codes "credentialsValue")) [
    | none ↦ failed
    | some toke ↦ copy (json.valuestring toke)
  ]

  -- `parse_token`
  unfoldable pub parse_token : Option Text → Reply
  parse_token rsp = elim (parse rsp) [
    | none ↦ failed
    | some root ↦ elim (json.get_object_item root (codes "status")) [
      | none ↦ failed
      | some status ↦ elim (json.valuestring status) [
        | none ↦ none
        | some t ↦ if text_eq t (codes "SUCCESS") then credentials root else failed
      ]
    ]
  ]

  -- what the answer to the request leads to
  unfoldable pub answered : Reply → Reply
  answered none = none
  answered (some (rc, rsp)) = if is_neg rc then failed else parse_token rsp

  -- `service_dev_provision`; `show_length` prints the header with the length of the data.
  unfoldable pub service_dev_provision : {H : Type 0} → (Text → Text) → Http H → Text → Text → Reply
  service_dev_provision show_length http server devid =
      if leb 128 (length (provision_uri server))
      then failed
      else (if leb 64 (length (device_name devid))
          then failed
          else answered (ask_provision show_length http (provision_uri server) (device_name devid)))

-- the URI of an attribute, "%s/api/v1/%s/attributes?sharedKeys=%s"
abbrev pub attribute_uri : Text → Text → Text → Text
attribute_uri key token server =
    server ++ (codes "/api/v1/" ++ (token ++ (codes "/attributes?sharedKeys=" ++ key)))

-- `service_attri_update`
unfoldable pub service_attri_update : {H : Type 0} → Http H → Text → Text → Text → Reply
service_attri_update http key token server =
    if leb 256 (length (attribute_uri key token server))
    then failed
    else http.request (attribute_uri key token server) http.no_header none
