-- ===== src/Core/Loop.antt =====
-- mdc_loop and the handlers of messages in src/core/src/MBT_core.c. A turn of the loop is a command on
-- the state of all services; the sleeps, and the download of a new firmware, do not show in it.
pub mod Turns
pub mod Publishing
pub mod Blank
pub mod Unconfigured
mod Tests
use modbus_things.Base.{
  ℕ, Bool, true, false, Option, none, some, List, if◌then◌else◌, length, Run, ok, fault, blocked,
  Cmd, pure, ◌>>=◌, ◌>>◌, ◌||◌,
}
use modbus_things.Base.Int.{ℤ, pos, neg, is_neg, eq_ℤ}
use modbus_things.Base.Text.{Text, codes, text_eq}
use modbus_things.Attributes.{Db, save_attribute}
use modbus_things.Attributes.Key
use modbus_things.Bulk.{Bulk, Post}
use modbus_things.Mqtt.{Telemetry, realtime_err_queue_full}
use modbus_things.Realtime.{Port, Shared, dump_cached_data}
use modbus_things.Scan.{Cjson, Scan, Read, parse_scan, scan, merge_result}
use modbus_things.Core.BulkService.{
  Reason, scan_fail, cache_full, config_error, check_do_bulk_service,
}

-- `mdc->config`: it points to the text that the cache of the attributes holds, until that is freed.
pub data Config : Type 0 where
  null freed : Config
  at : Text → Config

-- `mda_core_t` with its services, and the `rc` of `mdc_loop`
pub record Agent (Q D : Type 0) : Type 0 where
  pub config : Config
  pub config_update : Bool
  pub ota_update : Bool
  pub ota_title : Option Text
  pub ota_version : Option Text
  pub ota_file_size : ℤ
  pub rc : ℤ
  pub nodes : Scan
  pub shared : Shared Q D

-- what a turn uses of the libraries, the server and the clock
pub record World (Q D J : Type 0) : Type 0 where
  pub db : Db D
  pub post : Post
  pub port : Port Q
  pub json : Cjson J
  pub garbage : ℕ → List ℕ
  pub read : Read
  pub print : List (Text × Text) → ℤ → Text
  pub now : ℤ
  pub online : Bool

-- TELEMETRY_TOPIC
abbrev pub telemetry_topic : Text
telemetry_topic = codes "v1/devices/me/telemetry"

-- `strcmp` of a cached text, that is there, and a new one
abbrev pub frees : Option Text → Text → Bool
frees none t = false
frees (some v) t = if text_eq v t then false else true

-- `mdc->config` after the text that the cache holds is freed
abbrev pub without_text : Config → Config
without_text null = null
without_text freed = freed
without_text (at t) = freed

-- a run of a part, with the whole that its state is put in
abbrev pub within : {S T A : Type 0} → Run T A → (T → S) → Run S A
within fault f = fault
within blocked f = blocked
within (ok a t) f = ok a (f t)

module _ {Q D J : Type 0} (w : World Q D J) where
  -- a command of one service, in the state of the agent
  abbrev pub in_nodes : {A : Type 0} → Cmd Scan A → Cmd (Agent Q D) A
  in_nodes m s = within (m s.nodes) λ n. record s { nodes = n }

  abbrev pub in_shared : {A : Type 0} → Cmd (Shared Q D) A → Cmd (Agent Q D) A
  in_shared m s = within (m s.shared) λ n. record s { shared = n }

  abbrev pub in_bulk : {A : Type 0} → Cmd (Bulk D) A → Cmd (Agent Q D) A
  in_bulk m s = within (m s.shared.bulk) λ n. record s { shared = record s.shared { bulk = n } }

  abbrev pub in_queue : {A : Type 0} → Cmd Q A → Cmd (Agent Q D) A
  in_queue m s = within (m s.shared.queue) λ n. record s { shared = record s.shared { queue = n } }

  abbrev pub upload : Reason → Cmd (Agent Q D) (Unit {0})
  upload reason = do in_bulk (check_do_bulk_service w.db w.post w.online reason); pure tt

  abbrev pub set_rc : ℤ → Cmd (Agent Q D) (Unit {0})
  set_rc rc s = ok tt (record s { rc = rc })

  -- `mds_parse_scan(mdc->config, …)`, whose result is dropped; cJSON parses NULL to NULL.
  abbrev pub parse_config : Cmd (Agent Q D) (Unit {0})
  parse_config s = elim s.config [
    | null ↦ ok tt s
    | freed ↦ fault
    | at t ↦ (do in_nodes (parse_scan w.garbage w.json none t); pure tt) s
  ]

  -- `if(mdc->config_update)`: the test of `rc` is of what the turn before left in it.
  unfoldable pub update_config : Cmd (Agent Q D) (Unit {0})
  update_config s =
      if s.config_update
      then (do parse_config; (λ t. if is_neg t.rc then upload config_error t else ok tt t))
          (record s { config_update = false })
      else ok tt s

  -- what is pushed to the port
  abbrev pub telemetry : Text → Telemetry
  telemetry result = record {
    msg = result;
    size = length result;
    ts = w.now;
    ms = 0;
    topic = telemetry_topic;
  }

  -- the second push, after a hand-over of what is cached
  abbrev pub push_again : Telemetry → Cmd (Agent Q D) (Unit {0})
  push_again raw = do
    in_shared (dump_cached_data w.port w.db)
    rc ← in_queue (w.port.push raw)
    set_rc rc
    upload cache_full

  -- from `strlen(tt->msg)` on, which is undefined of NULL
  unfoldable pub publish : Option Text → Cmd (Agent Q D) (Unit {0})
  publish none = λ s. fault
  publish (some result) = do
    rc ← in_queue (w.port.push (telemetry result))
    set_rc rc
    if eq_ℤ rc (neg realtime_err_queue_full) then push_again (telemetry result) else pure tt

  -- from `mds_merge_result` on, with the NULL `result`
  abbrev pub merge_and_publish : Cmd (Agent Q D) (Unit {0})
  merge_and_publish = do
    r ← in_nodes (merge_result w.print w.now none)
    set_rc r.0
    if is_neg r.0 then pure tt else publish r.1

  -- from `mds_scan` on
  unfoldable pub scan_and_publish : Cmd (Agent Q D) (Unit {0})
  scan_and_publish = do
    rc ← in_nodes (scan w.read)
    set_rc rc
    if is_neg rc then upload scan_fail else merge_and_publish

  -- one turn of the loop of `mdc_loop`
  unfoldable pub turn : Cmd (Agent Q D) (Unit {0})
  turn = do update_config; (λ s. ok tt (record s { ota_update = false })); scan_and_publish

  -- a new configuration in the cache: the text that was there, to which `config` points, is freed
  abbrev pub save_config : Text → Cmd (Agent Q D) (Unit {0})
  save_config t s = ok tt (record s {
    config_update = true;
    config =
        if frees (s.shared.bulk.attributes.cache Key.dev_config) t
        then without_text s.config
        else s.config;
    shared = record s.shared {
      bulk = record s.shared.bulk {
        attributes = (save_attribute w.db Key.dev_config t s.shared.bulk.attributes).1;
      };
    };
  })

  -- `realtime_msg_received`
  unfoldable pub realtime_msg_received : Text → Cmd (Agent Q D) (Unit {0})
  realtime_msg_received msg s = elim (w.json.parse msg) [
    | none ↦ ok tt s
    | some root ↦ elim (w.json.get_object_item root (codes "mb_config")) [
      | none ↦ ok tt s
      | some mb ↦ elim (w.json.valuestring mb) [ none ↦ fault | some t ↦ save_config t s ]
    ]
  ]

  -- a text field of a document, which `m_strdup` copies
  abbrev pub with_text : J → Text → (Text → Agent Q D → Agent Q D) → Cmd (Agent Q D) (Unit {0})
  with_text root key f s = elim (w.json.get_object_item root key) [
    | none ↦ ok tt s
    | some j ↦ elim (w.json.valuestring j) [ none ↦ fault | some t ↦ ok tt (f t s) ]
  ]

  abbrev pub with_int : J → Text → (ℤ → Agent Q D → Agent Q D) → Cmd (Agent Q D) (Unit {0})
  with_int root key f s = elim (w.json.get_object_item root key) [
    | none ↦ ok tt s
    | some j ↦ ok tt (f (w.json.valueint j) s)
  ]

  -- `realtime_ota_msg_received`
  unfoldable pub realtime_ota_msg_received : Text → Cmd (Agent Q D) (Unit {0})
  realtime_ota_msg_received msg = elim (w.json.parse msg) [
    | none ↦ pure tt
    | some root ↦ (do
      with_text root (codes "fw_title") (λ t s. record s { ota_title = some t })
      with_int root (codes "fw_size") (λ n s. record s { ota_file_size = n })
      with_text root (codes "fw_version")
          (λ t s. record s { ota_version = some t; ota_update = true }))
  ]
