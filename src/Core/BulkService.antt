-- ===== src/Core/BulkService.antt =====
-- check_post_status and check_do_bulk_service of src/core/src/MBT_core.c: the upload of one spool file,
-- for a reason. Whether the network is up is an argument.
use modbus_things.Base.{
  Bool, Option, none, some, if◌then◌else◌, ◌||◌, not, ok, Cmd, pure, ◌>>=◌, ◌>>◌,
}
use modbus_things.Base.Int.{ℤ, neg, is_zero, eq_ℤ}
use modbus_things.Base.Text.{Text, codes}
use modbus_things.Attributes.{Db, load_attribute}
use modbus_things.Attributes.Key
use modbus_things.Bulk.{
  Bulk, Post, get_tail_cache_file_path, update_tail_index, get_head_cache_file_path,
  update_head_index, post_bulk_data_by_file,
}

-- CHECK_REASON_*
pub data Reason : Type 0 where
  scan_fail cache_full config_error : Reason

-- DEFAULT_SERVER_FQDN
abbrev pub default_server_fqdn : Text
default_server_fqdn = codes "www.tqautotech.com"

-- `mba_load_attribute(ATTRI_BULK_SERVICE_URI, …)`: its value goes to `post_bluk_data_by_file`,
-- which does not read it.
abbrev pub load_uri : {D : Type 0} → Db D → Bulk D → Bulk D
load_uri db s = record s {
  attributes = (load_attribute db Key.bulk_service_uri (some default_server_fqdn) s.attributes).1;
}

module _ {D : Type 0} (db : Db D) (post : Post) where
  -- `check_post_status`
  unfoldable pub check_post_status : Reason → ℤ → Cmd (Bulk D) (Unit {0})
  check_post_status scan_fail rc =
      if is_zero rc || eq_ℤ rc (neg 2) then (do update_tail_index db; pure tt) else pure tt
  check_post_status other rc = if is_zero rc then (do update_head_index; pure tt) else pure tt

  -- a post of a file, and what follows from its result
  abbrev pub post_path : Reason → Option Text → Cmd (Bulk D) (Unit {0})
  post_path reason none = pure tt
  post_path reason (some path) = do
    rc ← post_bulk_data_by_file post path
    check_post_status reason rc

  -- the oldest file, or for a full queue the latest
  abbrev pub by_reason : Reason → Cmd (Bulk D) (Unit {0})
  by_reason scan_fail s = post_path scan_fail (get_tail_cache_file_path db s) s
  by_reason config_error s = post_path scan_fail (get_tail_cache_file_path db s) s
  by_reason cache_full s = post_path cache_full (get_head_cache_file_path s) s

  -- `check_do_bulk_service`; on every way out it returns -1.
  unfoldable pub check_do_bulk_service : Bool → Reason → Cmd (Bulk D) ℤ
  check_do_bulk_service online reason s =
      if not online then ok (neg 1) s else (do by_reason reason; pure (neg 1)) (load_uri db s)
