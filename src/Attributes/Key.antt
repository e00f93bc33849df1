-- ===== src/Attributes/Key.antt =====
-- `attri_key_e` of src/core/inc/MBT_attributes.h.
use modbus_things.Base.{ℕ}

abbrev pub dev_token : ℕ
dev_token = 0

abbrev pub dev_config : ℕ
dev_config = 1

abbrev pub dev_config_ts : ℕ
dev_config_ts = 2

abbrev pub dev_uuid : ℕ
dev_uuid = 3

abbrev pub bulk_index : ℕ
bulk_index = 4

abbrev pub bulk_file_tail_index : ℕ
bulk_file_tail_index = 5

abbrev pub bulk_file_tail_date : ℕ
bulk_file_tail_date = 6

abbrev pub bulk_format_version : ℕ
bulk_format_version = 7

abbrev pub server_uri : ℕ
server_uri = 8

abbrev pub bulk_service_uri : ℕ
bulk_service_uri = 9

abbrev pub realtime_uri : ℕ
realtime_uri = 10

abbrev pub key_num : ℕ
key_num = 11
