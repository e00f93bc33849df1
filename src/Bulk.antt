-- ===== src/Bulk.antt =====
-- src/core/src/MBT_bulk.c: the spool of telemetry files. The service's struct stands here with what its
-- functions reach: the attributes and the disk. The server's answer to a post is a parameter.
pub mod Names
pub mod Saving
pub mod Uploading
pub mod Tests
use modbus_things.Base.{
  ℕ, suc, ◌+◌, Bool, true, false, Option, none, some, List, ◌++◌, leb, if◌then◌else◌, length, take,
  Run, ok, fault, Cmd, pure, ◌>>=◌, ◌>>◌,
}
use modbus_things.Base.Int.{ℤ, pos, neg, eq_ℤ, is_neg, is_pos, inc32, ◌-ℤ◌}
use modbus_things.Base.Text.{Text, codes}
use modbus_things.Attributes.{Db, Attributes, load_attribute_int, save_attribute_int}
use modbus_things.Attributes.Key
use modbus_things.Disk.{Disk, open_trunc, write_file, rename, access}
use Names.{gen_cache_filename, uploaded_name, bulk_api}

-- BULK_FILE_MAX_BYTES
abbrev pub bulk_file_max_bytes : ℕ
bulk_file_max_bytes = 10240

-- `mdb_bluk_t`, and the state behind its function pointers
pub record Bulk (D : Type 0) : Type 0 where
  pub cur_cached_off : ℕ
  pub cache_buf : Text
  pub next_index : ℤ
  pub dev_token : Text
  pub version_number : ℤ
  pub attributes : Attributes D
  pub disk : Disk

-- What the server answers to a file that is posted to an address: `httpclient_post_file`.
abbrev pub Post : Type 0
Post = Text → Text → ℤ

-- what an uploaded file is renamed from and to
abbrev pub rename_uploaded : {D : Type 0} → Text → Bulk D → Bulk D
rename_uploaded name s = record s { disk = (rename name (uploaded_name name) s.disk).1 }

module _ {D : Type 0} (db : Db D) where
  abbrev pub load_int : ℕ → Bulk D → Option ℤ
  load_int key s = load_attribute_int db key s.attributes

  abbrev pub save_int : ℕ → ℤ → Bulk D → Bulk D
  save_int key v s = record s { attributes = (save_attribute_int db key v s.attributes).1 }

  -- the tail index is set once
  abbrev pub set_tail : Bulk D → Bulk D
  set_tail s = elim (load_int Key.bulk_file_tail_index s) [
    | none ↦ save_int Key.bulk_file_tail_index s.next_index s
    | some t ↦ s
  ]

  -- `update_index`
  unfoldable pub update_index : Bulk D → Bulk D
  update_index s =
      let s' = set_tail s in
      save_int Key.bulk_index (inc32 s'.next_index) (record s' { next_index = inc32 s'.next_index })

  -- `save_bulk_data` after `m_open`
  abbrev pub save_to : Text → Bulk D → ℤ × Bulk D
  save_to name s =
      let (ret, d) = write_file name (take s.cur_cached_off s.cache_buf) s.disk in
      (
        if eq_ℤ ret (pos s.cur_cached_off) then pos 0 else neg 1,
        update_index (record s { disk = d }),
      )

  -- `save_bulk_data`; `m_open` of NULL fails.
  unfoldable pub save_bulk_data : Bulk D → ℤ × Bulk D
  save_bulk_data s = elim (gen_cache_filename s.next_index s.version_number) [
    | none ↦ (neg 1, s)
    | some name ↦
        let (opened, d) = open_trunc name s.disk in
        if opened then save_to name (record s { disk = d }) else (neg 1, s)
  ]

  -- `get_tail_cache_file_path`
  unfoldable pub get_tail_cache_file_path : Bulk D → Option Text
  get_tail_cache_file_path s = elim (load_int Key.bulk_file_tail_index s) [
    | none ↦ none
    | some index ↦ gen_cache_filename index s.version_number
  ]

  -- `update_tail_index`; printing a NULL name is undefined.
  unfoldable pub update_tail_index : Cmd (Bulk D) ℤ
  update_tail_index s = elim (load_int Key.bulk_file_tail_index s) [
    | none ↦ ok (neg 1) s
    | some index ↦ elim (gen_cache_filename index s.version_number) [
      | none ↦ fault
      | some name ↦
          let s' = rename_uploaded name s in
          let (rc, a) =
            save_attribute_int db Key.bulk_file_tail_index (inc32 index) s'.attributes in
          ok rc (record s' { attributes = a })
    ]
  ]

-- `get_head_cache_file_path`
unfoldable pub get_head_cache_file_path : {D : Type 0} → Bulk D → Option Text
get_head_cache_file_path s =
    if is_pos s.next_index
    then gen_cache_filename (s.next_index -ℤ pos 1) s.version_number
    else none

-- `update_head_index`
unfoldable pub update_head_index : {D : Type 0} → Cmd (Bulk D) ℤ
update_head_index s = elim (gen_cache_filename (s.next_index -ℤ pos 1) s.version_number) [
  | none ↦ fault
  | some name ↦ ok (rename name (uploaded_name name) s.disk).0 (rename_uploaded name s)
]

-- `post_bluk_data_by_file`, with `service_bulk_post` of src/port/src/ThingsBoard/portServer.c; neither
-- reads the `uri`.
unfoldable pub post_bulk_data_by_file : {D : Type 0} → Post → Text → Cmd (Bulk D) ℤ
post_bulk_data_by_file post name s =
    if is_neg (access name s.disk)
    then ok (if is_neg (access (name ++ codes ".bk") s.disk) then neg 1 else neg 2) s
    else (elim (bulk_api s.dev_token) [ none ↦ fault | some api ↦ ok (post api name) s ])

-- a number that is 0 where it cannot be loaded
abbrev pub or_zero : Option ℤ → ℤ
or_zero none = pos 0
or_zero (some v) = v

-- `mdb_bulk_service_init`
unfoldable pub bulk_service_init : {D : Type 0} → Db D → Text → Text → Attributes D → Disk → Bulk D
bulk_service_init db token buf a d = record {
  cur_cached_off = 0;
  cache_buf = buf;
  next_index = or_zero (load_attribute_int db Key.bulk_index a);
  dev_token = token;
  version_number = or_zero (load_attribute_int db Key.bulk_format_version a);
  attributes = a;
  disk = d;
}
