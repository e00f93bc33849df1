-- ===== src/Bulk/Tests.antt =====
-- Runs of the spool of src/core/src/MBT_bulk.c on a small disk.
use modbus_things.Base.{ℕ, ◌≡◌, refl, true, false, none, some, arith, ◌==◌, if◌then◌else◌}
use modbus_things.Base.Int.{pos}
use modbus_things.Base.Text.{Text, codes, text_eq}
use modbus_things.Attributes.Tests.{Memory, memory, memory-IsIntStore}
use modbus_things.Disk.{Disk}
use modbus_things.Bulk.{Bulk, Post, save_bulk_data}
use modbus_things.Bulk.Names.{cache_filename, bulk_api}
use modbus_things.Bulk.Saving.{Advanced, written, save_bulk_data_saves}

-- a disk with files 3 and 4, and `n` bytes of room for each file
abbrev pub disk : ℕ → Disk
disk n = record {
  files = λ name.
      if text_eq name (codes "mbt_3.dat")
      then some (codes "{3}")
      else (if text_eq name (codes "mbt_4.dat") then some (codes "{4}") else none);
  can_open = λ name. true;
  room = λ name. n;
}

-- the tail at 3, the head at 5, and five bytes cached
abbrev pub spool : ℕ → Bulk Memory
spool n = record {
  cur_cached_off = 5;
  cache_buf = codes "{abc}...";
  next_index = pos 5;
  dev_token = codes "token";
  version_number = pos 1;
  attributes = record {
    cache = λ k. none;
    store = record { texts = λ k. none; ints = λ k. if k == 5 then some (pos 3) else none };
  };
  disk = disk n;
}

abbrev pub accepts : Post
accepts address name = pos 0

abbrev pub api : Text
api = codes "api/v1/token/bulktelemetry"

pub spool-api : (n : ℕ) → bulk_api (spool n).dev_token ≡ some api
unfolding bulk_api
spool-api n = refl

save_bulk_data_saves_example :
    let (rc, s') = save_bulk_data memory (spool 100) in
    (rc ≡ pos 0)
    × Advanced memory 5 (written memory memory-IsIntStore (spool 100) (cache_filename (pos 5))) s'
    × (s'.disk.files (cache_filename (pos 5)) ≡ some (codes "{abc}"))
    × ((name : Text)
        → text_eq (cache_filename (pos 5)) name ≡ false
        → s'.disk.files name ≡ (disk 100).files name)
save_bulk_data_saves_example =
    save_bulk_data_saves memory memory-IsIntStore (spool 100) 5 refl (omega arith) refl
      (omega arith) (omega arith)
