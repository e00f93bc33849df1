-- ===== src/Log/Rotation/Tests.antt =====
-- Runs of openLogFile and threadToOpenNewFile of src/utils/src/MBT_log.c.
use modbus_things.Base.{◌≡◌, refl, inl, true, false, none, some, [], arith}
use modbus_things.Base.Int.{ℤ, pos}
use modbus_things.Base.Text.{codes}
use modbus_things.Base.Decimal.{digits, digits_from}
use modbus_things.Disk.{Disk}
use modbus_things.Log.{LogBuff}
use modbus_things.Log.Ring.{contents}
use modbus_things.Log.Rotation.{LogObj, World, numbered, open_new_file}
use modbus_things.Log.Rotation.Turn.{IsCurrent, kept_at, open_new_file_keeps}

-- an empty ring, whose file has some bytes
abbrev handle : LogBuff
handle = record {
  buffer = λ i. 0;
  buff_start = 0;
  buff_end = 0;
  buff_size = 64;
  min_buff_size = 6;
  stop = false;
  file = codes "old\n";
  lost_line = 0;
  write_interval = 25;
  last_duration = 0;
}

abbrev disk : Disk
disk = record { files = λ n. none; can_open = λ n. true; room = λ n. 0 }

abbrev log : ℤ → Disk → LogObj
log keep d = record {
  log_name = codes "mbt";
  flag = 0;
  lines = pos 101;
  max_lines = pos 100;
  open_in_progress = true;
  keep_days = keep;
  fd_name = numbered (codes "mbt") 0;
  handle = handle;
  disk = d;
}

log-IsCurrent : (keep : ℤ) (d : Disk) → IsCurrent (log keep d)
log-IsCurrent keep d = record { named = refl; binary = inl refl }

abbrev world : World
world = record { now = pos 500; dir = []; zip = λ t. none }

open_new_file_keeps_example :
    IsCurrent (open_new_file world (log (pos 3) disk))
    × ((open_new_file world (log (pos 3) disk)).disk.files (kept_at (log (pos 3) disk) 3 500)
        ≡ some (codes "old\n"))
    × ((open_new_file world (log (pos 3) disk)).handle.file ≡ [])
    × (contents (open_new_file world (log (pos 3) disk)).handle ≡ contents handle)
    × ((open_new_file world (log (pos 3) disk)).open_in_progress ≡ false)
unfolding digits digits_from
open_new_file_keeps_example =
    open_new_file_keeps world (log (pos 3) disk) 3 500 (log-IsCurrent (pos 3) disk) refl refl
      (omega arith) refl
