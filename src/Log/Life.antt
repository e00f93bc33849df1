-- ===== src/Log/Life.antt =====
-- The log of src/utils/src/MBT_log.c in use: lines, rounds of the log thread, and rotations, in any order.
use modbus_things.Base.{◌≤◌, ◌≡◌, Bool, true, ◌&&◌, Option, some, length}
use modbus_things.Base.Text.{Text}
use modbus_things.Log.{LogBuff, do_write_log}
use modbus_things.Log.History.{IsOpen}
use modbus_things.Log.Rotation.{LogObj, World, numbered, flip, open_new_file}
use modbus_things.Log.Rotation.Turn.{IsCurrent}
use modbus_things.Log.Printing.{print_log}

-- What has become of the log `o`, and whether every rotation has opened its file.
pub data Life (o : LogObj) : Bool → LogObj → Type 0 where
  began : Life o true o
  printed :
      {all : Bool} {o1 o2 : LogObj} (head : Text) (msg : Option Text) (start : Bool)
      → Life o all o1
      → length head ≤ 110
      → print_log head msg o1 ≡ some (start, o2)
      → Life o all o2
  flushed :
      {all : Bool} {o1 : LogObj} (h : LogBuff)
      → Life o all o1
      → do_write_log o1.handle ≡ some h
      → Life o all (record o1 { handle = h })
  turned :
      {all : Bool} {o1 : LogObj} (w : World)
      → Life o all o1
      → o1.open_in_progress ≡ true
      → Life o (all && o1.disk.can_open (numbered o1.log_name (flip o1.flag))) (open_new_file w o1)

-- The ring is open and well formed, and the file in use is the one of the flag if every rotation has
-- opened its file.
pub record InUse (all : Bool) (o : LogObj) : Type 0 where
  pub ring : IsOpen o.handle
  pub current : all ≡ true → IsCurrent o
