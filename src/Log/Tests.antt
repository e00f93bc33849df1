-- ===== src/Log/Tests.antt =====
-- Runs of src/utils/src/MBT_log.c on a small ring.
use modbus_things.Base.{ℕ, ◌+◌, ◌≡◌, refl, true, false, none, some, [], ◌∷◌, arith, Bool}
use modbus_things.Base.Int.{pos, ltb_ℤ, inc32}
use modbus_things.Base.Text.{Text, codes}
use modbus_things.Base.Decimal.{digits_from, digits}
use modbus_things.Log.{do_write_log, LogBuff, lost_text}
use modbus_things.Log.Flush.{Flushed, do_write_log_flushes}
use modbus_things.Log.Ring.{IsValid}
use modbus_things.Log.Push.{HasRoom}
use modbus_things.Log.History.{line, flush, IsOpen, Logged}
use modbus_things.Log.Lost.{chronicle, chronicle_ends}
use modbus_things.Log.Rotation.{World, LogObj}
use modbus_things.Log.Printing.Lines.{print_log_lem}
use modbus_things.Log.Printing.{print_log}

-- two bytes wait at the end of a ring of `n + 4`, and one line was lost
abbrev pub ring : ℕ → LogBuff
ring n = record {
  buffer = λ i. b'.';
  buff_start = n;
  buff_end = n + 2;
  buff_size = n + 4;
  min_buff_size = 6;
  stop = false;
  file = [];
  lost_line = 1;
  write_interval = 25;
  last_duration = 0;
}

pub ring-IsValid : (n : ℕ) → IsValid (ring n)
ring-IsValid n = record { start_in = omega arith; end_in = omega arith }

room : HasRoom (ring 60) (codes "hello\n")
unfolding lost_text digits digits_from
room = ground arith

do_write_log_flushes_example :
    (s' : LogBuff) × (do_write_log (ring 60) ≡ some s') × Flushed (ring 60) s'
do_write_log_flushes_example = do_write_log_flushes (ring 60) (ring-IsValid 60) (omega arith)

pub ring-IsOpen : IsOpen (ring 60)
ring-IsOpen = record { valid = ring-IsValid 60; on = refl; threshold = omega arith }

chronicle_ends_example :
    (t : Text) × (s' : LogBuff) × (chronicle
        (line (codes "a\n") ∷ flush ∷ line (codes "b\n") ∷ [])
        1
        (ring 60)
      ≡ some (t, s'.lost_line, s'))
    × Logged (ring 60) t s'
chronicle_ends_example =
    chronicle_ends (line (codes "a\n") ∷ flush ∷ line (codes "b\n") ∷ []) (ring 60) ring-IsOpen

abbrev log : LogObj
log = record {
  log_name = codes "mbt";
  flag = 0;
  lines = pos 3;
  max_lines = pos 100;
  open_in_progress = false;
  keep_days = pos 0;
  fd_name = codes "mbt.0";
  handle = ring 60;
  disk = record { files = λ n. none; can_open = λ n. true; room = λ n. 0 };
}

-- a log whose lines are to go to another file, its next line, and the rotation
abbrev busy : LogObj
busy = record log { open_in_progress = true }

abbrev next_line :
    (t : Text) × (start : Bool) × (o' : LogObj) × (print_log
        (codes "11/26 ")
        (some (codes "up"))
        busy
      ≡ some (start, o'))
    × Logged (ring 60) t o'.handle
    × ((o'.log_name ≡ codes "mbt") × (o'.flag ≡ 0) × (o'.fd_name ≡ codes "mbt.0"))
    × (start ≡ true
        → (o'.open_in_progress ≡ true) × (ltb_ℤ (pos 100) (inc32 (pos 3)) ≡ true) × (true ≡ false))
next_line = print_log_lem (codes "11/26 ") (some (codes "up")) busy (omega arith) ring-IsOpen

abbrev world : World
world = record { now = pos 500; dir = []; zip = λ t. none }
