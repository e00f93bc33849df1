-- ===== src/Log/Rotation/Opening.antt =====
-- The file that openLogFile opens.
use modbus_things.Base.{
  ℕ, ◌<◌, ◌≡◌, refl, true, false, some, ◌++◌, arith, leb, if◌then◌else◌, length,
}
use modbus_things.Base.Int.{ℤ, ltb_ℤ}
use modbus_things.Base.Text.{Text}
use modbus_things.Disk.{Disk, is_some}
use modbus_things.Log.{LogBuff}
use modbus_things.Log.Rotation.{LogObj, numbered, choose, begun, bytes, banner, open_log_file}

-- the number of the file that is there; of two that are there, of the one changed last
abbrev pub latest : (Text → ℤ) → Text → Disk → ℕ
latest mtime fn d =
    if is_some (d.files (numbered fn 1))
    then (if is_some (d.files (numbered fn 0))
        then (if ltb_ℤ (mtime (numbered fn 1)) (mtime (numbered fn 0)) then 0 else 1)
        else 1)
    else 0

choose-latest :
    (mtime : Text → ℤ) (fn : Text) (d : Disk)
    → choose
        (is_some (d.files (numbered fn 0)))
        (is_some (d.files (numbered fn 1)))
        (mtime (numbered fn 0))
        (mtime (numbered fn 1))
      ≡ latest mtime fn d
unfolding choose
choose-latest mtime fn d = ground arith

-- openLogFile opens the one of its two files that is there; if both are there, the one that was
-- changed last, and the second if they were changed at one time; if none is, the first. The file
-- keeps its bytes and gets the banner behind them, and no other file changes.
pub open_log_file_lem :
    (mtime : Text → ℤ) (fn : Text) (max keep : ℤ) (h : LogBuff) (d : Disk)
    → length fn < 300
    → d.can_open (numbered fn (latest mtime fn d)) ≡ true
    → (o : LogObj) × (open_log_file mtime fn max h keep d ≡ some (some o))
      × (o.flag ≡ latest mtime fn d)
      × (o.fd_name ≡ numbered fn o.flag)
      × (o.handle ≡ record h { file = bytes (d.files o.fd_name) ++ banner })
      × (o.disk ≡ d)
unfolding open_log_file
open_log_file_lem mtime fn max keep h d l c =
    let short : leb 300 (length fn) ≡ false = ground arith in
    (
      begun fn (latest mtime fn d) max h keep d,
      rw (choose-latest mtime fn d, c, short) refl,
      refl,
      refl,
      refl,
      refl,
    )
