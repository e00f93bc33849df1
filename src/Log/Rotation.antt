-- ===== src/Log/Rotation.antt =====
-- The log files of src/utils/src/MBT_log.c: `SLogObj`, its two files, and their rotation. The bytes of
-- the open file are in the `file` of the ring's handle, and the disk has the other files. The time,
-- the listing of the log directory and zlib are parameters.
pub mod Turn
pub mod Opening
mod Tests
use modbus_things.Base.{
  ℕ, zero, suc, ◌+◌, ◌-◌, ◌*◌, ◌/◌, Bool, true, false, not, ◌&&◌, ◌||◌, Option, none, some, List,
  [], ◌∷◌, ◌++◌, leb, ltb, ◌==◌, if◌then◌else◌, length, take,
}
use modbus_things.Base.Int.{
  ℤ, pos, neg, is_neg, is_zero, ltb_ℤ, inc32, signed32, bits32, ◌-ℤ◌, ◌+ℤ◌, pos_part, neg_part,
}
use modbus_things.Base.Text.{Text, codes, text_eq}
use modbus_things.Base.Decimal.{digits, print_int}
use modbus_things.Disk.{Disk, update, rename, is_some}
use modbus_things.Disk.Old.{Dirent, remove, remove_old_log_files}
use modbus_things.Log.{LogBuff, log_buff_new}

-- `SLogObj` with an open handle, its disk, and `msLogKeepDays`. `flag` is 0 or 1.
pub record LogObj : Type 0 where
  pub log_name : Text
  pub flag : ℕ
  pub lines : ℤ
  pub max_lines : ℤ
  pub open_in_progress : Bool
  pub keep_days : ℤ
  pub fd_name : Text
  pub handle : LogBuff
  pub disk : Disk

-- what the world gives: the time, the directory, and the packed bytes of a file, if zlib opens it
pub record World : Type 0 where
  pub now : ℤ
  pub dir : List Dirent
  pub zip : Text → Option Text

-- "%s.%d" of the name and the flag
abbrev pub numbered : Text → ℕ → Text
numbered base flag = base ++ (b'.' ∷ digits flag)

-- `flag ^= 1`
abbrev pub flip : ℕ → ℕ
flip flag = if flag == 0 then 1 else 0

-- MBT_LOG_DIR
abbrev pub log_dir : Text
log_dir = codes "/var/log/mbt"

-- the three lines at the top of a log
abbrev pub banner : Text
banner =
    codes "==================================================\n"
    ++ (codes "                new log file                      \n"
        ++ codes "==================================================\n")

-- the file that `openLogFile` chooses, by which of the two are there and their times of change
unfoldable pub choose : Bool → Bool → ℤ → ℤ → ℕ
choose exists0 exists1 mtime0 mtime1 =
    if not exists1 then 0 else (if not exists0 then 1 else (if ltb_ℤ mtime1 mtime0 then 0 else 1))

-- the bytes of a file, none if it is not there
abbrev pub bytes : Option Text → Text
bytes none = []
bytes (some t) = t

-- the log after `openLogFile` has opened its file
abbrev pub begun : Text → ℕ → ℤ → LogBuff → ℤ → Disk → LogObj
begun fn flag max_lines handle keep d = record {
  log_name = fn;
  flag = flag;
  lines = pos (length (bytes (d.files (numbered fn flag))) / 60);
  max_lines = max_lines;
  open_in_progress = false;
  keep_days = keep;
  fd_name = numbered fn flag;
  handle = record handle { file = bytes (d.files (numbered fn flag)) ++ banner };
  disk = d;
}

-- `openLogFile`, with the times of change of the files; a name of 300 bytes is copied without its
-- end, and read past it then.
unfoldable pub open_log_file : (Text → ℤ) → Text → ℤ → LogBuff → ℤ → Disk → Option (Option LogObj)
open_log_file mtime fn max_lines handle keep d =
    let flag =
      choose (is_some (d.files (numbered fn 0))) (is_some (d.files (numbered fn 1)))
        (mtime (numbered fn 0)) (mtime (numbered fn 1)) in
    if leb 300 (length fn)
    then none
    else some (
        if d.can_open (numbered fn flag)
        then some (begun fn flag max_lines handle keep d)
        else none)

-- `m_compressFile`
unfoldable pub compress_file : World → Text → Text → Disk → ℤ × Disk
compress_file w src dest d = elim (d.files src) [
  | none ↦ (neg 1, d)
  | some t ↦
      if d.can_open dest
      then (elim (w.zip t) [
        | none ↦ (neg 3, record d { files = update d.files dest (some []) })
        | some z ↦ (pos 0, record d { files = update d.files dest (some z) })
      ])
      else (neg 2, d)
]

-- "%s.%lld" into 320 bytes
abbrev pub kept_name : Text → ℤ → Text
kept_name base sec = take 319 (base ++ (b'.' ∷ print_int sec))

abbrev pub packed_name : Text → ℤ → Text
packed_name base sec = take 319 (base ++ (b'.' ∷ (print_int sec ++ codes ".gz")))

-- the packing of the kept file, where `msLogKeepDays` is negative
abbrev pub pack : World → Text → Disk → Disk
pack w base d =
    let (rc, d') = compress_file w (kept_name base w.now) (packed_name base w.now) d in
    if is_zero rc then remove (kept_name base w.now) d' else d'

-- `keepOldLog`
unfoldable pub keep_old_log : World → ℤ → Text → Text → Disk → Disk
keep_old_log w keep base old d =
    let d1 = (rename old (kept_name base w.now) d).1 in
    let d2 = if is_neg keep then pack w base d1 else d1 in
    if is_zero keep
    then d
    else remove_old_log_files w.now (pos_part keep + neg_part keep) log_dir w.dir d2

-- the new file is open: the bytes of the old one stand on the disk. A file that is opened once more
-- loses its bytes.
abbrev pub opened : World → Text → LogObj → LogObj
opened w name o = record o {
  lines = pos 0;
  open_in_progress = false;
  fd_name = name;
  handle = record o.handle { file = [] };
  disk = keep_old_log w o.keep_days o.log_name (numbered o.log_name (flip o.flag)) (record o.disk {
    files = update (update o.disk.files o.fd_name (some o.handle.file)) name (some []);
  });
}

-- `threadToOpenNewFile`: the flag is turned over before the file is opened.
unfoldable pub open_new_file : World → LogObj → LogObj
open_new_file w o =
    let o' : LogObj = record o { flag = flip o.flag; lines = pos 0 } in
    let name = numbered o.log_name (flip o.flag) in
    if o.disk.can_open name
    then opened w name o'
    else record o' { open_in_progress = false; lines = o.max_lines -ℤ pos 1000 }

-- `openNewLogFile`: whether it starts that thread
unfoldable pub open_new_log_file : LogObj → Bool × LogObj
open_new_log_file o =
    if ltb_ℤ o.max_lines o.lines && not o.open_in_progress
    then (true, record o { open_in_progress = true })
    else (false, o)

-- `MBT_resetLog`: the file that was open is removed, while the thread opens the other one.
unfoldable pub reset_log : LogObj → Bool × LogObj
reset_log o =
    let (start, o') = open_new_log_file (record o { lines = o.max_lines +ℤ pos 10 }) in
    (start, record o' { disk = remove (numbered o.log_name o.flag) o'.disk })
