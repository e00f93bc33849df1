-- ===== src/Disk/Old.antt =====
-- m_removeOldLogFiles of src/os/Linux/src/MBT_osFs.c. What `readdir` gives is a parameter; so is
-- the time.
pub mod Names
use modbus_things.Base.{
  ℕ, zero, suc, ◌+◌, ◌-◌, ◌*◌, ◌/◌, ◌%◌, Bool, true, false, ◌&&◌, ◌||◌, Option, none, some, List,
  [], ◌∷◌, ◌++◌, leb, ltb, ◌==◌, if◌then◌else◌, length, take, drop,
}
use modbus_things.Base.Int.{ℤ, pos, neg, ltb_ℤ, ◌-ℤ◌, pos_part, neg_part, signed32, bits32, inc32}
use modbus_things.Base.Text.{Text, codes, text_eq}
use modbus_things.Base.Decimal.{atoi}
use modbus_things.Disk.{Disk, update}

-- `struct dirent`: a name, and whether it is of a directory
pub record Dirent : Type 0 where
  pub name : Text
  pub is_dir : Bool

-- what follows the last dot
unfoldable pub after_dot : Text → Option Text
after_dot [] = none
after_dot (c ∷ s) = elim (after_dot s) [
  | some t ↦ some t
  | none ↦ if c == b'.' then some s else none
]

-- the name up to a last ".gz"
unfoldable pub stem : Text → Text
stem s =
    if ltb 3 (length s) && text_eq (drop (length s - 3) s) (codes ".gz")
    then take (length s - 3) s
    else s

-- `fileSec`: the number behind the last dot of the stem, 0 if there is no dot
unfoldable pub file_sec : Text → ℤ
file_sec filename = elim (after_dot (stem filename)) [ none ↦ pos 0 | some t ↦ atoi t ]

-- `abs` of the difference, which is converted to an `int`, in days, counted from 1; the least
-- `int`, of which `abs` is undefined, counts as its distance from 0.
abbrev pub age_days : ℤ → ℤ → ℕ
age_days now sec = let d = signed32 (bits32 (now -ℤ sec)) in (pos_part d + neg_part d) / 86400 + 1

-- the test of a file's name, after `fileSec` is read from it
unfoldable pub is_old : ℤ → ℕ → Text → Bool
is_old now keep filename =
    ltb_ℤ (pos 100) (file_sec filename) && ltb keep (age_days now (file_sec filename))

-- the entries that the loop goes on from: "." and "..", and directories
abbrev pub skips : Dirent → Bool
skips e = text_eq e.name (codes ".") || text_eq e.name (codes "..") || e.is_dir

-- "%s/%s" into 1023 bytes
abbrev pub path : Text → Dirent → Text
path root e = take 1022 (root ++ (b'/' ∷ e.name))

abbrev pub remove : Text → Disk → Disk
remove name d = record d { files = update d.files name none }

-- one round of the loop
abbrev pub visit : ℤ → ℕ → Text → Dirent → Disk → Disk
visit now keep root e d =
    if skips e then d else (if is_old now keep (path root e) then remove (path root e) d else d)

-- `m_removeOldLogFiles`; `rmdir` of a directory that holds the log does nothing.
unfoldable pub remove_old_log_files : ℤ → ℕ → Text → List Dirent → Disk → Disk
remove_old_log_files now keep root [] d = d
remove_old_log_files now keep root (e ∷ es) d =
    remove_old_log_files now keep root es (visit now keep root e d)
