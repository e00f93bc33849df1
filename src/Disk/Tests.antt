-- ===== src/Disk/Tests.antt =====
-- Runs of m_write and m_removeOldLogFiles of src/os/Linux/src/MBT_osFs.c.
use modbus_things.Base.{
  ◌≡◌, refl, true, false, ◌&&◌, none, some, List, [], ◌∷◌, ◌*◌, arith, leb, ltb, if◌then◌else◌,
}
use modbus_things.Base.Int.{pos}
use modbus_things.Base.Text.{codes}
use modbus_things.Disk.{Disk, Written, interrupted, took, m_write}
use modbus_things.Disk.Old.{Dirent, remove_old_log_files}
use modbus_things.Disk.Old.Names.{rotated, listed, apart, remove_old_log_files_lem}

-- an interrupted call and a short one come before the rest
abbrev answers : List Written
answers = interrupted ∷ took 2 ∷ took 5 ∷ []

answered : m_write answers (codes "abc") ≡ some (pos 3, codes "abc")
unfolding m_write
answered = refl

abbrev disk : Disk
disk = record { files = λ n. none; can_open = λ n. true; room = λ n. 0 }

-- a log of the second 500, kept at most 3 days, and a directory
abbrev entries : List Dirent
entries =
    record { name = codes "mbt.500"; is_dir = false }
    ∷ record { name = codes "old"; is_dir = true }
    ∷ []

remove_old_log_files_lem_example :
    (remove_old_log_files (pos 400000) 3 (codes "/log") entries disk).files
      (rotated (codes "/log/mbt") 500 false)
    ≡ (if listed (codes "/log") (rotated (codes "/log/mbt") 500 false) entries
          && (ltb 100 500 && leb (3 * 86400) (apart 400000 500))
        then none
        else disk.files (rotated (codes "/log/mbt") 500 false))
remove_old_log_files_lem_example =
    remove_old_log_files_lem 400000 3 (codes "/log") (codes "/log/mbt") 500 false entries disk
      (omega arith)
