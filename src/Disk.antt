-- ===== src/Disk.antt =====
-- The files that the agent sees through src/os/Linux/src/MBT_osFs.c, with the system calls below it as
-- the data of a disk: which files can be opened for writing, and how many bytes each has room for.
pub mod Write
pub mod Old
mod Tests
use mathlib.Core.Option
use modbus_things.Base.{
  ℕ, zero, suc, ◌+◌, ◌-◌, ◌≤◌, ◌<◌, ◌≡◌, refl, Bool, true, false, Option, none, some, List, [], ◌∷◌,
  ◌++◌, arith, leb, ltb, ◌==◌, if◌then◌else◌, length, take, drop, Bool-cases, inl, inr, take-length,
}
use modbus_things.Base.Int.{ℤ, pos, neg}
use modbus_things.Base.Text.{Text, text_eq, text_eq_refl}

pub record Disk : Type 0 where
  pub files : Text → Option Text
  pub can_open : Text → Bool
  pub room : Text → ℕ

abbrev pub update : (Text → Option Text) → Text → Option Text → Text → Option Text
update files name c other = if text_eq name other then c else files other

abbrev pub is_some : {A : Type 0} → Option A → Bool
is_some none = false
is_some (some a) = true

-- `m_open(name, O_CREAT | O_RDWR | O_TRUNC)`; the result says whether a descriptor came back.
abbrev pub open_trunc : Text → Disk → Bool × Disk
open_trunc name d =
    if d.can_open name
    then (true, record d { files = update d.files name (some []) })
    else (false, d)

-- `m_rename`
abbrev pub rename : Text → Text → Disk → ℤ × Disk
rename old new d = elim (d.files old) [
  | none ↦ (neg 1, d)
  | some c ↦ (pos 0, record d { files = update (update d.files old none) new (some c) })
]

-- `m_access`
abbrev pub access : Text → Disk → ℤ
access name d = if is_some (d.files name) then pos 0 else neg 1

-- What `write(2)` does on each call: the bytes that it takes of `n`, none on an error other than
-- EINTR. An interrupted call takes no bytes.
pub data Written : Type 0 where
  interrupted failed : Written
  took : ℕ → Written

-- the loop of `m_write` over the answers of `write`, with the bytes left: the bytes written, and
-- whether it ended well
unfoldable pub write_loop : List Written → Text → Text → Option (Bool × Text)
write_loop w out [] = some (true, out)
write_loop [] out (c ∷ left) = none
write_loop (interrupted ∷ w) out (c ∷ left) = write_loop w out (c ∷ left)
write_loop (failed ∷ w) out (c ∷ left) = some (false, out)
write_loop (took n ∷ w) out (c ∷ left) = write_loop w (out ++ take n (c ∷ left)) (drop n (c ∷ left))

abbrev pub result : Text → Bool × Text → ℤ × Text
result buf (done, out) = (if done then pos (length buf) else neg 1, out)

-- `m_write`: the length on success, -1 on an error; `none` while `write` has not answered enough
unfoldable pub m_write : List Written → Text → Option (ℤ × Text)
unfolding write_loop
m_write w buf = Option.map (result buf) (write_loop w [] buf)

-- `m_write` of a whole buffer to a file just opened empty, on this disk
abbrev pub write_file : Text → Text → Disk → ℤ × Disk
write_file name buf d =
    if leb (length buf) (d.room name)
    then (pos (length buf), record d { files = update d.files name (some buf) })
    else (neg 1, record d { files = update d.files name (some (take (d.room name) buf)) })
