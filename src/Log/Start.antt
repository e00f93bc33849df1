-- ===== src/Log/Start.antt =====
-- MBT_initLog of src/utils/src/MBT_log.c. Whether `logBuffNew` and `startLog` succeed is a parameter.
use modbus_things.Base.{
  ℕ, ◌≡◌, refl, ap, ◌∙◌, Bool, true, false, Option, none, some, Bool-cases, inl, inr, [], ◌++◌, ◌<◌,
  length, arith, if◌then◌else◌,
}
use modbus_things.Base.Int.{ℤ, pos, neg}
use modbus_things.Base.Text.{Text}
use modbus_things.Disk.{Disk}
use modbus_things.Log.{log_buff_new}
use modbus_things.Log.Tabulate.{tab}
use modbus_things.Log.Ring.{contents}
use modbus_things.Log.History.{IsOpen}
use modbus_things.Log.Rotation.{LogObj, open_log_file, numbered, bytes, banner}
use modbus_things.Log.Rotation.Opening.{latest, open_log_file_lem}

-- `msLogInited`, and the log, where lines can be written to it
pub record Logging : Type 0 where
  pub inited : Bool
  pub log : Option LogObj

-- what a call finds: whether there is memory for the ring, the times of change of the files, the days
-- that files are kept, the disk, and whether the thread starts
pub record Place : Type 0 where
  pub memory : Bool
  pub mtime : Text → ℤ
  pub keep_days : ℤ
  pub disk : Disk
  pub thread : Bool

-- MBT_DEFAULT_LOG_BUF_SIZE
abbrev pub default_log_buf_size : ℕ
default_log_buf_size = 10240

-- after `openLogFile`
abbrev pub started : Bool → Option (Option LogObj) → Option (ℤ × Logging)
started thread none = none
started thread (some none) = some (neg 1, record { inited = true; log = none })
started thread (some (some o)) =
    some (if thread then pos 0 else neg 1, record { inited = true; log = some o })

-- `MBT_initLog`; `none` is undefined behaviour, and `buffer` what the memory of the ring holds.
unfoldable pub init_log : Place → (ℕ → ℕ) → Text → ℤ → Logging → Option (ℤ × Logging)
init_log p buffer log_name lines g =
    if g.inited
    then some (pos 0, g)
    else (if p.memory
        then started p.thread (
            open_log_file p.mtime log_name lines (log_buff_new buffer default_log_buf_size)
              p.keep_days p.disk)
        else some (neg 1, record { inited = true; log = none }))

ring-IsOpen :
    (buffer : ℕ → ℕ) (t : Text)
    → IsOpen (record (log_buff_new buffer default_log_buf_size) { file = t })
unfolding log_buff_new
ring-IsOpen buffer t = record {
  valid = record { start_in = omega arith; end_in = omega arith };
  on = refl;
  threshold = omega arith;
}

no_contents :
    (buffer : ℕ → ℕ) (t : Text)
    → contents (record (log_buff_new buffer default_log_buf_size) { file = t }) ≡ []
unfolding log_buff_new contents tab
no_contents buffer t = refl

-- The first call of MBT_initLog, with memory, a short name, a file that can be opened and a thread
-- that starts, returns 0. The ring is then open, well formed and empty, and its file is the one of the
-- two that was changed last, with the banner behind its bytes.
pub init_log_lem :
    (p : Place) (buffer : ℕ → ℕ) (fn : Text) (lines : ℤ)
    → p.memory ≡ true
    → p.thread ≡ true
    → length fn < 300
    → p.disk.can_open (numbered fn (latest p.mtime fn p.disk)) ≡ true
    → (o : LogObj) × (init_log p buffer fn lines (record { inited = false; log = none })
        ≡ some (pos 0, record { inited = true; log = some o }))
      × IsOpen o.handle
      × (contents o.handle ≡ [])
      × (o.handle.file ≡ bytes (p.disk.files (numbered fn (latest p.mtime fn p.disk))) ++ banner)
unfolding init_log
init_log_lem p buffer fn lines m th l c =
    let (o, e, flag, name, handle, d) =
      open_log_file_lem p.mtime fn lines p.keep_days (log_buff_new buffer default_log_buf_size)
        p.disk l c in
    (
      o,
      rw (m, e, th) refl,
      rw handle (ring-IsOpen buffer (bytes (p.disk.files o.fd_name) ++ banner)),
      rw handle (no_contents buffer (bytes (p.disk.files o.fd_name) ++ banner)),
      ap (λ h. h.file) handle
          ∙ ap (λ n. bytes (p.disk.files n) ++ banner) (name ∙ ap (numbered fn) flag),
    )

-- how a call that has failed leaves the log
abbrev Failed : Logging → Type 0
Failed g = (g.inited ≡ true) × (g.log ≡ none)

started-Failed :
    (x : Option (Option LogObj)) (g : Logging) → started true x ≡ some (neg 1, g) → Failed g
started-Failed none g e = cc
started-Failed (some none) g e = (cc, cc)
started-Failed (some (some o)) g e = cc

first-Failed :
    (p : Place) (x : Option (Option LogObj)) (g : Logging)
    → (if p.memory then started true x else some (neg 1, record { inited = true; log = none }))
      ≡ some (neg 1, g)
    → Failed g
first-Failed p x g e = elim (Bool-cases p.memory) [
  | inl m ↦ started-Failed x g (rw m at e)
  | inr m ↦ ground (arith, e)
]

-- After a call that has failed there is no log, and every further call returns 0 and changes nothing.
pub init_log_again :
    (p p' : Place) (buffer buffer' : ℕ → ℕ) (fn fn' : Text) (lines lines' : ℤ) (g : Logging)
    → p.thread ≡ true
    → init_log p buffer fn lines (record { inited = false; log = none }) ≡ some (neg 1, g)
    → (g.log ≡ none) × (init_log p' buffer' fn' lines' g ≡ some (pos 0, g))
unfolding init_log
init_log_again p p' buffer buffer' fn fn' lines lines' g th e =
    let (inited, log) =
      first-Failed p
        (open_log_file p.mtime fn lines (log_buff_new buffer default_log_buf_size) p.keep_days
          p.disk)
        g (rw th at e) in
    (log, rw (inited, init_log) refl)
