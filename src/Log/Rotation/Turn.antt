-- ===== src/Log/Rotation/Turn.antt =====
-- A rotation of the log files: the bytes of the old file are kept, unless an earlier one has failed.
use modbus_things.Base.{
  ℕ, ◌+◌, ◌<◌, ◌≡◌, ◌⊎◌, inl, inr, refl, sym, ap, ◌∙◌, true, false, Option, some, [], ◌∷◌, ◌++◌,
  arith, ◌==◌, if◌then◌else◌, length, drop, drop-append, append-nil, take-all, Bool-cases, leb, ◌*◌,
}
use modbus_things.Base.Int.{pos}
use modbus_things.Base.Text.{Text, text_eq, text_eq→eq, text_eq_refl}
use modbus_things.Base.Decimal.{digits, digits_from, print_int}
use modbus_things.Disk.{Disk, update, rename}
use modbus_things.Disk.Old.{remove_old_log_files}
use modbus_things.Disk.Old.Names.{rotated, apart, remove_old_log_files_lem}
use modbus_things.Log.Ring.{contents}
use modbus_things.Log.Rotation.{
  LogObj, World, numbered, flip, keep_old_log, kept_name, log_dir, open_new_file,
}

-- The open file is the one that the flag says.
pub record IsCurrent (o : LogObj) : Type 0 where
  pub named : o.fd_name ≡ numbered o.log_name o.flag
  pub binary : (o.flag ≡ 0) ⊎ (o.flag ≡ 1)

flip-flip : (f : ℕ) → (f ≡ 0) ⊎ (f ≡ 1) → flip (flip f) ≡ f
flip-flip f h = ground arith

last_digit : (f : ℕ) → (f ≡ 0) ⊎ (f ≡ 1) → digits f ≡ (48 + f) ∷ []
unfolding digits digits_from
last_digit f (inl e) = rw e refl
last_digit f (inr e) = rw e refl

pub flip_binary : (f : ℕ) → (f ≡ 0) ⊎ (f ≡ 1) → (flip f ≡ 0) ⊎ (flip f ≡ 1)
flip_binary f h = ground arith

-- The two names are not the same.
numbered-flip :
    (base : Text) (f : ℕ)
    → (f ≡ 0) ⊎ (f ≡ 1)
    → text_eq (numbered base (flip f)) (numbered base f) ≡ false
numbered-flip base f h = elim (Bool-cases (text_eq (numbered base (flip f)) (numbered base f))) [
  | inr e ↦ e
  | inl e ↦
      let p : b'.' ∷ digits (flip f) ≡ b'.' ∷ digits f =
        sym (drop-append base (b'.' ∷ digits (flip f)))
        ∙ ap (drop (length base)) (text_eq→eq _ _ e)
        ∙ drop-append base (b'.' ∷ digits f) in
      absurd (ground (arith, p, last_digit f h, last_digit (flip f) (flip_binary f h)))
]

-- where the bytes of the old file are after a rotation that keeps files for `keep` days
abbrev pub kept_at : LogObj → ℕ → ℕ → Text
kept_at o keep sec = if keep == 0 then o.fd_name else rotated o.log_name sec false

keep_old_log-none : (w : World) (base old : Text) (d : Disk) → keep_old_log w (pos 0) base old d ≡ d
unfolding keep_old_log
keep_old_log-none w base old d = refl

keep_old_log-positive :
    (w : World) (keep : ℕ) (base old : Text) (d : Disk)
    → 0 < keep
    → keep_old_log w (pos keep) base old d
      ≡ remove_old_log_files w.now keep log_dir w.dir (rename old (kept_name base w.now) d).1
unfolding keep_old_log
keep_old_log-positive w keep base old d k =
    let z : (keep == 0) ≡ false = ground arith in
    let a : keep + 0 ≡ keep = omega arith in rw (z, a) refl

kept_name-rotated :
    (base : Text) (sec : ℕ)
    → length (rotated base sec false) < 320
    → kept_name base (pos sec) ≡ rotated base sec false
unfolding print_int
kept_name-rotated base sec l =
    let n = append-nil (base ++ (b'.' ∷ digits sec)) in
    take-all 319 _ (omega (arith, l, ap length n)) ∙ sym n

renamed :
    (old new c : Text) (d : Disk) → d.files old ≡ some c → (rename old new d).1.files new ≡ some c
renamed old new c d e = rw (e, rename) (rw (text_eq_refl new) refl)

-- A file that is kept has the time of the clock, and so it is not removed.
keep_old_log-some :
    (w : World) (keep sec : ℕ) (base old c : Text) (d : Disk)
    → 0 < keep
    → w.now ≡ pos sec
    → length (rotated base sec false) < 320
    → d.files old ≡ some c
    → (keep_old_log w (pos keep) base old d).files (rotated base sec false) ≡ some c
keep_old_log-some w keep sec base old c d k n l e =
    let young : leb (keep * 86400) (apart sec sec) ≡ false = ground arith in
    let name : kept_name base (pos sec) ≡ rotated base sec false = kept_name-rotated base sec l in
    rw
      (
        keep_old_log-positive w keep base old d k,
        n,
        name,
        remove_old_log_files_lem sec keep log_dir base sec false w.dir
            (rename old (rotated base sec false) d).1 (omega arith),
        young,
      )
      (ground (arith, renamed old (rotated base sec false) c d e))

old_kept :
    (w : World) (o : LogObj) (keep sec : ℕ) (d : Disk)
    → w.now ≡ pos sec
    → length (rotated o.log_name sec false) < 320
    → d.files o.fd_name ≡ some o.handle.file
    → (keep_old_log w (pos keep) o.log_name o.fd_name d).files (kept_at o keep sec)
      ≡ some o.handle.file
old_kept w o keep sec d n l e = elim (Bool-cases (keep == 0)) [
  | inl z ↦ let q : keep ≡ 0 = ground arith in rw (q, keep_old_log-none w o.log_name o.fd_name d) e
  | inr z ↦
      rw z (keep_old_log-some w keep sec o.log_name o.fd_name o.handle.file d (ground arith) n l e)
]

swapped :
    (fd new c : Text) (files : Text → Option Text)
    → text_eq new fd ≡ false
    → update (update files fd (some c)) new (some []) fd ≡ some c
swapped fd new c files h = rw (h, text_eq_refl fd) refl

-- A rotation goes on from the file of the log's flag, as it does where no earlier one has failed; it keeps
-- old files for `keep` days; its name with the time has fewer than 320 bytes; and its new file can be
-- opened. Then the bytes of the old file are kept, under its name or, if `keep` is not 0, under the name
-- with the time; the new file is the current one and empty; and the bytes that wait in the ring stay.
pub open_new_file_keeps :
    (w : World) (o : LogObj) (keep sec : ℕ)
    → IsCurrent o
    → o.keep_days ≡ pos keep
    → w.now ≡ pos sec
    → length (rotated o.log_name sec false) < 320
    → o.disk.can_open (numbered o.log_name (flip o.flag)) ≡ true
    → let o' = open_new_file w o in
      IsCurrent o'
      × (o'.disk.files (kept_at o keep sec) ≡ some o.handle.file)
      × (o'.handle.file ≡ [])
      × (contents o'.handle ≡ contents o.handle)
      × (o'.open_in_progress ≡ false)
unfolding open_new_file contents
open_new_file_keeps w o keep sec c k n l can = rw can (
  record { named = refl; binary = flip_binary o.flag c.binary },
  let back : numbered o.log_name (flip (flip o.flag)) ≡ o.fd_name =
        ap (numbered o.log_name) (flip-flip o.flag c.binary) ∙ sym c.named in
      let apart : text_eq (numbered o.log_name (flip o.flag)) o.fd_name ≡ false =
        rw c.named (numbered-flip o.log_name o.flag c.binary) in
      rw (k, back)
        (old_kept w o keep sec _ n l
          (swapped o.fd_name (numbered o.log_name (flip o.flag)) o.handle.file o.disk.files apart)),
  refl,
  refl,
  refl,
)

-- A rotation that cannot open its new file goes on with the old one, but with the other flag. The
-- next one that can then opens the file that is written to, and all of its bytes are lost.
pub open_new_file_loses :
    (w w' : World) (o : LogObj) (d : Disk)
    → IsCurrent o
    → o.keep_days ≡ pos 0
    → o.disk.can_open (numbered o.log_name (flip o.flag)) ≡ false
    → d.can_open o.fd_name ≡ true
    → let o' = open_new_file w' (record (open_new_file w o) { disk = d }) in
      ((open_new_file w o).handle ≡ o.handle)
      × (o'.fd_name ≡ o.fd_name)
      × (o'.handle.file ≡ [])
      × (o'.disk.files o.fd_name ≡ some [])
unfolding open_new_file
open_new_file_loses w w' o d c k can can' =
    let back : numbered o.log_name (flip (flip o.flag)) ≡ o.fd_name =
      ap (numbered o.log_name) (flip-flip o.flag c.binary) ∙ sym c.named in
    rw (can, back, can', k, keep_old_log-none w' o.log_name)
      (refl, refl, refl, rw (text_eq_refl o.fd_name) refl)
