-- ===== src/Log/Printing/Lines.antt =====
-- MBT_printLog of src/utils/src/MBT_log.c as a whole: the line, the ring, and the start of a rotation.
use modbus_things.Base.{
  ◌≤◌, ◌≡◌, refl, sym, ap, subst, ◌∙◌, Bool, true, false, Option, none, some, arith, length,
  Option-cases, inl, inr,
}
use modbus_things.Base.Int.{ℤ, ltb_ℤ, inc32}
use modbus_things.Base.Text.{Text}
use modbus_things.Log.{LogBuff, push_log_buffer}
use modbus_things.Log.History.{line, event, logged, IsOpen, Logged, Ends, line-Ends}
use modbus_things.Log.Rotation.{LogObj, open_new_log_file}
use modbus_things.Log.Printing.{format_line_lem, count_line, print_log}

-- A push to a ring that is open ends, and what it leaves is what its event leaves.
pub pushed :
    (s : LogBuff) (msg : Text)
    → Ends s (event (line msg) s)
    → (t : Text) × (rc : ℤ) × (s' : LogBuff) × (push_log_buffer s msg ≡ some (rc, s'))
      × Logged s t s'
pushed s msg (t, s', e, l) = elim (Option-cases (push_log_buffer s msg)) [
  | inl p ↦ let fails : event (line msg) s ≡ none = rw (p, event) refl in absurd cc
  | inr ((rc, h), p) ↦
      let ends : event (line msg) s ≡ some (logged s msg (rc, h)) = rw (p, event) refl in
      let both : some (logged s msg (rc, h)) ≡ some (t, s') = sym ends ∙ e in
      let same : logged s msg (rc, h) ≡ (t, s') = cc in
      (t, rc, h, p, subst (Logged s t) (sym (ap (λ z. z.1) same)) l)
]

-- How the count of lines leaves the log: the ring is as it was, and a rotation is started only where
-- the lines have gone over their bound and none is on its way.
pub record Counted (o : LogObj) (start : Bool) (o' : LogObj) : Type 0 where
  pub handle : o'.handle ≡ o.handle
  pub files : (o'.log_name ≡ o.log_name) × (o'.flag ≡ o.flag) × (o'.fd_name ≡ o.fd_name)
  pub marked : start ≡ true → o'.open_in_progress ≡ true
  pub over : start ≡ true → ltb_ℤ o.max_lines (inc32 o.lines) ≡ true
  pub alone : start ≡ true → o.open_in_progress ≡ false

count_line-Counted : (o : LogObj) → Counted o (count_line o).0 (count_line o).1
unfolding open_new_log_file
count_line-Counted o = record {
  handle = ground arith;
  files = (ground arith, ground arith, ground arith);
  marked = λ e. ground arith;
  over = λ e. ground arith;
  alone = λ e. ground arith;
}

-- With an open, well-formed ring and at most 110 bytes of time stamp and flags, MBT_printLog of any
-- message ends, and the ring is open and well formed again. The file with the waiting bytes gets
-- something behind what it had, and nothing else changes in it, and the files keep their names. A rotation is started only where the
-- lines have gone over their bound and none is on its way, and is then marked as on its way.
pub print_log_lem :
    (head : Text) (msg : Option Text) (o : LogObj)
    → length head ≤ 110
    → IsOpen o.handle
    → (t : Text) × (start : Bool) × (o' : LogObj) × (print_log head msg o ≡ some (start, o'))
      × Logged o.handle t o'.handle
      × ((o'.log_name ≡ o.log_name) × (o'.flag ≡ o.flag) × (o'.fd_name ≡ o.fd_name))
      × (start ≡ true
          → (o'.open_in_progress ≡ true)
            × (ltb_ℤ o.max_lines (inc32 o.lines) ≡ true)
            × (o.open_in_progress ≡ false))
unfolding print_log
print_log_lem head msg o h open_ring =
    let (out, f, size, newline, whole) = format_line_lem head msg h in
    let (t, rc, s', p, l) = pushed o.handle out (line-Ends o.handle out open_ring) in
    let pushed_to : LogObj = record o { handle = s' } in
    let (start, o') = count_line pushed_to in
    let c : Counted pushed_to start o' = count_line-Counted pushed_to in
    (
      t,
      start,
      o',
      rw (f, p, print_log) refl,
      subst (Logged o.handle t) (sym c.handle) l,
      c.files,
      λ e. (c.marked e, c.over e, c.alone e),
    )
