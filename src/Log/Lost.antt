-- ===== src/Log/Lost.antt =====
-- The reports of lost lines in src/utils/src/MBT_log.c, against a count of the pushes that failed.
use modbus_things.Base.{
  ℕ, zero, suc, ◌+◌, ◌≡◌, refl, sym, ap, ◌∙◌, inl, inr, Option, none, some, List, [], ◌∷◌, ◌++◌,
  arith, if◌then◌else◌, append-nil, append_assoc,
}
use modbus_things.Base.Int.{ℤ, is_zero}
use modbus_things.Base.Text.{Text, codes}
use modbus_things.Base.Decimal.{digits}
use modbus_things.Log.{LogBuff, lost_text, push_log_buffer, do_write_log}
use modbus_things.Log.Ring.{contents}
use modbus_things.Log.Push.{push_log_buffer_takes, push_log_buffer_drops}
use modbus_things.Log.Flush.{do_write_log_flushes}
use modbus_things.Log.History.{
  Event, line, flush, IsOpen, Logged, room_or_not, took-Logged, dropped-Logged, flushed-Logged,
}

-- the report of `n` lost lines
unfoldable pub report : ℕ → Text
report zero = []
report (suc n) = codes "...Lost " ++ (digits (suc n) ++ codes " lines here...\n")

lost_text-report : (n : ℕ) → lost_text n ≡ report n
unfolding lost_text report
lost_text-report zero = refl
lost_text-report (suc n) = ground arith

-- The text that is logged, the pushes that have failed since the last one that returned 0, and the ring.
abbrev pub Told : Type 0
Told = Option (Text × ℕ × LogBuff)

-- after a push that returned `rc`, before which `n` had failed
abbrev pub pushed : ℕ → Text → ℤ × LogBuff → Text × ℕ × LogBuff
pushed n msg (rc, s') = if is_zero rc then (report n ++ msg, 0, s') else ([], n + 1, s')

abbrev pub told : Event → ℕ → LogBuff → Told
told (line msg) n s = elim (push_log_buffer s msg) [ none ↦ none | some r ↦ some (pushed n msg r) ]
told flush n s = elim (do_write_log s) [ none ↦ none | some s' ↦ some ([], n, s') ]

abbrev pub then_told : Told → (ℕ → LogBuff → Told) → Told
then_told none k = none
then_told (some (t, n, s)) k = elim (k n s) [ none ↦ none | some (u, m, s') ↦ some (t ++ u, m, s') ]

-- The events one after the other, with the count.
unfoldable pub chronicle : List Event → ℕ → LogBuff → Told
chronicle [] n s = some ([], n, s)
chronicle (e ∷ es) n s = then_told (told e n s) (chronicle es)

abbrev Ends : LogBuff → Told → Type 0
Ends s r = (t : Text) × (s' : LogBuff) × (r ≡ some (t, s'.lost_line, s')) × Logged s t s'

told-Ends : (e : Event) (s : LogBuff) → IsOpen s → Ends s (told e s.lost_line s)
told-Ends flush s o =
    let (s', e, f) = do_write_log_flushes s o.valid o.threshold in
    ([], s', rw (e, told) (ap (λ n. some ([], n, s')) (sym f.lost)), flushed-Logged s s' o f)
told-Ends (line msg) s o = elim (room_or_not s msg) [
  | inl room ↦
      let (s', e, k) = push_log_buffer_takes s msg o.valid o.on room in
      (
        lost_text s.lost_line ++ msg,
        s',
        rw (e, told)
            (ap (λ t. some (t ++ msg, 0, s')) (sym (lost_text-report s.lost_line))
              ∙ ap (λ n. some (lost_text s.lost_line ++ msg, n, s')) (sym k.none_lost)),
        took-Logged s (lost_text s.lost_line ++ msg) s' o k,
      )
  | inr full ↦ (
    [],
    record s { lost_line = s.lost_line + 1 },
    rw (push_log_buffer_drops s msg o.on full, told) refl,
    dropped-Logged s o,
  )
]

-- From an open, well-formed ring that has lost `s.lost_line` lines, any lines and rounds of the log
-- thread, in any order, end with the ring open and well formed. The file with the bytes that still wait
-- is then what it was before, and behind it what was logged: in the order of the pushes, each line
-- whose push returned 0, and before it a report of as many lost lines as pushes have failed since the
-- last one that returned 0, if any have; and nothing of any other line. The ring's own count ends as
-- the number that have failed since the last one that returned 0.
pub chronicle_ends :
    (es : List Event) (s : LogBuff)
    → IsOpen s
    → (t : Text) × (s' : LogBuff) × (chronicle es s.lost_line s ≡ some (t, s'.lost_line, s'))
      × Logged s t s'
unfolding chronicle
chronicle_ends [] s o =
    ([], s, refl, record { is_open = o; total = sym (append-nil (s.file ++ contents s)) })
chronicle_ends (e ∷ es) s o =
    let (t, s1, p, l) = told-Ends e s o in
    let (u, s2, q, m) = chronicle_ends es s1 l.is_open in
    (
      t ++ u,
      s2,
      rw (p, then_told) (rw (q, then_told) refl),
      record {
        is_open = m.is_open;
        total = m.total ∙ ap (λ r. r ++ u) l.total ∙ append_assoc (s.file ++ contents s) t u;
      },
    )
