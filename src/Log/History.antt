-- ===== src/Log/History.antt =====
-- Lines and rounds of the log thread of src/utils/src/MBT_log.c in any order: what reaches the file.
use modbus_things.Base.{
  ◌+◌, ◌≤◌, ◌<◌, ◌≡◌, refl, sym, ap, ◌∙◌, ◌⊎◌, inl, inr, true, false, Option, none, some, List, [],
  ◌∷◌, ◌++◌, arith, ltb, if◌then◌else◌, length, append-nil, append_assoc, ltb→lt, Bool-cases,
}
use modbus_things.Base.Int.{ℤ, is_zero}
use modbus_things.Base.Text.{Text}
use modbus_things.Log.{LogBuff, lost_text, remain_size, push_log_buffer, do_write_log}
use modbus_things.Log.Ring.{IsValid, contents}
use modbus_things.Log.Push.{HasRoom, Took, no_report, push_log_buffer_takes, push_log_buffer_drops}
use modbus_things.Log.Flush.{Flushed, do_write_log_flushes}

-- a line of some thread, or a round of the log thread
pub data Event : Type 0 where
  line : Text → Event
  flush : Event

-- what is logged by a push that returned `rc`
abbrev pub logged : LogBuff → Text → ℤ × LogBuff → Text × LogBuff
logged s msg (rc, s') = (if is_zero rc then lost_text s.lost_line ++ msg else [], s')

-- One event: the text that is logged, and the ring after it.
abbrev pub event : Event → LogBuff → Option (Text × LogBuff)
event (line msg) s = elim (push_log_buffer s msg) [ none ↦ none | some r ↦ some (logged s msg r) ]
event flush s = elim (do_write_log s) [ none ↦ none | some s' ↦ some ([], s') ]

abbrev pub then_event :
    Option (Text × LogBuff) → (LogBuff → Option (Text × LogBuff)) → Option (Text × LogBuff)
then_event none k = none
then_event (some (t, s)) k = elim (k s) [ none ↦ none | some (u, s') ↦ some (t ++ u, s') ]

-- The events one after the other: all that is logged.
unfoldable pub history : List Event → LogBuff → Option (Text × LogBuff)
history [] s = some ([], s)
history (e ∷ es) s = then_event (event e s) (history es)

-- The ring is in use: it is well formed, open, and has a positive threshold.
pub record IsOpen (s : LogBuff) : Type 0 where
  pub valid : IsValid s
  pub on : s.stop ≡ false
  pub threshold : 0 < s.min_buff_size

-- An event is over, and has logged `t`.
pub record Logged (s : LogBuff) (t : Text) (s' : LogBuff) : Type 0 where
  pub is_open : IsOpen s'
  pub total : s'.file ++ contents s' ≡ (s.file ++ contents s) ++ t

abbrev pub Ends : LogBuff → Option (Text × LogBuff) → Type 0
Ends s r = (t : Text) × (s' : LogBuff) × (r ≡ some (t, s')) × Logged s t s'

pub room_or_not :
    (s : LogBuff) (msg : Text)
    → HasRoom s msg
      ⊎ ((remain_size s ≤ length msg)
          ⊎ ((0 < s.lost_line) × (remain_size s ≤ length msg + length (lost_text s.lost_line))))
room_or_not s msg =
    elim (Bool-cases (ltb (length msg + length (lost_text s.lost_line)) (remain_size s))) [
      | inl e ↦ inl (ground arith)
      | inr e ↦ inr (go (Bool-cases (ltb 0 s.lost_line)) (ground arith))
    ]
  where
    go :
        (ltb 0 s.lost_line ≡ true) ⊎ (ltb 0 s.lost_line ≡ false)
        → remain_size s ≤ length msg + length (lost_text s.lost_line)
        → (remain_size s ≤ length msg)
          ⊎ ((0 < s.lost_line) × (remain_size s ≤ length msg + length (lost_text s.lost_line)))
    go (inl p) h = inr (ltb→lt _ _ p, h)
    go (inr p) h = inl (omega (arith, h, ap length (no_report s.lost_line p)))

pub took-Logged : (s : LogBuff) (t : Text) (s' : LogBuff) → IsOpen s → Took s t s' → Logged s t s'
took-Logged s t s' o k = record {
  is_open = record {
    valid = k.valid;
    on = k.stop ∙ o.on;
    threshold = ground (arith, k.min_size, o.threshold);
  };
  total =
      ap (λ r. s'.file ++ r) k.added
      ∙ ap (λ r. r ++ (contents s ++ t)) k.file
      ∙ sym (append_assoc s.file (contents s) t);
}

pub dropped-Logged :
    (s : LogBuff) → IsOpen s → Logged s [] (record s { lost_line = s.lost_line + 1 })
unfolding contents
dropped-Logged s o = record {
  is_open = record {
    valid = record { start_in = o.valid.start_in; end_in = o.valid.end_in };
    on = o.on;
    threshold = o.threshold;
  };
  total = sym (append-nil (s.file ++ contents s));
}

pub flushed-Logged : (s s' : LogBuff) → IsOpen s → Flushed s s' → Logged s [] s'
flushed-Logged s s' o f = record {
  is_open = record {
    valid = f.valid;
    on = f.stop ∙ o.on;
    threshold = ground (arith, f.min_size, o.threshold);
  };
  total = f.kept ∙ sym (append-nil (s.file ++ contents s));
}

pub line-Ends : (s : LogBuff) (msg : Text) → IsOpen s → Ends s (event (line msg) s)
line-Ends s msg o = elim (room_or_not s msg) [
  | inl room ↦
      let (s', e, t) = push_log_buffer_takes s msg o.valid o.on room in
      (
        lost_text s.lost_line ++ msg,
        s',
        rw (e, event) refl,
        took-Logged s (lost_text s.lost_line ++ msg) s' o t,
      )
  | inr full ↦ (
    [],
    record s { lost_line = s.lost_line + 1 },
    rw (push_log_buffer_drops s msg o.on full, event) refl,
    dropped-Logged s o,
  )
]

flush-Ends : (s : LogBuff) → IsOpen s → Ends s (event flush s)
flush-Ends s o =
    let (s', e, f) = do_write_log_flushes s o.valid o.threshold in
    ([], s', rw (e, event) refl, flushed-Logged s s' o f)

event-Ends : (e : Event) (s : LogBuff) → IsOpen s → Ends s (event e s)
event-Ends (line msg) s o = line-Ends s msg o
event-Ends flush s o = flush-Ends s o

-- From an open ring, any lines and rounds of the log thread, in any order, end. The file with the
-- bytes that still wait is then what it was before, and behind it what was logged, in the order of the
-- pushes.
pub history_ends :
    (es : List Event) (s : LogBuff)
    → IsOpen s
    → (t : Text) × (s' : LogBuff) × (history es s ≡ some (t, s')) × Logged s t s'
unfolding history
history_ends [] s o =
    ([], s, refl, record { is_open = o; total = sym (append-nil (s.file ++ contents s)) })
history_ends (e ∷ es) s o =
    let (t, s1, p, l) = event-Ends e s o in
    let (u, s2, q, m) = history_ends es s1 l.is_open in
    (
      t ++ u,
      s2,
      rw (p, then_event) (rw (q, then_event) refl),
      record {
        is_open = m.is_open;
        total = m.total ∙ ap (λ r. r ++ u) l.total ∙ append_assoc (s.file ++ contents s) t u;
      },
    )
