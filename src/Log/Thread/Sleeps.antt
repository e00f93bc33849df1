-- ===== src/Log/Thread/Sleeps.antt =====
-- What the lines that come in while the log thread of src/utils/src/MBT_log.c sleeps leave alone.
use modbus_things.Base.{
  ℕ, ◌+◌, ◌≡◌, refl, sym, ap, subst, Option-cases, ◌∙◌, inl, inr, Bool, false, ◌&&◌, ◌||◌, Option,
  none, some, List, [], ◌∷◌, ◌++◌, arith, append_assoc, leb, ltb, Bool-cases, length,
}
use modbus_things.Base.Int.{ℤ}
use modbus_things.Base.Text.{Text}
use modbus_things.Log.{
  LogBuff, remain_size, report_lost, lost_text, then_push, push_log_buffer, copy_log_buffer,
}
use modbus_things.Log.History.{Event, event, history, then_event, logged, IsOpen, line-Ends}
use modbus_things.Log.Printing.Lines.{pushed}
use modbus_things.Log.Thread.{Step, push, stop_log, has_stop, sleep, sleep_events}

-- The two counters of the waits, the file and the interval are the same.
abbrev pub SameClock : LogBuff → LogBuff → Type 0
SameClock s s' = (s'.last_duration ≡ s.last_duration) × (s'.write_interval ≡ s.write_interval)

copy_log_buffer-SameClock :
    (s s' : LogBuff) (a b : ℕ) (msg : Text) → copy_log_buffer s a b msg ≡ some s' → SameClock s s'
unfolding copy_log_buffer
copy_log_buffer-SameClock s s' a b msg e = (ground arith, ground arith)

report_lost-SameClock : (s s' : LogBuff) → report_lost s ≡ some s' → SameClock s s'
report_lost-SameClock s s' e = elim (Bool-cases (ltb 0 s.lost_line)) [
  | inl p ↦
      elim (Option-cases (copy_log_buffer s s.buff_start s.buff_end (lost_text s.lost_line))) [
        | inl n ↦ absurd (cc (rw (p, n) at e))
        | inr (s1, q) ↦
            let c =
              copy_log_buffer-SameClock s s1 s.buff_start s.buff_end (lost_text s.lost_line) q in
            let z : record s1 { lost_line = 0 } ≡ s' = cc (rw (p, q) at e) in
            subst (SameClock s) z c
      ]
  | inr p ↦ let z : s ≡ s' = cc (rw p at e) in subst (SameClock s) z (refl, refl)
]

then_push-SameClock :
    (s s' : LogBuff) (msg : Text) (rc : ℤ)
    → then_push (report_lost s) msg ≡ some (rc, s')
    → SameClock s s'
then_push-SameClock s s' msg rc e = elim (Option-cases (report_lost s)) [
  | inl n ↦ cc (rw n at e)
  | inr (s1, p) ↦ elim (Option-cases (copy_log_buffer s1 s1.buff_start s1.buff_end msg)) [
    | inl n ↦ cc (rw (p, n, then_push) at e)
    | inr (s2, q) ↦
        let z : s2 ≡ s' = cc (rw (p, q, then_push) at e) in
        let (d, w) = report_lost-SameClock s s1 p in
        let (d', w') = copy_log_buffer-SameClock s1 s2 s1.buff_start s1.buff_end msg q in
        subst (SameClock s) z (d' ∙ d, w' ∙ w)
  ]
]

abbrev refuses : LogBuff → Text → Bool
refuses s msg =
    leb (remain_size s) (length msg)
    || (ltb 0 s.lost_line && leb (remain_size s) (length msg + length (lost_text s.lost_line)))

pub push_log_buffer-SameClock :
    (s s' : LogBuff) (msg : Text) (rc : ℤ)
    → push_log_buffer s msg ≡ some (rc, s')
    → s.stop ≡ false
    → SameClock s s'
unfolding push_log_buffer
push_log_buffer-SameClock s s' msg rc e o = elim (Bool-cases (refuses s msg)) [
  | inl p ↦
      let z : record s { lost_line = s.lost_line + 1 } ≡ s' = cc (rw (o, p) at e) in
      subst (SameClock s) z (refl, refl)
  | inr p ↦ then_push-SameClock s s' msg rc (simp (o, p) at e)
]

pub told_after :
    (t u : Text) (s s' : LogBuff) (h k : LogBuff → Option (Text × LogBuff))
    → h s ≡ then_event (some (u, s')) k
    → then_event (some (t, s)) h ≡ then_event (some (t ++ u, s')) k
told_after t u s s' h k e = elim (Option-cases (k s')) [
  | inl n ↦ let z : h s ≡ none = e ∙ rw (n, then_event) refl in rw (z, n, then_event) refl
  | inr ((v, s2), c) ↦
      let z : h s ≡ some (u ++ v, s2) = e ∙ rw (c, then_event) refl in
      rw (z, c, then_event) (ap (λ r. some (r, s2)) (sym (append_assoc t u v)))
]

-- What a sleep in which the log is not stopped leaves: the log is open, the clock has not moved, and
-- the events of the sleep log `text`.
pub record Slept (n : List Step) (s : LogBuff) : Type 0 where
  pub text : Text
  pub after : LogBuff
  pub runs : sleep n s ≡ some after
  pub is_open : IsOpen after
  pub clock : SameClock s after
  pub told :
      (k : List Event) → history (sleep_events n k) s ≡ then_event (some (text, after)) (history k)

nothing_told : (s : LogBuff) (k : List Event) → history k s ≡ then_event (some ([], s)) (history k)
nothing_told s k = elim (Option-cases (history k s)) [
  | inl n ↦ rw (n, then_event) refl
  | inr (r, e) ↦ rw (e, then_event) refl
]

pub slept : (n : List Step) (s : LogBuff) → IsOpen s → has_stop n ≡ false → Slept n s
unfolding sleep sleep_events history
slept [] s o h = record {
  text = [];
  after = s;
  runs = refl;
  is_open = o;
  clock = (refl, refl);
  told = nothing_told s;
}
slept (stop_log ∷ n) s o h = cc
slept (push t ∷ n) s o h =
    let (u, rc, s1, p, l) = pushed s t (line-Ends s t o) in
    let (d, w) = push_log_buffer-SameClock s s1 t rc p o.on in
    let r = slept n s1 l.is_open h in
    record {
      text = (logged s t (rc, s1)).0 ++ r.text;
      after = r.after;
      runs = rw (p, sleep) r.runs;
      is_open = r.is_open;
      clock = (r.clock.0 ∙ d, r.clock.1 ∙ w);
      told = λ k.
          rw (p, event)
            (told_after (logged s t (rc, s1)).0 r.text s1 r.after (history (sleep_events n k))
              (history k) (r.told k));
    }
