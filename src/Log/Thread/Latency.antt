-- ===== src/Log/Thread/Latency.antt =====
-- How long the log thread of src/utils/src/MBT_log.c lets bytes wait.
use native.Mathlib.Nat.{suc-mul}
use mathlib.Core.Path.{ap₂}
use modbus_things.Base.{
  true, Bool, ℕ, suc, ◌+◌, ◌*◌, ◌≤◌, ◌<◌, ◌≡◌, refl, sym, ap, subst, ◌∙◌, ◌⊎◌, inl, inr, false,
  ◌&&◌, some, List, [], ◌∷◌, ◌++◌, arith, append-nil, ltb, ◌==◌, Bool-cases, length, take,
}
use modbus_things.Base.Text.{Text}
use modbus_things.Log.{LogBuff, do_write_log, log_max_wait_msec, max_log_interval}
use modbus_things.Log.Ring.{contents, waiting}
use modbus_things.Log.Flush.{zero_waits, no_contents, Flushed, do_write_log_flushes}
use modbus_things.Log.History.{flush, event, history, then_event, history_ends, IsOpen}
use modbus_things.Log.Thread.Sleeps.{Slept, slept, told_after}
use modbus_things.Log.Thread.{Step, is_stopped, events, async_output_log, turn_goes_on}

-- the test by which a round lets the bytes wait
abbrev waits_on : LogBuff → Bool
waits_on s =
    ltb (waiting s) s.min_buff_size && ltb (s.last_duration + s.write_interval) log_max_wait_msec

full_or_late :
    (s : LogBuff)
    → waits_on s ≡ false
    → (s.min_buff_size ≤ waiting s) ⊎ (log_max_wait_msec ≤ s.last_duration + s.write_interval)
full_or_late s q = ground arith

not_late :
    (s : LogBuff) → waits_on s ≡ true → s.last_duration + s.write_interval < log_max_wait_msec
not_late s q = ground arith

-- A round writes all, or leaves the interval as it was and counts it.
round_lem :
    (s s' : LogBuff)
    → do_write_log s ≡ some s'
    → Flushed s s'
    → (contents s' ≡ [])
      ⊎ ((s'.last_duration ≡ s.last_duration + s.write_interval)
          × (s'.write_interval ≡ s.write_interval)
          × (s.last_duration + s.write_interval < log_max_wait_msec))
unfolding do_write_log
round_lem s s' e f = elim (Bool-cases (s.buff_start == s.buff_end)) [
  | inl p ↦
      let z : record s { write_interval = max_log_interval } ≡ s' = cc (rw p at e) in
      inl (
        subst (λ r. contents r ≡ []) z
          (no_contents (record s { write_interval = max_log_interval }) (zero_waits s p)))
  | inr p ↦ elim (Bool-cases (waits_on s)) [
    | inl q ↦
        let z : record s { last_duration = s.last_duration + s.write_interval } ≡ s' =
          cc (rw (p, q) at e) in
        inr (
          subst
            (λ r.
              (r.last_duration ≡ s.last_duration + s.write_interval)
              × (r.write_interval ≡ s.write_interval)
              × (s.last_duration + s.write_interval < log_max_wait_msec))
            z (refl, refl, not_late s q))
    | inr q ↦ inl (f.all (full_or_late s q))
  ]
]

-- Some turn has written all that waited, with what was told by then.
record CaughtUp (ns : List (List Step)) (s : LogBuff) : Type 0 where
  turns : ℕ
  in_time : turns ≤ length ns
  text : Text
  last : LogBuff
  runs : async_output_log (take turns ns) s ≡ some (false, last)
  told : history (events (take turns ns)) s ≡ some (text, last)
  empty : contents last ≡ []

-- A turn before the others.
Turned : List Step → LogBuff → LogBuff → Type 0
Turned n s s2 =
    (async : (ns : List (List Step)) → async_output_log (n ∷ ns) s ≡ async_output_log ns s2)
    × (t : Text) × ((ns : List (List Step))
        → history (events (n ∷ ns)) s ≡ then_event (some (t, s2)) (history (events ns)))

do_write_log-Turned :
    (n : List Step) (s s2 : LogBuff) (z : Slept n s)
    → do_write_log z.after ≡ some s2
    → s2.stop ≡ false
    → Turned n s s2
unfolding Turned events history
do_write_log-Turned n s s2 z e o = (
  λ ns. turn_goes_on n ns s z.after s2 z.runs e o,
  z.text ++ [],
  λ ns.
      z.told (flush ∷ events ns)
      ∙ told_after z.text [] z.after s2 (history (flush ∷ events ns)) (history (events ns))
          (rw (e, event) refl),
)

CaughtUp-now :
    (n : List Step) (ns : List (List Step)) (s s2 : LogBuff)
    → Turned n s s2
    → contents s2 ≡ []
    → CaughtUp (n ∷ ns) s
unfolding Turned async_output_log history events
CaughtUp-now n ns s s2 (a, t, h) c = record {
  turns = 1;
  in_time = omega arith;
  text = t ++ [];
  last = s2;
  runs = a [];
  told = h [];
  empty = c;
}

CaughtUp-later :
    (n : List Step) (ns : List (List Step)) (s s2 : LogBuff)
    → Turned n s s2
    → CaughtUp ns s2
    → CaughtUp (n ∷ ns) s
unfolding Turned
CaughtUp-later n ns s s2 (a, t, h) c = record {
  turns = suc c.turns;
  in_time = omega (arith, c.in_time);
  text = t ++ c.text;
  last = c.last;
  runs = a (take c.turns ns) ∙ c.runs;
  told = h (take c.turns ns) ∙ rw (c.told, then_event) refl;
  empty = c.empty;
}

-- The time of the turns that are left, after one of them.
time_left :
    (d w l d' w' : ℕ)
    → log_max_wait_msec ≤ d + suc l * w
    → d' ≡ d + w
    → w' ≡ w
    → log_max_wait_msec ≤ d' + l * w'
time_left d w l d' w' b e f = rw (e, f) (omega (arith, b, suc-mul l w))

catches_up :
    (ns : List (List Step)) (s : LogBuff)
    → IsOpen s
    → is_stopped ns ≡ false
    → s.last_duration < log_max_wait_msec
    → log_max_wait_msec ≤ s.last_duration + length ns * s.write_interval
    → CaughtUp ns s
catches_up [] s o h l b = absurd (omega (arith, b, l))
catches_up (n ∷ ns) s o h l b =
    let z = slept n s o (ground arith) in
    let (s2, e, f) = do_write_log_flushes z.after z.is_open.valid z.is_open.threshold in
    let o2 : IsOpen s2 = record {
      valid = f.valid;
      on = f.stop ∙ z.is_open.on;
      threshold = ground (arith, f.min_size, z.is_open.threshold);
    } in
    let r = do_write_log-Turned n s s2 z e o2.on in
    elim (round_lem z.after s2 e f) [
      | inl c ↦ CaughtUp-now n ns s s2 r c
      | inr (d, w, m) ↦ CaughtUp-later n ns s s2 r (
          catches_up ns s2 o2 (ground arith) (omega (arith, d, m)) (
            time_left s.last_duration s.write_interval (length ns) s2.last_duration
              s2.write_interval b (d ∙ ap₂ (λ a c. a + c) z.clock.0 z.clock.1) (w ∙ z.clock.1)))
    ]

-- From an open, well-formed ring, and while the log is not stopped, the log thread writes whatever
-- waits within a second of sleeps: of any turns that last that long at the interval in use, counted
-- from the last write, one leaves the ring empty and open, whatever lines come in between. The file
-- is then what it was, with what waited and all that the lines until then have logged behind it, in
-- their order.
pub async_output_log_catches_up :
    (ns : List (List Step)) (s : LogBuff)
    → IsOpen s
    → is_stopped ns ≡ false
    → s.last_duration < log_max_wait_msec
    → log_max_wait_msec ≤ s.last_duration + length ns * s.write_interval
    → (turns : ℕ) × (t : Text) × (s' : LogBuff) × (turns ≤ length ns)
      × (async_output_log (take turns ns) s ≡ some (false, s'))
      × (history (events (take turns ns)) s ≡ some (t, s'))
      × IsOpen s'
      × (contents s' ≡ [])
      × (s'.file ≡ (s.file ++ contents s) ++ t)
async_output_log_catches_up ns s o h l b =
    let c = catches_up ns s o h l b in
    let (t, s1, e, g) = history_ends (events (take c.turns ns)) s o in
    let same_text : t ≡ c.text = cc (e, c.told) in
    let same_last : s1 ≡ c.last = cc (e, c.told) in
    (
      c.turns,
      c.text,
      c.last,
      c.in_time,
      c.runs,
      c.told,
      subst IsOpen same_last g.is_open,
      c.empty,
      sym (append-nil c.last.file)
          ∙ ap (λ r. c.last.file ++ r) (sym c.empty)
          ∙ ap (λ r. r.file ++ contents r) (sym same_last)
          ∙ g.total
          ∙ ap (λ r. (s.file ++ contents s) ++ r) same_text,
    )
