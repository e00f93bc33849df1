-- ===== src/Log/Thread.antt =====
-- asyncOutputLog of src/utils/src/MBT_log.c, the log thread: it sleeps, writes, and ends once the log is
-- stopped.
pub mod Sleeps
pub mod Latency
mod Tests
use modbus_things.Base.{
  subst, ◌<◌, ◌≡◌, refl, sym, ap, ◌∙◌, Bool, true, false, ◌||◌, Option, none, some, List, [], ◌∷◌,
  ◌++◌, arith, append-nil, append_assoc, if◌then◌else◌,
}
use modbus_things.Base.Int.{ℤ}
use modbus_things.Base.Text.{Text}
use modbus_things.Log.{LogBuff, push_log_buffer, do_write_log}
use modbus_things.Log.Ring.{contents, waiting}
use modbus_things.Log.Flush.{Flushed, do_write_log_flushes}
use modbus_things.Log.Printing.Lines.{pushed}
use modbus_things.Log.History.{
  Event, line, flush, event, history, then_event, logged, history_ends, IsOpen, Logged, line-Ends,
}

-- what the other threads do while the log thread sleeps: a push of a line, or `taosStopLog`
pub data Step : Type 0 where
  push : Text → Step
  stop_log : Step

-- One sleep of the thread; the codes of the pushes are dropped.
unfoldable pub sleep : List Step → LogBuff → Option LogBuff
sleep [] s = some s
sleep (push t ∷ ns) s = elim (push_log_buffer s t) [ none ↦ none | some r ↦ sleep ns r.1 ]
sleep (stop_log ∷ ns) s = sleep ns (record s { stop = true })

-- `asyncOutputLog`, for as many turns as there are sleeps: whether it has ended
unfoldable pub async_output_log : List (List Step) → LogBuff → Option (Bool × LogBuff)
async_output_log [] s = some (false, s)
async_output_log (n ∷ ns) s = elim (sleep n s) [
  | none ↦ none
  | some s1 ↦ elim (do_write_log s1) [
    | none ↦ none
    | some s2 ↦ elim (s2.stop) [ true ↦ some (true, s2) | false ↦ async_output_log ns s2 ]
  ]
]

-- The events of a sleep, and those that follow it; none follows a stop.
unfoldable pub sleep_events : List Step → List Event → List Event
sleep_events [] k = k
sleep_events (push t ∷ ns) k = line t ∷ sleep_events ns k
sleep_events (stop_log ∷ ns) k = []

-- the lines before the stop, and the rounds before that one in which the thread ends
unfoldable pub events : List (List Step) → List Event
events [] = []
events (n ∷ ns) = sleep_events n (flush ∷ events ns)

abbrev pub has_stop : List Step → Bool
has_stop [] = false
has_stop (push t ∷ ns) = has_stop ns
has_stop (stop_log ∷ ns) = true

abbrev pub is_stopped : List (List Step) → Bool
is_stopped [] = false
is_stopped (n ∷ ns) = has_stop n || is_stopped ns

abbrev stopped : LogBuff → LogBuff
stopped s = record s { stop = true }

-- A log that is stopped takes no line.
sleep-stopped : (ns : List Step) (s : LogBuff) → sleep ns (stopped s) ≡ some (stopped s)
unfolding sleep push_log_buffer
sleep-stopped [] s = refl
sleep-stopped (push t ∷ ns) s = sleep-stopped ns s
sleep-stopped (stop_log ∷ ns) s = sleep-stopped ns s

-- The thread has ended with `s'`; until the stop the log did what the events do.
pub record Ended (s : LogBuff) (es : List Event) (r : Option (Bool × LogBuff)) : Type 0 where
  pub text : Text
  pub last : LogBuff
  pub final : LogBuff
  pub before : history es s ≡ some (text, last)
  pub ends : r ≡ some (true, final)
  pub round : do_write_log (stopped last) ≡ some final
  pub is_open : IsOpen last

-- A turn, by what its round leaves.
turn_ends :
    (n : List Step) (ns : List (List Step)) (s s1 s2 : LogBuff)
    → sleep n s ≡ some s1
    → do_write_log s1 ≡ some s2
    → s2.stop ≡ true
    → async_output_log (n ∷ ns) s ≡ some (true, s2)
unfolding async_output_log
turn_ends n ns s s1 s2 e f h =
    rw (e, async_output_log) (rw (f, async_output_log) (simp (h, async_output_log)))

pub turn_goes_on :
    (n : List Step) (ns : List (List Step)) (s s1 s2 : LogBuff)
    → sleep n s ≡ some s1
    → do_write_log s1 ≡ some s2
    → s2.stop ≡ false
    → async_output_log (n ∷ ns) s ≡ async_output_log ns s2
unfolding async_output_log
turn_goes_on n ns s s1 s2 e f h =
    rw (e, async_output_log) (rw (f, async_output_log) (simp (h, async_output_log)))

last_turn :
    (n : List Step) (ns : List (List Step)) (s : LogBuff)
    → IsOpen s
    → Ended s [] (async_output_log ((stop_log ∷ n) ∷ ns) s)
unfolding sleep history
last_turn n ns s o =
    let (s', e, f) =
      do_write_log_flushes (stopped s)
        (record { start_in = o.valid.start_in; end_in = o.valid.end_in }) o.threshold in
    record {
      text = [];
      last = s;
      final = s';
      before = refl;
      ends = turn_ends (stop_log ∷ n) ns s (stopped s) s' (sleep-stopped n s) e f.stop;
      round = e;
      is_open = o;
    }

push_turn :
    (t : Text) (n : List Step) (ns : List (List Step)) (s s1 : LogBuff) (rc : ℤ)
    → push_log_buffer s t ≡ some (rc, s1)
    → async_output_log ((push t ∷ n) ∷ ns) s ≡ async_output_log (n ∷ ns) s1
unfolding async_output_log sleep
push_turn t n ns s s1 rc p = rw (p, async_output_log) refl

-- An event before the others.
Ended-cons :
    (e : Event) (es : List Event) (t : Text) (s s1 : LogBuff) (r : Option (Bool × LogBuff))
    → event e s ≡ some (t, s1)
    → Ended s1 es r
    → Ended s (e ∷ es) r
unfolding history
Ended-cons e es t s s1 r p d = record {
  text = t ++ d.text;
  last = d.last;
  final = d.final;
  before = rw (p, then_event) (rw (d.before, then_event) refl);
  ends = d.ends;
  round = d.round;
  is_open = d.is_open;
}

-- The rest of a sleep, with what follows it.
thread_ends :
    (n : List Step) (ns : List (List Step)) (s : LogBuff)
    → IsOpen s
    → is_stopped (n ∷ ns) ≡ true
    → Ended s (sleep_events n (flush ∷ events ns)) (async_output_log (n ∷ ns) s)
unfolding sleep_events events
thread_ends [] [] s o h = cc
thread_ends [] (m ∷ ns) s o h =
    let (s2, e, f) = do_write_log_flushes s o.valid o.threshold in
    let o2 : IsOpen s2 = record {
      valid = f.valid;
      on = f.stop ∙ o.on;
      threshold = ground (arith, f.min_size, o.threshold);
    } in
    let go : async_output_log ([] ∷ m ∷ ns) s ≡ async_output_log (m ∷ ns) s2 =
      turn_goes_on [] (m ∷ ns) s s s2 (unfold sleep in refl) e o2.on in
    Ended-cons flush (sleep_events m (flush ∷ events ns)) [] s s2 (async_output_log ([] ∷ m ∷ ns) s)
      (rw (e, event) refl) (rw go (thread_ends m ns s2 o2 h))
thread_ends (stop_log ∷ n) ns s o h = last_turn n ns s o
thread_ends (push t ∷ n) ns s o h =
    let (u, rc, s1, p, l) = pushed s t (line-Ends s t o) in
    Ended-cons (line t) (sleep_events n (flush ∷ events ns)) (logged s t (rc, s1)).0 s s1 _
      (rw (p, event) refl) (rw (push_turn t n ns s s1 rc p) (thread_ends n ns s1 l.is_open h))

ends_nonempty :
    (ns : List (List Step)) (s : LogBuff)
    → IsOpen s
    → is_stopped ns ≡ true
    → Ended s (events ns) (async_output_log ns s)
unfolding events
ends_nonempty [] s o h = cc
ends_nonempty (n ∷ ns) s o h = thread_ends n ns s o h

-- From an open, well-formed ring the log thread ends in the first turn in whose sleep the log is
-- stopped. What then stands in the file, with the bytes that its last round has left in the ring, is
-- what was there before, and behind it what the lines before the stop have logged, in their order:
-- of the lines that were taken, at most the last bytes, fewer than the threshold, are not in the
-- file. A line after the stop is not taken.
pub async_output_log_ends :
    (ns : List (List Step)) (s : LogBuff)
    → IsOpen s
    → is_stopped ns ≡ true
    → (final : LogBuff) × (t : Text) × (last : LogBuff) × (async_output_log ns s
        ≡ some (true, final))
      × (history (events ns) s ≡ some (t, last))
      × (final.file ++ contents final ≡ (s.file ++ contents s) ++ t)
      × (waiting final < final.min_buff_size)
unfolding contents
async_output_log_ends ns s o h =
    let d = ends_nonempty ns s o h in
    let (t, s1, e, l) = history_ends (events ns) s o in
    let same_text : t ≡ d.text = cc (e, d.before) in
    let same_last : s1 ≡ d.last = cc (e, d.before) in
    let (s2, e2, f) =
      do_write_log_flushes (stopped d.last)
        (record { start_in = d.is_open.valid.start_in; end_in = d.is_open.valid.end_in })
        d.is_open.threshold in
    let same2 : s2 ≡ d.final = cc (e2, d.round) in
    (
      d.final,
      d.text,
      d.last,
      d.ends,
      d.before,
      ap (λ r. r.file ++ contents r) (sym same2)
          ∙ f.kept
          ∙ ap (λ r. r.file ++ contents r) (sym same_last)
          ∙ l.total
          ∙ ap (λ r. (s.file ++ contents s) ++ r) same_text,
      subst (λ r. waiting r < r.min_buff_size) same2
          (omega (arith, f.short d.is_open.threshold, f.min_size)),
    )
