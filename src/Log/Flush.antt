-- ===== src/Log/Flush.antt =====
-- doWriteLog: what it writes to the file, and that it ends.
use native.Mathlib.Decide.{dec_lt}
use mathlib.Core.Path.{ap₂}
use modbus_things.Base.{
  ℕ, ◌+◌, ◌-◌, ◌≤◌, ◌<◌, ◌≡◌, ◌≢◌, refl, sym, ap, ◌∙◌, ◌⊎◌, inl, inr, true, false, ◌&&◌, some, [],
  ◌++◌, arith, ltb, ◌==◌, if◌then◌else◌, append-nil, Bool-cases,
}
use modbus_things.Base.Text.{Text}
use modbus_things.Log.{
  LogBuff, write_turn, write_loop, do_write_log, max_log_interval, log_max_wait_msec,
}
use modbus_things.Log.Ring.{IsValid, waiting, at_index, contents, wrap}
use modbus_things.Log.Tabulate.{tab, tab_eq, tab-append}

-- the bytes that the writes of a turn send to the file
abbrev sent : LogBuff → Text
sent s =
    if ltb s.buff_start s.buff_end
    then tab s.buffer s.buff_start (waiting s)
    else tab s.buffer s.buff_start (s.buff_size - s.buff_start) ++ tab s.buffer 0 s.buff_end

-- a turn of the loop that takes all that waits
abbrev turned : LogBuff → LogBuff
turned s = write_turn s s.buff_start s.buff_end (waiting s)

module _ (s : LogBuff) (v : IsValid s) where
  at_low :
      (k : ℕ) → s.buff_start + k < s.buff_size → s.buffer (s.buff_start + k) ≡ at_index s (0 + k)
  at_low k h = elim (wrap (s.buff_start + (0 + k)) s.buff_size (omega arith)) [
    | inl (p, e) ↦ ap s.buffer (omega arith)
    | inr (p, e) ↦ absurd (omega arith)
  ]

  at_high :
      (k : ℕ)
      → k < s.buff_end
      → s.buff_end < s.buff_start
      → s.buffer (0 + k) ≡ at_index s (s.buff_size - s.buff_start + k)
  at_high k h l =
      elim (wrap (s.buff_start + (s.buff_size - s.buff_start + k)) s.buff_size
        (omega (arith, v.start_in, v.end_in))) [
          | inl (p, e) ↦ absurd (omega (arith, v.start_in))
          | inr (p, e) ↦ ap s.buffer (omega (arith, v.start_in))
        ]

  sent-contents : s.buff_start ≢ s.buff_end → sent s ≡ contents s
  unfolding contents
  sent-contents ne = elim (dec_lt s.buff_start s.buff_end) [
    | yes p ↦
        let t : ltb s.buff_start s.buff_end ≡ true = ground arith in
        rw t (
          tab_eq s.buffer (at_index s) s.buff_start 0 (waiting s)
            λ k l. at_low k (ground (arith, v.end_in)))
    | no p ↦
        let t : ltb s.buff_start s.buff_end ≡ false = ground arith in
        let w : waiting s ≡ s.buff_size - s.buff_start + s.buff_end = ground (arith, v.start_in) in
        rw t (
          ap₂ ◌++◌
            (tab_eq s.buffer (at_index s) s.buff_start 0 (s.buff_size - s.buff_start)
              λ k l. at_low k (omega (arith, v.start_in)))
            (tab_eq s.buffer (at_index s) 0 (s.buff_size - s.buff_start) s.buff_end
              λ k l. at_high k l (omega arith))
          ∙ ap
              (λ i.
                tab (at_index s) 0 (s.buff_size - s.buff_start) ++ tab (at_index s) i s.buff_end)
              (omega arith)
          ∙ sym (tab-append (at_index s) 0 (s.buff_size - s.buff_start) s.buff_end)
          ∙ ap (tab (at_index s) 0) (sym w))
  ]

  start-turned : (turned s).buff_start ≡ s.buff_end
  start-turned =
      elim (wrap (s.buff_start + waiting s) s.buff_size (ground (arith, v.start_in, v.end_in))) [
        | inl (p, e) ↦ ground (arith, v.start_in, v.end_in)
        | inr (p, e) ↦ ground (arith, v.start_in, v.end_in)
      ]

  file-turned : s.buff_start ≢ s.buff_end → (turned s).file ≡ s.file ++ contents s
  file-turned ne = elim (Bool-cases (ltb s.buff_start s.buff_end)) [
    | inl e ↦ rw e (ap (λ r. s.file ++ r) ((rw e at (sent-contents ne))))
    | inr e ↦ rw e (ap (λ r. s.file ++ r) ((rw e at (sent-contents ne))))
  ]

  waiting-turned : waiting (turned s) ≡ 0
  waiting-turned = ground (arith, start-turned)

-- What a round of the log thread may do: it keeps the file and the waiting bytes together as they
-- were, and either leaves the ring or has written all of it; fewer bytes than the threshold wait then.
pub record Flushed (s s' : LogBuff) : Type 0 where
  pub valid : IsValid s'
  pub kept : s'.file ++ contents s' ≡ s.file ++ contents s
  pub size : s'.buff_size ≡ s.buff_size
  pub stop : s'.stop ≡ s.stop
  pub min_size : s'.min_buff_size ≡ s.min_buff_size
  pub all :
      (s.min_buff_size ≤ waiting s) ⊎ (log_max_wait_msec ≤ s.last_duration + s.write_interval)
      → contents s' ≡ []
  pub short : 0 < s.min_buff_size → waiting s' < s.min_buff_size
  pub lost : s'.lost_line ≡ s.lost_line

pub zero_waits : (s : LogBuff) → (s.buff_start == s.buff_end) ≡ true → waiting s ≡ 0
zero_waits s e = ground arith

pub no_contents : (s : LogBuff) → waiting s ≡ 0 → contents s ≡ []
unfolding contents tab
no_contents s e = rw e refl

abbrev restarted : LogBuff → LogBuff
restarted s = record s { last_duration = 0 }

same_contents : (s : LogBuff) → contents (restarted s) ≡ contents s
unfolding contents
same_contents s = refl

turned_ends :
    (s : LogBuff)
    → IsValid s
    → 0 < s.min_buff_size
    → ltb (waiting (turned s)) s.min_buff_size ≡ true
turned_ends s v m = rw (waiting-turned s v) (ground arith)

loop_once :
    (s : LogBuff)
    → IsValid s
    → 0 < s.min_buff_size
    → s.buff_start ≢ s.buff_end
    → write_loop 2 s s.buff_start s.buff_end (waiting s) ≡ some (turned s)
unfolding write_loop
loop_once s v m ne = rw (turned_ends s v m) refl

turned-Flushed :
    (s : LogBuff) → IsValid s → s.buff_start ≢ s.buff_end → Flushed s (turned (restarted s))
turned-Flushed s v ne =
    let r : LogBuff = restarted s in
    let w : IsValid r = record { start_in = v.start_in; end_in = v.end_in } in
    let none_left : contents (turned r) ≡ [] = no_contents (turned r) (waiting-turned r w) in
    record {
      valid = record { start_in = omega (arith, start-turned r w, v.end_in); end_in = v.end_in };
      kept =
          ap (λ t. (turned r).file ++ t) none_left
          ∙ append-nil (turned r).file
          ∙ file-turned r w ne
          ∙ ap (λ t. s.file ++ t) (same_contents s);
      size = refl;
      stop = refl;
      min_size = refl;
      all = λ h. none_left;
      short = λ m. omega (arith, waiting-turned r w, m);
      lost = refl;
    }

idle-Flushed :
    (s : LogBuff)
    → IsValid s
    → (s.buff_start == s.buff_end) ≡ true
    → Flushed s (record s { write_interval = max_log_interval })
unfolding contents
idle-Flushed s v e = record {
  valid = record { start_in = v.start_in; end_in = v.end_in };
  kept = refl;
  size = refl;
  stop = refl;
  min_size = refl;
  all = λ h. unfold tab in (rw (zero_waits s e) refl);
  short = λ m. omega (arith, zero_waits s e, m);
  lost = refl;
}

waiting-Flushed :
    (s : LogBuff)
    → IsValid s
    → (ltb (waiting s) s.min_buff_size
        && ltb (s.last_duration + s.write_interval) log_max_wait_msec)
      ≡ true
    → Flushed s (record s { last_duration = s.last_duration + s.write_interval })
unfolding contents
waiting-Flushed s v short = record {
  valid = record { start_in = v.start_in; end_in = v.end_in };
  kept = refl;
  size = refl;
  stop = refl;
  min_size = refl;
  all = λ h. absurd (ground arith);
  short = λ m. ground arith;
  lost = refl;
}

-- doWriteLog on a well-formed ring with a positive threshold ends. What is in the file and then in
-- the ring is together what it was, in order, and the ring stays well formed. It is empty after the
-- round if as many bytes as the threshold waited, or if the intervals since the last write come to
-- a second.
pub do_write_log_flushes :
    (s : LogBuff)
    → IsValid s
    → 0 < s.min_buff_size
    → (s' : LogBuff) × (do_write_log s ≡ some s') × Flushed s s'
unfolding do_write_log
do_write_log_flushes s v m = elim (Bool-cases (s.buff_start == s.buff_end)) [
  | inl e ↦ (record s { write_interval = max_log_interval }, rw e refl, idle-Flushed s v e)
  | inr ne ↦
      elim (Bool-cases (
        ltb (waiting s) s.min_buff_size
        && ltb (s.last_duration + s.write_interval) log_max_wait_msec)) [
          | inl short ↦ (
            record s { last_duration = s.last_duration + s.write_interval },
            rw (ne, short) refl,
            waiting-Flushed s v short,
          )
          | inr long ↦ (
            turned (restarted s),
            rw (ne, long)
                (loop_once (restarted s) (record { start_in = v.start_in; end_in = v.end_in }) m
                  (ground arith)),
            turned-Flushed s v (ground arith),
          )
        ]
]
