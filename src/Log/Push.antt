-- ===== src/Log/Push.antt =====
-- pushLogBuffer on each of its ways out.
use modbus_things.Base.{
  ℕ, ◌+◌, ◌≤◌, ◌<◌, ◌≡◌, refl, sym, ap, ◌∙◌, ◌⊎◌, inl, inr, false, some, [], ◌++◌, arith, leb, ltb,
  length, append_assoc, append-nil, length-append, Bool-cases,
}
use modbus_things.Base.Int.{pos, neg}
use modbus_things.Base.Text.{Text}
use modbus_things.Log.{
  LogBuff, copy_log_buffer, remain_size, lost_text, report_lost, push_log_buffer,
}
use modbus_things.Log.Ring.{IsValid, waiting, contents, copy_log_buffer_appends}

-- A push took the text `t`: the ring is well formed and holds it behind what it held.
pub record Took (s : LogBuff) (t : Text) (s' : LogBuff) : Type 0 where
  pub valid : IsValid s'
  pub added : contents s' ≡ contents s ++ t
  pub count : waiting s' ≡ waiting s + length t
  pub size : s'.buff_size ≡ s.buff_size
  pub file : s'.file ≡ s.file
  pub none_lost : s'.lost_line ≡ 0
  pub stop : s'.stop ≡ s.stop
  pub min_size : s'.min_buff_size ≡ s.min_buff_size

-- There is room for the line, and for the report of lost lines before it.
abbrev pub HasRoom : LogBuff → Text → Type 0
HasRoom s msg = length msg + length (lost_text s.lost_line) < remain_size s

pub no_report : (n : ℕ) → ltb 0 n ≡ false → lost_text n ≡ []
unfolding lost_text
no_report n h = rw h

reported :
    (s : LogBuff) (msg : Text)
    → IsValid s
    → HasRoom s msg
    → (s' : LogBuff) × (report_lost s ≡ some s') × Took s (lost_text s.lost_line) s'
reported s msg v room = elim (Bool-cases (ltb 0 s.lost_line)) [
  | inl lost ↦
      let (s', e, v', c, w, z, f, l, st, mn) =
        copy_log_buffer_appends s (lost_text s.lost_line) v (ground arith) in
      (
        record s' { lost_line = 0 },
        rw (lost, e),
        record {
          valid = record { start_in = v'.start_in; end_in = v'.end_in };
          added = unfold contents in c;
          count = w;
          size = z;
          file = f;
          none_lost = refl;
          stop = st;
          min_size = mn;
        },
      )
  | inr fine ↦ (
    s,
    rw fine,
    record {
      valid = v;
      added =
          sym (ap (λ r. contents s ++ r) (no_report s.lost_line fine) ∙ append-nil (contents s));
      count = omega (arith, ap length (no_report s.lost_line fine));
      size = refl;
      file = refl;
      none_lost = ground arith;
      stop = refl;
      min_size = refl;
    },
  )
]

-- pushLogBuffer where there is room: it returns 0, stays inside the buffer, and the ring takes the
-- report of the lines that were lost, if any were, and then the line. None are lost any more.
pub push_log_buffer_takes :
    (s : LogBuff) (msg : Text)
    → IsValid s
    → s.stop ≡ false
    → HasRoom s msg
    → (s' : LogBuff) × (push_log_buffer s msg ≡ some (pos 0, s'))
      × Took s (lost_text s.lost_line ++ msg) s'
unfolding push_log_buffer
push_log_buffer_takes s msg v on room =
    let (s1, e1, t1) = reported s msg v room in
    let (s2, e2, v2, c2, w2, z2, f2, l2, st2, mn2) =
      copy_log_buffer_appends s1 msg t1.valid (ground (arith, t1.count, t1.size)) in
    (
      s2,
      pushed s1 s2 e1 e2,
      record {
        valid = v2;
        added =
            c2
            ∙ ap (λ r. r ++ msg) t1.added
            ∙ append_assoc (contents s) (lost_text s.lost_line) msg;
        count = omega (arith, w2, t1.count, length-append {0} (lost_text s.lost_line) msg);
        size = z2 ∙ t1.size;
        file = f2 ∙ t1.file;
        none_lost = l2 ∙ t1.none_lost;
        stop = st2 ∙ t1.stop;
        min_size = mn2 ∙ t1.min_size;
      },
    )
  where
    pushed :
        (s1 s2 : LogBuff)
        → report_lost s ≡ some s1
        → copy_log_buffer s1 s1.buff_start s1.buff_end msg ≡ some s2
        → push_log_buffer s msg ≡ some (pos 0, s2)
    pushed s1 s2 e1 e2 =
        let a : leb (remain_size s) (length msg) ≡ false = ground arith in
        let b : leb (remain_size s) (length msg + length (lost_text s.lost_line)) ≡ false =
          ground arith in
        ground (arith, e1, e2, a, b)

-- Where there is no room, for the line or for the report with it, it returns -1, counts one more
-- lost line and changes nothing else.
pub push_log_buffer_drops :
    (s : LogBuff) (msg : Text)
    → s.stop ≡ false
    → (remain_size s ≤ length msg)
      ⊎ ((0 < s.lost_line) × (remain_size s ≤ length msg + length (lost_text s.lost_line)))
    → push_log_buffer s msg ≡ some (neg 1, record s { lost_line = s.lost_line + 1 })
unfolding push_log_buffer
push_log_buffer_drops s msg on h = ground arith
