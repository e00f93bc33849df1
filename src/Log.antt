-- ===== src/Log.antt =====
-- src/utils/src/MBT_log.c: the ring of log bytes and the thread that writes it to the file. The lock of
-- `pushLogBuffer` makes a push one step; a round of `doWriteLog` is one step too, between pushes.
pub mod Tabulate
pub mod Ring
pub mod Push
pub mod Flush
pub mod History
pub mod Lost
pub mod Rotation
pub mod Printing
pub mod Start
pub mod Life
pub mod Thread
pub mod Tests
use modbus_things.Base.{
  ℕ, zero, suc, ◌+◌, ◌-◌, ◌*◌, ◌/◌, ◌%◌, Bool, true, false, ◌&&◌, ◌||◌, Option, none, some, List,
  [], ◌∷◌, ◌++◌, leb, ltb, ◌==◌, if◌then◌else◌, length, take, drop,
}
use modbus_things.Base.Int.{ℤ, pos, neg}
use modbus_things.Base.Text.{Text, codes}
use modbus_things.Base.Decimal.{digits}
use Tabulate.{tab, byte}

abbrev pub max_log_interval : ℕ
max_log_interval = 25

abbrev pub min_log_interval : ℕ
min_log_interval = 5

abbrev pub log_interval_step : ℕ
log_interval_step = 5

abbrev pub log_max_wait_msec : ℕ
log_max_wait_msec = 1000

-- `SLogBuff`, the bytes that its file has been given, and the static counters of the two functions
pub record LogBuff : Type 0 where
  pub buffer : ℕ → ℕ
  pub buff_start : ℕ
  pub buff_end : ℕ
  pub buff_size : ℕ
  pub min_buff_size : ℕ
  pub stop : Bool
  pub file : Text
  pub lost_line : ℕ
  pub write_interval : ℕ
  pub last_duration : ℕ

-- `logBuffNew`, where memory is there
unfoldable pub log_buff_new : (ℕ → ℕ) → ℕ → LogBuff
log_buff_new garbage size = record {
  buffer = garbage;
  buff_start = 0;
  buff_end = 0;
  buff_size = size;
  min_buff_size = size / 10;
  stop = false;
  file = [];
  lost_line = 0;
  write_interval = 25;
  last_duration = 0;
}

-- `memcpy(buffer + at, msg, …)`
abbrev pub copy_bytes : (ℕ → ℕ) → ℕ → Text → ℕ → ℕ
copy_bytes b at msg i = if leb at i && ltb i (at + length msg) then byte msg (i - at) else b i

-- the copy, undefined past the end of the buffer
abbrev pub copy_at : LogBuff → ℕ → Text → Option LogBuff
copy_at s at msg =
    if leb (at + length msg) s.buff_size
    then some (record s { buffer = copy_bytes s.buffer at msg })
    else none

abbrev pub move_end : ℕ → LogBuff → LogBuff
move_end n s = record s { buff_end = (s.buff_end + n) % s.buff_size }

abbrev pub then_copy : Option LogBuff → ℕ → Text → Option LogBuff
then_copy none at msg = none
then_copy (some s) at msg = copy_at s at msg

abbrev pub move_after : ℕ → Option LogBuff → Option LogBuff
move_after n none = none
move_after n (some s) = some (move_end n s)

-- `copyLogBuffer`
unfoldable pub copy_log_buffer : LogBuff → ℕ → ℕ → Text → Option LogBuff
copy_log_buffer s start end msg = move_after (length msg) (
    if ltb end start
    then copy_at s end msg
    else (if ltb (s.buff_size - end) (length msg)
        then then_copy (copy_at s end (take (s.buff_size - end) msg)) 0
            (drop (s.buff_size - end) msg)
        else copy_at s end msg))

-- the room that `pushLogBuffer` sees
abbrev pub remain_size : LogBuff → ℕ
remain_size s =
    if ltb s.buff_end s.buff_start
    then s.buff_start - s.buff_end - 1
    else s.buff_start + s.buff_size - s.buff_end - 1

-- "...Lost %lld lines here...\n"
unfoldable pub lost_text : ℕ → Text
lost_text n = if ltb 0 n then codes "...Lost " ++ (digits n ++ codes " lines here...\n") else []

abbrev pub report_lost : LogBuff → Option LogBuff
report_lost s =
    if ltb 0 s.lost_line
    then (elim (copy_log_buffer s s.buff_start s.buff_end (lost_text s.lost_line)) [
      | none ↦ none
      | some s' ↦ some (record s' { lost_line = 0 })
    ])
    else some s

abbrev pub then_push : Option LogBuff → Text → Option (ℤ × LogBuff)
then_push none msg = none
then_push (some s) msg = elim (copy_log_buffer s s.buff_start s.buff_end msg) [
  | none ↦ none
  | some s' ↦ some (pos 0, s')
]

-- `pushLogBuffer`; `none` is a write outside the buffer.
unfoldable pub push_log_buffer : LogBuff → Text → Option (ℤ × LogBuff)
push_log_buffer s msg =
    if s.stop
    then some (neg 1, s)
    else (if leb (remain_size s) (length msg)
          || (ltb 0 s.lost_line
              && leb (remain_size s) (length msg + length (lost_text s.lost_line)))
        then some (neg 1, record s { lost_line = s.lost_line + 1 })
        else then_push (report_lost s) msg)

-- `getLogRemainSize`: the bytes that wait
abbrev pub get_log_remain_size : LogBuff → ℕ → ℕ → ℕ
get_log_remain_size s start end = if leb start end then end - start else s.buff_size + end - start

-- the interval after a write of `poll` bytes
abbrev pub next_interval : LogBuff → ℕ → ℕ
next_interval s poll =
    if ltb poll s.min_buff_size
    then (if ltb s.write_interval max_log_interval
        then s.write_interval + log_interval_step
        else s.write_interval)
    else (if ltb (s.buff_size / 3) poll
        then min_log_interval
        else (if ltb (s.buff_size / 4) poll && ltb min_log_interval s.write_interval
            then s.write_interval - log_interval_step
            else s.write_interval))

-- the writes of one turn of the loop, and what follows them
abbrev pub write_turn : LogBuff → ℕ → ℕ → ℕ → LogBuff
write_turn s start end poll = record s {
  file =
      if ltb start end
      then s.file ++ tab s.buffer start poll
      else s.file ++ (tab s.buffer start (s.buff_size - start) ++ tab s.buffer 0 end);
  write_interval = next_interval s poll;
  buff_start = (s.buff_start + poll) % s.buff_size;
}

-- the loop of `doWriteLog` from its writes on, with fuel
unfoldable pub write_loop : ℕ → LogBuff → ℕ → ℕ → ℕ → Option LogBuff
write_loop zero s start end poll = none
write_loop (suc f) s start end poll =
    let s' = write_turn s start end poll in
    let poll' = get_log_remain_size s' s'.buff_start s'.buff_end in
    let rest =
      write_loop f (record s' { write_interval = min_log_interval }) s'.buff_start s'.buff_end
        poll' in
    if ltb poll' s'.min_buff_size then some s' else rest

-- `doWriteLog`
unfoldable pub do_write_log : LogBuff → Option LogBuff
unfolding write_loop
do_write_log s =
    let poll = get_log_remain_size s s.buff_start s.buff_end in
    let waited = s.last_duration + s.write_interval in
    if s.buff_start == s.buff_end
    then some (record s { write_interval = max_log_interval })
    else (if ltb poll s.min_buff_size && ltb waited log_max_wait_msec
        then some (record s { last_duration = waited })
        else write_loop 2 (record s { last_duration = 0 }) s.buff_start s.buff_end poll)
