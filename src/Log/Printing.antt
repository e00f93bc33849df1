-- ===== src/Log/Printing.antt =====
-- MBT_printLog and MBT_closeLog of src/utils/src/MBT_log.c: a line, from its texts to the ring, and
-- the end of the log. The time stamp and the formatted message come from the C library; a message is
-- none where `vsnprintf` reports an error.
pub mod Lines
use modbus_things.Base.{
  ℕ, zero, suc, ◌+◌, ◌≤◌, ◌<◌, ◌≡◌, refl, inl, inr, Bool, true, false, not, ◌&&◌, Option, none,
  some, [], ◌∷◌, ◌++◌, ap, arith, leb, ltb, ◌==◌, if◌then◌else◌, length, length-append, take,
  length-take, take-all, Bool-cases,
}
use modbus_things.Base.Int.{is_pos, ltb_ℤ, inc32}
use modbus_things.Base.Text.{Text, last_byte, last_byte-append}
use modbus_things.Log.{LogBuff, push_log_buffer, do_write_log, log_max_wait_msec}
use modbus_things.Log.Ring.{IsValid, waiting, contents}
use modbus_things.Log.Rotation.{LogObj, open_new_log_file}

-- MAX_LOGLINE_CONTENT_SIZE, MAX_LOGLINE_SIZE and MAX_LOGLINE_BUFFER_SIZE
abbrev pub content_size : ℕ
content_size = 900

abbrev pub line_size : ℕ
line_size = 1000

abbrev pub line_buffer_size : ℕ
line_buffer_size = 1010

unfoldable pub zeros : ℕ → Text
zeros zero = []
zeros (suc n) = 0 ∷ zeros n

-- The bytes by which `len` grows for a message. An empty one, and an error, is copied by `strncpy`,
-- which fills up with zeros; of one that is too long, `vsnprintf` writes a zero as the last byte.
unfoldable pub message_bytes : Option Text → Text
message_bytes none = zeros content_size
message_bytes (some []) = zeros content_size
message_bytes (some (c ∷ m)) =
    if leb content_size (length (c ∷ m)) then take 899 (c ∷ m) ++ (0 ∷ []) else c ∷ m

-- the bytes that are written for it, with the zero at the end
abbrev pub message_room : Option Text → ℕ
message_room none = content_size
message_room (some []) = content_size
message_room (some (c ∷ m)) =
    if leb content_size (length (c ∷ m)) then content_size else length (c ∷ m) + 1

-- the line that `MBT_printLog` makes behind the time stamp and the flags; `none` is a write past
-- the end of `buffer`
unfoldable pub format_line : Text → Option Text → Option Text
format_line head msg =
    if leb (length head + message_room msg) line_buffer_size
    then some (take line_size (head ++ message_bytes msg) ++ (b'\n' ∷ []))
    else none

-- after the line is pushed: the count of lines, and whether a rotation is started
abbrev pub count_line : LogObj → Bool × LogObj
count_line o =
    let o' : LogObj = record o { lines = inc32 o.lines } in
    if is_pos o.max_lines
    then (if ltb_ℤ o'.max_lines o'.lines && not o'.open_in_progress
        then open_new_log_file o'
        else (false, o'))
    else (false, o)

-- `MBT_printLog` to the file; the code of the push is dropped.
unfoldable pub print_log : Text → Option Text → LogObj → Option (Bool × LogObj)
print_log head msg o = elim (format_line head msg) [
  | none ↦ none
  | some line ↦ elim (push_log_buffer o.handle line) [
    | none ↦ none
    | some (rc, h) ↦ some (count_line (record o { handle = h }))
  ]
]

-- `MBT_closeLog`, up to where the ring is freed: the log thread does one more round.
unfoldable pub close_log : LogObj → Option LogObj
close_log o = elim (do_write_log (record o.handle { stop = true })) [
  | none ↦ none
  | some h ↦ some (record o { handle = h })
]

length-zeros : (n : ℕ) → length (zeros n) ≡ n
unfolding zeros
length-zeros zero = refl
length-zeros (suc n) = omega (arith, length-zeros n)

length-message_bytes : (msg : Option Text) → length (message_bytes msg) ≤ content_size
unfolding message_bytes
length-message_bytes none = omega (arith, length-zeros content_size)
length-message_bytes (some []) = omega (arith, length-zeros content_size)
length-message_bytes (some (c ∷ m)) = elim (Bool-cases (leb content_size (length (c ∷ m)))) [
  | inl e ↦
      rw e
        (omega (arith, length-append {0} (take 899 (c ∷ m)) (0 ∷ []), length-take {0} 899 (c ∷ m)))
  | inr e ↦ rw e (ground arith)
]

room_bound : (msg : Option Text) → message_room msg ≤ content_size
room_bound none = omega arith
room_bound (some []) = omega arith
room_bound (some (c ∷ m)) = ground arith

short_message :
    (c : ℕ) (m : Text) → length (c ∷ m) < content_size → message_bytes (some (c ∷ m)) ≡ c ∷ m
unfolding message_bytes
short_message c m l = ground arith

pub format_line_lem :
    (head : Text) (msg : Option Text)
    → length head ≤ 110
    → (line : Text) × (format_line head msg ≡ some line)
      × (length line ≤ 1001)
      × (last_byte 0 line ≡ b'\n')
      × ((c : ℕ) (m : Text)
          → msg ≡ some (c ∷ m)
          → length (c ∷ m) < content_size
          → length head + length (c ∷ m) ≤ line_size
          → line ≡ (head ++ (c ∷ m)) ++ (b'\n' ∷ []))
unfolding format_line last_byte
format_line_lem head msg h =
    let fits : leb (length head + message_room msg) line_buffer_size ≡ true =
      ground (arith, room_bound msg) in
    (
      take line_size (head ++ message_bytes msg) ++ (b'\n' ∷ []),
      rw fits refl,
      omega (
        arith,
        length-append {0} (take line_size (head ++ message_bytes msg)) (b'\n' ∷ []),
        length-take {0} line_size (head ++ message_bytes msg),
      ),
      last_byte-append 0 b'\n' (take line_size (head ++ message_bytes msg)) [],
      whole,
    )
  where
    whole :
        (c : ℕ) (m : Text)
        → msg ≡ some (c ∷ m)
        → length (c ∷ m) < content_size
        → length head + length (c ∷ m) ≤ line_size
        → take line_size (head ++ message_bytes msg) ++ (b'\n' ∷ [])
          ≡ (head ++ (c ∷ m)) ++ (b'\n' ∷ [])
    whole c m e l k =
        rw (e, short_message c m l)
          (ap (λ r. r ++ (b'\n' ∷ []))
            (take-all line_size (head ++ (c ∷ m)) (omega (arith, length-append {0} head (c ∷ m)))))

last_round :
    (s : LogBuff)
    → (s.buff_start == s.buff_end) ≡ false
    → ltb (waiting s) s.min_buff_size ≡ true
    → ltb (s.last_duration + s.write_interval) log_max_wait_msec ≡ true
    → do_write_log (record s { stop = true })
      ≡ some (record s { stop = true; last_duration = s.last_duration + s.write_interval })
unfolding do_write_log
last_round s ne short soon = rw (ne, short, soon) refl

-- At the end of the log fewer bytes may wait than the threshold, and for less than a second. The
-- last round of the log thread then leaves them in the ring, which MBT_closeLog frees: the file does
-- not get them.
pub close_log_loses :
    (o : LogObj)
    → IsValid o.handle
    → 0 < waiting o.handle
    → waiting o.handle < o.handle.min_buff_size
    → o.handle.last_duration + o.handle.write_interval < log_max_wait_msec
    → (o' : LogObj) × (close_log o ≡ some o')
      × (o'.handle.file ≡ o.handle.file)
      × (contents o'.handle ≡ contents o.handle)
unfolding close_log contents
close_log_loses o v p m d =
    let ne : (o.handle.buff_start == o.handle.buff_end) ≡ false = ground arith in
    let short : ltb (waiting o.handle) o.handle.min_buff_size ≡ true = ground arith in
    let soon : ltb (o.handle.last_duration + o.handle.write_interval) log_max_wait_msec ≡ true =
      ground arith in
    (
      record o {
        handle = record o.handle {
          stop = true;
          last_duration = o.handle.last_duration + o.handle.write_interval;
        };
      },
      rw (last_round o.handle ne short soon, close_log) refl,
      refl,
      refl,
    )
