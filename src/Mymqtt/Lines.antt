-- ===== src/Mymqtt/Lines.antt =====
-- do_dump of src/port/src/mymqtt/portMqtt.c, one message behind the other.
use native.Mathlib.Nat.{add-zero}
use modbus_things.Base.{
  ℕ, ◌+◌, ◌≤◌, ◌≡◌, refl, ap, sym, ◌∙◌, some, List, [], ◌∷◌, ◌++◌, arith, length, take, drop,
  length-append, length-take, take-append, take-all, append_assoc, append-nil,
}
use modbus_things.Base.Text.{Text}
use modbus_things.Mqtt.{Telemetry}
use modbus_things.Mqtt.Bytes.{Buffer, memcpy-ok, overlay, length-overlay}
use modbus_things.Mymqtt.{do_dump}

-- The messages, each with a newline behind it.
unfoldable pub lines : List Telemetry → Text
lines [] = []
lines (m ∷ ms) = (m.msg ++ (b'\n' ∷ [])) ++ lines ms

-- The dumps of the messages, each where the one before ended: the bytes counted and the buffer.
unfoldable pub dump_lines : List Telemetry → ℕ → Buffer → ℕ × Buffer
dump_lines [] off buf = (0, buf)
dump_lines (m ∷ ms) off buf =
    let r = do_dump m off buf in let rest = dump_lines ms (off + r.0) r.1 in (r.0 + rest.0, rest.1)

-- The bytes up to the end of a message that is written into the buffer.
line_written :
    (buf : List ℕ) (off : ℕ) (msg : Text)
    → off + (length msg + 2) ≤ length buf
    → take (off + (length msg + 1)) (overlay buf off (msg ++ (b'\n' ∷ 0 ∷ [])) (length msg + 2))
      ≡ take off buf ++ (msg ++ (b'\n' ∷ []))
unfolding overlay
line_written buf off msg h =
    let front = take off buf ++ (msg ++ (b'\n' ∷ [])) in
    let behind = drop (off + (length msg + 2)) buf in
    let w = msg ++ (b'\n' ∷ 0 ∷ []) in
    let all : take (length msg + 2) w ≡ w =
      take-all (length msg + 2) w (omega (arith, length-append msg (b'\n' ∷ 0 ∷ []))) in
    let split : take off buf ++ (w ++ behind) ≡ front ++ (0 ∷ behind) =
      ap (λ r. take off buf ++ r)
        (append_assoc msg (b'\n' ∷ 0 ∷ []) behind
          ∙ sym (append_assoc msg (b'\n' ∷ []) (0 ∷ behind)))
      ∙ sym (append_assoc (take off buf) (msg ++ (b'\n' ∷ [])) (0 ∷ behind)) in
    let size : off + (length msg + 1) ≡ length front = omega (
      arith,
      h,
      length-append (take off buf) (msg ++ (b'\n' ∷ [])),
      length-append msg (b'\n' ∷ []),
      length-take off buf,
    ) in
    rw (all, split, size) (take-append front (0 ∷ behind))

length-line : (m : Telemetry) → length (m.msg ++ (b'\n' ∷ [])) ≡ length m.msg + 1
length-line m = omega (arith, length-append m.msg (b'\n' ∷ []))

-- The dumps of any messages, one behind the other, stay inside the buffer if it has room for the
-- lines and the NUL behind the last. They count the bytes of the lines without the NUL, and leave
-- the lines in the buffer, in order, behind what was there before `off`.
pub dump_lines_lem :
    (ms : List Telemetry) (off : ℕ) (buf : List ℕ)
    → off + length (lines ms) + 1 ≤ length buf
    → (out : List ℕ) × (dump_lines ms off (some buf) ≡ (length (lines ms), some out))
      × (length out ≡ length buf)
      × (take (off + length (lines ms)) out ≡ take off buf ++ lines ms)
unfolding dump_lines lines do_dump
dump_lines_lem [] off buf h = (buf, refl, refl, rw (add-zero) (sym (append-nil (take off buf))))
dump_lines_lem (m ∷ ms) off buf h =
    let n = length m.msg + 1 in
    let w = m.msg ++ (b'\n' ∷ 0 ∷ []) in
    let room : off + (length m.msg + 2) ≤ length buf =
      omega (arith, h, length-append (m.msg ++ (b'\n' ∷ [])) (lines ms), length-line m) in
    let src : length m.msg + 2 ≤ length w = omega (arith, length-append m.msg (b'\n' ∷ 0 ∷ [])) in
    let same : length (overlay buf off w (length m.msg + 2)) ≡ length buf =
      length-overlay buf off w (length m.msg + 2) room src in
    let (out, e, l, t) =
      dump_lines_lem ms (off + n) (overlay buf off w (length m.msg + 2))
        (omega (arith, h, same, length-append (m.msg ++ (b'\n' ∷ [])) (lines ms), length-line m)) in
    let total : n + length (lines ms) ≡ length ((m.msg ++ (b'\n' ∷ [])) ++ lines ms) =
      omega (arith, length-append (m.msg ++ (b'\n' ∷ [])) (lines ms), length-line m) in
    (
      out,
      rw (memcpy-ok buf off w (length m.msg + 2) room src, e) (ap (λ k. (k, some out)) total),
      l ∙ same,
      ap (λ k. take k out) (omega (arith, sym total))
          ∙ t
          ∙ ap (λ r. r ++ lines ms) (line_written buf off m.msg room)
          ∙ append_assoc (take off buf) (m.msg ++ (b'\n' ∷ [])) (lines ms),
    )
