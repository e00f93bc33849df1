-- ===== src/Mqtt/Dumping.antt =====
-- mqtt_dump_cached_data: what the dump of a full queue hands to the bulk service.
use native.Mathlib.Nat.{add-zero}
use modbus_things.Base.{
  ℕ, ◌+◌, ◌≤◌, ◌<◌, ◌^◌, ◌≡◌, refl, true, false, some, List, [], ◌∷◌, arith, ltb, if◌then◌else◌,
  length, ok, Bool-cases, inl, inr, le→ltb_false, ◌∙◌, ap,
}
use modbus_things.Base.Int.{pos, neg}
use modbus_things.Queue.{Ptr, Queue, sub_size}
use modbus_things.Queue.Chain.{msgs, length-msgs}
use modbus_things.Queue.Fifo.{IsValid}
use modbus_things.Queue.Dump.{dump_all, dump_limit_refines, Left}
use modbus_things.Mqtt.{Telemetry, do_dump, mqtt_dump_cached_data}
use modbus_things.Mqtt.Bytes.{Buffer, memcpy, memcpy-ok, overlay, length-overlay}

-- Each message fits in the limit, and its `size` bytes are there to read.
abbrev pub AllFit : ℕ → List Telemetry → Type 0
AllFit limit [] = Unit
AllFit limit (m ∷ ms) = ((m.size ≤ limit) × (m.size ≤ length m.msg)) × AllFit limit ms

-- the messages from the first one on that is larger than the limit
unfoldable pub drop_fitting : ℕ → List Telemetry → List Telemetry
drop_fitting limit [] = []
drop_fitting limit (m ∷ ms) = if ltb limit m.size then m ∷ ms else drop_fitting limit ms

-- the buffer after the messages before that one are copied, each to the same place
unfoldable pub overwrite : ℕ → ℕ → List Telemetry → Buffer → Buffer
overwrite limit off [] buf = buf
overwrite limit off (m ∷ ms) buf =
    let rest = overwrite limit off ms (memcpy buf off m.msg m.size) in
    if ltb limit m.size then buf else rest

-- One message, by whether it fits.
do_dump_fits :
    (m : Telemetry) (off room : ℕ) (buf : Buffer)
    → ltb room m.size ≡ false
    → do_dump m off room buf ≡ (pos 0, memcpy buf off m.msg m.size)
unfolding do_dump
do_dump_fits m off room buf h = rw h

do_dump_large :
    (m : Telemetry) (off room : ℕ) (buf : Buffer)
    → ltb room m.size ≡ true
    → do_dump m off room buf ≡ (neg 1, buf)
unfolding do_dump
do_dump_large m off room buf h = rw h

dump_all-overwrite :
    (limit off : ℕ) (ms : List Telemetry) (buf : Buffer)
    → limit < 2 ^ 64
    → dump_all do_dump limit ms off 0 buf ≡ (drop_fitting limit ms, 0, overwrite limit off ms buf)
unfolding dump_all drop_fitting overwrite
dump_all-overwrite limit off [] buf h = refl
dump_all-overwrite limit off (m ∷ ms) buf h =
    let e : sub_size limit 0 ≡ limit = omega arith in
    elim (Bool-cases (ltb limit m.size)) [
      | inl large ↦ rw (e, do_dump_large m off limit buf large, large) refl
      | inr fits ↦
          rw (e, do_dump_fits m off limit buf fits, add-zero, fits)
            (dump_all-overwrite limit off ms _ h)
    ]

-- mqtt_dump_cached_data on a well-formed queue always returns 0: with room for some messages or
-- for none, the bytes that it copies are not counted. It takes out the messages before the first
-- one that is larger than the limit, copies all of them to the same place, and keeps the rest.
pub mqtt_dump_returns_zero :
    (q : Queue Telemetry) (xs : List (Ptr × Telemetry)) (buf : Buffer) (off limit : ℕ)
    → IsValid q xs
    → limit < 2 ^ 64
    → (q' : Queue Telemetry) × (ys : List (Ptr × Telemetry)) × (mqtt_dump_cached_data buf off limit
          q
        ≡ ok (pos 0, overwrite limit off (msgs xs) buf) q')
      × Left q' ys q.cells (drop_fitting limit (msgs xs))
unfolding mqtt_dump_cached_data
mqtt_dump_returns_zero q xs buf off limit v h =
    let (q', ys, e, f, t) = dump_limit_refines do_dump limit q xs off buf v in
    let d = dump_all-overwrite limit off (msgs xs) buf h in (q', ys, rw (rw d at e), (rw d at f))

-- With messages that all fit, none is left in the queue.
pub drop_fitting_all :
    (limit : ℕ) (ms : List Telemetry) → AllFit limit ms → drop_fitting limit ms ≡ []
unfolding drop_fitting
drop_fitting_all limit [] f = refl
drop_fitting_all limit (m ∷ ms) f = ground (arith, drop_fitting_all limit ms f.1)

overwrite_bounds :
    (limit off : ℕ) (ms : List Telemetry) (buf : List ℕ)
    → AllFit limit ms
    → off + limit ≤ length buf
    → (out : List ℕ) × (overwrite limit off ms (some buf) ≡ some out) × (length out ≡ length buf)
unfolding overwrite
overwrite_bounds limit off [] buf f h = (buf, refl, refl)
overwrite_bounds limit off (m ∷ ms) buf f h =
    let fits : ltb limit m.size ≡ false = le→ltb_false limit m.size f.0.0 in
    let n : length (overlay buf off m.msg m.size) ≡ length buf =
      length-overlay buf off m.msg m.size (omega arith) f.0.1 in
    let (out, e, l) =
      overwrite_bounds limit off ms (overlay buf off m.msg m.size) f.1 (omega arith) in
    (out, rw (fits, memcpy-ok buf off m.msg m.size (omega arith) f.0.1) e, l ∙ n)

-- The copies stay inside the buffer, whatever is queued, if the limit is the room behind `off` and
-- no message is shorter than its `size`; the queue is then empty, and locked.
pub mqtt_dump_in_bounds :
    (q : Queue Telemetry) (xs : List (Ptr × Telemetry)) (buf : List ℕ) (off limit : ℕ)
    → IsValid q xs
    → off + limit ≤ length buf
    → limit < 2 ^ 64
    → AllFit limit (msgs xs)
    → (q' : Queue Telemetry) × (out : List ℕ) × (mqtt_dump_cached_data (some buf) off limit q
        ≡ ok (pos 0, some out) q')
      × (length out ≡ length buf)
      × (q'.item_num ≡ 0)
      × (q'.locked ≡ true)
mqtt_dump_in_bounds q xs buf off limit v h k f =
    let (q', ys, e, left) = mqtt_dump_returns_zero q xs (some buf) off limit v k in
    let (out, o, l) = overwrite_bounds limit off (msgs xs) buf f h in
    (
      q',
      out,
      (rw o at e),
      l,
      no_msgs ys left.count (left.left ∙ drop_fitting_all limit (msgs xs) f),
      left.locked,
    )
  where
    no_msgs : {n : ℕ} (ys : List (Ptr × Telemetry)) → n ≡ length ys → msgs ys ≡ [] → n ≡ 0
    no_msgs ys e m = omega (arith, e, length-msgs ys, ap length m)
