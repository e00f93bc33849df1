-- ===== src/Realtime.antt =====
-- src/core/src/MBT_realtime.c: the real-time service over an MQTT port, and its hand-over of cached
-- messages to the bulk service.
pub mod Handover
pub mod Client
pub mod Tests
use modbus_things.Base.{
  ℕ, suc, ◌+◌, ◌-◌, ◌*◌, ◌/◌, Bool, true, false, Option, none, some, ltb, if◌then◌else◌, Run, ok,
  fault, Cmd, pure, and_then,
}
use modbus_things.Base.Int.{ℤ, pos, neg, is_pos, is_zero, inc32, pos_part}
use modbus_things.Base.Text.{Text}
use modbus_things.Queue.{Ptr, Queue, sub_size}
use modbus_things.Attributes.{Db}
use modbus_things.Bulk.{Bulk, bulk_file_max_bytes, save_bulk_data}
use modbus_things.Mqtt.{Telemetry, push_data, mqtt_dump_cached_data}
use modbus_things.Mqtt.Bytes.{Buffer}

-- The functions of src/port/inc/MBT_portMqtt.h that the service calls, over the port's own state.
pub record Port (Q : Type 0) : Type 0 where
  pub push : Telemetry → Cmd Q ℤ
  pub dump : Buffer → ℕ → ℕ → Cmd Q (ℤ × Buffer)

-- src/port/src/mqttclient/portMqtt.c, with what `m_malloc` gives for a queue
abbrev pub mqttclient : (Queue Telemetry → Ptr) → Port (Queue Telemetry)
mqttclient malloc = record {
  push = λ raw q. push_data (malloc q) raw q;
  dump = λ buf off limit q. mqtt_dump_cached_data buf off limit q;
}

-- what the two services share in a hand-over
pub record Shared (Q D : Type 0) : Type 0 where
  pub queue : Q
  pub bulk : Bulk D

module _ {D : Type 0} (db : Db D) where
  -- after a save that went well
  abbrev pub reset : ℤ × Bulk D → Bulk D
  reset (rc, b) =
      if is_zero rc then record b { cur_cached_off = 0; next_index = inc32 b.next_index } else b

  -- the bulk service after `rc` more bytes are in its buffer
  abbrev pub grow : ℕ → Text → Bulk D → Bulk D
  grow rc buf b =
      let b' = record b { cur_cached_off = b.cur_cached_off + rc; cache_buf = buf } in
      if ltb (bulk_file_max_bytes / 2) b'.cur_cached_off then reset (save_bulk_data db b') else b'

  -- the hand-over of what the port answers; a copy out of bounds is undefined
  abbrev pub handed : {Q : Type 0} → ℤ → Buffer → Bulk D → Q → Run (Shared Q D) ℤ
  handed rc none b q = fault
  handed rc (some buf) b q = ok rc (record {
    queue = q;
    bulk = if is_pos rc then grow (pos_part rc) buf b else record b { cache_buf = buf };
  })

module _ {Q D : Type 0} (port : Port Q) (db : Db D) where
  -- `dump_cached_data`; the room is an `int` that the port reads as a `size_t`.
  unfoldable pub dump_cached_data : Cmd (Shared Q D) ℤ
  dump_cached_data s =
      elim (port.dump (some s.bulk.cache_buf) s.bulk.cur_cached_off
        (sub_size bulk_file_max_bytes s.bulk.cur_cached_off) s.queue) [
          | fault ↦ fault
          | Run.blocked ↦ Run.blocked
          | ok (rc, buf) q ↦ handed db rc buf s.bulk q
        ]
