-- ===== src/Core/Loop/Publishing.antt =====
-- The push of a result in mdc_loop over the port of src/port/src/mqttclient.
use modbus_things.Base.{
  ◌≤◌, ◌<◌, ◌≡◌, ◌≢◌, refl, true, false, none, some, List, [], ◌∷◌, ◌++◌, arith, length, ok,
  blocked, ltb,
}
use modbus_things.Base.Int.{pos, neg}
use modbus_things.Base.Text.{Text}
use modbus_things.Queue.{Ptr, Queue, sub_size, send}
use modbus_things.Queue.Chain.{msgs, length-msgs}
use modbus_things.Queue.Fifo.{IsValid, send_full}
use modbus_things.Mqtt.{Telemetry, push_data, realtime_err_queue_full}
use modbus_things.Mqtt.Dumping.{AllFit}
use modbus_things.Mqtt.Sending.{push_data_refines}
use modbus_things.Bulk.{bulk_file_max_bytes}
use modbus_things.Realtime.{Shared, mqttclient}
use modbus_things.Realtime.Client.{dump_cached_data_loses}
use modbus_things.Core.Loop.{Agent, World, publish, telemetry}

module _ {D J : Type 0} (w : World (Queue Telemetry) D J) (malloc : Queue Telemetry → Ptr) where
  -- the agent over that port
  abbrev pub over_mqttclient : World (Queue Telemetry) D J
  over_mqttclient = record w { port = mqttclient malloc }

  push_full :
      (q : Queue Telemetry) (f : Ptr) (raw : Telemetry) (xs : List (Ptr × Telemetry))
      → IsValid q xs
      → q.item_max ≤ q.item_num
      → push_data f raw q ≡ ok (neg realtime_err_queue_full) (record q { locked = false })
  unfolding push_data
  push_full q f raw xs v h = rw (send_full q f raw v.free h) refl

  push_locked :
      (q : Queue Telemetry) (f : Ptr) (raw : Telemetry)
      → q.locked ≡ true
      → push_data f raw q ≡ blocked
  unfolding push_data send
  push_locked q f raw l = rw l refl

  -- Over the port of src/port/src/mqttclient, mdc_loop waits for ever when it publishes a result
  -- while the well-formed queue is full and each cached message fits in the room of the buffer: the
  -- hand-over that is to make room keeps the lock, which the second push waits for.
  pub publish_full_waits :
      (s : Agent (Queue Telemetry) D) (xs : List (Ptr × Telemetry)) (result : Text)
      → IsValid s.shared.queue xs
      → s.shared.queue.item_max ≤ s.shared.queue.item_num
      → length s.shared.bulk.cache_buf ≡ bulk_file_max_bytes
      → s.shared.bulk.cur_cached_off ≤ bulk_file_max_bytes
      → AllFit (sub_size bulk_file_max_bytes s.shared.bulk.cur_cached_off) (msgs xs)
      → publish over_mqttclient (some result) s ≡ blocked
  unfolding publish
  publish_full_waits s xs result v h l k f =
      let sh : Shared (Queue Telemetry) D = record s.shared {
        queue = record s.shared.queue { locked = false };
      } in
      let v' : IsValid sh.queue xs = record {
        chain = v.chain;
        tail_last = v.tail_last;
        count = v.count;
        bound = v.bound;
        free = refl;
      } in
      let (q, buf, e, n, z, lk) = dump_cached_data_loses malloc w.db sh xs v' l k f in
      rw
        (
          push_full s.shared.queue (malloc s.shared.queue) (telemetry over_mqttclient result) xs v
              h,
          e,
          push_locked q (malloc q) (telemetry over_mqttclient result) lk,
        )
        refl

  -- Over that port, and with room in a well-formed queue and a new node from m_malloc, publishing a
  -- result appends its telemetry behind the messages that wait, leaves 0 in `rc`, and changes
  -- nothing else.
  pub publish_appends :
      (s : Agent (Queue Telemetry) D) (xs : List (Ptr × Telemetry)) (result : Text)
      → IsValid s.shared.queue xs
      → s.shared.queue.item_num < s.shared.queue.item_max
      → malloc s.shared.queue ≢ 0
      → s.shared.queue.cells (malloc s.shared.queue) ≡ none
      → (q : Queue Telemetry) × (ys : List (Ptr × Telemetry)) × (publish over_mqttclient
            (some result)
            s
          ≡ ok tt (record s { rc = pos 0; shared = record s.shared { queue = q } }))
        × IsValid q ys
        × (msgs ys ≡ msgs xs ++ (telemetry over_mqttclient result ∷ []))
  unfolding publish
  publish_appends s xs result v h n c =
      let room : ltb (length (msgs xs)) s.shared.queue.item_max ≡ true =
        ground (arith, v.count, length-msgs xs, h) in
      let (q, ys, e, v', m, b) =
        (rw room at (
          push_data_refines s.shared.queue xs (malloc s.shared.queue)
            (telemetry over_mqttclient result) v n c)) in
      (q, ys, rw e refl, v', m)
