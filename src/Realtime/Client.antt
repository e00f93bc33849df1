-- ===== src/Realtime/Client.antt =====
-- dump_cached_data over the MQTT port of src/port/src/mqttclient.
use modbus_things.Base.{◌≤◌, ◌≡◌, true, List, arith, length, ok, ◌∙◌}
use modbus_things.Base.Int.{pos}
use modbus_things.Base.Text.{Text}
use modbus_things.Attributes.{Db}
use modbus_things.Queue.{Ptr, Queue, sub_size}
use modbus_things.Queue.Chain.{msgs}
use modbus_things.Queue.Fifo.{IsValid}
use modbus_things.Bulk.{bulk_file_max_bytes}
use modbus_things.Mqtt.{Telemetry}
use modbus_things.Mqtt.Dumping.{AllFit, mqtt_dump_in_bounds}
use modbus_things.Realtime.{Shared, mqttclient, dump_cached_data}

-- With this port a hand-over loses the cached messages: whenever each of them fits in the room that
-- is left, all are taken out of the queue, 0 is returned, the buffer holds no more bytes than
-- before, the indices, the files and the attributes are unchanged, and the queue stays locked.
pub dump_cached_data_loses :
    {D : Type 0} (malloc : Queue Telemetry → Ptr) (db : Db D) (s : Shared (Queue Telemetry) D)
    (xs : List (Ptr × Telemetry))
    → IsValid s.queue xs
    → length s.bulk.cache_buf ≡ bulk_file_max_bytes
    → s.bulk.cur_cached_off ≤ bulk_file_max_bytes
    → AllFit (sub_size bulk_file_max_bytes s.bulk.cur_cached_off) (msgs xs)
    → (q : Queue Telemetry) × (buf : Text) × (dump_cached_data (mqttclient malloc) db s
        ≡ ok (pos 0) (record { queue = q; bulk = record s.bulk { cache_buf = buf } }))
      × (length buf ≡ bulk_file_max_bytes)
      × (q.item_num ≡ 0)
      × (q.locked ≡ true)
unfolding dump_cached_data
dump_cached_data_loses malloc db s xs v l h f =
    let (q, out, e, n, z, lk) =
      mqtt_dump_in_bounds s.queue xs s.bulk.cache_buf s.bulk.cur_cached_off
        (sub_size bulk_file_max_bytes s.bulk.cur_cached_off) v (omega arith) (omega arith) f in
    (q, out, rw (e, dump_cached_data), n ∙ l, z, lk)
