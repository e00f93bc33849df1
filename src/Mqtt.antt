-- ===== src/Mqtt.antt =====
-- src/port/src/mqttclient/portMqtt.c over the message queue, with `telemetry_t` of
-- src/core/inc/MBT_realtime.h. The MQTT library is a parameter: what `mqtt_publish` is called with is
-- the result of a round of the sending thread.
pub mod Bytes
pub mod Sending
pub mod Dumping
pub mod Client
pub mod Incoming
pub mod Tests
use mathlib.Core.Option
use modbus_things.Base.{
  ℕ, ◌+◌, ◌%◌, ◌^◌, Bool, true, false, Option, none, some, List, [], ◌∷◌, ltb, if◌then◌else◌, Run,
  ok, Cmd, pure, ◌>>=◌,
}
use modbus_things.Base.Int.{ℤ, pos, neg, eq_ℤ, is_zero, signed32}
use modbus_things.Base.Text.{Text}
use modbus_things.Queue.{Ptr, Queue, Wait, DoDump, qerror_full, create, send, recv, dump_limit}
use Bytes.{Buffer, memcpy}

-- `telemetry_t`
pub record Telemetry : Type 0 where
  pub msg : Text
  pub size : ℕ
  pub ts : ℤ
  pub ms : ℕ
  pub topic : Text

-- REALTIME_ERR_QUEUE_FULL and REALTIME_OUT_CACHE_MAX
abbrev pub realtime_err_queue_full : ℕ
realtime_err_queue_full = 2

abbrev pub realtime_out_cache_max : ℕ
realtime_out_cache_max = 50

-- the queue that `mqtt_client_start` creates
abbrev pub start_queue : Queue Telemetry
start_queue = create realtime_out_cache_max

-- `mqtt_push_data`
unfoldable pub push_data : Ptr → Telemetry → Cmd (Queue Telemetry) ℤ
push_data fresh raw = do
  rc ← send fresh raw
  if eq_ℤ rc (neg qerror_full) then pure (neg realtime_err_queue_full) else pure rc

-- what `mqtt_publish` is called with
abbrev pub published : Telemetry → Text × Text
published raw = (raw.topic, raw.msg)

-- one round of `mqtt_send_thread`: the topic and the payload that it publishes, if it does
unfoldable pub send_round : Wait Telemetry → Cmd (Queue Telemetry) (Option (Text × Text))
send_round wait = do
  r ← recv wait (neg 1)
  if is_zero r.0 then pure (Option.map published r.1) else pure none

-- `do_dump`: on success it returns 0, not the bytes that it wrote.
unfoldable pub do_dump : DoDump Telemetry Buffer
do_dump raw off room buf =
    if ltb room raw.size then (neg 1, buf) else (pos 0, memcpy buf off raw.msg raw.size)

-- `mqtt_dump_cached_data`; the count of bytes is returned as an `int`.
unfoldable pub mqtt_dump_cached_data : Buffer → ℕ → ℕ → Cmd (Queue Telemetry) (ℤ × Buffer)
mqtt_dump_cached_data buf off limit = do
  r ← dump_limit do_dump limit off buf
  pure (signed32 (r.0 % 2 ^ 32), r.1)
