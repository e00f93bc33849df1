-- ===== src/Mymqtt.antt =====
-- src/port/src/mymqtt/portMqtt.c: the other MQTT port, over a message queue of RT-Thread and the client
-- paho_mqtt, which are parameters. Memory is what the allocations give, one after the other.
pub mod Sending
pub mod Starting
pub mod Lines
pub mod Incoming
mod Tests
use modbus_things.Base.{
  ℕ, zero, suc, ◌+◌, Bool, true, false, Option, none, some, List, [], ◌∷◌, ◌++◌, not, ◌&&◌, ltb,
  length, if◌then◌else◌, Run, ok, fault, Cmd, pure, ◌>>=◌, ◌>>◌,
}
use modbus_things.Base.Int.{ℤ, pos, neg, is_zero, eq_ℤ}
use modbus_things.Base.Text.{Text, before_nul}
use modbus_things.Mqtt.{Telemetry, realtime_err_queue_full, published}
use modbus_things.Mqtt.Bytes.{Buffer, memcpy}

-- `rt_mq_send`, and `rt_mq_recv` that waits as long as it takes, over the queue `Q`; their codes
pub record RtMq (Q : Type 0) : Type 0 where
  pub send : Telemetry → Q → ℤ × Q
  pub recv : Cmd Q (ℤ × Telemetry)

-- `mqtt_client` with what the port sets; a text that is not there is NULL.
pub record MqttClient : Type 0 where
  pub uri : Option Text
  pub is_connected : Bool
  pub client_id : Option Text
  pub user_name : Text
  pub keep_alive_interval : ℕ
  pub clean_session : Bool
  pub buf_size : ℕ
  pub readbuf_size : ℕ
  pub message_handlers : List (Text × ℕ)

-- what an allocation gives: whether there is memory
abbrev pub alloc : Cmd (List Bool) Bool
alloc [] = ok false []
alloc (b ∷ l) = ok b l

-- the client that `mqtt_client_init` fills in
abbrev pub new_client : Text → Option Text → Option Text → MqttClient
new_client token cid uri = record {
  uri = uri;
  is_connected = false;
  client_id = cid;
  user_name = token;
  keep_alive_interval = 30;
  clean_session = true;
  buf_size = 1024;
  readbuf_size = 1024;
  message_handlers = [];
}

-- both buffers are asked for, before either is looked at
abbrev pub with_buffers : MqttClient → Cmd (List Bool) (Option MqttClient)
with_buffers c = do buf ← alloc; readbuf ← alloc; pure (if buf && readbuf then some c else none)

-- `mqtt_client_init`; the length of a NULL token is undefined.
unfoldable pub mqtt_client_init :
    Option Text → Option Text → Option Text → Cmd (List Bool) (Option MqttClient)
mqtt_client_init token cid uri = do
  there ← alloc
  if not there
      then pure none
      else (elim token [ none ↦ (λ s. fault) | some t ↦ with_buffers (new_client t cid uri) ])

-- the entries of `_call_backs`
abbrev pub call_backs : ℕ
call_backs = 2

-- The loop over the nodes in `mqtt_client_start`, from the index `i` on: a topic with the index of its
-- callback. It is undefined past the end of `_call_backs`, or of the `max` handlers of the client.
unfoldable pub subscribe_all : ℕ → ℕ → List Text → Option (List (Text × ℕ))
subscribe_all max i [] = some []
subscribe_all max i (topic ∷ topics) =
    let rest = subscribe_all max (suc i) topics in
    if ltb i call_backs && ltb i max
    then (elim rest [ none ↦ none | some l ↦ some ((topic, i) ∷ l) ])
    else none

-- `mqtt_client_start` up to the threads, of which the one for sending is started if `rt_mq_init` gives
-- RT_EOK and the thread is created
unfoldable pub mqtt_client_start :
    ℕ → ℤ → Bool → List Text → MqttClient → Option (MqttClient × Bool)
mqtt_client_start max mq_init thread topics c = elim (subscribe_all max 0 topics) [
  | none ↦ none
  | some l ↦ some (record c { message_handlers = l }, is_zero mq_init && thread)
]

-- `_connected`, `mqtt_mq` and what has been given to `paho_mqtt_publish`, with its codes
pub record Port (Q : Type 0) : Type 0 where
  pub connected : Bool
  pub mq : Q
  pub sent : List ((Text × Text) × ℤ)

-- `mqtt_online_callback` and `mqtt_offline_callback`, whose calls of `stat_ops` do nothing in the agent
abbrev pub mqtt_online_callback : {Q : Type 0} → Port Q → Port Q
mqtt_online_callback p = record p { connected = true }

abbrev pub mqtt_offline_callback : {Q : Type 0} → Port Q → Port Q
mqtt_offline_callback p = record p { connected = false }

module _ {Q : Type 0} (mq : RtMq Q) where
  -- a message that has been received: it is published, and its text is freed whatever the code is
  abbrev pub publish_one : (Text × Text → ℤ) → Telemetry → Cmd (Port Q) (Unit {0})
  publish_one publish raw p =
      ok tt (record p { sent = p.sent ++ ((published raw, publish (published raw)) ∷ []) })

  -- A turn of `mqtt_app_thread`; without a connection it only sleeps. RT_EOK is 0.
  unfoldable pub app_turn : (Text × Text → ℤ) → Cmd (Port Q) (Unit {0})
  app_turn publish p = if not p.connected then ok tt p else (elim (mq.recv p.mq) [
    | fault ↦ fault
    | Run.blocked ↦ Run.blocked
    | ok (rc, raw) q ↦
        if is_zero rc
        then publish_one publish raw (record p { mq = q })
        else ok tt (record p { mq = q })
  ])

  -- `mqtt_push_data`: every code but `full`, which is -RT_EFULL, is taken for a success.
  unfoldable pub mqtt_push_data : ℤ → Telemetry → Cmd Q ℤ
  mqtt_push_data full raw q =
      let r = mq.send raw q in ok (if eq_ℤ r.0 full then neg realtime_err_queue_full else pos 0) r.1

-- `do_dump`: `sprintf` writes the message, a newline and a NUL, of which the NUL is not counted.
unfoldable pub do_dump : Telemetry → ℕ → Buffer → ℕ × Buffer
do_dump raw off buf =
    (length raw.msg + 1, memcpy buf off (raw.msg ++ (b'\n' ∷ 0 ∷ [])) (length raw.msg + 2))

-- `mqtt_dump_cached_data`: a call of `rt_mq_dump_limit`, which is a parameter, with the buffer, the offset
-- and the limit, and with `do_dump`
abbrev pub mqtt_dump_cached_data :
    {Q : Type 0}
    → (Buffer → ℕ → ℕ → (Telemetry → ℕ → Buffer → ℕ × Buffer) → Cmd Q (ℤ × Buffer))
    → Buffer
    → ℕ
    → ℕ
    → Cmd Q (ℤ × Buffer)
mqtt_dump_cached_data rt_mq_dump_limit buf off limit = rt_mq_dump_limit buf off limit do_dump

-- `mqtt_sub_callback`: a NUL is written behind the payload, which the handler then gets as a text
unfoldable pub mqtt_sub_callback :
    {S : Type 0} → (Text → Cmd S (Unit {0})) → List ℕ → ℕ → Cmd S (Unit {0})
mqtt_sub_callback on_message payload payloadlen s =
    elim (memcpy (some payload) payloadlen (0 ∷ []) 1) [
      | none ↦ fault
      | some bytes ↦ on_message (before_nul bytes) s
    ]
