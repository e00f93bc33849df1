-- ===== src/Mqtt/Client.antt =====
-- The start of the client in src/port/src/mqttclient/portMqtt.c. The MQTT library gets the settings of a
-- client and the topics that it subscribes to.
use modbus_things.Base.{Bool, true, Option, none, some, List, [], ◌∷◌}
use modbus_things.Base.Text.{Text, codes}
use modbus_things.Queue.{Queue}
use modbus_things.Mqtt.{Telemetry, start_queue}

-- `mqttAdapter_t`: its client, and its queue once it has one; a text that is not there is NULL.
pub record MqttAdapter : Type 0 where
  pub host : Option Text
  pub port : Text
  pub user_name : Option Text
  pub client_id : Option Text
  pub clean_session : Bool
  pub subscribed : List Text
  pub mq : Option (Queue Telemetry)

-- `mqtt_client_init`
unfoldable pub mqtt_client_init : Option Text → Option Text → Option Text → MqttAdapter
mqtt_client_init token cid uri = record {
  host = uri;
  port = codes "1883";
  user_name = token;
  client_id = cid;
  clean_session = true;
  subscribed = [];
  mq = none;
}

-- `mqtt_client_start`, with the topic of the first node and those of the others
unfoldable pub mqtt_client_start : Text → List Text → MqttAdapter → MqttAdapter
mqtt_client_start topic topics mqtt = record mqtt {
  subscribed = topic ∷ mqtt.subscribed;
  mq = some start_queue;
}
