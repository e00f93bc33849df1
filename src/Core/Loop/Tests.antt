-- ===== src/Core/Loop/Tests.antt =====
-- Turns of mdc_loop of src/core/src/MBT_core.c with two scanned devices.
use modbus_things.Base.{
  blocked, ◌≡◌, refl, true, false, none, some, [], arith, ◌==◌, if◌then◌else◌, ok, fault, and_then,
}
use modbus_things.Base.Int.{pos}
use modbus_things.Base.Text.{Text, codes, text_eq}
use modbus_things.Attributes.Tests.{Memory, memory}
use modbus_things.Bulk.{Bulk}
use modbus_things.Bulk.Tests.{spool, accepts}
use modbus_things.Realtime.{Port}
use modbus_things.Scan.{Cjson, Read}
use modbus_things.Scan.Tests.{two, master, print}
use modbus_things.Core.Loop.{Agent, World, at, turn, realtime_msg_received, publish}
use modbus_things.Queue.{Queue}
use modbus_things.Mqtt.{Telemetry}
use modbus_things.Mqtt.Tests
use modbus_things.Mqtt.Tests.{two_nodes, two-IsValid}
use modbus_things.Realtime.Tests.{blanks, length-blanks, both_fit}
use modbus_things.Core.Loop.Publishing.{over_mqttclient, publish_full_waits}
use modbus_things.Core.Loop.Turns.{config_message_fault}

-- A port that takes every message.
abbrev port : Port (Unit {0})
port = record { push = λ raw q. ok (pos 0) q; dump = λ buf off limit q. ok (pos 0, buf) q }

-- Every document has one text in every field.
abbrev json : Cjson Text
json = record {
  parse = λ t. some t;
  get_object_item = λ root key. some root;
  items = λ j. [];
  valueint = λ j. pos 0;
  valuestring = λ j. some j;
}

abbrev world : Read → World (Unit {0}) Memory Text
world read = record {
  db = memory;
  post = accepts;
  port = port;
  json = json;
  garbage = λ n. [];
  read = read;
  print = print;
  now = pos 9;
  online = true;
}

abbrev stored : Bulk Memory
stored = record (spool 9) {
  attributes = record (spool 9).attributes {
    cache = λ k. if k == 1 then some (codes "{}") else none;
  };
}

abbrev agent : Agent (Unit {0}) Memory
agent = record {
  config = at (codes "{}");
  config_update = false;
  ota_update = false;
  ota_title = none;
  ota_version = none;
  ota_file_size = pos 0;
  rc = pos 0;
  nodes = two;
  shared = record { queue = tt; bulk = stored };
}

differ : text_eq (codes "{}") (codes "new") ≡ false
unfolding text_eq
differ = refl

config_message_fault_example :
    and_then (realtime_msg_received (world master) (codes "new") agent) (λ _. turn (world master))
    ≡ fault
config_message_fault_example =
    config_message_fault (world master) agent (codes "new") (codes "new") (codes "{}") (codes "new")
      (codes "new") refl refl refl refl refl differ

-- the world and an agent over the MQTT port, with two messages in its queue
abbrev queued : World (Queue Telemetry) Memory Text
queued = record {
  db = memory;
  post = accepts;
  port = record { push = λ raw q. fault; dump = λ buf off limit q. fault };
  json = json;
  garbage = λ n. [];
  read = master;
  print = print;
  now = pos 9;
  online = true;
}

abbrev queued_agent : Queue Telemetry → Agent (Queue Telemetry) Memory
queued_agent q = record {
  config = at (codes "{}");
  config_update = false;
  ota_update = false;
  ota_title = none;
  ota_version = none;
  ota_file_size = pos 0;
  rc = pos 0;
  nodes = two;
  shared = record { queue = q; bulk = record (spool 10000) { cache_buf = blanks 10240 } };
}

publish_full_waits_example :
    publish (over_mqttclient queued (λ q. 7)) (some (codes "{}")) (queued_agent Tests.two) ≡ blocked
publish_full_waits_example =
    publish_full_waits queued (λ q. 7) (queued_agent Tests.two) two_nodes (codes "{}") two-IsValid
      (omega arith) (length-blanks 10240) (omega arith) both_fit
