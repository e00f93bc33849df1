-- ===== src/Mqtt/Tests.antt =====
-- Runs of src/port/src/mqttclient/portMqtt.c on a queue of two messages.
use modbus_things.Base.{◌≡◌, refl, false, none, some, List, [], ◌∷◌, arith, ◌==◌, if◌then◌else◌}
use modbus_things.Base.Int.{pos}
use modbus_things.Base.Text.{codes}
use modbus_things.Queue.{Ptr, Queue, Wait}
use modbus_things.Queue.Chain.{node, msgs}
use modbus_things.Queue.Fifo.{IsValid, Returns}
use modbus_things.Mqtt.{Telemetry, published}
use modbus_things.Mqtt.Sending.{rounds, rounds_publish}

abbrev pub first : Telemetry
first = record { msg = codes "{a}"; size = 3; ts = pos 7; ms = 0; topic = codes "t" }

abbrev pub second : Telemetry
second = record { msg = codes "{bc}"; size = 4; ts = pos 8; ms = 5; topic = codes "u" }

abbrev pub two : Queue Telemetry
two = record {
  cells =
      λ p. if p == 5 then some (node first 6) else (if p == 6 then some (node second 0) else none);
  head = 5;
  tail = 6;
  locked = false;
  item_num = 2;
  item_max = 2;
}

abbrev pub two_nodes : List (Ptr × Telemetry)
two_nodes = (5, first) ∷ (6, second) ∷ []

pub two-IsValid : IsValid two two_nodes
two-IsValid = record {
  chain = (6, refl, omega arith, refl, refl, (0, refl, omega arith, refl, refl, refl));
  tail_last = refl;
  count = refl;
  bound = omega arith;
  free = refl;
}

abbrev no_wait : Wait Telemetry
no_wait timeout q = (pos 0, q)

msgs_two : msgs two_nodes ≡ first ∷ second ∷ []
unfolding msgs
msgs_two = refl

rounds_publish_example :
    Returns (rounds no_wait 2 two) 2 (some (published first) ∷ some (published second) ∷ []) []
rounds_publish_example =
    rounds_publish no_wait two two_nodes (first ∷ second ∷ []) two-IsValid msgs_two
