-- ===== src/Mymqtt/Tests.antt =====
-- Runs of src/port/src/mymqtt/portMqtt.c over a queue that is a list.
use modbus_things.Base.{
  ℕ, ◌+◌, ◌<◌, ◌≤◌, ◌≡◌, refl, true, false, some, List, [], ◌∷◌, ◌++◌, map, arith, ltb, length,
  take, if◌then◌else◌, ok, blocked,
}
use modbus_things.Base.Int.{ℤ, pos, neg}
use modbus_things.Base.Text.{Text}
use modbus_things.Mqtt.{Telemetry}
use modbus_things.Mqtt.Tests.{first, second}
use modbus_things.Mymqtt.{RtMq, Port}
use modbus_things.Mymqtt.Sending.{IsFifo, turns, tried, turns_publish}
use modbus_things.Mymqtt.Lines.{lines, dump_lines, dump_lines_lem}

-- how many messages the queue holds at most
abbrev pool : ℕ
pool = 2

-- at most two messages; -RT_EFULL is -3
abbrev list_mq : RtMq (List Telemetry)
list_mq = record {
  send = λ raw q. if ltb (length q) 2 then (pos 0, q ++ (raw ∷ [])) else (neg 3, q);
  recv = λ q. elim q [ [] ↦ blocked | raw ∷ l ↦ ok (pos 0, raw) l ];
}

room_kept :
    (raw : Telemetry) (q : List Telemetry)
    → length q < 2
    → ((list_mq.send raw q).0 ≡ pos 0) × ((list_mq.send raw q).1 ≡ q ++ (raw ∷ [])) × (pool ≡ pool)
room_kept raw q h = (ground (arith, h), ground (arith, h), refl)

full_kept :
    (raw : Telemetry) (q : List Telemetry)
    → 2 ≤ length q
    → ((list_mq.send raw q).0 ≡ neg 3) × ((list_mq.send raw q).1 ≡ q) × (pool ≡ pool)
full_kept raw q h = (ground (arith, h), ground (arith, h), refl)

first_taken :
    (raw : Telemetry) (l q : List Telemetry)
    → q ≡ raw ∷ l
    → (q' : List Telemetry) × (list_mq.recv q ≡ ok (pos 0, raw) q') × (q' ≡ l) × (pool ≡ pool)
first_taken raw l q e = (l, rw e refl, refl, refl)

abbrev list_mq-IsFifo : IsFifo list_mq (neg 3)
list_mq-IsFifo = record {
  contents = λ q. q;
  capacity = λ q. pool;
  is_failure = refl;
  is_itself = refl;
  send_room = room_kept;
  send_full = full_kept;
  recv_first = first_taken;
}

-- a broker that refuses everything
abbrev refuses : Text × Text → ℤ
refuses m = neg 1

abbrev waiting : Port (List Telemetry)
waiting = record { connected = true; mq = first ∷ second ∷ []; sent = [] }

turns_publish_example :
    (waiting.connected ≡ true
      → (q : List Telemetry) × (turns list_mq refuses 2 waiting
          ≡ ok tt
              (record waiting { mq = q; sent = [] ++ map (tried refuses) (first ∷ second ∷ []) }))
        × (q ≡ []))
    × ((n : ℕ) → waiting.connected ≡ false → turns list_mq refuses n waiting ≡ ok tt waiting)
turns_publish_example =
    turns_publish list_mq (neg 3) list_mq-IsFifo refuses (first ∷ second ∷ []) waiting refl

abbrev ten : List ℕ
ten = 0 ∷ 0 ∷ 0 ∷ 0 ∷ 0 ∷ 0 ∷ 0 ∷ 0 ∷ 0 ∷ 0 ∷ []

dump_lines_lem_example :
    (out : List ℕ) × (dump_lines (first ∷ second ∷ []) 0 (some ten)
      ≡ (length (lines (first ∷ second ∷ [])), some out))
    × (length out ≡ length ten)
    × (take (0 + length (lines (first ∷ second ∷ []))) out
        ≡ take 0 ten ++ lines (first ∷ second ∷ []))
dump_lines_lem_example = dump_lines_lem (first ∷ second ∷ []) 0 ten (unfold lines in omega arith)
