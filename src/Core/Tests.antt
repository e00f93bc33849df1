-- ===== src/Core/Tests.antt =====
-- Runs of src/core/src/MBT_core.c: check_do_bulk_service on a spool with the files 3 and 4, and the
-- start of a device that has a configuration.
use modbus_things.Base.{
  false, ℕ, ◌+◌, ◌≡◌, refl, ◌≤◌, ◌<◌, none, some, arith, ◌==◌, if◌then◌else◌, ok, [], ◌∷◌, true,
  List, fault, blocked, and_then, Run, ◌⊎◌,
}
use native.Mathlib.Decide.{ℕ_discrete}
use modbus_things.Base.Int.{pos, neg, inc32}
use modbus_things.Base.Text.{Text, codes, text_eq}
use modbus_things.Base.Decimal.{digits_from, digits, print_int}
use modbus_things.Attributes.Key
use modbus_things.Queue.{null, Queue}
use modbus_things.Attributes.Setup.{NetState, Service, online, offline, Setup}
use modbus_things.Network.Linux.{linux}
use modbus_things.Network.RtThread.{Ping, rt_thread}
use modbus_things.Scan.Tests
use modbus_things.Scan.Tests.{
  Doc, documents, no_cells, master, print, value, device_item, one, first_devices, two_registers,
}
use modbus_things.Realtime.{mqttclient, Port, Shared, dump_cached_data}
use modbus_things.Core.FirstTurn.{first_turn_fault}
use modbus_things.Core.Loop
use modbus_things.Core.Loop.{World, turn, update_config, Agent, at}
use modbus_things.Core.Loop.Blank.{idle}
use modbus_things.Core.Loop.Unconfigured.{Since}
use modbus_things.Core.Unconfigured.{HasNoConfig, offline_start_idle, waited_start_fault}
use modbus_things.Attributes.Tests.{
  at_once, Memory, memory, memory-IsIntStore, service, device, configured,
}
use modbus_things.Bulk.{save_bulk_data, Bulk, load_int, bulk_service_init}
use modbus_things.Bulk.Tests.{spool, accepts, api, spool-api}
use modbus_things.Bulk.Uploading.{dat, bk}
use modbus_things.Disk.{Disk}
use modbus_things.Mqtt.{Telemetry, start_queue}
use modbus_things.Scan.{init}
use modbus_things.Core.Restart.{Event, hand_over, upload, run, restart_resumes}
use modbus_things.Core.Start.{Client, modbus_core_start, modbus_core_start_lem}
use modbus_things.Core.BulkService.{scan_fail, check_do_bulk_service}
use modbus_things.Core.Draining.{Waiting, rounds, rounds_drain}

abbrev content : ℕ → Text
content k = if k == 3 then codes "{3}" else codes "{4}"

both_wait : Waiting memory accepts (spool 9) 3 2 content
unfolding text_eq print_int digits digits_from
both_wait k l h = elim (ℕ_discrete k 3) [
  | yes e ↦ rw e refl
  | no n ↦ let e : k ≡ 4 = omega arith in rw e refl
]

rounds_drain_example :
    (s' : Bulk Memory) × (rounds memory accepts 2 (spool 9) ≡ ok tt s')
    × (load_int memory Key.bulk_file_tail_index s' ≡ some (pos (3 + 2)))
    × ((k : ℕ)
        → 3 ≤ k
        → k < 3 + 2
        → (s'.disk.files (bk k) ≡ some (content k)) × (s'.disk.files (dat k) ≡ none))
    × ((k : ℕ)
        → k < 3
        → (s'.disk.files (bk k) ≡ (spool 9).disk.files (bk k))
          × (s'.disk.files (dat k) ≡ (spool 9).disk.files (dat k)))
    × (s'.next_index ≡ pos 5)
rounds_drain_example =
    rounds_drain memory accepts memory-IsIntStore (spool 9) 3 2 api content refl (omega arith)
      (spool-api 9) (λ k. refl) both_wait

abbrev no_files : Disk
no_files = record { files = λ n. none; can_open = λ n. true; room = λ n. 0 }

-- the client of src/port/src/mqttclient/portMqtt.c: its queue
abbrev client : Client (Queue Telemetry)
client token uuid uri topics = start_queue

modbus_core_start_lem_example :
    (a : Agent (Queue Telemetry) Memory) × (s' : Setup Memory) × (modbus_core_start memory service
        at_once
        (pos 9)
        client
        []
        no_files
        5
        (device configured (offline ∷ online ∷ []))
      ≡ ok (some a) s')
    × (a.config ≡ at (codes "{new}"))
    × (a.config_update ≡ true)
    × (a.rc ≡ pos 0)
    × (a.nodes ≡ init 5)
    × (a.shared.queue ≡ start_queue)
    × (a.shared.bulk ≡ bulk_service_init memory (codes "token") [] s'.attributes no_files)
modbus_core_start_lem_example =
    modbus_core_start_lem memory service at_once (pos 9) client [] no_files 5
      (device configured (offline ∷ online ∷ [])) (codes "token") (codes "{}") (codes "{new}")
      offline [] (λ k. refl) refl refl refl (λ t. refl) refl

-- the spool with its head index stored
abbrev stored : Bulk Memory
stored = record (spool 9) {
  attributes = record (spool 9).attributes {
    store = record (spool 9).attributes.store {
      ints = λ k. if k == 5 then some (pos 3) else (if k == 4 then some (pos 5) else none);
    };
  };
}

-- A port that says that it hands over 6000 bytes.
abbrev gives_most : Port (Unit {0})
gives_most = record {
  push = λ raw q. ok (pos 0) q;
  dump = λ buf off limit q. ok (pos 6000, some (codes "{abc}...")) q;
}

abbrev start : Shared (Unit {0}) Memory
start = record {
  queue = tt;
  bulk = bulk_service_init memory (codes "token") [] stored.attributes stored.disk;
}

abbrev end_of : {S A : Type 0} → S → Run S A → S
end_of d (ok a s) = s
end_of d _ = d

abbrev events : List Event
events = hand_over ∷ upload false scan_fail ∷ hand_over ∷ []

abbrev twice : Shared (Unit {0}) Memory
twice = end_of start (run gives_most memory accepts events start)

restart_resumes_example :
    let again = bulk_service_init memory (codes "token") [] twice.bulk.attributes twice.bulk.disk in
    (twice.bulk.next_index ≡ again.next_index) ⊎ (twice.bulk.next_index ≡ inc32 again.next_index)
unfolding run dump_cached_data save_bulk_data check_do_bulk_service bulk_service_init
restart_resumes_example =
    restart_resumes gives_most memory accepts memory-IsIntStore events tt (codes "token") []
      (codes "token") [] stored.attributes stored.disk twice refl

-- a device with a token and no configuration
abbrev token_only : List NetState → Setup Memory
token_only net = device (λ k. if k == 0 then some (codes "token") else none) net

token_only-HasNoConfig : (net : List NetState) → HasNoConfig memory (token_only net) (codes "token")
token_only-HasNoConfig net = record { cold = λ k. refl; token_stored = refl; not_stored = refl }

offline_start_idle_example :
    (a : Agent (Queue Telemetry) Memory) × (s' : Setup Memory) × (modbus_core_start memory service
        linux
        (pos 9)
        client
        []
        no_files
        5
        (token_only (offline ∷ offline ∷ []))
      ≡ ok (some a) s')
    × ((b : Agent (Queue Telemetry) Memory) (w : World (Queue Telemetry) Memory Text)
        → Since Text a b
        → (b.config ≡ Loop.null)
          × (b.nodes.head ≡ null)
          × (turn w b ≡ and_then (update_config w b) (λ _. idle w)))
offline_start_idle_example =
    offline_start_idle memory service (pos 9) client [] no_files 5
      (token_only (offline ∷ offline ∷ [])) (codes "token") offline offline []
      (token_only-HasNoConfig (offline ∷ offline ∷ [])) refl (cc)

abbrev timed_out : Ping
timed_out = record { code = neg 2; later = [] }

abbrev answered : Ping
answered = record { code = pos 0; later = online ∷ [] }

waited_start_fault_example :
    (modbus_core_start memory service
        (rt_thread (neg 1) (neg 2) (timed_out ∷ answered ∷ []))
        (pos 9)
        client
        []
        no_files
        5
        (token_only (offline ∷ []))
      ≡ fault)
    × (modbus_core_start memory service
          (rt_thread (neg 1) (neg 2) (timed_out ∷ []))
          (pos 9)
          client
          []
          no_files
          5
          (token_only (offline ∷ []))
        ≡ blocked)
waited_start_fault_example =
    waited_start_fault memory service (pos 9) client [] no_files 5 (token_only (offline ∷ []))
      (codes "token") (codes "{new}") (pos 0) (neg 1) (neg 2) (timed_out ∷ []) answered [] [] []
      (token_only-HasNoConfig (offline ∷ [])) refl (refl, tt) refl refl refl refl

-- A server with the configuration "one" for the device.
abbrev knows_one : Service
knows_one = record {
  dev_provision = λ uri uuid. some (pos 0, some (codes "token"));
  attri_update = λ key token uri. (pos 0, some (codes "one"));
}

abbrev reads : World (Queue Telemetry) Memory Doc
reads = record {
  db = memory;
  post = accepts;
  port = mqttclient (λ q. 7);
  json = documents;
  garbage = no_cells;
  read = master;
  print = print;
  now = pos 9;
  online = true;
}

first_turn_fault_example :
    (a : Agent (Queue Telemetry) Memory) × (s' : Setup Memory) × (modbus_core_start memory knows_one
        at_once
        (pos 9)
        client
        []
        no_files
        5
        (device configured (offline ∷ online ∷ []))
      ≡ ok (some a) s')
    × (turn reads a ≡ fault)
first_turn_fault_example =
    first_turn_fault memory knows_one at_once (pos 9) client [] no_files 5
      (device configured (offline ∷ online ∷ [])) (codes "token") (codes "{}") (codes "one") offline
      [] reads (value (Tests.device 1)) (value (Tests.device 2)) [] (device_item 1) (device_item 2)
      [] (λ k. refl) refl refl refl (λ t. refl) refl one first_devices (omega arith) (omega arith)
      (omega arith) two_registers two_registers refl
