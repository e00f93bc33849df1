-- ===== src/Master/Tests.antt =====
-- Scans of two nodes over a libmodbus that cannot connect.
use modbus_things.Base.{◌≡◌, refl, none, some, [], ◌∷◌, arith, length, ok}
use modbus_things.Base.Int.{pos, neg}
use modbus_things.Scan.{Scan}
use modbus_things.Scan.Rounds.{Nodes, Listed}
use modbus_things.Scan.Tests.{nodes, two, two-Listed}
use modbus_things.Master.{Libmodbus, master_init, master_read_input_regs}
use modbus_things.Master.Unconnected.{scans, failures, unconnected_scans_fail}

-- A context has nothing in it; a read of one that is there gives one register.
abbrev no_device : Libmodbus (Unit {0})
no_device = record {
  new_tcp = λ ip port. some tt;
  new_rtu = λ device baud parity data_bits stop_bits. some tt;
  set_rs485 = λ c. c;
  set_rts_up = λ c. c;
  set_slave = λ slave c. c;
  set_debug = λ flag c. c;
  set_error_recovery = λ c. c;
  set_response_timeout = λ sec usec c. c;
  connect = λ c. (neg 1, c);
  read_input_registers = λ c addr nb. elim c [ none ↦ (neg 1, []) | some u ↦ (pos 1, 7 ∷ []) ];
}

unconnected_scans_fail_example :
    (s' : Scan) × (ys : Nodes) × (scans
        (master_read_input_regs no_device (master_init no_device))
        3
        two
      ≡ ok (failures 3) s')
    × Listed s'.nodes s'.head ys
    × (length ys ≡ 2)
unconnected_scans_fail_example =
    unconnected_scans_fail no_device 3 two nodes refl (λ addr nb. refl) two-Listed (omega arith)
      (refl, (refl, tt))
