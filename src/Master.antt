-- ===== src/Master.antt =====
-- The ports of the Modbus master, src/port/src/libmodbus/portMaster.c and
-- src/port/src/RT-libmodbus/portMaster.c. libmodbus is a parameter; a context that is not there is NULL.
pub mod Unconnected
mod Tests
use modbus_things.Base.{ℕ, Bool, true, Option, none, some, List, if◌then◌else◌}
use modbus_things.Base.Int.{ℤ, neg, eq_ℤ}
use modbus_things.Base.Text.{Text, codes}
use modbus_things.Scan.{Read}

-- what the ports use of libmodbus; the codes of the settings are dropped
pub record Libmodbus (C : Type 0) : Type 0 where
  pub new_tcp : Text → ℕ → Option C
  pub new_rtu : Text → ℕ → ℕ → ℕ → ℕ → Option C
  pub set_rs485 : Option C → Option C
  pub set_rts_up : Option C → Option C
  pub set_slave : ℕ → Option C → Option C
  pub set_debug : Bool → Option C → Option C
  pub set_error_recovery : Option C → Option C
  pub set_response_timeout : ℕ → ℕ → Option C → Option C
  pub connect : Option C → ℤ × Option C
  pub read_input_registers : Option C → ℤ → ℤ → ℤ × List ℕ

module _ {C : Type 0} (lib : Libmodbus C) where
  -- The context of `MBT_masterInit` before it is connected; MODBUS_USE_TCP_BACKEND is defined.
  abbrev pub context : Option C
  context =
      lib.set_response_timeout 0 999999
        (lib.set_error_recovery (lib.set_debug true (lib.new_tcp (codes "127.0.0.1") 502)))

  -- `MBT_masterInit` of src/port/src/libmodbus
  unfoldable pub master_init : Option C
  master_init = let r = lib.connect context in if eq_ℤ (r.0) (neg 1) then none else r.1

  -- `MBT_masterReadInputRegs`
  abbrev pub master_read_input_regs : Option C → Read
  master_read_input_regs ctx addr nb = lib.read_input_registers ctx addr nb

  -- `modbus_master_init` of src/port/src/RT-libmodbus: the result of the connection is dropped.
  unfoldable pub modbus_master_init : Option C
  modbus_master_init = lib.set_debug true (
      lib.set_response_timeout 0 999999
        (lib.connect (
          lib.set_slave 1
            (lib.set_rts_up (lib.set_rs485 (lib.new_rtu (codes "/dev/uart1") 9600 b'N' 8 1))))).1)
