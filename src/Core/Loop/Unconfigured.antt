-- ===== src/Core/Loop/Unconfigured.antt =====
-- mdc_loop of src/core/src/MBT_core.c in a device that has started without a configuration.
use modbus_things.Base.{◌≡◌, subst, ok, and_then}
use modbus_things.Base.Text.{Text}
use modbus_things.Queue.{null}
use modbus_things.Core.Loop
use modbus_things.Core.Loop.{
  Agent, World, Config, update_config, parse_config, turn, realtime_msg_received,
  realtime_ota_msg_received, upload, scan_and_publish, with_text, with_int, save_config, within,
  in_bulk,
}
use modbus_things.Core.Loop.Blank.{
  Blank, Blanks, received-Blanks, ota_received-Blanks, turn-Blanks, turn-idle, idle,
}

-- what has become of the agent `a`: messages that came in, and turns that ended
pub data Since {Q D : Type 0} (J : Type 0) (a : Agent Q D) : Agent Q D → Type 0 where
  began : Since J a a
  received :
      {b c : Agent Q D} (w : World Q D J) (msg : Text)
      → Since J a b
      → realtime_msg_received w msg b ≡ ok tt c
      → Since J a c
  ota_received :
      {b c : Agent Q D} (w : World Q D J) (msg : Text)
      → Since J a b
      → realtime_ota_msg_received w msg b ≡ ok tt c
      → Since J a c
  turned : {b c : Agent Q D} (w : World Q D J) → Since J a b → turn w b ≡ ok tt c → Since J a c

Since-Blank : {Q D J : Type 0} {a b : Agent Q D} → Blank a → Since J a b → Blank b
Since-Blank blank began = blank
Since-Blank blank (received {b} w msg l e) =
    subst Blanks e (received-Blanks w msg b (Since-Blank blank l))
Since-Blank blank (ota_received {b} w msg l e) =
    subst Blanks e (ota_received-Blanks w msg b (Since-Blank blank l))
Since-Blank blank (turned {b} w l e) = subst Blanks e (turn-Blanks w b (Since-Blank blank l))

-- An agent that starts without a configuration and without nodes never reads a register: whatever
-- messages and turns have come, a new configuration among them, in any order and any world, it still
-- has neither, and a turn is, after the uploads for a new configuration, one call of
-- check_do_bulk_service for a scan that failed.
pub unconfigured_for_ever :
    {Q D J : Type 0} {a b : Agent Q D} (w : World Q D J)
    → Blank a
    → Since J a b
    → (b.config ≡ Loop.null)
      × (b.nodes.head ≡ null)
      × (turn w b ≡ and_then (update_config w b) (λ _. idle w))
unconfigured_for_ever {b = b} w blank l =
    let c = Since-Blank blank l in (c.no_config, c.no_nodes, turn-idle w b c)
