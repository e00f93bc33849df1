-- ===== src/Core/Loop/Turns.antt =====
-- What a turn of mdc_loop comes to.
use modbus_things.Base.{
  suc, ◌<◌, ◌≡◌, refl, ap, ◌∙◌, true, false, none, some, [], ◌∷◌, arith, length, ok, fault,
  and_then,
}
use modbus_things.Base.Int.{pos, neg}
use modbus_things.Base.Text.{Text, codes, text_eq}
use modbus_things.Attributes.{save_attribute}
use modbus_things.Attributes.Key
use modbus_things.Scan.{Scan, merge_result}
use modbus_things.Scan.Rounds.{Nodes, Listed, scanned, any_success, scan-scanned}
use modbus_things.Scan.Merge.{AllNamed, merge_result_lem}
use modbus_things.Core.BulkService.{scan_fail}
use modbus_things.Core.Loop.{
  Agent, World, freed, at, update_config, publish, scan_and_publish, turn, realtime_msg_received,
  upload,
}

module _ {Q D J : Type 0} (w : World Q D J) where
  length-scanned : (xs : Nodes) → length (scanned w.read xs) ≡ length xs
  length-scanned [] = refl
  length-scanned ((a, n) ∷ xs) = ap (λ k. suc k) (length-scanned xs)

  scanned-AllNamed : (xs : Nodes) → AllNamed xs → AllNamed (scanned w.read xs)
  scanned-AllNamed [] h = tt
  scanned-AllNamed ((a, n) ∷ xs) h = (
    (
      ground (arith, h.0.0),
      ground (arith, h.0.1),
      (ground (arith, h.0.2.0), ground (arith, h.0.2.1)),
    ),
    scanned-AllNamed xs h.1,
  )

  -- A turn with no new configuration.
  turn-scan_and_publish :
      (s : Agent Q D)
      → s.config_update ≡ false
      → turn w s ≡ scan_and_publish w (record s { ota_update = false })
  unfolding turn update_config
  turn-scan_and_publish s c = rw c refl

  -- A scan that reads any of the nodes ends in the length of a NULL text.
  pub scan_and_publish-fault :
      (s : Agent Q D) (xs : Nodes)
      → Listed s.nodes.nodes s.nodes.head xs
      → AllNamed xs
      → length xs < s.nodes.fresh
      → any_success w.read xs ≡ true
      → scan_and_publish w s ≡ fault
  unfolding scan_and_publish publish
  scan_and_publish-fault s xs l a h any =
      let (n, e, l', fr) = scan-scanned w.read s.nodes xs l h in
      let m : merge_result w.print w.now none n ≡ ok (pos 0, none) n =
        (merge_result_lem w.print w.now [] n (scanned w.read xs) l' (scanned-AllNamed xs a)
          (omega (arith, length-scanned xs, fr, h))).1 in
      rw (e, any, m) refl

  -- With no new configuration, a turn of mdc_loop over a list of input registers, whose names fit
  -- in the table of keys, is undefined whenever any of them has been read: it takes the length of a
  -- NULL text, and pushes no telemetry.
  pub turn_after_scan_fault :
      (s : Agent Q D) (xs : Nodes)
      → s.config_update ≡ false
      → Listed s.nodes.nodes s.nodes.head xs
      → AllNamed xs
      → length xs < s.nodes.fresh
      → any_success w.read xs ≡ true
      → turn w s ≡ fault
  turn_after_scan_fault s xs c l a h any =
      turn-scan_and_publish s c
      ∙ scan_and_publish-fault (record s { ota_update = false }) xs l a h any

  -- With no new configuration, a turn of mdc_loop over a list of nodes of which none has been read
  -- is a call of check_do_bulk_service for that reason on the spool, with the nodes as the scan left
  -- them, in their order.
  pub turn_scan_fails :
      (s : Agent Q D) (xs : Nodes)
      → s.config_update ≡ false
      → Listed s.nodes.nodes s.nodes.head xs
      → length xs < s.nodes.fresh
      → any_success w.read xs ≡ false
      → (n : Scan) × Listed n.nodes n.head (scanned w.read xs)
        × (turn w s ≡ upload w scan_fail (record s { ota_update = false; rc = neg 1; nodes = n }))
  unfolding scan_and_publish
  turn_scan_fails s xs c l h any =
      let (n, e, l', fr) = scan-scanned w.read s.nodes xs l h in
      (n, l', rw (turn-scan_and_publish s c, e, any) refl)

  -- the state after a new configuration has come in
  abbrev after : Agent Q D → Text → Agent Q D
  after s new = record s {
    config_update = true;
    config = freed;
    shared = record s.shared {
      bulk = record s.shared.bulk {
        attributes = (save_attribute w.db Key.dev_config new s.shared.bulk.attributes).1;
      };
    };
  }

  received :
      (s : Agent Q D) (msg new old : Text) (root mb : J)
      → w.json.parse msg ≡ some root
      → w.json.get_object_item root (codes "mb_config") ≡ some mb
      → w.json.valuestring mb ≡ some new
      → s.config ≡ at old
      → s.shared.bulk.attributes.cache Key.dev_config ≡ some old
      → text_eq old new ≡ false
      → realtime_msg_received w msg s ≡ ok tt (after s new)
  unfolding realtime_msg_received
  received s msg new old root mb p g v o c ne = ground arith

  freed_fault : (s : Agent Q D) → s.config_update ≡ true → s.config ≡ freed → turn w s ≡ fault
  unfolding turn update_config
  freed_fault s u f = ground arith

  -- Where the core thread's configuration is the cached one, a message with another one has the text
  -- freed that the core thread reads: the next turn of mdc_loop reads freed memory.
  pub config_message_fault :
      (s : Agent Q D) (msg new old : Text) (root mb : J)
      → w.json.parse msg ≡ some root
      → w.json.get_object_item root (codes "mb_config") ≡ some mb
      → w.json.valuestring mb ≡ some new
      → s.config ≡ at old
      → s.shared.bulk.attributes.cache Key.dev_config ≡ some old
      → text_eq old new ≡ false
      → and_then (realtime_msg_received w msg s) (λ _. turn w) ≡ fault
  config_message_fault s msg new old root mb p g v o c ne =
      rw (received s msg new old root mb p g v o c ne) (freed_fault (after s new) refl refl)
