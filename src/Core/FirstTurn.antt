-- ===== src/Core/FirstTurn.antt =====
-- From modbus_core_start to the end of the first turn of mdc_loop of src/core/src/MBT_core.c.
use modbus_things.Base.{
  ℕ, suc, ◌<◌, ◌≤◌, ◌≡◌, refl, true, false, none, some, List, [], ◌∷◌, arith, length, ok, fault,
}
use modbus_things.Base.Int.{ℤ, pos, is_neg}
use modbus_things.Base.Text.{Text, codes}
use modbus_things.Disk.{Disk}
use modbus_things.Queue.{Ptr, null}
use modbus_things.Attributes.{Db}
use modbus_things.Attributes.Key
use modbus_things.Attributes.Setup.{
  NetState, online, Service, MdbNetwork, Setup, default_server_fqdn,
}
use modbus_things.Attributes.Boot.{Waits, IsCold, stored_or}
use modbus_things.Scan.{Item, Scan, Cjson, input_reg, entry, half_int, init, parse_scan, scan_item}
use modbus_things.Scan.Config.{Entries, Pair, last_item, parse_keeps_two}
use modbus_things.Scan.Reconfigure.{Document, parse_scan_lem}
use modbus_things.Scan.Merge.{IsSized}
use modbus_things.Scan.Rounds.{Nodes, Listed, any_success}
use modbus_things.Core.Start.{Client, modbus_core_start, modbus_core_start_lem}
use modbus_things.Core.Loop.{Agent, World, at, turn, update_config, scan_and_publish}
use modbus_things.Core.Loop.Turns.{scan_and_publish-fault}

module _ {J : Type 0} (garbage : ℕ → List ℕ) (json : Cjson J) where
  entry-kind : (j : J) (n : Item) → entry garbage json j ≡ some n → n.kind ≡ input_reg
  entry-kind j n e = ground arith

  last_item-kind :
      (js : List J) (ns : List Item) (m : Item)
      → m.kind ≡ input_reg
      → Entries garbage json js ns
      → (last_item garbage json m ns).kind ≡ input_reg
  last_item-kind [] [] m e es = e
  last_item-kind [] (n ∷ ns) m e es = absurd es
  last_item-kind (j ∷ js) [] m e es = absurd es
  last_item-kind (j ∷ js) (n ∷ ns) m e es = last_item-kind js ns n (entry-kind j n es.0) es.1

  -- The two nodes of a pair, as a list.
  abbrev both : Ptr → Item → Ptr → Item → Nodes
  both p h x m = (p, record h { next = x }) ∷ (x, m) ∷ []

  Pair-Listed :
      (s : Scan) (p x : Ptr) (h m : Item)
      → Pair garbage json s p h x m
      → m.next ≡ null
      → Listed s.nodes s.head (both p h x m)
  Pair-Listed s p x h m r e =
      (r.head, r.ne_null, ground (arith, r.apart), r.first, (refl, r.x_ne_null, refl, r.second, e))

  Pair-room : (s : Scan) (p x : Ptr) (h m : Item) → Pair garbage json s p h x m → 2 < s.fresh
  Pair-room s p x h m r = omega (arith, r.ne_null, r.x_ne_null, r.apart, r.below, r.x_below)

module _ {Q D J : Type 0} (w : World Q D J) where
  -- the agent after its configuration has been parsed
  abbrev parsed : Agent Q D → Scan → Agent Q D
  parsed a n = record a { config_update = false; nodes = n }

  update_lem :
      (a : Agent Q D) (t : Text) (n : Scan)
      → a.config ≡ at t
      → a.config_update ≡ true
      → a.rc ≡ pos 0
      → parse_scan w.garbage w.json none t a.nodes ≡ ok (pos 0) n
      → update_config w a ≡ ok tt (parsed a n)
  unfolding update_config
  update_lem a t n c u r e = simp (u, c, e, r)

  turn_lem :
      (a : Agent Q D) (t : Text) (n : Scan)
      → update_config w a ≡ ok tt (parsed a n)
      → scan_and_publish w (record (parsed a n) { ota_update = false }) ≡ fault
      → turn w a ≡ fault
  unfolding turn
  turn_lem a t n e f = rw (e, f) refl

  first_success :
      (n m : Item) (p x : Ptr)
      → n.kind ≡ input_reg
      → is_neg (w.read n.dev_addr (half_int n.size)).0 ≡ false
      → any_success w.read ((p, record n { next = x }) ∷ (x, m) ∷ []) ≡ true
  first_success n m p x k r = rw (k, scan_item) (rw r refl)

-- A device starts with an empty cache, and has a token and a configuration in its store. It is online
-- at its last test of the network, and its waits for it end and change no later answer. The server, at
-- the stored address or else the default one, gives it a configuration of two or more well-formed
-- entries for input registers, whose names fit in the table of keys, with memory for them and sizes
-- that are not negative and below 2^30. Where the first of its devices can be read, modbus_core_start ends, and the
-- first turn of mdc_loop is undefined: it takes the length of a text that is NULL.
pub first_turn_fault :
    {D Q J : Type 0} (db : Db D) (server : Service) (mdbn : MdbNetwork) (now : ℤ)
    (client : Client Q) (buf : Text) (d : Disk) (left : ℕ) (s : Setup D) (token old config : Text)
    (n : NetState) (l : List NetState) (w : World Q D J) (j1 j2 : J) (js : List J) (n1 n2 : Item)
    (ns : List Item)
    → let uri = stored_or default_server_fqdn (db.load Key.server_uri s.attributes.store) in
      IsCold s
      → db.load Key.dev_token s.attributes.store ≡ some token
      → db.load Key.dev_config s.attributes.store ≡ some old
      → s.net ≡ n ∷ online ∷ l
      → Waits db server mdbn now (online ∷ l)
      → server.attri_update (codes "mb_config") token uri ≡ (pos 0, some config)
      → Document w.garbage w.json config (j1 ∷ j2 ∷ js)
      → Entries w.garbage w.json (j1 ∷ j2 ∷ js) (n1 ∷ n2 ∷ ns)
      → suc (suc (length ns)) ≤ left
      → length n1.module_name < 26
      → length (last_item w.garbage w.json n2 ns).module_name < 26
      → IsSized n1
      → IsSized (last_item w.garbage w.json n2 ns)
      → is_neg (w.read n1.dev_addr (half_int n1.size)).0 ≡ false
      → (a : Agent Q D) × (s' : Setup D) × (modbus_core_start db server mdbn now client buf d left s
          ≡ ok (some a) s')
        × (turn w a ≡ fault)
unfolding init
first_turn_fault db server mdbn now client buf d left s token old config n l w j1 j2 js n1 n2 ns c t
      o e wt ans doc es room name1 name2 size1 size2 r =
    let (a, s', run, ac, au, ar, an, _, _) =
      modbus_core_start_lem db server mdbn now client buf d left s token old config n l c t o e wt
        ans in
    let m : Item = last_item w.garbage w.json n2 ns in
    let (n', q, p, pr, nx, _) =
      parse_keeps_two w.garbage w.json (init left) j1 j2 js n1 n2 ns refl (omega arith) es room in
    let up : update_config w a ≡ ok tt (parsed w a n') = update_lem w a config n' ac au ar (
      rw an (parse_scan_lem w.garbage w.json config (j1 ∷ j2 ∷ js) (init left) n' (pos 0) doc p)) in
    let k1 : n1.kind ≡ input_reg = entry-kind w.garbage w.json j1 n1 es.0 in
    (
      a,
      s',
      run,
      turn_lem w a config n' up (
          scan_and_publish-fault w (record (parsed w a n') { ota_update = false })
            (both w.garbage w.json 1 n1 q m) (Pair-Listed w.garbage w.json n' 1 q n1 m pr nx)
            (
              (k1, name1, size1),
              (
                (
                  last_item-kind w.garbage w.json js ns n2
                      (entry-kind w.garbage w.json j2 n2 es.1.0) es.1.1,
                  name2,
                  size2,
                ),
                tt,
              ),
            )
            (Pair-room w.garbage w.json n' 1 q n1 m pr) (first_success w n1 m 1 q k1 r)),
    )
