-- ===== src/Core/Loop/Blank.antt =====
-- What the messages and the turns of mdc_loop of src/core/src/MBT_core.c do to an agent that has no
-- configuration to parse and no node to scan.
use modbus_things.Base.{
  ℕ, zero, suc, ◌<◌, ◌≡◌, refl, Bool, true, false, Option, none, some, arith, if◌then◌else◌, Run,
  ok, fault, blocked, Cmd, and_then, ◌>>◌, pure,
}
use modbus_things.Base.Int.{ℤ, neg, is_neg}
use modbus_things.Base.Text.{Text, codes}
use modbus_things.Queue.{Ptr, null}
use modbus_things.Scan.{Scan, Read, scan, scan_loop}
use modbus_things.Core.BulkService.{Reason, scan_fail, config_error, check_do_bulk_service}
use modbus_things.Core.Loop
use modbus_things.Core.Loop.{
  Agent, World, Config, update_config, parse_config, turn, realtime_msg_received,
  realtime_ota_msg_received, upload, scan_and_publish, with_text, with_int, save_config, within,
  in_bulk,
}

-- The agent has no configuration to parse and no node to scan.
pub record Blank {Q D : Type 0} (a : Agent Q D) : Type 0 where
  pub no_config : a.config ≡ Loop.null
  pub no_nodes : a.nodes.head ≡ null
  pub fresh : 0 < a.nodes.fresh

module _ {Q D : Type 0} where
  -- Where a run ends, the agent is blank.
  abbrev pub Blanks : {A : Type 0} → Run (Agent Q D) A → Type 0
  Blanks (ok a s) = Blank s
  Blanks fault = Unit
  Blanks blocked = Unit

  Blanks-and_then :
      {A B : Type 0} (r : Run (Agent Q D) A) (k : A → Cmd (Agent Q D) B)
      → Blanks r
      → ((a : A) (s : Agent Q D) → Blank s → Blanks (k a s))
      → Blanks (and_then r k)
  Blanks-and_then (ok a s) k b f = f a s b
  Blanks-and_then fault k b f = tt
  Blanks-and_then blocked k b f = tt

  Blanks-option :
      {A : Type 0} (o : Option A) (r : Run (Agent Q D) (Unit {0}))
      (f : A → Run (Agent Q D) (Unit {0}))
      → Blanks r
      → ((a : A) → Blanks (f a))
      → Blanks (elim o [ none ↦ r | some a ↦ f a ])
  Blanks-option none r f b h = b
  Blanks-option (some a) r f b h = h a

  Blanks-command :
      {A : Type 0} (o : Option A) (r : Cmd (Agent Q D) (Unit {0}))
      (f : A → Cmd (Agent Q D) (Unit {0})) (s : Agent Q D)
      → Blanks (r s)
      → ((a : A) → Blanks (f a s))
      → Blanks ((elim o as (λ x. Cmd (Agent Q D) (Unit {0})) [ none ↦ r | some a ↦ f a ]) s)
  Blanks-command none r f s b h = b
  Blanks-command (some a) r f s b h = h a

  Blanks-within :
      {T A : Type 0} (r : Run T A) (f : T → Agent Q D)
      → ((t : T) → Blank (f t))
      → Blanks (within r f)
  Blanks-within (ok a t) f h = h t
  Blanks-within fault f h = tt
  Blanks-within blocked f h = tt

  Blanks-if :
      (c : Bool) (r r' : Run (Agent Q D) (Unit {0}))
      → Blanks r
      → Blanks r'
      → Blanks (if c then r else r')
  Blanks-if true r r' b b' = b
  Blanks-if false r r' b b' = b'

  module _ {J : Type 0} (w : World Q D J) where
    upload-Blanks : (reason : Reason) (a : Agent Q D) → Blank a → Blanks (upload w reason a)
    upload-Blanks reason a b =
        Blanks-and_then (in_bulk w (check_do_bulk_service w.db w.post w.online reason) a)
          (λ _. pure tt)
          (Blanks-within (check_do_bulk_service w.db w.post w.online reason a.shared.bulk) _
            λ t. record { no_config = b.no_config; no_nodes = b.no_nodes; fresh = b.fresh })
          λ rc s c. c

    save_config-Blank : (t : Text) (a : Agent Q D) → Blank a → Blanks (save_config w t a)
    save_config-Blank t a b = record {
      no_config = ground (arith, b.no_config);
      no_nodes = b.no_nodes;
      fresh = b.fresh;
    }

    pub received-Blanks :
        (msg : Text) (a : Agent Q D) → Blank a → Blanks (realtime_msg_received w msg a)
    unfolding realtime_msg_received
    received-Blanks msg a b = Blanks-option (w.json.parse msg) _ _ b λ root.
        Blanks-option (w.json.get_object_item root (codes "mb_config")) _ _ b
          λ mb. Blanks-option (w.json.valuestring mb) _ _ tt λ t. save_config-Blank t a b

    with_text-Blanks :
        (root : J) (key : Text) (f : Text → Agent Q D → Agent Q D) (a : Agent Q D)
        → ((t : Text) → Blank (f t a))
        → Blank a
        → Blanks (with_text w root key f a)
    with_text-Blanks root key f a h b =
        Blanks-option (w.json.get_object_item root key) _ _ b
          λ j. Blanks-option (w.json.valuestring j) _ _ tt λ t. h t

    with_int-Blanks :
        (root : J) (key : Text) (f : ℤ → Agent Q D → Agent Q D) (a : Agent Q D)
        → ((t : ℤ) → Blank (f t a))
        → Blank a
        → Blanks (with_int w root key f a)
    with_int-Blanks root key f a h b =
        Blanks-option (w.json.get_object_item root key) _ _ b λ j. h (w.json.valueint j)

    abbrev titled : Text → Agent Q D → Agent Q D
    titled t s = record s { ota_title = some t }

    abbrev sized : ℤ → Agent Q D → Agent Q D
    sized n s = record s { ota_file_size = n }

    abbrev versioned : Text → Agent Q D → Agent Q D
    versioned t s = record s { ota_version = some t; ota_update = true }

    -- what follows the title of a new firmware
    abbrev rest : J → Cmd (Agent Q D) (Unit {0})
    rest root = do
      with_int w root (codes "fw_size") sized
      with_text w root (codes "fw_version") versioned

    rest-Blanks : (root : J) (a : Agent Q D) → Blank a → Blanks (rest root a)
    rest-Blanks root a b =
        Blanks-and_then (with_int w root (codes "fw_size") sized a)
          (λ _. with_text w root (codes "fw_version") versioned)
          (with_int-Blanks root (codes "fw_size") sized a
            (λ n. record { no_config = b.no_config; no_nodes = b.no_nodes; fresh = b.fresh }) b)
          λ _ s1 b1.
            with_text-Blanks root (codes "fw_version") versioned s1
              (λ t. record { no_config = b1.no_config; no_nodes = b1.no_nodes; fresh = b1.fresh })
              b1

    pub ota_received-Blanks :
        (msg : Text) (a : Agent Q D) → Blank a → Blanks (realtime_ota_msg_received w msg a)
    unfolding realtime_ota_msg_received
    ota_received-Blanks msg a b = Blanks-command (w.json.parse msg) (pure tt) _ a b λ root.
        Blanks-and_then (with_text w root (codes "fw_title") titled a) (λ _. rest root)
          (with_text-Blanks root (codes "fw_title") titled a
            (λ t. record { no_config = b.no_config; no_nodes = b.no_nodes; fresh = b.fresh }) b)
          λ _ s1 b1. rest-Blanks root s1 b1

    loop_none :
        (read : Read) (f : ℕ) (p : Ptr) (s : Scan)
        → p ≡ null
        → 0 < f
        → scan_loop read f p false s ≡ ok false s
    unfolding scan_loop
    loop_none read zero p s e h = absurd (omega arith)
    loop_none read (suc f) p s e h = rw e refl

    scan_none : (read : Read) (s : Scan) → s.head ≡ null → 0 < s.fresh → scan read s ≡ ok (neg 1) s
    unfolding scan
    scan_none read s h f = rw (loop_none read s.fresh s.head s h f, scan) refl

    parse_none : (a : Agent Q D) → a.config ≡ Loop.null → parse_config w a ≡ ok tt a
    parse_none a e = simp (e, parse_config)

    update-Blanks : (a : Agent Q D) → Blank a → Blanks (update_config w a)
    unfolding update_config
    update-Blanks a b =
        let a1 : Agent Q D = record a { config_update = false } in
        let b1 : Blank a1 = record {
          no_config = b.no_config;
          no_nodes = b.no_nodes;
          fresh = b.fresh;
        } in
        Blanks-if a.config_update _ _
          (Blanks-and_then (parse_config w a1) _ (rw (parse_none a1 b.no_config) b1)
            λ _ t c. Blanks-if (is_neg t.rc) _ _ (upload-Blanks config_error t c) c)
          b

    -- the end of a turn that has nothing to scan
    abbrev pub idle : Cmd (Agent Q D) (Unit {0})
    idle a = upload w scan_fail (record a { ota_update = false; rc = neg 1 })

    scan_idle :
        (s : Agent Q D) → Blank s → scan_and_publish w (record s { ota_update = false }) ≡ idle s
    unfolding scan_and_publish
    scan_idle s c = rw (scan_none w.read s.nodes c.no_nodes c.fresh) refl

    pub turn-idle : (a : Agent Q D) → Blank a → turn w a ≡ and_then (update_config w a) (λ _. idle)
    unfolding turn
    turn-idle a b = go (update_config w a) (update-Blanks a b)
      where
        go :
            (r : Run (Agent Q D) (Unit {0}))
            → Blanks r
            → and_then r
                (λ _. do (λ s. ok tt (record s { ota_update = false })); scan_and_publish w)
              ≡ and_then r (λ _. idle)
        go (ok u s) c = scan_idle s c
        go fault c = refl
        go blocked c = refl

    pub turn-Blanks : (a : Agent Q D) → Blank a → Blanks (turn w a)
    turn-Blanks a b = rw (turn-idle a b) (
        Blanks-and_then (update_config w a) (λ _. idle) (update-Blanks a b)
          λ _ s c.
            upload-Blanks scan_fail (record s { ota_update = false; rc = neg 1 })
              (record { no_config = c.no_config; no_nodes = c.no_nodes; fresh = c.fresh }))
