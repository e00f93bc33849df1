-- ===== src/Core/Unconfigured.antt =====
-- modbus_core_start and mdc_loop of src/core/src/MBT_core.c in a device that has a token but no
-- configuration yet.
use modbus_things.Base.{
  ℕ, ◌++◌, blocked, ◌≡◌, ◌≢◌, refl, ◌∙◌, false, none, some, List, ◌∷◌, arith, ok, fault, and_then,
}
use modbus_things.Base.Int.{ℤ, pos, is_neg}
use modbus_things.Base.Text.{Text, codes}
use modbus_things.Disk.{Disk}
use modbus_things.Attributes.{Db}
use modbus_things.Attributes.Key
use modbus_things.Attributes.Setup.{
  NetState, unknown, offline, online, Service, MdbNetwork, Setup, finish, wait_if_offline,
  default_server_fqdn, default_dev_uuid, modbus_attributes_init,
}
use modbus_things.Attributes.Boot.{
  warm, stored_or, waited, load-cached, load-stored, load-first, load-missing, no_config,
}
use modbus_things.Queue.{null}
use modbus_things.Scan.{init}
use modbus_things.Network.Linux.{linux}
use modbus_things.Network.RtThread.{Ping, AllRetried, is_retried, rt_thread, wait_for_ready_lem}
use modbus_things.Core.Start.{
  Client, topics, realtime_server_default, agent_of, mdc_attribute_update, modbus_core_start,
  realtime_lem,
}
use modbus_things.Core.Loop
use modbus_things.Core.Loop.{Agent, World, turn, update_config}
use modbus_things.Core.Loop.Blank.{Blank, idle}
use modbus_things.Core.Loop.Unconfigured.{Since, unconfigured_for_ever}

-- The device starts, with an empty cache, and its store has a token but no configuration.
pub record HasNoConfig {D : Type 0} (db : Db D) (s : Setup D) (token : Text) : Type 0 where
  pub cold : (k : ℕ) → s.attributes.cache k ≡ none
  pub token_stored : db.load Key.dev_token s.attributes.store ≡ some token
  pub not_stored : db.load Key.dev_config s.attributes.store ≡ none

module _ {D : Type 0} (db : Db D) (server : Service) (mdbn : MdbNetwork) (now : ℤ) where
  -- modbus_attributes_init is then its end, with a wait without a timeout.
  init-finish :
      (s : Setup D) (token : Text)
      → HasNoConfig db s token
      → modbus_attributes_init db server mdbn now s
        ≡ finish db server mdbn now token none (pos 0) (warm Key.dev_token token s)
  unfolding modbus_attributes_init
  init-finish s token h =
      rw
        (
          load-stored db server mdbn now Key.dev_token none token s (h.cold Key.dev_token)
              h.token_stored,
          load-missing db server mdbn now Key.dev_config (warm Key.dev_token token s)
              (h.cold Key.dev_config) h.not_stored,
        )
        refl

  finish_offline :
      (s : Setup D) (token : Text) (n m : NetState) (l : List NetState)
      → s.net ≡ n ∷ m ∷ l
      → m ≢ online
      → wait_if_offline db server mdbn now n (pos 0) (record s { net = m ∷ l })
        ≡ ok tt (record s { net = m ∷ l })
      → finish db server mdbn now token none (pos 0) s ≡ ok (pos 0) (record s { net = l })
  unfolding finish
  finish_offline s token n unknown l e h w = rw (e, w) refl
  finish_offline s token n offline l e h w = rw (e, w) refl
  finish_offline s token n online l e h w = absurd (h refl)

  -- A wait that has no end, and one after which the server answers with a configuration.
  finish_blocked :
      (s : Setup D) (token : Text) (l : List NetState)
      → s.net ≡ offline ∷ l
      → mdbn.wait_for_ready (pos 0) l ≡ none
      → finish db server mdbn now token none (pos 0) s ≡ blocked
  unfolding finish
  finish_blocked s token l e w = rw (e, w) refl

  finish_fault :
      (s : Setup D) (token config : Text) (rc : ℤ) (l after : List NetState)
      → let uri = stored_or default_server_fqdn (db.load Key.server_uri s.attributes.store) in
        s.net ≡ offline ∷ l
        → s.attributes.cache Key.server_uri ≡ none
        → mdbn.wait_for_ready (pos 0) l ≡ some (online ∷ after)
        → server.attri_update (codes "mb_config") token uri ≡ (rc, some config)
        → is_neg rc ≡ false
        → finish db server mdbn now token none (pos 0) s ≡ fault
  unfolding finish
  finish_fault s token config rc l after e u w a g =
      let uri = stored_or default_server_fqdn (db.load Key.server_uri s.attributes.store) in
      let s1 : Setup D = record s { net = after } in
      rw
        (
          e,
          w,
          load-first db server mdbn now Key.server_uri default_server_fqdn s1 u,
          no_config db server mdbn now (warm Key.server_uri uri s1) token uri config rc a g,
        )
        refl

  update_none :
      (s s' : Setup D) (token : Text)
      → s'.attributes.cache Key.dev_token ≡ some token
      → s'.attributes.cache Key.dev_config ≡ none
      → db.load Key.dev_config s'.attributes.store ≡ none
      → modbus_attributes_init db server mdbn now s ≡ ok (pos 0) s'
      → mdc_attribute_update db server mdbn now s ≡ ok (some token, none) s'
  unfolding mdc_attribute_update
  update_none s s' token t c n e =
      rw
        (
          e,
          load-cached db server mdbn now Key.dev_token none token s' t,
          load-missing db server mdbn now Key.dev_config s' c n,
        )
        refl

  -- the agent of such a start
  abbrev blank_agent : {Q : Type 0} → Text → Text → Disk → Q → ℕ → Setup D → Agent Q D
  blank_agent token buf d q left s = agent_of db server mdbn now token none buf d q left s

  blank_agent-Blank :
      {Q : Type 0} (token buf : Text) (d : Disk) (q : Q) (left : ℕ) (s : Setup D)
      → Blank (blank_agent token buf d q left s)
  unfolding init
  blank_agent-Blank token buf d q left s = record {
    no_config = refl;
    no_nodes = refl;
    fresh = omega arith;
  }

  -- the state after the set-up of the real-time service
  abbrev set_up : Setup D → Setup D
  set_up s =
      let uri = stored_or realtime_server_default (db.load Key.server_uri s.attributes.store) in
      let uuid = stored_or default_dev_uuid (db.load Key.dev_uuid s.attributes.store) in
      warm Key.dev_uuid uuid (warm Key.server_uri uri s)

  abbrev client_of : {Q : Type 0} → Client Q → Text → Setup D → Q
  client_of client token s =
      client (some token)
        (some (stored_or default_dev_uuid (db.load Key.dev_uuid s.attributes.store)))
        (some (stored_or realtime_server_default (db.load Key.server_uri s.attributes.store)))
        topics

  start_none :
      {Q : Type 0} (client : Client Q) (buf : Text) (d : Disk) (left : ℕ) (s : Setup D)
      (token : Text) (l : List NetState)
      → HasNoConfig db s token
      → let s1 = record (warm Key.dev_token token s) { net = l } in
        modbus_attributes_init db server mdbn now s ≡ ok (pos 0) s1
        → modbus_core_start db server mdbn now client buf d left s
          ≡ ok
              (some (blank_agent token buf d (client_of client token s) left (set_up s1)))
              (set_up s1)
  unfolding modbus_core_start
  start_none client buf d left s token l h e =
      let s1 : Setup D = record (warm Key.dev_token token s) { net = l } in
      let uri = stored_or realtime_server_default (db.load Key.server_uri s.attributes.store) in
      rw
        (
          update_none s s1 token refl (h.cold Key.dev_config) h.not_stored e,
          realtime_lem db server mdbn now client s1 (warm Key.server_uri uri s1) (some token) uri
              (load-first db server mdbn now Key.server_uri realtime_server_default s1
                (h.cold Key.server_uri))
              (h.cold Key.dev_uuid),
        )
        refl

-- On Linux, a device that starts with an empty cache, has a token but no configuration in its store, and
-- is not online at the second test of the network, does not wait for it: modbus_core_start ends.
-- Whatever messages and turns of mdc_loop come then, in any order and any world, the agent never gets
-- a configuration or a node to scan, and a turn is no more than the uploads for a new configuration
-- and for a scan that failed.
pub offline_start_idle :
    {D Q J : Type 0} (db : Db D) (server : Service) (now : ℤ) (client : Client Q) (buf : Text)
    (d : Disk) (left : ℕ) (s : Setup D) (token : Text) (n m : NetState) (l : List NetState)
    → HasNoConfig db s token
    → s.net ≡ n ∷ m ∷ l
    → m ≢ online
    → (a : Agent Q D) × (s' : Setup D) × (modbus_core_start db server linux now client buf d left s
        ≡ ok (some a) s')
      × ((b : Agent Q D) (w : World Q D J)
          → Since J a b
          → (b.config ≡ Loop.null)
            × (b.nodes.head ≡ null)
            × (turn w b ≡ and_then (update_config w b) (λ _. idle w)))
offline_start_idle db server now client buf d left s token n m l h e o =
    let s1 : Setup _ = warm Key.dev_token token s in
    let s2 : Setup _ = record s1 { net = l } in
    let i =
      init-finish db server linux now s token h
      ∙ finish_offline db server linux now s1 token n m l e o
          (waited db server linux now n (pos 0) (record s1 { net = m ∷ l }) (λ t. refl)) in
    let q = client_of db server linux now client token s in
    let s' : Setup _ = set_up db server linux now s2 in
    (
      blank_agent db server linux now token buf d q left s',
      s',
      start_none db server linux now client buf d left s token l h i,
      λ b w r.
          unconfigured_for_ever w (blank_agent-Blank db server linux now token buf d q left s') r,
    )

-- On RT-Thread a device that starts with an empty cache, and has a token but no configuration in its
-- store, waits where it is offline at the first test of the network. The wait without a timeout ends in
-- the first ping with another code than -RT_ETIMEOUT or -RT_ERROR. If the network is up from then on,
-- and the server, at the stored address or else the default one, answers with a configuration and no
-- error, then modbus_core_start is undefined: it compares the configuration that it waited for with
-- NULL. If no such ping comes, it waits for ever.
pub waited_start_fault :
    {D Q : Type 0} (db : Db D) (server : Service) (now : ℤ) (client : Client Q) (buf : Text)
    (d : Disk) (left : ℕ) (s : Setup D) (token config : Text) (rc rt_error rt_etimeout : ℤ)
    (failed : List Ping) (p : Ping) (ps : List Ping) (l after : List NetState)
    → let uri = stored_or default_server_fqdn (db.load Key.server_uri s.attributes.store) in
      HasNoConfig db s token
      → s.net ≡ offline ∷ l
      → AllRetried rt_error rt_etimeout failed
      → is_retried rt_error rt_etimeout p ≡ false
      → p.later ≡ online ∷ after
      → server.attri_update (codes "mb_config") token uri ≡ (rc, some config)
      → is_neg rc ≡ false
      → (modbus_core_start db server
            (rt_thread rt_error rt_etimeout (failed ++ (p ∷ ps)))
            now
            client
            buf
            d
            left
            s
          ≡ fault)
        × (modbus_core_start db server
              (rt_thread rt_error rt_etimeout failed)
              now
              client
              buf
              d
              left
              s
            ≡ blocked)
unfolding modbus_core_start mdc_attribute_update
waited_start_fault db server now client buf d left s token config rc rt_error rt_etimeout failed p
      ps l after h e a r up u g =
    let (x, y, z) = wait_for_ready_lem rt_error rt_etimeout failed p ps (pos 0) a in
    let net = rt_thread rt_error rt_etimeout (failed ++ (p ∷ ps)) in
    let none_comes = rt_thread rt_error rt_etimeout failed in
    (
      rw
          (
            init-finish db server net now s token h,
            finish_fault db server net now (warm Key.dev_token token s) token config rc l after e
                (h.cold Key.server_uri) (rw (x r, up) refl) u g,
          )
          refl,
      rw
          (
            init-finish db server none_comes now s token h,
            finish_blocked db server none_comes now (warm Key.dev_token token s) token l e
                (rw y refl),
          )
          refl,
    )
