-- ===== src/Core/Start.antt =====
-- modbus_core_start of src/core/src/MBT_core.c, up to the threads that it starts: what the set-up of
-- each service leaves the core thread with. The memory that it asks for is there.
use modbus_things.Base.{
  ℕ, ◌≡◌, refl, ap, true, false, Option, none, some, List, [], ◌∷◌, ok, Cmd, pure, ◌>>=◌, ◌>>◌,
}
use modbus_things.Base.Int.{ℤ, pos}
use modbus_things.Base.Text.{Text, codes}
use modbus_things.Disk.{Disk}
use modbus_things.Attributes.{Db}
use modbus_things.Attributes.Key
use modbus_things.Attributes.Setup.{
  NetState, online, Service, MdbNetwork, Setup, default_dev_uuid, default_server_fqdn, load,
  modbus_attributes_init,
}
use modbus_things.Attributes.Boot.{
  Waits, IsCold, warm, stored_or, load-cached, load-first, update_start,
}
use modbus_things.Bulk.{bulk_service_init}
use modbus_things.Mqtt.{start_queue}
use modbus_things.Mqtt.Client.{MqttAdapter, mqtt_client_init, mqtt_client_start}
use modbus_things.Scan.{init}
use modbus_things.Core.Loop.{Agent, Config, null, at}

-- REALTIME_SERVER_DEFAULT
abbrev pub realtime_server_default : Text
realtime_server_default = codes "tcp://tqauto.asuscomm.com:1884"

-- REALTIME_ATTR_SUBTOPIC and REALTIME_OTA_SUBTOPIC: the topics of the nodes that `mdc_start` passes on
abbrev pub topics : List Text
topics = codes "v1/devices/me/attributes" ∷ codes "v1/devices/me/attributes/response/+" ∷ []

-- `mqtt_client_init` and `mqtt_client_start` of the port, by the token, the identity, the address of
-- the server and the topics
abbrev pub Client : Type 0 → Type 0
Client Q = Option Text → Option Text → Option Text → List Text → Q

-- the client of src/port/src/mqttclient/portMqtt.c, which looks at the first of the topics only
abbrev pub mqttclient : Client MqttAdapter
mqttclient token cid uri [] = mqtt_client_init token cid uri
mqttclient token cid uri (topic ∷ topics) =
    mqtt_client_start topic topics (mqtt_client_init token cid uri)

-- what `mdc->config` points to
abbrev pub config_of : Option Text → Config
config_of none = null
config_of (some t) = at t

module _ {D : Type 0} (db : Db D) (server : Service) (mdbn : MdbNetwork) (now : ℤ) where
  -- `mdc_attribute_update`: the token and the configuration
  unfoldable pub mdc_attribute_update : Cmd (Setup D) (Option Text × Option Text)
  mdc_attribute_update = do
    modbus_attributes_init db server mdbn now
    t ← load db server mdbn now Key.dev_token none
    c ← load db server mdbn now Key.dev_config none
    pure (t.1, c.1)

  attributes_lem :
      (s : Setup D) (token old config : Text) (n : NetState) (l : List NetState)
      → let uri = stored_or default_server_fqdn (db.load Key.server_uri s.attributes.store) in
        IsCold s
        → db.load Key.dev_token s.attributes.store ≡ some token
        → db.load Key.dev_config s.attributes.store ≡ some old
        → s.net ≡ n ∷ online ∷ l
        → Waits db server mdbn now (online ∷ l)
        → server.attri_update (codes "mb_config") token uri ≡ (pos 0, some config)
        → (s' : Setup D) × (mdc_attribute_update s ≡ ok (some token, some config) s')
          × (s'.attributes.cache Key.server_uri ≡ some uri)
          × (s'.attributes.cache Key.dev_uuid ≡ none)
  unfolding mdc_attribute_update
  attributes_lem s token old config n l c t o e w a =
      let (s', r, new, tok, addr, id) =
        update_start db server mdbn now s token old config n l c t o e w a in
      (
        s',
        rw
            (
              r,
              load-cached db server mdbn now Key.dev_token none token s' tok,
              load-cached db server mdbn now Key.dev_config none config s' new,
            )
            refl,
        addr,
        id,
      )

  module _ {Q : Type 0} where
    -- `mdc_realtime_setup`, with the start of the client
    unfoldable pub mdc_realtime_setup : Client Q → Option Text → Cmd (Setup D) Q
    mdc_realtime_setup client token = do
      u ← load db server mdbn now Key.server_uri (some realtime_server_default)
      i ← load db server mdbn now Key.dev_uuid (some default_dev_uuid)
      pure (client token i.1 u.1 topics)

    -- `_mc` when the core thread starts
    abbrev pub agent_of : Text → Option Text → Text → Disk → Q → ℕ → Setup D → Agent Q D
    agent_of token config buf d q left s = record {
      config = config_of config;
      config_update = true;
      ota_update = false;
      ota_title = none;
      ota_version = none;
      ota_file_size = pos 0;
      rc = pos 0;
      nodes = init left;
      shared = record { queue = q; bulk = bulk_service_init db token buf s.attributes d };
    }

    -- The spool's token is a text: a device without one has no agent here, although the program goes on
    -- with a NULL token.
    abbrev pub new_agent :
        Option Text → Option Text → Text → Disk → Q → ℕ → Setup D → Option (Agent Q D)
    new_agent none config buf d q left s = none
    new_agent (some token) config buf d q left s = some (agent_of token config buf d q left s)

    -- `modbus_core_start`
    unfoldable pub modbus_core_start :
        Client Q → Text → Disk → ℕ → Cmd (Setup D) (Option (Agent Q D))
    modbus_core_start client buf d left = do
      r ← mdc_attribute_update
      q ← mdc_realtime_setup client r.0
      (λ s. ok (new_agent r.0 r.1 buf d q left s) s)

    -- the set-up with the address at hand, and the identity still to load
    pub realtime_lem :
        (client : Client Q) (s s' : Setup D) (token : Option Text) (uri : Text)
        → load db server mdbn now Key.server_uri (some realtime_server_default) s
          ≡ ok (pos 0, some uri) s'
        → s'.attributes.cache Key.dev_uuid ≡ none
        → let uuid = stored_or default_dev_uuid (db.load Key.dev_uuid s'.attributes.store) in
          mdc_realtime_setup client token s
          ≡ ok (client token (some uuid) (some uri) topics) (warm Key.dev_uuid uuid s')
    unfolding mdc_realtime_setup
    realtime_lem client s s' token uri u i =
        rw (u, load-first db server mdbn now Key.dev_uuid default_dev_uuid s' i) refl

    -- A start has an empty cache. With a token and a configuration in the store, the network up at its
    -- last test, a wait for it that ends and changes no later answer, and a server, at the stored
    -- address or else the default one, that answers with the code 0 and a configuration,
    -- modbus_core_start ends. The core thread starts with that configuration, to be parsed, no nodes,
    -- the token for the spool, and the client of the token and the same address: where none is stored,
    -- that is the default address of the attributes, not the one of the real-time service. The client's
    -- identity is the one that is then stored, or else the default one.
    pub modbus_core_start_lem :
        (client : Client Q) (buf : Text) (d : Disk) (left : ℕ) (s : Setup D)
        (token old config : Text) (n : NetState) (l : List NetState)
        → let uri = stored_or default_server_fqdn (db.load Key.server_uri s.attributes.store) in
          IsCold s
          → db.load Key.dev_token s.attributes.store ≡ some token
          → db.load Key.dev_config s.attributes.store ≡ some old
          → s.net ≡ n ∷ online ∷ l
          → Waits db server mdbn now (online ∷ l)
          → server.attri_update (codes "mb_config") token uri ≡ (pos 0, some config)
          → (a : Agent Q D) × (s' : Setup D) × (modbus_core_start client buf d left s
              ≡ ok (some a) s')
            × (a.config ≡ at config)
            × (a.config_update ≡ true)
            × (a.rc ≡ pos 0)
            × (a.nodes ≡ init left)
            × (let uuid = stored_or default_dev_uuid (db.load Key.dev_uuid s'.attributes.store) in
                a.shared.queue ≡ client (some token) (some uuid) (some uri) topics)
            × (a.shared.bulk ≡ bulk_service_init db token buf s'.attributes d)
    unfolding modbus_core_start
    modbus_core_start_lem client buf d left s token old config n l c t o e w a =
        let uri = stored_or default_server_fqdn (db.load Key.server_uri s.attributes.store) in
        let (s1, r, addr, id) = attributes_lem s token old config n l c t o e w a in
        let uuid = stored_or default_dev_uuid (db.load Key.dev_uuid s1.attributes.store) in
        let s' : Setup D = warm Key.dev_uuid uuid s1 in
        (
          agent_of token (some config) buf d (client (some token) (some uuid) (some uri) topics)
              left s',
          s',
          rw
              (
                r,
                realtime_lem client s1 s1 (some token) uri
                    (load-cached db server mdbn now Key.server_uri (some realtime_server_default)
                      uri s1 addr)
                    id,
              )
              refl,
          refl,
          refl,
          refl,
          refl,
          refl,
          refl,
        )

  -- In that case the core thread's client is connected to that address, and it has subscribed to the
  -- attributes but not to the messages on a new firmware.
  pub ota_unsubscribed :
      (buf : Text) (d : Disk) (left : ℕ) (s : Setup D) (token old config : Text) (n : NetState)
      (l : List NetState)
      → let uri = stored_or default_server_fqdn (db.load Key.server_uri s.attributes.store) in
        IsCold s
        → db.load Key.dev_token s.attributes.store ≡ some token
        → db.load Key.dev_config s.attributes.store ≡ some old
        → s.net ≡ n ∷ online ∷ l
        → Waits db server mdbn now (online ∷ l)
        → server.attri_update (codes "mb_config") token uri ≡ (pos 0, some config)
        → (a : Agent MqttAdapter D) × (s' : Setup D) × (modbus_core_start mqttclient buf d left s
            ≡ ok (some a) s')
          × (a.shared.queue.host ≡ some uri)
          × (a.shared.queue.user_name ≡ some token)
          × (a.shared.queue.subscribed ≡ codes "v1/devices/me/attributes" ∷ [])
          × (a.shared.queue.mq ≡ some start_queue)
  unfolding mqtt_client_init mqtt_client_start
  ota_unsubscribed buf d left s token old config n l c t o e w a =
      let (agent, s', run, _, _, _, _, q, _) =
        modbus_core_start_lem mqttclient buf d left s token old config n l c t o e w a in
      (
        agent,
        s',
        run,
        ap (λ m. m.host) q,
        ap (λ m. m.user_name) q,
        ap (λ m. m.subscribed) q,
        ap (λ m. m.mq) q,
      )
