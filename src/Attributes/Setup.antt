-- ===== src/Attributes/Setup.antt =====
-- The set-up of the attributes in src/core/src/MBT_attributes.c, which the core thread waits for. The
-- server (src/port/inc/MBT_portServer.h) is an interface, and the states of the network are the answers
-- that `get_net_state` gives, one after the other; a call that has none waits for ever.
use modbus_things.Base.{
  ℕ, Option, none, some, List, [], ◌∷◌, if◌then◌else◌, ok, fault, blocked, Cmd, pure, ◌>>=◌, ◌>>◌,
}
use modbus_things.Base.Int.{ℤ, pos, neg, is_neg, is_zero}
use modbus_things.Base.Text.{Text, codes, text_eq}
use modbus_things.Attributes.{
  Db, Attributes, load_attribute, save_attribute, save_attribute_int, check_expire,
}
use modbus_things.Attributes.Key

-- MDB_NETWORK_*
pub data NetState : Type 0 where
  unknown offline online : NetState

-- `service_dev_provision`, which may be undefined, and `service_attri_update`: a code, and the text
-- if one is written
pub record Service : Type 0 where
  pub dev_provision : Text → Text → Option (ℤ × Option Text)
  pub attri_update : Text → Text → Text → ℤ × Option Text

-- What `mdb_network_t` gives besides the states: `wait_for_ready` takes a timeout and the answers that
-- `get_net_state` has still to give, and leaves those that come after the wait; `none` is a wait
-- without end. Its code is dropped.
pub record MdbNetwork : Type 0 where
  pub wait_for_ready : ℤ → List NetState → Option (List NetState)

pub record Setup (D : Type 0) : Type 0 where
  pub attributes : Attributes D
  pub net : List NetState

-- DEFAULT_SERVER_FQDN and DEFAULT_DEV_UUID
abbrev pub default_server_fqdn : Text
default_server_fqdn = codes "www.tqautotech.com"

abbrev pub default_dev_uuid : Text
default_dev_uuid = codes "ModbusThings-000001"

-- the rest of the answers after `get_net_state() != MDB_NETWORK_ONLINE` has ended its loop
unfoldable pub until_online : List NetState → Option (List NetState)
until_online [] = none
until_online (online ∷ l) = some l
until_online (_ ∷ l) = until_online l

module _ {D : Type 0} (db : Db D) (server : Service) (mdbn : MdbNetwork) (now : ℤ) where
  unfoldable pub load : ℕ → Option Text → Cmd (Setup D) (ℤ × Option Text)
  load key dft s =
      let (r, a) = load_attribute db key dft s.attributes in ok r (record s { attributes = a })

  abbrev pub save : ℕ → Text → Cmd (Setup D) (Unit {0})
  save key t s = ok tt (record s { attributes = (save_attribute db key t s.attributes).1 })

  abbrev pub save_int : ℕ → ℤ → Cmd (Setup D) (Unit {0})
  save_int key v s = ok tt (record s { attributes = (save_attribute_int db key v s.attributes).1 })

  abbrev pub get_net_state : Cmd (Setup D) NetState
  get_net_state s = elim s.net [ [] ↦ blocked | n ∷ l ↦ ok n (record s { net = l }) ]

  -- the `strcmp` of the new configuration and the old one, and what follows
  abbrev pub compare_config : ℤ → Option Text → Option Text → Cmd (Setup D) ℤ
  compare_config rc (some new) (some old) =
      if text_eq new old
      then pure rc
      else (do save Key.dev_config new; save_int Key.dev_config_ts now; pure rc)
  compare_config rc _ _ = λ s. fault

  -- `check_config_update`
  unfoldable pub check_config_update : Text → Option Text → Text → Cmd (Setup D) ℤ
  check_config_update token config uri =
      let r = server.attri_update (codes "mb_config") token uri in
      if is_neg r.0 then pure r.0 else compare_config r.0 r.1 config

  -- `do_dev_provisioning`: the code and the token
  unfoldable pub do_dev_provisioning : Text → Cmd (Setup D) (ℤ × Option Text)
  do_dev_provisioning uri s = elim (until_online s.net) [
    | none ↦ blocked
    | some l ↦
        let (r, a) = load_attribute db Key.dev_uuid (some default_dev_uuid) s.attributes in
        let s' : Setup D = record { attributes = a; net = l } in
        elim r.1 [
          | none ↦ ok (r.0, none) s'
          | some uuid ↦ elim (server.dev_provision uri uuid) [ none ↦ fault | some t ↦ ok t s' ]
        ]
  ]

  -- A text that is loaded with a default is always there.
  abbrev pub server_uri : Option Text → Text
  server_uri none = default_server_fqdn
  server_uri (some t) = t

  -- `token`, `config` and `timeout` where the device has a token
  abbrev pub with_token : Text → Cmd (Setup D) (Text × Option Text × ℤ)
  with_token token = do
    c ← load Key.dev_config none
    s ← (λ s. ok s s)
    if is_zero c.0
        then pure (
          token,
          c.1,
          if check_expire db Key.dev_config_ts now s.attributes then pos 5000 else neg 1,
        )
        else pure (token, none, pos 0)

  -- the code of the provisioning, and the token that is saved
  abbrev pub provisioned : ℤ × Option Text → Cmd (Setup D) (Option Text)
  provisioned (rc, token) =
      if is_neg rc
      then pure none
      else (elim token [ none ↦ (λ s. fault) | some t ↦ (do save Key.dev_token t; pure (some t)) ])

  -- the wait of `modbus_attributes_init` after the first test of the network
  abbrev pub wait_if_offline : NetState → ℤ → Cmd (Setup D) (Unit {0})
  wait_if_offline offline timeout s =
      if is_neg timeout then ok tt s else (elim (mdbn.wait_for_ready timeout s.net) [
        | none ↦ blocked
        | some l ↦ ok tt (record s { net = l })
      ])
  wait_if_offline _ timeout s = ok tt s

  -- the end of `modbus_attributes_init`, from the first test of the network on
  unfoldable pub finish : Text → Option Text → ℤ → Cmd (Setup D) ℤ
  finish token config timeout = do
    before ← get_net_state
    wait_if_offline before timeout
    after ← get_net_state
    elim after [
      | online ↦ (do
        u ← load Key.server_uri (some default_server_fqdn)
        check_config_update token config (server_uri u.1)
        pure (pos 0))
      | _ ↦ pure (pos 0)
    ]

  abbrev pub without_token : Cmd (Setup D) ℤ
  without_token = do
    u ← load Key.server_uri (some default_server_fqdn)
    r ← do_dev_provisioning (server_uri u.1)
    t ← provisioned r
    elim t [ none ↦ pure (neg 1) | some token ↦ finish token none (neg 1) ]

  -- `modbus_attributes_init`
  unfoldable pub modbus_attributes_init : Cmd (Setup D) ℤ
  modbus_attributes_init = do
    r ← load Key.dev_token none
    elim r.1 [ none ↦ without_token | some token ↦ (do t ← with_token token; finish t.0 t.1 t.2) ]
