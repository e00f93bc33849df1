-- ===== src/Attributes/Boot.antt =====
-- What modbus_attributes_init leaves behind.
use modbus_things.Base.{
  ℕ, ◌≡◌, ◌≢◌, refl, sym, ◌∙◌, ap, false, Option, none, some, List, ◌∷◌, if◌then◌else◌, arith, ok,
  fault, and_then, pure, Bool-cases, Option-cases, inl, inr,
}
use modbus_things.Base.Int.{ℤ, pos, neg, is_neg}
use modbus_things.Base.Text.{Text, codes, text_eq, text_eq→eq}
use modbus_things.Attributes.{
  Db, Attributes, cached, load_attribute, save_attribute, save_attribute_int, check_expire,
}
use modbus_things.Attributes.Key
use modbus_things.Attributes.Setup.{
  load, NetState, online, offline, unknown, Service, MdbNetwork, Setup, wait_if_offline,
  default_server_fqdn, default_dev_uuid, until_online, check_config_update, do_dev_provisioning,
  finish, modbus_attributes_init,
}

-- At a start the cache is empty.
abbrev pub IsCold : {D : Type 0} → Setup D → Type 0
IsCold s = (k : ℕ) → s.attributes.cache k ≡ none

-- the state after the first load of a key
abbrev pub warm : {D : Type 0} → ℕ → Text → Setup D → Setup D
warm key t s = record s {
  attributes = record s.attributes { cache = cached s.attributes.cache key (some t) };
}

-- what the first load of a key gives, with the default that is asked for
abbrev pub stored_or : Text → Option Text → Text
stored_or dft none = dft
stored_or dft (some t) = t

module _ {D : Type 0} (db : Db D) (server : Service) (mdbn : MdbNetwork) (now : ℤ) where
  pub load-cached :
      (key : ℕ) (dft : Option Text) (v : Text) (s : Setup D)
      → s.attributes.cache key ≡ some v
      → load db server mdbn now key dft s ≡ ok (pos 0, some v) s
  unfolding load load_attribute
  load-cached key dft v s e = ground arith

  pub load-stored :
      (key : ℕ) (dft : Option Text) (v : Text) (s : Setup D)
      → s.attributes.cache key ≡ none
      → db.load key s.attributes.store ≡ some v
      → load db server mdbn now key dft s ≡ ok (pos 0, some v) (warm key v s)
  unfolding load load_attribute
  load-stored key dft v s e d = ground arith

  pub load-first :
      (key : ℕ) (dft : Text) (s : Setup D)
      → s.attributes.cache key ≡ none
      → let v = stored_or dft (db.load key s.attributes.store) in
        load db server mdbn now key (some dft) s ≡ ok (pos 0, some v) (warm key v s)
  unfolding load load_attribute
  load-first key dft s e = elim (Option-cases (db.load key s.attributes.store)) [
    | inl d ↦ ground (arith, e, d)
    | inr (v, d) ↦ ground (arith, e, d)
  ]

  pub load-missing :
      (key : ℕ) (s : Setup D)
      → s.attributes.cache key ≡ none
      → db.load key s.attributes.store ≡ none
      → load db server mdbn now key none s ≡ ok (neg 1, none) s
  unfolding load load_attribute
  load-missing key s e d = ground arith

  provisioning_lem :
      (s : Setup D) (uri token : Text) (rc : ℤ) (l : List NetState)
      → let uuid = stored_or default_dev_uuid (db.load Key.dev_uuid s.attributes.store) in
        s.attributes.cache Key.dev_uuid ≡ none
        → until_online s.net ≡ some l
        → server.dev_provision uri uuid ≡ some (rc, some token)
        → do_dev_provisioning db server mdbn now uri s
          ≡ ok (rc, some token) (record (warm Key.dev_uuid uuid s) { net = l })
  unfolding do_dev_provisioning load_attribute
  provisioning_lem s uri token rc l e n p =
      elim (Option-cases (db.load Key.dev_uuid s.attributes.store)) [
        | inl d ↦ ground (arith, d)
        | inr (v, d) ↦ ground (arith, d)
      ]

  -- A wait for the network that leaves its later answers as they are.
  abbrev pub Waits : List NetState → Type 0
  Waits l = (timeout : ℤ) → mdbn.wait_for_ready timeout l ≡ some l

  pub waited :
      (n : NetState) (timeout : ℤ) (s : Setup D)
      → Waits s.net
      → wait_if_offline db server mdbn now n timeout s ≡ ok tt s
  waited unknown timeout s w = refl
  waited online timeout s w = refl
  waited offline timeout s w = rw (w timeout) (ground arith)

  pub finish_lem :
      (s s' : Setup D) (token uri : Text) (config : Option Text) (timeout : ℤ) (n : NetState)
      (l : List NetState)
      → s.net ≡ n ∷ online ∷ l
      → load db server mdbn now Key.server_uri (some default_server_fqdn) (record s { net = l })
        ≡ ok (pos 0, some uri) s'
      → wait_if_offline db server mdbn now n timeout (record s { net = online ∷ l })
        ≡ ok tt (record s { net = online ∷ l })
      → finish db server mdbn now token config timeout s
        ≡ and_then (check_config_update db server mdbn now token config uri s') (λ _. pure (pos 0))
  unfolding finish
  finish_lem s s' token uri config timeout n l e u w = rw (e, w, u) refl

  other_kept :
      (key j : ℕ) (a : Attributes D) (t : Text)
      → key ≢ j
      → (save_attribute db key t a).1.cache j ≡ a.cache j
  unfolding save_attribute
  other_kept key j a t n = ground arith

  -- the comparison with a configuration that is not there
  pub no_config :
      (s : Setup D) (token uri config : Text) (rc : ℤ)
      → server.attri_update (codes "mb_config") token uri ≡ (rc, some config)
      → is_neg rc ≡ false
      → check_config_update db server mdbn now token none uri s ≡ fault
  unfolding check_config_update
  no_config s token uri config rc a g = rw (a, g) refl

  -- The cache is empty at a start, and on its first one a device has no token in its store. If the
  -- network comes up and stays up, the server, at the stored address or else the default one, provisions
  -- the device with the stored identity or else the default one, and it answers the request for the
  -- configuration with a text and no error, then modbus_attributes_init is undefined: it compares that
  -- text with NULL, the configuration that it has not loaded.
  pub first_start_fault :
      (s : Setup D) (token config : Text) (rc : ℤ) (l : List NetState)
      → let uri = stored_or default_server_fqdn (db.load Key.server_uri s.attributes.store) in
        let uuid = stored_or default_dev_uuid (db.load Key.dev_uuid s.attributes.store) in
        IsCold s
        → db.load Key.dev_token s.attributes.store ≡ none
        → until_online s.net ≡ some (online ∷ online ∷ l)
        → server.dev_provision uri uuid ≡ some (pos 0, some token)
        → server.attri_update (codes "mb_config") token uri ≡ (rc, some config)
        → is_neg rc ≡ false
        → modbus_attributes_init db server mdbn now s ≡ fault
  unfolding modbus_attributes_init
  first_start_fault s token config rc l c d n p a g =
      let uri = stored_or default_server_fqdn (db.load Key.server_uri s.attributes.store) in
      let uuid = stored_or default_dev_uuid (db.load Key.dev_uuid s.attributes.store) in
      let s1 : Setup D = warm Key.server_uri uri s in
      let s2 : Setup D = warm Key.dev_uuid uuid s1 in
      let saved : Attributes D = (save_attribute db Key.dev_token token s2.attributes).1 in
      let s3 : Setup D = record { attributes = saved; net = l } in
      rw
        (
          load-missing Key.dev_token s (c Key.dev_token) d,
          load-first Key.server_uri default_server_fqdn s (c Key.server_uri),
          provisioning_lem s1 uri token (pos 0) (online ∷ online ∷ l) (c Key.dev_uuid) n p,
          finish_lem (record { attributes = saved; net = online ∷ online ∷ l }) s3 token uri none
              (neg 1) online l refl
              (load-cached Key.server_uri (some default_server_fqdn) uri s3
                (other_kept Key.dev_token Key.server_uri s2.attributes token (omega arith)))
              refl,
          no_config s3 token uri config rc a g,
        )
        refl

  kept_or_saved :
      (a : Attributes D) (old config : Text)
      → a.cache Key.dev_config ≡ some old
      → (save_attribute db Key.dev_config config a).1.cache Key.dev_config ≡ some config
  unfolding save_attribute
  kept_or_saved a old config e = elim (Bool-cases (text_eq old config)) [
    | inl same ↦ rw (e, same) (e ∙ ap some (text_eq→eq old config same))
    | inr other ↦ rw (e, other) refl
  ]

  config_checked :
      (s : Setup D) (token uri old config : Text)
      → s.attributes.cache Key.dev_config ≡ some old
      → server.attri_update (codes "mb_config") token uri ≡ (pos 0, some config)
      → (b : Attributes D) × (check_config_update db server mdbn now token (some old) uri s
          ≡ ok (pos 0) (record s { attributes = b }))
        × (b.cache Key.dev_config ≡ some config)
        × ((j : ℕ) → Key.dev_config ≢ j → b.cache j ≡ s.attributes.cache j)
  unfolding check_config_update
  config_checked s token uri old config c a = elim (Bool-cases (text_eq config old)) [
    | inl same ↦ (
      s.attributes,
      rw (a, same) refl,
      c ∙ ap some (sym (text_eq→eq config old same)),
      λ j n. refl,
    )
    | inr other ↦
        let saved : Attributes D = (save_attribute db Key.dev_config config s.attributes).1 in
        (
          (save_attribute_int db Key.dev_config_ts now saved).1,
          rw (a, other) refl,
          kept_or_saved s.attributes old config c,
          λ j n. other_kept Key.dev_config j s.attributes config n,
        )
  ]

  -- From an empty cache, with a token and a configuration in the store, the network up at its last test,
  -- a wait for it that ends, and a server, at the stored address or else the default one, that answers
  -- with the code 0 and a configuration, modbus_attributes_init returns 0. The answered configuration is
  -- then in the cache, with the token and the address, and the identity is not.
  pub update_start :
      (s : Setup D) (token old config : Text) (n : NetState) (l : List NetState)
      → let uri = stored_or default_server_fqdn (db.load Key.server_uri s.attributes.store) in
        IsCold s
        → db.load Key.dev_token s.attributes.store ≡ some token
        → db.load Key.dev_config s.attributes.store ≡ some old
        → s.net ≡ n ∷ online ∷ l
        → Waits (online ∷ l)
        → server.attri_update (codes "mb_config") token uri ≡ (pos 0, some config)
        → (s' : Setup D) × (modbus_attributes_init db server mdbn now s ≡ ok (pos 0) s')
          × (s'.attributes.cache Key.dev_config ≡ some config)
          × (s'.attributes.cache Key.dev_token ≡ some token)
          × (s'.attributes.cache Key.server_uri ≡ some uri)
          × (s'.attributes.cache Key.dev_uuid ≡ none)
  unfolding modbus_attributes_init
  update_start s token old config n l c t o e w a =
      let uri = stored_or default_server_fqdn (db.load Key.server_uri s.attributes.store) in
      let s1 : Setup D = warm Key.dev_token token s in
      let s2 : Setup D = warm Key.dev_config old s1 in
      let s3 : Setup D = warm Key.server_uri uri (record s2 { net = l }) in
      let timeout =
        if check_expire db Key.dev_config_ts now s2.attributes then pos 5000 else neg 1 in
      let (b, r, new, kept) = config_checked s3 token uri old config refl a in
      (
        record { attributes = b; net = l },
        rw
            (
              load-stored Key.dev_token none token s (c Key.dev_token) t,
              load-stored Key.dev_config none old s1 (c Key.dev_config) o,
              finish_lem s2 s3 token uri (some old) timeout n l e
                  (load-first Key.server_uri default_server_fqdn (record s2 { net = l })
                    (c Key.server_uri))
                  (waited n timeout (record s2 { net = online ∷ l }) w),
              r,
            )
            refl,
        new,
        kept Key.dev_token (omega arith),
        kept Key.server_uri (omega arith),
        kept Key.dev_uuid (omega arith) ∙ c Key.dev_uuid,
      )
