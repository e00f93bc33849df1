-- ===== src/Attributes.antt =====
-- src/core/src/MBT_attributes.c: the attribute cache over the port's key-value store
-- (src/port/inc/MBT_portDB.h), which is an interface here. Texts are values: who owns a text's memory
-- matters only to the store of utils, not to the cache.
pub mod Key
pub mod Laws
pub mod Cache
pub mod Setup
pub mod Boot
pub mod Tests
use modbus_things.Base.{
  ℕ, ◌+◌, ◌-◌, ◌*◌, ◌<◌, ◌≡◌, ◌≢◌, Bool, true, false, Option, none, some, ltb, ◌==◌, if◌then◌else◌,
}
use modbus_things.Base.Int.{ℤ, pos, neg, ltb_ℤ, ◌-ℤ◌}
use modbus_things.Base.Text.{Text, text_eq}

-- The port's store: `none` is a key with no value, the numbers are return codes.
pub record Db (D : Type 0) : Type 0 where
  pub load : ℕ → D → Option Text
  pub save : ℕ → Text → D → ℤ × D
  pub load_int : ℕ → D → Option ℤ
  pub save_int : ℕ → ℤ → D → ℤ × D

-- `struct attri_service`, with the store below it
pub record Attributes (D : Type 0) : Type 0 where
  pub cache : ℕ → Option Text
  pub store : D

abbrev pub cached : (ℕ → Option Text) → ℕ → Option Text → ℕ → Option Text
cached c key v k = if key == k then v else c k

-- DEV_ATTRI_CONFIG_EXPIRE_SECOND
abbrev pub config_expire_second : ℕ
config_expire_second = 60 * 60 * 12

-- `_as.cache[key] && !strcmp(_as.cache[key], attri)`
abbrev pub same_cached : Option Text → Text → Bool
same_cached none t = false
same_cached (some v) t = text_eq v t

module _ {D : Type 0} (db : Db D) where
  -- `mba_load_attribute`: the code, and the value where it writes `*attri`
  unfoldable pub load_attribute : ℕ → Option Text → Attributes D → (ℤ × Option Text) × Attributes D
  load_attribute key dft s = elim (s.cache key) [
    | some v ↦ ((pos 0, some v), s)
    | none ↦ elim (db.load key s.store) [
      | some v ↦ ((pos 0, some v), record s { cache = cached s.cache key (some v) })
      | none ↦ elim dft [
        | some d ↦ ((pos 0, some d), record s { cache = cached s.cache key (some d) })
        | none ↦ ((neg 1, none), s)
      ]
    ]
  ]

  -- `mba_load_attribute_int`; `none` is the code -1
  abbrev pub load_attribute_int : ℕ → Attributes D → Option ℤ
  load_attribute_int key s = db.load_int key s.store

  -- `mba_save_attribute_int`
  abbrev pub save_attribute_int : ℕ → ℤ → Attributes D → ℤ × Attributes D
  save_attribute_int key v s =
      let (rc, d) = db.save_int key v s.store in (rc, record s { store = d })

  -- `mba_save_attribute`
  unfoldable pub save_attribute : ℕ → Text → Attributes D → ℤ × Attributes D
  save_attribute key t s =
      if same_cached (s.cache key) t
      then (pos 0, s)
      else (let (rc, d) = db.save key t s.store in
          (rc, record { cache = cached s.cache key (some t); store = d }))

  -- `mba_attribute_check_expire` at the time `now`
  unfoldable pub check_expire : ℕ → ℤ → Attributes D → Bool
  check_expire key now s = elim (load_attribute_int key s) [
    | none ↦ true
    | some last ↦ if ltb_ℤ last now then ltb_ℤ (pos config_expire_second) (now -ℤ last) else true
  ]
