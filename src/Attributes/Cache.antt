-- ===== src/Attributes/Cache.antt =====
-- The cache of attributes: it agrees with the store, and a saved value is what is loaded.
use modbus_things.Base.{
  ℕ, ◌≤◌, ◌≡◌, ◌≢◌, ◌↔◌, ◌⊎◌, inl, inr, true, false, Option, none, some, arith, Option-cases, ◌+◌,
  ◌<◌,
}
use modbus_things.Base.Int.{ℤ, pos, neg, ◌-ℤ◌}
use modbus_things.Base.Text.{Text, text_eq→eq}
use modbus_things.Attributes.{
  Db, Attributes, load_attribute, save_attribute, check_expire, config_expire_second,
}
use modbus_things.Attributes.Laws.{IsStore}

module _ {D : Type 0} (db : Db D) where
  -- Each cached text is the stored one, or a default that stands where nothing is stored.
  abbrev pub IsCoherent : Attributes D → Type 0
  IsCoherent s =
      (k : ℕ) (v : Text)
      → s.cache k ≡ some v
      → (db.load k s.store ≡ some v) ⊎ (db.load k s.store ≡ none)

  -- mba_load_attribute gives the cached text, else the stored one, else the default, and otherwise
  -- fails with -1 and changes nothing; on success a second load, with any default, gives the same.
  pub load_attribute_again :
      (key : ℕ) (dft other : Option Text) (s : Attributes D) {v : Text} {s' : Attributes D}
      → load_attribute db key dft s ≡ ((pos 0, some v), s')
      → load_attribute db key other s' ≡ ((pos 0, some v), s')
  unfolding load_attribute
  load_attribute_again key dft other s e = ground arith

  -- The three places a value comes from, in their order, and the failure.
  pub load_attribute_source :
      (key : ℕ) (dft : Option Text) (s : Attributes D)
      → (load_attribute db key dft s).0 ≡ (elim (s.cache key) [
        | some v ↦ (pos 0, some v)
        | none ↦ elim (db.load key s.store) [
          | some v ↦ (pos 0, some v)
          | none ↦ elim dft [ some d ↦ (pos 0, some d) | none ↦ (neg 1, none) ]
        ]
      ])
  unfolding load_attribute
  load_attribute_source key dft s = ground arith

  load_attribute-IsCoherent :
      (key : ℕ) (dft : Option Text) (s : Attributes D)
      → IsCoherent s
      → IsCoherent (load_attribute db key dft s).1
  unfolding load_attribute
  load_attribute-IsCoherent key dft s c k v e = ground (arith, c k v)

  module _ (laws : IsStore db) where
    -- After mba_save_attribute every load of the key gives the saved text, from the cache, and the
    -- loads of the other keys are what they were.
    pub load-save_attribute :
        (key j : ℕ) (t : Text) (dft : Option Text) (s : Attributes D)
        → ((load_attribute db key dft (save_attribute db key t s).1).0 ≡ (pos 0, some t))
          × (key ≢ j
              → (load_attribute db j dft (save_attribute db key t s).1).0
                ≡ (load_attribute db j dft s).0)
    unfolding save_attribute load_attribute
    load-save_attribute key j t dft s = elim (Option-cases (s.cache key)) [
      | inl e ↦ (ground arith, λ n. ground (arith, laws.load-save_ne key j t s.store n))
      | inr (v, e) ↦
          (ground (arith, text_eq→eq v t), λ n. ground (arith, laws.load-save_ne key j t s.store n))
    ]

    save_attribute-IsCoherent :
        (key : ℕ) (t : Text) (s : Attributes D)
        → IsCoherent s
        → IsCoherent (save_attribute db key t s).1
    unfolding save_attribute
    save_attribute-IsCoherent key t s c k v e =
        ground (arith, c k v, laws.load-save_self key t s.store, laws.load-save_ne key k t s.store)

  -- What the token and the configuration need of a check of age: the time stamp is there, it is in
  -- the past, and it is at most twelve hours old.
  pub check_expire_fresh :
      (key last now : ℕ) (s : Attributes D)
      → db.load_int key s.store ≡ some (pos last)
      → (check_expire db key (pos now) s ≡ false)
        ↔ ((last < now) × (now ≤ last + config_expire_second))
  unfolding check_expire ◌-ℤ◌
  check_expire_fresh key last now s e = (λ h. (ground arith, ground arith), λ h. ground arith)

  pub check_expire_missing :
      (key : ℕ) (now : ℤ) (s : Attributes D)
      → db.load_int key s.store ≡ none
      → check_expire db key now s ≡ true
  unfolding check_expire
  check_expire_missing key now s e = rw (e, check_expire)
