-- ===== src/Attributes/Laws.antt =====
-- What the services rely on in a port's key-value store: a value that was saved is loaded, under
-- its own key only. EasyFlash documents this for its environment variables.
use modbus_things.Base.{ℕ, ◌<◌, ◌≡◌, ◌≢◌, some}
use modbus_things.Base.Int.{ℤ, IsInt}
use modbus_things.Base.Text.{Text}
use modbus_things.Attributes.{Db}
use modbus_things.Attributes.Key

pub record IsStore {D : Type 0} (db : Db D) : Type 0 where
  pub load-save_self : (k : ℕ) (t : Text) (d : D) → db.load k (db.save k t d).1 ≡ some t
  pub load-save_ne :
      (k j : ℕ) (t : Text) (d : D) → k ≢ j → db.load j (db.save k t d).1 ≡ db.load j d

-- The same for the numbers: each of an `int`, and under a key in range.
pub record IsIntStore {D : Type 0} (db : Db D) : Type 0 where
  pub load_int-save_int_self :
      (k : ℕ) (v : ℤ) (d : D)
      → k < Key.key_num
      → IsInt v
      → db.load_int k (db.save_int k v d).1 ≡ some v
  pub load_int-save_int_ne :
      (k j : ℕ) (v : ℤ) (d : D)
      → k < Key.key_num
      → j < Key.key_num
      → IsInt v
      → k ≢ j
      → db.load_int j (db.save_int k v d).1 ≡ db.load_int j d
