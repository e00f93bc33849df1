-- ===== src/EasyFlash.antt =====
-- src/port/src/easyflash/portDB.c: the port's store over EasyFlash, whose functions are the fields of
-- `Ef`. Its errors are numbers, 0 for none; a key past ATTRI_KEY_NUM is outside the table of names,
-- and `none` is that. Each stored `int` has its four bytes, the lowest first.
pub mod Keys
pub mod Ints
pub mod Store
mod Tests
use modbus_things.Base.{
  ℕ, zero, suc, ◌+◌, ◌*◌, ◌/◌, ◌%◌, ◌^◌, ◌≡◌, Option, none, some, List, [], ◌∷◌, ◌++◌, leb, ◌==◌,
  if◌then◌else◌, length, drop,
}
use modbus_things.Base.Int.{ℤ, pos, neg, signed32, bits32}
use modbus_things.Base.Text.{Text, codes}
use modbus_things.Base.Decimal.{digits}
use modbus_things.Attributes.{cached}
use modbus_things.Attributes.Key

-- what the port uses of EasyFlash: `ef_get_env_blob` has the length of the buffer, and gives the bytes
-- that it read.
pub record Ef (E : Type 0) : Type 0 where
  pub get_env : Text → E → Option Text
  pub set_env : Text → Text → E → ℕ × E
  pub get_env_blob : Text → ℕ → E → Text
  pub set_env_blob : Text → Text → E → ℕ × E

-- the static `key_map`, and the environment
pub record Flash (E : Type 0) : Type 0 where
  pub key_map : ℕ → Option Text
  pub env : E

-- "%s_%d" of ATTRIBUTE_KEY_PREFIX and a key, which fits in the buffer for it
unfoldable pub str_key : ℕ → Text
str_key key = codes "MBT_ATTRI_" ++ digits key

-- the bytes of a number, `k` of them, and the number of some bytes
abbrev pub le_bytes : ℕ → ℕ → Text
le_bytes zero n = []
le_bytes (suc k) n = (n % 256) ∷ le_bytes k (n / 256)

abbrev pub of_le : Text → ℕ
of_le [] = 0
of_le (b ∷ bs) = b + 256 * of_le bs

-- the memory of an `int`
unfoldable pub int_bytes : ℤ → Text
int_bytes v = le_bytes 4 (bits32 v)

unfoldable pub int_of_bytes : Text → ℤ
int_of_bytes t = signed32 (of_le t % 2 ^ 32)

module _ {E : Type 0} where
  -- `convert_str_key`: the name is made on the first use of a key.
  unfoldable pub convert_str_key : ℕ → Flash E → Option (Text × Flash E)
  convert_str_key key s = if leb Key.key_num key then none else (elim (s.key_map key) [
    | some t ↦ some (t, s)
    | none ↦ some (str_key key, record s { key_map = cached s.key_map key (some (str_key key)) })
  ])

  -- a call with the name of its key
  abbrev pub with_key :
      {A : Type 0} → (Text → Flash E → A × Flash E) → Option (Text × Flash E) → Option (A × Flash E)
  with_key f none = none
  with_key f (some (t, s)) = some (f t s)

  module _ (ef : Ef E) where
    -- `service_db_load`
    unfoldable pub service_db_load : ℕ → Flash E → Option (Option Text × Flash E)
    service_db_load key s = with_key (λ t s. (ef.get_env t s.env, s)) (convert_str_key key s)

    -- `service_db_save`
    unfoldable pub service_db_save : ℕ → Text → Flash E → Option (ℤ × Flash E)
    service_db_save key value s =
        with_key (λ t s. let (rc, e) = ef.set_env t value s.env in (pos rc, record s { env = e }))
          (convert_str_key key s)

    -- `service_db_save_int`
    unfoldable pub service_db_save_int : ℕ → ℤ → Flash E → Option (ℤ × Flash E)
    service_db_save_int key value s =
        with_key
          (λ t s.
            let (rc, e) = ef.set_env_blob t (int_bytes value) s.env in
            (if rc == 0 then pos 0 else neg 1, record s { env = e }))
          (convert_str_key key s)

    -- the bytes that were read, over those that `*value` had
    abbrev pub read_over : Text → ℤ → ℤ × ℤ
    read_over [] old = (neg 1, old)
    read_over (b ∷ bs) old =
        (pos 0, int_of_bytes ((b ∷ bs) ++ drop (length (b ∷ bs)) (int_bytes old)))

    -- `service_db_load_int`, with what `*value` is before: the code, and what it is then
    unfoldable pub service_db_load_int : ℕ → ℤ → Flash E → Option ((ℤ × ℤ) × Flash E)
    service_db_load_int key old s =
        with_key (λ t s. (read_over (ef.get_env_blob t 4 s.env) old, s)) (convert_str_key key s)
