-- ===== src/EasyFlash/Ints.antt =====
-- The numbers that src/port/src/easyflash/portDB.c stores.
use modbus_things.Base.{
  ℕ, ◌%◌, ◌^◌, ◌<◌, ◌≤◌, ◌≡◌, ◌≢◌, refl, sym, ap, ◌∙◌, Option, none, some, arith, length,
}
use modbus_things.Base.Int.{ℤ, pos, negsuc, signed32, bits32, IsInt}
use modbus_things.Base.Text.{Text}
use modbus_things.Attributes.Key
use modbus_things.EasyFlash.{
  Ef, Flash, str_key, le_bytes, of_le, int_bytes, int_of_bytes, service_db_save_int,
  service_db_load_int, read_over,
}
use modbus_things.EasyFlash.Keys.{IsKeyed, convert_str_key_lem, str_key-injective}

of_le-le_bytes : (n : ℕ) → n < 2 ^ 32 → of_le (le_bytes 4 n) ≡ n
of_le-le_bytes n h = omega arith

bits_bound : (v : ℤ) → IsInt v → bits32 v < 2 ^ 32
bits_bound (pos n) h = omega (arith, h)
bits_bound (negsuc n) h = omega (arith, h)

signed32-bits32 : (v : ℤ) → IsInt v → signed32 (bits32 v % 2 ^ 32) ≡ v
signed32-bits32 (pos n) h = ground (arith, h)
signed32-bits32 (negsuc n) h = ground (arith, h)

int_of_bytes-int_bytes : (v : ℤ) → IsInt v → int_of_bytes (int_bytes v) ≡ v
unfolding int_of_bytes int_bytes
int_of_bytes-int_bytes v h =
    ap (λ n. signed32 (n % 2 ^ 32)) (of_le-le_bytes (bits32 v) (bits_bound v h))
    ∙ signed32-bits32 v h

-- What EasyFlash documents of its environment: what was set without an error is got, under its own
-- name only.
pub record IsEnv {E : Type 0} (ef : Ef E) : Type 0 where
  pub blob_self :
      (t v : Text) (n : ℕ) (e : E)
      → (ef.set_env_blob t v e).0 ≡ 0
      → length v ≤ n
      → ef.get_env_blob t n (ef.set_env_blob t v e).1 ≡ v
  pub blob_ne :
      (t u v : Text) (n : ℕ) (e : E)
      → t ≢ u
      → ef.get_env_blob u n (ef.set_env_blob t v e).1 ≡ ef.get_env_blob u n e

-- the code and the number of a load
abbrev pub loaded : {E : Type 0} → Option ((ℤ × ℤ) × Flash E) → Option (ℤ × ℤ)
loaded none = none
loaded (some (r, s)) = some r

module _ {E : Type 0} (ef : Ef E) where
  load_int_lem :
      (key : ℕ) (old : ℤ) (s : Flash E)
      → IsKeyed s
      → key < Key.key_num
      → loaded (service_db_load_int ef key old s)
        ≡ some (read_over ef (ef.get_env_blob (str_key key) 4 s.env) old)
  unfolding service_db_load_int
  load_int_lem key old s keyed h =
      let (s', c, k, e) = convert_str_key_lem key s keyed h in
      rw c (ap (λ v. some (read_over ef (ef.get_env_blob (str_key key) 4 v) old)) e)

  read_int : (v old : ℤ) → IsInt v → read_over ef (int_bytes v) old ≡ (pos 0, v)
  unfolding int_bytes
  read_int v old h = ap (λ w. (pos 0, w)) (int_of_bytes-int_bytes v h)

  -- Over an EasyFlash as documented, with right names in the table: after a service_db_save_int of an
  -- `int` under a key in range, which EasyFlash stores without an error and which then returns 0,
  -- service_db_load_int of the key returns 0 and gives the number, whatever was in the variable, and
  -- of any other key in range it gives what it gave before.
  pub load_int-save_int :
      (key : ℕ) (v : ℤ) (s : Flash E)
      → IsEnv ef
      → IsKeyed s
      → key < Key.key_num
      → IsInt v
      → (ef.set_env_blob (str_key key) (int_bytes v) s.env).0 ≡ 0
      → (s' : Flash E) × (service_db_save_int ef key v s ≡ some (pos 0, s'))
        × IsKeyed s'
        × ((old : ℤ) → loaded (service_db_load_int ef key old s') ≡ some (pos 0, v))
        × ((j : ℕ) (old : ℤ)
            → j < Key.key_num
            → j ≢ key
            → loaded (service_db_load_int ef j old s') ≡ loaded (service_db_load_int ef j old s))
  unfolding service_db_save_int
  load_int-save_int key v s env keyed h i ok_set =
      let (s1, c, k, e) = convert_str_key_lem key s keyed h in
      let after : E = (ef.set_env_blob (str_key key) (int_bytes v) s.env).1 in
      let s' : Flash E = record s1 { env = after } in
      let size : length (int_bytes v) ≤ 4 = unfold int_bytes in omega arith in
      (
        s',
        rw (c, e, ok_set) refl,
        k,
        λ old.
            load_int_lem key old s' k h
            ∙ ap (λ t. some (read_over ef t old))
                (env.blob_self (str_key key) (int_bytes v) 4 s.env ok_set size)
            ∙ ap some (read_int v old i),
        λ j old l n.
            load_int_lem j old s' k l
            ∙ ap (λ t. some (read_over ef t old))
                (env.blob_ne (str_key key) (str_key j) (int_bytes v) 4 s.env
                  (λ q. n (sym (str_key-injective key j q))))
            ∙ sym (load_int_lem j old s keyed l),
      )
