-- ===== src/EasyFlash/Tests.antt =====
-- Runs of src/port/src/easyflash/portDB.c over an environment in memory.
use modbus_things.Base.{
  ℕ, ◌<◌, ◌≡◌, ◌≢◌, refl, Option, none, some, [], arith, take, take-all, Bool-cases, inl, inr,
  if◌then◌else◌,
}
use modbus_things.Base.Int.{ℤ, pos, neg}
use modbus_things.Base.Text.{Text, text_eq, text_eq→eq, text_eq_refl}
use modbus_things.Attributes.Key
use modbus_things.EasyFlash.{Ef, Flash, service_db_save_int, service_db_load_int}
use modbus_things.EasyFlash.Keys.{IsKeyed}
use modbus_things.EasyFlash.Ints.{IsEnv, loaded, load_int-save_int}

abbrev Env : Type 0
Env = Text → Option Text

abbrev set_env : Text → Text → Env → ℕ × Env
set_env t v e = (0, λ u. if text_eq t u then some v else e u)

abbrev blob : ℕ → Option Text → Text
blob n none = []
blob n (some v) = take n v

abbrev ef : Ef Env
ef = record {
  get_env = λ t e. e t;
  set_env = set_env;
  get_env_blob = λ t n e. blob n (e t);
  set_env_blob = set_env;
}

ef-IsEnv : IsEnv ef
ef-IsEnv = record {
  blob_self = λ t v n e ok l. rw (text_eq_refl t) (take-all n v l);
  blob_ne = λ t u v n e ne. elim (Bool-cases (text_eq t u)) [
    | inl same ↦ absurd (ne (text_eq→eq t u same))
    | inr other ↦ rw other refl
  ];
}

-- no name is made yet
abbrev flash : Flash Env
flash = record { key_map = λ k. none; env = λ t. none }

flash-IsKeyed : IsKeyed flash
flash-IsKeyed k t e = cc

load_int-save_int_example :
    (s' : Flash Env) × (service_db_save_int ef 4 (neg 7) flash ≡ some (pos 0, s'))
    × IsKeyed s'
    × ((old : ℤ) → loaded (service_db_load_int ef 4 old s') ≡ some (pos 0, neg 7))
    × ((j : ℕ) (old : ℤ)
        → j < Key.key_num
        → j ≢ 4
        → loaded (service_db_load_int ef j old s') ≡ loaded (service_db_load_int ef j old flash))
load_int-save_int_example =
    load_int-save_int ef 4 (neg 7) flash ef-IsEnv flash-IsKeyed (omega arith) (omega arith) refl
