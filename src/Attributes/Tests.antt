-- ===== src/Attributes/Tests.antt =====
-- A store of values, and runs of the attribute cache of src/core/src/MBT_attributes.c over it.
use modbus_things.Base.{
  List, [], ◌∷◌, fault, ℕ, ◌≡◌, refl, Option, none, some, arith, ◌==◌, if◌then◌else◌,
}
use modbus_things.Base.Int.{ℤ, pos}
use modbus_things.Base.Text.{Text, codes}
use modbus_things.Attributes.{Db, Attributes}
use modbus_things.Attributes.Setup.{
  NetState, online, offline, Service, MdbNetwork, Setup, until_online, modbus_attributes_init,
}
use modbus_things.Attributes.Boot.{first_start_fault}
use modbus_things.Attributes.Laws.{IsStore, IsIntStore}

-- the texts and the numbers by their keys
pub record Memory : Type 0 where
  pub texts : ℕ → Option Text
  pub ints : ℕ → Option ℤ

abbrev put {ℓ} : {A : Type ℓ} → (ℕ → Option A) → ℕ → A → ℕ → Option A
put f k v j = if k == j then some v else f j

abbrev pub memory : Db Memory
memory = record {
  load = λ k m. m.texts k;
  save = λ k t m. (pos 0, record m { texts = put m.texts k t });
  load_int = λ k m. m.ints k;
  save_int = λ k v m. (pos 0, record m { ints = put m.ints k v });
}

pub memory-IsStore : IsStore memory
memory-IsStore = record {
  load-save_self = λ k t d. ground arith;
  load-save_ne = λ k j t d n. ground arith;
}

pub memory-IsIntStore : IsIntStore memory
memory-IsIntStore = record {
  load_int-save_int_self = λ k v d l i. ground arith;
  load_int-save_int_ne = λ k j v d l m i n. ground arith;
}

-- a configuration that was loaded at the time 1000
abbrev start : Attributes Memory
start = record {
  cache = λ k. none;
  store = record {
    texts = λ k. if k == 1 then some (codes "{}") else none;
    ints = λ k. if k == 2 then some (pos 1000) else none;
  };
}

-- A server that knows the device and has a configuration for it.
abbrev pub service : Service
service = record {
  dev_provision = λ uri uuid. some (pos 0, some (codes "token"));
  attri_update = λ key token uri. (pos 0, some (codes "{new}"));
}

-- a wait that ends at once
abbrev pub at_once : MdbNetwork
at_once = record { wait_for_ready = λ timeout l. some l }

-- a device that starts, with its identity and its server in the store, and further texts by their keys
abbrev pub device : (ℕ → Option Text) → List NetState → Setup Memory
device more net = record {
  attributes = record {
    cache = λ k. none;
    store = record {
      texts = λ k.
          if k == 3 then some (codes "id") else (if k == 8 then some (codes "server") else more k);
      ints = λ k. none;
    };
  };
  net = net;
}

comes_online : until_online (offline ∷ online ∷ online ∷ online ∷ []) ≡ some (online ∷ online ∷ [])
unfolding until_online
comes_online = refl

-- a device on its first start: nothing is stored
abbrev first : Setup Memory
first = record {
  attributes = record { cache = λ k. none; store = record { texts = λ k. none; ints = λ k. none } };
  net = offline ∷ online ∷ online ∷ online ∷ [];
}

first_start_fault_example : modbus_attributes_init memory service at_once (pos 9) first ≡ fault
first_start_fault_example =
    first_start_fault memory service at_once (pos 9) first (codes "token") (codes "{new}") (pos 0)
      [] (λ k. refl) refl comes_online refl refl refl

abbrev pub configured : ℕ → Option Text
configured k = if k == 0 then some (codes "token") else (if k == 1 then some (codes "{}") else none)
