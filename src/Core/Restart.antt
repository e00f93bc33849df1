-- ===== src/Core/Restart.antt =====
-- The head index of the spool over any hand-overs and uploads, and over a restart: dump_cached_data of
-- src/core/src/MBT_realtime.c, save_bulk_data and mdb_bulk_service_init of src/core/src/MBT_bulk.c,
-- check_do_bulk_service of src/core/src/MBT_core.c.
mod Spool
use modbus_things.Base.{
  ◌≡◌, refl, subst, Bool, none, some, List, [], ◌∷◌, Run, ok, fault, blocked, Cmd, pure, and_then,
  ◌>>◌, Bool-cases, inl, inr, ◌⊎◌,
}
use modbus_things.Base.Int.{ℤ, inc32, is_pos, pos_part}
use modbus_things.Base.Text.{Text}
use modbus_things.Disk.{Disk}
use modbus_things.Attributes.{Db, Attributes}
use modbus_things.Attributes.Laws.{IsIntStore}
use modbus_things.Bulk.{Bulk, Post, bulk_file_max_bytes, bulk_service_init}
use modbus_things.Mqtt.Bytes.{Buffer}
use modbus_things.Realtime.{Port, Shared, handed, dump_cached_data}
use modbus_things.Queue.{sub_size}
use modbus_things.Core.Loop.{within}
use modbus_things.Core.BulkService.{Reason, check_do_bulk_service}
use Spool.{EndsIn, and_then-EndsIn, within-EndsIn, InStep, grow-InStep, check-Keeps}

-- what the core thread does to its spool
pub data Event : Type 0 where
  hand_over : Event
  upload : Bool → Reason → Event

-- the state that the two services share
module _ {Q D : Type 0} (port : Port Q) (db : Db D) (post : Post) where
  -- one event
  abbrev pub step : Event → Cmd (Shared Q D) (Unit {0})
  step hand_over = do dump_cached_data port db; pure tt
  step (upload online reason) = do
    (λ s. within (check_do_bulk_service db post online reason s.bulk) (λ n. record s { bulk = n }))
    pure tt

  unfoldable pub run : List Event → Cmd (Shared Q D) (Unit {0})
  run [] = pure tt
  run (e ∷ es) = do step e; run es

  abbrev KeepsShared : {A : Type 0} → Run (Shared Q D) A → Type 0
  KeepsShared r = EndsIn (λ s. InStep db s.bulk) r

  module _ (laws : IsIntStore db) where
    handed-Keeps :
        (rc : ℤ) (buf : Buffer) (b : Bulk D) (q : Q)
        → InStep db b
        → KeepsShared (handed db rc buf b q)
    handed-Keeps rc none b q h = tt
    handed-Keeps rc (some buf) b q h = elim (Bool-cases (is_pos rc)) [
      | inl e ↦ rw e (grow-InStep db post laws (pos_part rc) buf b h)
      | inr e ↦ rw e h
    ]

    dump_cached_data-Keeps :
        (s : Shared Q D) (r : Run Q (ℤ × Buffer))
        → port.dump
            (some s.bulk.cache_buf)
            s.bulk.cur_cached_off
            (sub_size bulk_file_max_bytes s.bulk.cur_cached_off)
            s.queue
          ≡ r
        → InStep db s.bulk
        → KeepsShared (dump_cached_data port db s)
    unfolding dump_cached_data
    dump_cached_data-Keeps s fault e h = rw (e, dump_cached_data) tt
    dump_cached_data-Keeps s blocked e h = rw (e, dump_cached_data) tt
    dump_cached_data-Keeps s (ok (rc, buf) q) e h =
        rw (e, dump_cached_data) (handed-Keeps rc buf s.bulk q h)

    step-Keeps : (e : Event) (s : Shared Q D) → InStep db s.bulk → KeepsShared (step e s)
    step-Keeps hand_over s h =
        and_then-EndsIn (λ s. InStep db s.bulk) (dump_cached_data port db s) (λ _. pure tt)
          (dump_cached_data-Keeps s _ refl h) (λ a s' k. k)
    step-Keeps (upload online reason) s h =
        and_then-EndsIn (λ s. InStep db s.bulk)
          (within (check_do_bulk_service db post online reason s.bulk) (λ n. record s { bulk = n }))
          (λ _. pure tt)
          (within-EndsIn (InStep db) (λ s. InStep db s.bulk)
            (check_do_bulk_service db post online reason s.bulk) (λ n. record s { bulk = n })
            (λ b k. k) (check-Keeps db post laws online reason s.bulk h))
          (λ a s' k. k)

    run-Keeps : (es : List Event) (s : Shared Q D) → InStep db s.bulk → KeepsShared (run es s)
    unfolding run
    run-Keeps [] s h = h
    run-Keeps (e ∷ es) s h =
        and_then-EndsIn (λ s. InStep db s.bulk) (step e s) (λ _. run es) (step-Keeps e s h)
          (λ a s' k. run-Keeps es s' k)

    -- Over a store that keeps an `int` under each key in range, as that of EasyFlash does: from a spool as
    -- mdb_bulk_service_init makes it, any hand-overs and uploads, over any port, in any order and with any
    -- results, leave the head index in memory, where they end, at the index that mdb_bulk_service_init
    -- would take up then, or at the next after it.
    pub restart_resumes :
        (es : List Event) (q : Q) (token buf token' buf' : Text) (a : Attributes D) (d : Disk)
        (s' : Shared Q D)
        → run es (record { queue = q; bulk = bulk_service_init db token buf a d }) ≡ ok tt s'
        → let again = bulk_service_init db token' buf' s'.bulk.attributes s'.bulk.disk in
          (s'.bulk.next_index ≡ again.next_index) ⊎ (s'.bulk.next_index ≡ inc32 again.next_index)
    unfolding bulk_service_init
    restart_resumes es q token buf token' buf' a d s' e =
        subst KeepsShared e (
          run-Keeps es (record { queue = q; bulk = bulk_service_init db token buf a d }) (inl refl))
