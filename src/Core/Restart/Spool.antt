-- ===== src/Core/Restart/Spool.antt =====
-- The head index of the spool over one hand-over of src/core/src/MBT_realtime.c, and over one call of
-- check_do_bulk_service of src/core/src/MBT_core.c.
use modbus_things.Base.{
  ◌≡◌, refl, sym, ap, subst, Bool, true, false, Option, none, some, [], arith, Run, ok, fault,
  blocked, Cmd, pure, and_then, ◌>>◌, if◌then◌else◌, take, ◌||◌, Bool-cases, Option-cases, inl, inr,
  ◌⊎◌, ℕ, ◌+◌, ◌/◌, ltb,
}
use modbus_things.Base.Int.{ℤ, pos, neg, inc32, inc32-IsInt, ◌-ℤ◌, is_zero, eq_ℤ}
use modbus_things.Base.Text.{Text}
use modbus_things.Disk.{update, write_file}
use modbus_things.Attributes.{Db}
use modbus_things.Attributes.Key
use modbus_things.Attributes.Laws.{IsIntStore}
use modbus_things.Bulk.{
  Bulk, Post, bulk_file_max_bytes, load_int, save_to, update_index, save_bulk_data,
  update_tail_index, update_head_index, post_bulk_data_by_file, get_tail_cache_file_path,
  get_head_cache_file_path, or_zero,
}
use modbus_things.Bulk.Names.{gen_cache_filename, bulk_api}
use modbus_things.Realtime.{reset, grow}
use modbus_things.Core.Loop.{within}
use modbus_things.Core.Draining.{store-load_uri}
use modbus_things.Core.BulkService.{
  Reason, scan_fail, cache_full, config_error, load_uri, check_post_status, post_path, by_reason,
  check_do_bulk_service,
}

-- where a run ends
abbrev pub EndsIn : {S A : Type 0} → (S → Type 0) → Run S A → Type 0
EndsIn P (ok a s) = P s
EndsIn P fault = Unit
EndsIn P blocked = Unit

pub and_then-EndsIn :
    {S A B : Type 0} (P : S → Type 0) (r : Run S A) (k : A → Cmd S B)
    → EndsIn P r
    → ((a : A) (s : S) → P s → EndsIn P (k a s))
    → EndsIn P (and_then r k)
and_then-EndsIn P (ok a s) k h f = f a s h
and_then-EndsIn P fault k h f = tt
and_then-EndsIn P blocked k h f = tt

pub within-EndsIn :
    {S T A : Type 0} (P : T → Type 0) (Q : S → Type 0) (r : Run T A) (f : T → S)
    → ((t : T) → P t → Q (f t))
    → EndsIn P r
    → EndsIn Q (within r f)
within-EndsIn P Q (ok a t) f g h = g t h
within-EndsIn P Q fault f g h = tt
within-EndsIn P Q blocked f g h = tt

module _ {D : Type 0} (db : Db D) where
  -- The stored head index is the one in memory.
  abbrev pub IsStored : Bulk D → Type 0
  IsStored s = load_int db Key.bulk_index s ≡ some s.next_index

  -- Next to the number that is loaded as the head index: it, or the next one.
  abbrev pub Near : ℤ → Option ℤ → Type 0
  Near next stored = (next ≡ or_zero stored) ⊎ (next ≡ inc32 (or_zero stored))

  -- The head index in memory is the stored one, or 0 if none is stored, or the next after it.
  abbrev pub InStep : Bulk D → Type 0
  InStep s =
      (s.next_index ≡ or_zero (load_int db Key.bulk_index s))
      ⊎ (s.next_index ≡ inc32 (or_zero (load_int db Key.bulk_index s)))

  abbrev pub Keeps : {A : Type 0} → Run (Bulk D) A → Type 0
  Keeps r = EndsIn InStep r

  -- Both after a save: it is as before and has failed, or the two indices are the same.
  abbrev pub Saved : ℤ × Bulk D → Type 0
  Saved (rc, s) = IsStored s ⊎ ((is_zero rc ≡ false) × InStep s)

  reset-InStep : (r : ℤ × Bulk D) → Saved r → InStep (reset db r)
  reset-InStep (rc, s) (inl st) = elim (Bool-cases (is_zero rc)) [
    | inl e ↦ rw e (inr (ap (λ o. inc32 (or_zero o)) (sym st)))
    | inr e ↦ rw e (inl (ap or_zero (sym st)))
  ]
  reset-InStep (rc, s) (inr (e, h)) = rw e h

  module _ (post : Post) where
    module _ (laws : IsIntStore db) where
      update_index-IsStored : (s : Bulk D) → IsStored (update_index db s)
      unfolding update_index
      update_index-IsStored s = laws.load_int-save_int_self _ _ _ (omega arith) (inc32-IsInt _)

      save_to-IsStored : (name : Text) (s : Bulk D) → IsStored (save_to db name s).1
      save_to-IsStored name s =
          update_index-IsStored
            (record s { disk = (write_file name (take s.cur_cached_off s.cache_buf) s.disk).1 })

      save_bulk_data-Saved : (s : Bulk D) → InStep s → Saved (save_bulk_data db s)
      unfolding save_bulk_data
      save_bulk_data-Saved s h =
          elim (Option-cases (gen_cache_filename s.next_index s.version_number)) [
            | inl e ↦ rw (e, save_bulk_data) (inr (refl, h))
            | inr (name, e) ↦ elim (Bool-cases (s.disk.can_open name)) [
              | inl o ↦
                  rw (e, o, save_bulk_data)
                    (inl (
                      save_to-IsStored name (record s {
                        disk = record s.disk { files = update s.disk.files name (some []) };
                      })))
              | inr o ↦ rw (e, o, save_bulk_data) (inr (refl, h))
            ]
          ]

      pub grow-InStep : (n : ℕ) (buf : Text) (s : Bulk D) → InStep s → InStep (grow db n buf s)
      grow-InStep n buf s h =
          let s' : Bulk D = record s { cur_cached_off = s.cur_cached_off + n; cache_buf = buf } in
          elim (Bool-cases (ltb (bulk_file_max_bytes / 2) s'.cur_cached_off)) [
            | inl e ↦ rw e (reset-InStep (save_bulk_data db s') (save_bulk_data-Saved s' h))
            | inr e ↦ rw e h
          ]

      update_tail_index-Keeps : (s : Bulk D) → InStep s → Keeps (update_tail_index db s)
      unfolding update_tail_index
      update_tail_index-Keeps s h = elim (Option-cases (load_int db Key.bulk_file_tail_index s)) [
        | inl e ↦ rw (e, update_tail_index) h
        | inr (index, e) ↦ elim (Option-cases (gen_cache_filename index s.version_number)) [
          | inl g ↦ rw (e, g, update_tail_index) tt
          | inr (name, g) ↦
              rw (e, g, update_tail_index)
                (subst (Near s.next_index)
                  (sym (
                    laws.load_int-save_int_ne Key.bulk_file_tail_index Key.bulk_index (inc32 index)
                      s.attributes.store (omega arith) (omega arith) (inc32-IsInt index)
                      (omega arith)))
                  h)
        ]
      ]

      update_head_index-Keeps : (s : Bulk D) → InStep s → Keeps (update_head_index s)
      unfolding update_head_index
      update_head_index-Keeps s h =
          elim (Option-cases (gen_cache_filename (s.next_index -ℤ pos 1) s.version_number)) [
            | inl e ↦ rw (e, update_head_index) tt
            | inr (name, e) ↦ rw (e, update_head_index) h
          ]

      post-Keeps :
          (name : Text) (s : Bulk D) → InStep s → Keeps (post_bulk_data_by_file post name s)
      unfolding post_bulk_data_by_file
      post-Keeps name s h = elim (Option-cases (s.disk.files name)) [
        | inl e ↦ rw e h
        | inr (c, e) ↦ elim (Option-cases (bulk_api s.dev_token)) [
          | inl a ↦ rw (e, a) tt
          | inr (api, a) ↦ rw (e, a) h
        ]
      ]

      load_uri-InStep : (s : Bulk D) → InStep s → InStep (load_uri db s)
      load_uri-InStep s h =
          subst (Near s.next_index)
            (sym (ap (db.load_int Key.bulk_index) (store-load_uri db post s))) h

      head-Keeps :
          (rc : ℤ) (s : Bulk D)
          → InStep s
          → Keeps ((if is_zero rc then (do update_head_index; pure tt) else pure tt) s)
      head-Keeps rc s h = elim (Bool-cases (is_zero rc)) [
        | inl e ↦ rw e (
            and_then-EndsIn InStep (update_head_index s) (λ _. pure tt)
              (update_head_index-Keeps s h) (λ a s' k. k))
        | inr e ↦ rw e h
      ]

      status-Keeps :
          (reason : Reason) (rc : ℤ) (s : Bulk D)
          → InStep s
          → Keeps (check_post_status db post reason rc s)
      unfolding check_post_status
      status-Keeps scan_fail rc s h = elim (Bool-cases (is_zero rc || eq_ℤ rc (neg 2))) [
        | inl e ↦ rw e (
            and_then-EndsIn InStep (update_tail_index db s) (λ _. pure tt)
              (update_tail_index-Keeps s h) (λ a s' k. k))
        | inr e ↦ rw e h
      ]
      status-Keeps cache_full rc s h = head-Keeps rc s h
      status-Keeps config_error rc s h = head-Keeps rc s h

      path-Keeps :
          (reason : Reason) (path : Option Text) (s : Bulk D)
          → InStep s
          → Keeps (post_path db post reason path s)
      path-Keeps reason none s h = h
      path-Keeps reason (some path) s h =
          and_then-EndsIn InStep (post_bulk_data_by_file post path s)
            (check_post_status db post reason) (post-Keeps path s h)
            (λ rc s' k. status-Keeps reason rc s' k)

      reason-Keeps : (reason : Reason) (s : Bulk D) → InStep s → Keeps (by_reason db post reason s)
      reason-Keeps scan_fail s h = path-Keeps scan_fail (get_tail_cache_file_path db s) s h
      reason-Keeps config_error s h = path-Keeps scan_fail (get_tail_cache_file_path db s) s h
      reason-Keeps cache_full s h = path-Keeps cache_full (get_head_cache_file_path s) s h

      pub check-Keeps :
          (online : Bool) (reason : Reason) (s : Bulk D)
          → InStep s
          → Keeps (check_do_bulk_service db post online reason s)
      unfolding check_do_bulk_service
      check-Keeps false reason s h = h
      check-Keeps true reason s h =
          and_then-EndsIn InStep (by_reason db post reason (load_uri db s)) (λ _. pure (neg 1))
            (reason-Keeps reason (load_uri db s) (load_uri-InStep s h)) (λ a s' k. k)
