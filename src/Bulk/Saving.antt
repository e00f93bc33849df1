-- ===== src/Bulk/Saving.antt =====
-- save_bulk_data: the file that it writes and the indices that it moves.
use modbus_things.Base.{
  ℕ, suc, ◌≤◌, ◌<◌, ◌^◌, ◌≡◌, refl, true, false, none, some, arith, length, take, length-take, inl,
  inr, Option-cases, [], ap, ◌∙◌,
}
use modbus_things.Base.Int.{ℤ, pos, neg, inc32, inc32-pos, inc32-IsInt}
use modbus_things.Base.Text.{Text, text_eq, text_eq_refl}
use modbus_things.Attributes.{Db}
use modbus_things.Attributes.Key
use modbus_things.Attributes.Laws.{IsIntStore}
use modbus_things.Disk.{update}
use modbus_things.Bulk.{Bulk, load_int, save_int, set_tail, update_index, save_bulk_data}
use modbus_things.Bulk.Names.{cache_filename, gen_cache_filename-pos}

-- What update_index does at index `n`: the head goes one further and is stored, the tail is set if
-- it was not, and the rest stays.
pub record Advanced {D : Type 0} (db : Db D) (n : ℕ) (s s' : Bulk D) : Type 0 where
  pub head : s'.next_index ≡ pos (suc n)
  pub stored : load_int db Key.bulk_index s' ≡ some (pos (suc n))
  pub tail_set :
      load_int db Key.bulk_file_tail_index s ≡ none
      → load_int db Key.bulk_file_tail_index s' ≡ some (pos n)
  pub tail_kept :
      (t : ℤ)
      → load_int db Key.bulk_file_tail_index s ≡ some t
      → load_int db Key.bulk_file_tail_index s' ≡ some t
  pub disk : s'.disk ≡ s.disk
  pub buf : s'.cache_buf ≡ s.cache_buf
  pub off : s'.cur_cached_off ≡ s.cur_cached_off
  pub token : s'.dev_token ≡ s.dev_token

module _ {D : Type 0} (db : Db D) (laws : IsIntStore db) where
  store_index :
      (s : Bulk D) (n : ℕ)
      → s.next_index ≡ pos n
      → suc n < 2 ^ 31
      → let s' =
          save_int db Key.bulk_index
            (inc32 s.next_index)
            (record s { next_index = inc32 s.next_index }) in
        (s'.next_index ≡ pos (suc n))
        × (load_int db Key.bulk_index s' ≡ some (pos (suc n)))
        × (load_int db Key.bulk_file_tail_index s' ≡ load_int db Key.bulk_file_tail_index s)
  store_index s n e h = ground (
    arith,
    inc32-pos n,
    laws.load_int-save_int_self Key.bulk_index (inc32 s.next_index) s.attributes.store (omega arith)
        (inc32-IsInt s.next_index),
    laws.load_int-save_int_ne Key.bulk_index Key.bulk_file_tail_index (inc32 s.next_index)
        s.attributes.store (omega arith) (omega arith) (inc32-IsInt s.next_index) (omega arith),
  )

  pub update_index-Advanced :
      (s : Bulk D) (n : ℕ)
      → s.next_index ≡ pos n
      → suc n < 2 ^ 31
      → Advanced db n s (update_index db s)
  unfolding update_index
  update_index-Advanced s n e h = elim (Option-cases (load_int db Key.bulk_file_tail_index s)) [
    | inl unset ↦
        let st : set_tail db s ≡ save_int db Key.bulk_file_tail_index s.next_index s =
          rw (unset, set_tail) in
        let i = store_index (save_int db Key.bulk_file_tail_index s.next_index s) n e h in
        let l =
          laws.load_int-save_int_self Key.bulk_file_tail_index s.next_index s.attributes.store
            (omega arith) (rw e (omega arith)) in
        rw st (record {
          head = i.0;
          stored = i.1;
          tail_set = λ _. i.2 ∙ l ∙ ap some e;
          tail_kept = λ t k. cc;
          disk = refl;
          buf = refl;
          off = refl;
          token = refl;
        })
    | inr (t, is_set) ↦
        let st : set_tail db s ≡ s = rw (is_set, set_tail) in
        let i = store_index s n e h in
        rw st (record {
          head = i.0;
          stored = i.1;
          tail_set = λ k. cc;
          tail_kept = λ t' k. i.2 ∙ k;
          disk = refl;
          buf = refl;
          off = refl;
          token = refl;
        })
  ]

  -- The state after `m_open` and `m_write` went well.
  abbrev pub written : Bulk D → Text → Bulk D
  written s name = record s {
    disk = record s.disk {
      files =
          update (update s.disk.files name (some [])) name
            (some (take s.cur_cached_off s.cache_buf));
    };
  }

  save_bulk_data-ok :
      (s : Bulk D) (n : ℕ)
      → s.next_index ≡ pos n
      → n < 2 ^ 31
      → s.disk.can_open (cache_filename (pos n)) ≡ true
      → s.cur_cached_off ≤ length s.cache_buf
      → s.cur_cached_off ≤ s.disk.room (cache_filename (pos n))
      → save_bulk_data db s ≡ (pos 0, update_index db (written s (cache_filename (pos n))))
  unfolding save_bulk_data
  save_bulk_data-ok s n e h o l r = ground (
    arith,
    gen_cache_filename-pos s.next_index s.version_number n e h,
    length-take {0} s.cur_cached_off s.cache_buf,
  )

  -- Over a store that keeps an `int` under each key in range, as that of EasyFlash does, save_bulk_data,
  -- where the file can be opened and has room, returns 0. The file of the index has
  -- exactly the cached bytes, every other file is as before, the head index goes one further and is
  -- stored, and the tail index is set to the file if it was not set.
  pub save_bulk_data_saves :
      (s : Bulk D) (n : ℕ)
      → s.next_index ≡ pos n
      → suc n < 2 ^ 31
      → s.disk.can_open (cache_filename (pos n)) ≡ true
      → s.cur_cached_off ≤ length s.cache_buf
      → s.cur_cached_off ≤ s.disk.room (cache_filename (pos n))
      → let (rc, s') = save_bulk_data db s in
        (rc ≡ pos 0)
        × Advanced db n (written s (cache_filename (pos n))) s'
        × (s'.disk.files (cache_filename (pos n)) ≡ some (take s.cur_cached_off s.cache_buf))
        × ((name : Text)
            → text_eq (cache_filename (pos n)) name ≡ false
            → s'.disk.files name ≡ s.disk.files name)
  save_bulk_data_saves s n e h o l r =
      let adv = update_index-Advanced (written s (cache_filename (pos n))) n e h in
      rw (save_bulk_data-ok s n e (omega arith) o l r) (
        refl,
        adv,
        rw adv.disk (ground (arith, text_eq_refl (cache_filename (pos n)))),
        λ name ne. rw (adv.disk, ne),
      )

  -- save_bulk_data fails with -1 where the file cannot be opened, and changes nothing then.
  pub save_bulk_data_closed :
      (s : Bulk D) (n : ℕ)
      → s.next_index ≡ pos n
      → n < 2 ^ 31
      → s.disk.can_open (cache_filename (pos n)) ≡ false
      → save_bulk_data db s ≡ (neg 1, s)
  unfolding save_bulk_data
  save_bulk_data_closed s n e h o =
      ground (arith, gen_cache_filename-pos s.next_index s.version_number n e h)

  abbrev shortened : Bulk D → Text → Bulk D
  shortened s name = record s {
    disk = record s.disk {
      files =
          update (update s.disk.files name (some [])) name
            (some (take (s.disk.room name) (take s.cur_cached_off s.cache_buf)));
    };
  }

  save_bulk_data-short :
      (s : Bulk D) (n : ℕ)
      → s.next_index ≡ pos n
      → n < 2 ^ 31
      → s.disk.can_open (cache_filename (pos n)) ≡ true
      → s.cur_cached_off ≤ length s.cache_buf
      → s.disk.room (cache_filename (pos n)) < s.cur_cached_off
      → save_bulk_data db s ≡ (neg 1, update_index db (shortened s (cache_filename (pos n))))
  unfolding save_bulk_data
  save_bulk_data-short s n e h o l r = ground (
    arith,
    gen_cache_filename-pos s.next_index s.version_number n e h,
    length-take {0} s.cur_cached_off s.cache_buf,
  )

  -- Where the write stops short it fails with -1 too, but the short file stays and the indices have
  -- moved on as after a save that went well.
  pub save_bulk_data_short :
      (s : Bulk D) (n : ℕ)
      → s.next_index ≡ pos n
      → suc n < 2 ^ 31
      → s.disk.can_open (cache_filename (pos n)) ≡ true
      → s.cur_cached_off ≤ length s.cache_buf
      → s.disk.room (cache_filename (pos n)) < s.cur_cached_off
      → let (rc, s') = save_bulk_data db s in
        (rc ≡ neg 1)
        × (s'.next_index ≡ pos (suc n))
        × (load_int db Key.bulk_index s' ≡ some (pos (suc n)))
        × (s'.disk.files (cache_filename (pos n))
            ≡ some
                (take (s.disk.room (cache_filename (pos n))) (take s.cur_cached_off s.cache_buf)))
  save_bulk_data_short s n e h o l r =
      let name = cache_filename (pos n) in
      let adv = update_index-Advanced (shortened s name) n e h in
      rw (save_bulk_data-short s n e (omega arith) o l r)
        (refl, adv.head, adv.stored, rw adv.disk (ground (arith, text_eq_refl name)))
