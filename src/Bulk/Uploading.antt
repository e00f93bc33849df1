-- ===== src/Bulk/Uploading.antt =====
-- The files that are offered for upload, and the indices after one is uploaded.
use modbus_things.Base.{
  ℕ, suc, ◌<◌, ◌^◌, ◌≡◌, refl, sym, ◌≢◌, false, none, some, arith, Bool-cases, inl, inr, ok,
}
use modbus_things.Base.Int.{ℤ, pos, neg, inc32, inc32-pos, inc32-IsInt}
use modbus_things.Base.Text.{Text, text_eq, text_eq→eq, text_eq_refl}
use modbus_things.Attributes.{Db, save_attribute_int}
use modbus_things.Attributes.Key
use modbus_things.Attributes.Laws.{IsIntStore}
use modbus_things.Bulk.{
  Bulk, Post, load_int, update_tail_index, post_bulk_data_by_file, rename_uploaded,
}
use modbus_things.Bulk.Names.{
  cache_filename, gen_cache_filename-pos, uploaded_name, bulk_api, cache_filename-injective,
  dat_ne_uploaded, uploaded_name-injective, uploaded_name-cache_filename,
}

-- the names of the `k`-th file, before and after its upload
abbrev pub dat : ℕ → Text
dat k = cache_filename (pos k)

abbrev pub bk : ℕ → Text
bk k = uploaded_name (cache_filename (pos k))

text_eq-false : (s t : Text) → s ≢ t → text_eq s t ≡ false
text_eq-false s t n = elim (Bool-cases (text_eq s t)) [
  | inl e ↦ absurd (n (text_eq→eq s t e))
  | inr e ↦ e
]

pub dat-dat : (k j : ℕ) → k ≢ j → text_eq (dat k) (dat j) ≡ false
dat-dat k j n = text_eq-false _ _ λ e. n (cc (cache_filename-injective (pos k) (pos j) e))

pub bk-dat : (k j : ℕ) → k < 2 ^ 31 → text_eq (bk k) (dat j) ≡ false
bk-dat k j h = text_eq-false _ _ λ e. dat_ne_uploaded (pos j) (pos k) h (sym e)

pub dat-bk : (k j : ℕ) → j < 2 ^ 31 → text_eq (dat k) (bk j) ≡ false
dat-bk k j h = text_eq-false _ _ (dat_ne_uploaded (pos k) (pos j) h)

pub bk-bk : (k j : ℕ) → k < 2 ^ 31 → j < 2 ^ 31 → k ≢ j → text_eq (bk k) (bk j) ≡ false
bk-bk k j h i n = text_eq-false _ _ λ e. n (cc (uploaded_name-injective (pos k) (pos j) h i e))

module _ {D : Type 0} where
  -- What post_bluk_data_by_file answers: the server's answer if the file is there, -2 if it is only
  -- there as uploaded, and -1 if it is not there at all. It changes nothing.
  pub post_bulk_data_by_file_answers :
      (post : Post) (k : ℕ) (s : Bulk D) (api : Text)
      → k < 2 ^ 31
      → bulk_api s.dev_token ≡ some api
      → post_bulk_data_by_file post (dat k) s ≡ (elim (s.disk.files (dat k)) [
        | some c ↦ ok (post api (dat k)) s
        | none ↦ elim (s.disk.files (bk k)) [ some c ↦ ok (neg 2) s | none ↦ ok (neg 1) s ]
      ])
  unfolding post_bulk_data_by_file
  post_bulk_data_by_file_answers post k s api h e =
      ground (arith, uploaded_name-cache_filename (pos k) h)

  -- The state after the upload of file `k`: it has its second name, and no other file has changed.
  pub record Uploaded (k : ℕ) (s s' : Bulk D) : Type 0 where
    pub moved : s'.disk.files (bk k) ≡ s.disk.files (dat k)
    pub gone : s'.disk.files (dat k) ≡ none
    pub dats : (j : ℕ) → k ≢ j → s'.disk.files (dat j) ≡ s.disk.files (dat j)
    pub bks : (j : ℕ) → j < 2 ^ 31 → k ≢ j → s'.disk.files (bk j) ≡ s.disk.files (bk j)

  pub rename_uploaded-Uploaded :
      (k : ℕ) (s : Bulk D) (c : Text)
      → k < 2 ^ 31
      → s.disk.files (dat k) ≡ some c
      → Uploaded k s (rename_uploaded (dat k) s)
  rename_uploaded-Uploaded k s c h e = record {
    moved = ground (arith, text_eq_refl (bk k));
    gone = ground (arith, bk-dat k k h, text_eq_refl (dat k));
    dats = λ j n. ground (arith, bk-dat k j h, dat-dat k j n);
    bks = λ j i n. ground (arith, bk-bk k j h i n, dat-bk k j i);
  }

  -- what stays over a step of the tail
  pub record SameHead (s s' : Bulk D) : Type 0 where
    pub next : s'.next_index ≡ s.next_index
    pub token : s'.dev_token ≡ s.dev_token
    pub buf : s'.cache_buf ≡ s.cache_buf
    pub off : s'.cur_cached_off ≡ s.cur_cached_off

  module _ (db : Db D) (laws : IsIntStore db) where
    -- update_tail_index at tail `k`: the tail goes one further and the file, if it is there, gets
    -- the name of an uploaded one.
    pub update_tail_index_lem :
        (s : Bulk D) (k : ℕ)
        → load_int db Key.bulk_file_tail_index s ≡ some (pos k)
        → suc k < 2 ^ 31
        → (rc : ℤ) × (s' : Bulk D) × (update_tail_index db s ≡ ok rc s')
          × (load_int db Key.bulk_file_tail_index s' ≡ some (pos (suc k)))
          × (s'.disk ≡ (rename_uploaded (dat k) s).disk)
          × SameHead s s'
    unfolding update_tail_index
    update_tail_index_lem s k e h =
        let s1 = rename_uploaded (dat k) s in
        let r = save_attribute_int db Key.bulk_file_tail_index (inc32 (pos k)) s1.attributes in
        (
          r.0,
          record s1 { attributes = r.1 },
          ground (arith, gen_cache_filename-pos (pos k) s.version_number k refl (omega arith)),
          ground (
            arith,
            inc32-pos k,
            laws.load_int-save_int_self Key.bulk_file_tail_index (inc32 (pos k)) s.attributes.store
                (omega arith) (inc32-IsInt (pos k)),
          ),
          refl,
          record { next = refl; token = refl; buf = refl; off = refl },
        )
