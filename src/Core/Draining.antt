-- ===== src/Core/Draining.antt =====
-- What the calls of check_do_bulk_service achieve, one by one and together.
use native.Mathlib.Decide.{ℕ_discrete}
use modbus_things.Base.{
  ℕ, zero, suc, ◌+◌, ◌≤◌, ◌<◌, ◌^◌, ◌≡◌, refl, ap, ◌∙◌, Bool, true, false, none, some, arith, ◌||◌,
  Run, ok, fault, blocked, Cmd, pure, ◌>>◌, and_then,
}
use modbus_things.Base.Int.{ℤ, pos, neg, is_zero, eq_ℤ}
use modbus_things.Base.Text.{Text}
use modbus_things.Attributes.{Db, load_attribute}
use modbus_things.Attributes.Key
use modbus_things.Attributes.Laws.{IsIntStore}
use modbus_things.Bulk.{
  Bulk, Post, load_int, get_tail_cache_file_path, post_bulk_data_by_file, rename_uploaded,
}
use modbus_things.Bulk.Names.{bulk_api, gen_cache_filename-pos}
use modbus_things.Bulk.Uploading.{
  dat, bk, Uploaded, SameHead, post_bulk_data_by_file_answers, update_tail_index_lem,
  rename_uploaded-Uploaded,
}
use modbus_things.Core.BulkService.{
  Reason, scan_fail, check_post_status, by_reason, load_uri, check_do_bulk_service,
}

then_minus_one :
    {S A : Type 0} (r : Run S A) {rc : ℤ} {s : S}
    → and_then r (λ _. pure (neg 1)) ≡ ok rc s
    → rc ≡ neg 1
then_minus_one (ok a s) e = cc
then_minus_one fault e = cc
then_minus_one blocked e = cc

module _ {D : Type 0} (db : Db D) (post : Post) where
  -- check_do_bulk_service never returns anything but -1, whether it uploaded a file or not, so that
  -- its callers always wait as if nothing had been uploaded.
  pub check_do_bulk_service_fails :
      (online : Bool) (reason : Reason) (s : Bulk D) {rc : ℤ} {s' : Bulk D}
      → check_do_bulk_service db post online reason s ≡ ok rc s'
      → rc ≡ neg 1
  unfolding check_do_bulk_service
  check_do_bulk_service_fails false reason s e = cc
  check_do_bulk_service_fails true reason s e =
      then_minus_one (by_reason db post reason (load_uri db s)) e

  -- While the network is down nothing is tried and nothing changes.
  pub check_do_bulk_service_offline :
      (reason : Reason) (s : Bulk D) → check_do_bulk_service db post false reason s ≡ ok (neg 1) s
  unfolding check_do_bulk_service
  check_do_bulk_service_offline reason s = refl

  pub store-load_uri : (s : Bulk D) → (load_uri db s).attributes.store ≡ s.attributes.store
  unfolding load_attribute
  store-load_uri s = ground arith

  tail_path :
      (s : Bulk D) (k : ℕ)
      → load_int db Key.bulk_file_tail_index s ≡ some (pos k)
      → k < 2 ^ 31
      → get_tail_cache_file_path db s ≡ some (dat k)
  unfolding get_tail_cache_file_path
  tail_path s k e h =
      rw (e, get_tail_cache_file_path) (gen_cache_filename-pos (pos k) s.version_number k refl h)

  rename_uploaded-none :
      (k : ℕ) (s : Bulk D)
      → s.disk.files (dat k) ≡ none
      → (rename_uploaded (dat k) (load_uri db s)).disk ≡ s.disk
  rename_uploaded-none k s e = ground arith

  module _ (s : Bulk D) (k : ℕ) (api : Text)
      (tail : load_int db Key.bulk_file_tail_index s ≡ some (pos k)) (small : suc k < 2 ^ 31)
      (named : bulk_api s.dev_token ≡ some api) (laws : IsIntStore db) where
    at_tail : get_tail_cache_file_path db (load_uri db s) ≡ some (dat k)
    at_tail =
        tail_path (load_uri db s) k
          (ap (db.load_int Key.bulk_file_tail_index) (store-load_uri s) ∙ tail) (omega arith)

    scan_fail_round :
        (rc : ℤ)
        → post_bulk_data_by_file post (dat k) (load_uri db s) ≡ ok rc (load_uri db s)
        → check_do_bulk_service db post true scan_fail s
          ≡ and_then (check_post_status db post scan_fail rc (load_uri db s)) (λ _. pure (neg 1))
    unfolding check_do_bulk_service
    scan_fail_round rc e = rw (at_tail, e)

    -- A round with a file at the tail that the server takes: the file gets its second name, no
    -- other file changes, and the tail goes one further.
    pub upload_round :
        (c : Text)
        → s.disk.files (dat k) ≡ some c
        → post api (dat k) ≡ pos 0
        → (s' : Bulk D) × (check_do_bulk_service db post true scan_fail s ≡ ok (neg 1) s')
          × (load_int db Key.bulk_file_tail_index s' ≡ some (pos (suc k)))
          × Uploaded k s s'
          × SameHead s s'
    unfolding check_post_status
    upload_round c file taken =
        let l = load_uri db s in
        let answer = post_bulk_data_by_file_answers post k l api (omega arith) named in
        let (rc, s', e, t, d, h) =
          update_tail_index_lem db laws l k
            (ap (db.load_int Key.bulk_file_tail_index) (store-load_uri s) ∙ tail) small in
        let up = rename_uploaded-Uploaded k s c (omega arith) file in
        (
          s',
          scan_fail_round (pos 0) (ground (arith, answer)) ∙ rw (e, check_post_status),
          t,
          record {
            moved = rw d up.moved;
            gone = rw d up.gone;
            dats = λ j n. rw d (up.dats j n);
            bks = λ j i n. rw d (up.bks j i n);
          },
          record { next = h.next; token = h.token; buf = h.buf; off = h.off },
        )

    -- A round whose tail file is only there as uploaded goes on to the next file.
    pub skip_round :
        (c : Text)
        → s.disk.files (dat k) ≡ none
        → s.disk.files (bk k) ≡ some c
        → (s' : Bulk D) × (check_do_bulk_service db post true scan_fail s ≡ ok (neg 1) s')
          × (load_int db Key.bulk_file_tail_index s' ≡ some (pos (suc k)))
          × (s'.disk ≡ s.disk)
          × SameHead s s'
    unfolding check_post_status
    skip_round c file there =
        let l = load_uri db s in
        let answer = post_bulk_data_by_file_answers post k l api (omega arith) named in
        let (rc, s', e, t, d, h) =
          update_tail_index_lem db laws l k
            (ap (db.load_int Key.bulk_file_tail_index) (store-load_uri s) ∙ tail) small in
        (
          s',
          scan_fail_round (neg 2) (ground (arith, answer)) ∙ rw (e, check_post_status),
          t,
          d ∙ rename_uploaded-none k s file,
          record { next = h.next; token = h.token; buf = h.buf; off = h.off },
        )

    -- A round that fails, since the server refuses the file or no file of the tail is there, keeps
    -- the tail and the disk: the same file is offered again.
    pub stuck_round :
        (rc : ℤ)
        → post_bulk_data_by_file post (dat k) (load_uri db s) ≡ ok rc (load_uri db s)
        → (is_zero rc || eq_ℤ rc (neg 2)) ≡ false
        → check_do_bulk_service db post true scan_fail s ≡ ok (neg 1) (load_uri db s)
    unfolding check_post_status
    stuck_round rc e f = scan_fail_round rc e ∙ rw (f, check_post_status)

  -- `n` calls in a row
  unfoldable pub rounds : ℕ → Cmd (Bulk D) (Unit {0})
  rounds zero = pure tt
  rounds (suc n) = do check_do_bulk_service db post true scan_fail; rounds n

  -- the content of each file from `t` on, of `n` files, before its upload
  abbrev pub Waiting : Bulk D → ℕ → ℕ → (ℕ → Text) → Type 0
  Waiting s t n content = (k : ℕ) → t ≤ k → k < t + n → s.disk.files (dat k) ≡ some (content k)

  -- Over a store that keeps an `int` under each key in range, as that of EasyFlash does, with the network
  -- up and a server that takes every file, as many calls as there are files wait
  -- from the tail on upload all of them, in order: the tail ends behind the last, each file has its
  -- second name and its content, and none is left to upload. The head index does not move.
  pub rounds_drain :
      (laws : IsIntStore db) (s : Bulk D) (t n : ℕ) (api : Text) (content : ℕ → Text)
      → load_int db Key.bulk_file_tail_index s ≡ some (pos t)
      → t + n < 2 ^ 31
      → bulk_api s.dev_token ≡ some api
      → ((k : ℕ) → post api (dat k) ≡ pos 0)
      → Waiting s t n content
      → (s' : Bulk D) × (rounds n s ≡ ok tt s')
        × (load_int db Key.bulk_file_tail_index s' ≡ some (pos (t + n)))
        × ((k : ℕ)
            → t ≤ k
            → k < t + n
            → (s'.disk.files (bk k) ≡ some (content k)) × (s'.disk.files (dat k) ≡ none))
        × ((k : ℕ)
            → k < t
            → (s'.disk.files (bk k) ≡ s.disk.files (bk k))
              × (s'.disk.files (dat k) ≡ s.disk.files (dat k)))
        × (s'.next_index ≡ s.next_index)
  unfolding rounds
  rounds_drain laws s t zero api content tail small named takes w = (
    s,
    refl,
    rw tail (ap (λ m. some (pos m)) (omega arith)),
    λ k l h. absurd (omega arith),
    λ k l. (refl, refl),
    refl,
  )
  rounds_drain laws s t (suc n) api content tail small named takes w =
      let (s1, e1, t1, up, h) =
        upload_round s t api tail (omega arith) named laws (content t)
          (w t (omega arith) (omega arith)) (takes t) in
      let (s', e, te, done, old, nx) =
        rounds_drain laws s1 (suc t) n api content t1 (omega arith) (rw h.token named) takes
          (λ k l i. up.dats k (omega arith) ∙ w k (omega arith) (omega arith)) in
      (
        s',
        rw (e1, e),
        te ∙ ap (λ m. some (pos m)) (omega arith),
        λ k l i. elim (ℕ_discrete k t) [
          | yes here ↦ rw here (
            (old t (omega arith)).0 ∙ up.moved ∙ w t (omega arith) (omega arith),
            (old t (omega arith)).1 ∙ up.gone,
          )
          | no later ↦ done k (omega arith) (omega arith)
        ],
        λ k l. (
          (old k (omega arith)).0 ∙ up.bks k (omega arith) (omega arith),
          (old k (omega arith)).1 ∙ up.dats k (omega arith),
        ),
        nx ∙ h.next,
      )
