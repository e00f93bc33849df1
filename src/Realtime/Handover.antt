-- ===== src/Realtime/Handover.antt =====
-- dump_cached_data over any MQTT port: the buffer grows, and past half of it is written to a file.
use modbus_things.Base.{
  ℕ, suc, ◌+◌, ◌/◌, ◌≤◌, ◌<◌, ◌^◌, ◌≡◌, refl, true, false, none, some, arith, length, take, ok, ◌∙◌,
  ap,
}
use modbus_things.Base.Int.{ℤ, pos, neg, ◌-ℤ◌, inc32, inc32-pos}
use modbus_things.Base.Text.{Text, text_eq}
use modbus_things.Attributes.{Db}
use modbus_things.Attributes.Key
use modbus_things.Attributes.Laws.{IsIntStore}
use modbus_things.Queue.{sub_size}
use modbus_things.Bulk.{
  Bulk, Post, bulk_file_max_bytes, load_int, save_bulk_data, get_head_cache_file_path,
  post_bulk_data_by_file,
}
use modbus_things.Bulk.Names.{gen_cache_filename-pos, bulk_api}
use modbus_things.Bulk.Saving.{save_bulk_data_saves}
use modbus_things.Bulk.Uploading.{dat, bk, post_bulk_data_by_file_answers}
use modbus_things.Realtime.{Port, Shared, dump_cached_data, grow}

-- What a hand-over that fills more than half of the buffer does at head index `i`.
pub record Saved {D : Type 0} (db : Db D) (i : ℕ) (b : Bulk D) (bytes : Text) (b' : Bulk D)
    : Type 0 where
  pub emptied : b'.cur_cached_off ≡ 0
  pub file : b'.disk.files (dat i) ≡ some bytes
  pub others : (name : Text) → text_eq (dat i) name ≡ false → b'.disk.files name ≡ b.disk.files name
  pub stored : load_int db Key.bulk_index b' ≡ some (pos (suc i))
  pub next : b'.next_index ≡ pos (suc (suc i))
  pub token : b'.dev_token ≡ b.dev_token
  pub tail_set :
      load_int db Key.bulk_file_tail_index b ≡ none
      → load_int db Key.bulk_file_tail_index b' ≡ some (pos i)
  pub tail_kept :
      (t : ℤ)
      → load_int db Key.bulk_file_tail_index b ≡ some t
      → load_int db Key.bulk_file_tail_index b' ≡ some t

module _ {Q D : Type 0} (port : Port Q) (db : Db D) where
  abbrev room : Bulk D → ℕ
  room b = sub_size bulk_file_max_bytes b.cur_cached_off

  -- The port hands over `n` bytes, in `buf`.
  abbrev pub Hands : Shared Q D → ℕ → Text → Q → Type 0
  Hands s n buf q =
      port.dump (some s.bulk.cache_buf) s.bulk.cur_cached_off (room s.bulk) s.queue
      ≡ ok (pos n, some buf) q

  -- While the buffer is at most half full after the hand-over, its bytes are kept in memory: no
  -- file, no index and no attribute changes.
  pub dump_cached_data_keeps :
      (s : Shared Q D) (n : ℕ) (buf : Text) (q : Q)
      → Hands s n buf q
      → s.bulk.cur_cached_off + n ≤ bulk_file_max_bytes / 2
      → dump_cached_data port db s
        ≡ ok (pos n) (record {
          queue = q;
          bulk = record s.bulk { cur_cached_off = s.bulk.cur_cached_off + n; cache_buf = buf };
        })
  unfolding dump_cached_data
  dump_cached_data_keeps s n buf q e h = rw (e, dump_cached_data) (ground arith)

  dump_cached_data-grow :
      (s : Shared Q D) (n : ℕ) (buf : Text) (q : Q)
      → Hands s n buf q
      → 0 < n
      → dump_cached_data port db s ≡ ok (pos n) (record { queue = q; bulk = grow db n buf s.bulk })
  unfolding dump_cached_data
  dump_cached_data-grow s n buf q e h = rw (e, dump_cached_data) (ground arith)

  abbrev filled : Bulk D → ℕ → Text → Bulk D
  filled b n buf = record b { cur_cached_off = b.cur_cached_off + n; cache_buf = buf }

  grow-saved :
      (b : Bulk D) (n : ℕ) (buf : Text)
      → bulk_file_max_bytes / 2 < b.cur_cached_off + n
      → (save_bulk_data db (filled b n buf)).0 ≡ pos 0
      → grow db n buf b ≡ (
          let b' = (save_bulk_data db (filled b n buf)).1 in
          record b' { cur_cached_off = 0; next_index = inc32 b'.next_index })
  grow-saved b n buf h e = ground arith

  -- Over a store that keeps an `int` under each key in range, as that of EasyFlash does, and with a port
  -- that hands over some bytes, which the one of mqttclient never does: a hand-over past half of the
  -- buffer, where the file of the head index can be opened and has room, writes the buffered bytes to the file of the head index,
  -- changes no other file, empties the buffer and stores the next index; but the index in memory
  -- goes two further, so that it skips one and no longer agrees with the stored one.
  pub dump_cached_data_saves :
      (laws : IsIntStore db) (s : Shared Q D) (n i : ℕ) (buf : Text) (q : Q)
      → Hands s n buf q
      → 0 < n
      → bulk_file_max_bytes / 2 < s.bulk.cur_cached_off + n
      → s.bulk.cur_cached_off + n ≤ length buf
      → s.bulk.next_index ≡ pos i
      → suc (suc i) < 2 ^ 31
      → s.bulk.disk.can_open (dat i) ≡ true
      → s.bulk.cur_cached_off + n ≤ s.bulk.disk.room (dat i)
      → (s' : Shared Q D) × (dump_cached_data port db s ≡ ok (pos n) s')
        × (s'.queue ≡ q)
        × Saved db i s.bulk (take (s.bulk.cur_cached_off + n) buf) s'.bulk
  dump_cached_data_saves laws s n i buf q e p h l x k o r =
      let b = filled s.bulk n buf in
      let (z, adv, file, others) = save_bulk_data_saves db laws b i x (omega arith) o l r in
      let g = grow-saved s.bulk n buf h z in
      (
        record { queue = q; bulk = grow db n buf s.bulk },
        dump_cached_data-grow s n buf q e p,
        refl,
        rw g (record {
          emptied = refl;
          file = file;
          others = others;
          stored = adv.stored;
          next = ap inc32 adv.head ∙ inc32-pos (suc i) (omega arith);
          token = adv.token;
          tail_set = adv.tail_set;
          tail_kept = adv.tail_kept;
        }),
      )

-- So the file that is offered as the latest after such a hand-over is one that was never written:
-- unless something else has put a file there, its post fails with -1 and reaches no server.
pub head_after_hand_over :
    {D : Type 0} (db : Db D) (post : Post) (i : ℕ) (b b' : Bulk D) (bytes api : Text)
    → Saved db i b bytes b'
    → suc (suc i) < 2 ^ 31
    → bulk_api b'.dev_token ≡ some api
    → b'.disk.files (dat (suc i)) ≡ none
    → b'.disk.files (bk (suc i)) ≡ none
    → (get_head_cache_file_path b' ≡ some (dat (suc i)))
      × (post_bulk_data_by_file post (dat (suc i)) b' ≡ ok (neg 1) b')
unfolding get_head_cache_file_path ◌-ℤ◌
head_after_hand_over db post i b b' bytes api saved h a e k = (
  ground (
    arith,
    saved.next,
    gen_cache_filename-pos (b'.next_index -ℤ pos 1) b'.version_number (suc i)
        (ground (arith, saved.next)) (omega arith),
  ),
  ground (arith, post_bulk_data_by_file_answers post (suc i) b' api (omega arith) a),
)
