-- ===== src/Realtime/Tests.antt =====
-- Runs of the hand-over of src/core/src/MBT_realtime.c.
use modbus_things.Base.{
  ℕ, zero, suc, ◌+◌, ◌≡◌, refl, ap, none, some, [], ◌∷◌, arith, ◌==◌, if◌then◌else◌, length, take,
  ok,
}
use modbus_things.Base.Int.{pos}
use modbus_things.Base.Text.{Text, codes, text_eq}
use modbus_things.Attributes.Tests.{Memory, memory, memory-IsIntStore}
use modbus_things.Queue.{sub_size}
use modbus_things.Queue.Chain.{msgs}
use modbus_things.Mqtt.Dumping.{AllFit}
use modbus_things.Mqtt.Tests.{two_nodes}
use modbus_things.Bulk.{Bulk, bulk_file_max_bytes}
use modbus_things.Bulk.Tests.{spool}
use modbus_things.Realtime.{Port, Shared, dump_cached_data}
use modbus_things.Realtime.Handover.{Saved, dump_cached_data_saves}

unfoldable pub blanks : ℕ → Text
blanks zero = []
blanks (suc n) = b' ' ∷ blanks n

pub length-blanks : (n : ℕ) → length (blanks n) ≡ n
unfolding blanks
length-blanks zero = refl
length-blanks (suc n) = ap suc (length-blanks n)

-- A port that hands over `n` bytes.
abbrev gives : ℕ → Port (Unit {0})
gives n = record {
  push = λ raw q. ok (pos 0) q;
  dump = λ buf off limit q. ok (pos n, some (blanks 10240)) q;
}

abbrev shared : Shared (Unit {0}) Memory
shared = record { queue = tt; bulk = spool 10000 }

dump_cached_data_saves_example :
    (s' : Shared (Unit {0}) Memory) × (dump_cached_data (gives 6000) memory shared
      ≡ ok (pos 6000) s')
    × (s'.queue ≡ tt)
    × Saved memory 5 (spool 10000) (take (5 + 6000) (blanks 10240)) s'.bulk
dump_cached_data_saves_example =
    dump_cached_data_saves (gives 6000) memory memory-IsIntStore shared 6000 5 (blanks 10240) tt
      refl (omega arith) (omega arith) (omega (arith, length-blanks 10240)) refl (omega arith) refl
      (omega arith)

pub both_fit : AllFit (sub_size bulk_file_max_bytes 5) (msgs two_nodes)
unfolding msgs
both_fit = ((omega arith, omega arith), ((omega arith, omega arith), tt))

-- after a hand-over at index 1
abbrev after : Bulk Memory
after = record (spool 10000) {
  cur_cached_off = 0;
  next_index = pos 3;
  attributes = record {
    cache = λ k. none;
    store = record {
      texts = λ k. none;
      ints = λ k. if k == 5 then some (pos 0) else (if k == 4 then some (pos 2) else none);
    };
  };
  disk = record (spool 10000).disk {
    files = λ name. if text_eq (codes "mbt_1.dat") name then some (codes "{abc}") else none;
  };
}
