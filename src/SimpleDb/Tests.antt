-- ===== src/SimpleDb/Tests.antt =====
-- Runs of src/core/src/MBT_simpleDb.c and of the port's store over it.
use modbus_things.Base.{
  ℕ, ◌≤◌, ◌≡◌, ◌≢◌, refl, inl, true, Option, none, some, [], ◌∷◌, ◌++◌, arith, length, set,
}
use modbus_things.Base.Int.{pos, neg}
use modbus_things.Base.Text.{Text, codes}
use modbus_things.Disk.{Disk}
use modbus_things.Scan.{Cjson}
use modbus_things.SimpleDb.{
  null, at, SimpleDb, db_file_path, nulls, parse_load, simple_db_init, put, get,
}
use modbus_things.SimpleDb.Bytes.{lines_of, AllLong, put_lem}
use modbus_things.Base.Decimal.{digits, digits_from}
use modbus_things.SimpleDb.Saving.{put_lost}
use modbus_things.SimpleDb.Loading.{parse_load_overflows, first_put_fault}

abbrev disk : Disk
disk = record { files = λ n. none; can_open = λ n. true; room = λ n. 200 }

abbrev full : SimpleDb
full = record { array = at (codes "ab") ∷ null ∷ []; disk = disk }

abbrev bare : SimpleDb
bare = record { array = null ∷ null ∷ []; disk = disk }

-- documents: a list of items, each a text, or an item with no known key
abbrev json : Cjson (Option Text)
json = record {
  parse = λ t. elim t [ [] ↦ none | _ ∷ _ ↦ some none ];
  get_object_item = λ j k. elim j [ none ↦ none | some t ↦ some (some t) ];
  items = λ j. some (codes "x") ∷ none ∷ [];
  valueint = λ j. pos 0;
  valuestring = λ j. j;
}

full-AllLong : AllLong 0 (set full.array 1 (at (codes "c")))
unfolding digits digits_from
full-AllLong = (omega arith, (omega arith, tt))

put_lem_example :
    let t = codes "[" ++ lines_of 0 (set full.array 1 (at (codes "c"))) in
    (s' : SimpleDb) × (put (pos 1) (at (codes "c")) full ≡ some (neg 1, s'))
    × (get (pos 1) s' ≡ some (at (codes "c")))
    × ((j : ℕ) → j ≢ 1 → get (pos j) s' ≡ get (pos j) full)
    × (true ≡ true → length t ≤ 200 → s'.disk.files db_file_path ≡ some t)
put_lem_example = put_lem 1 (codes "c") full (omega arith) full-AllLong

put_lost_example : put (pos 1) (at (codes "c")) bare ≡ none
put_lost_example = put_lost 1 0 (at (codes "c")) bare (omega arith) (omega arith) (inl refl) refl

parse_load_overflows_example : parse_load json (codes "[") (nulls 2) ≡ none
unfolding nulls
parse_load_overflows_example =
    parse_load_overflows json (codes "[") none (nulls 2) refl (omega arith) (omega arith)

first_put_fault_example :
    (s : SimpleDb) × (simple_db_init json
        (record { db = true; array = true; buffer = true })
        11
        disk
      ≡ some (pos 0, some s))
    × (put (pos 3) (at (codes "c")) s ≡ none)
first_put_fault_example =
    first_put_fault json 11 3 (at (codes "c")) disk (omega arith) (omega arith) refl refl refl refl
