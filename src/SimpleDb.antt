-- ===== src/SimpleDb.antt =====
-- src/core/src/MBT_simpleDb.c: the table of texts that is kept in a file. It holds the pointers that
-- it is given; a pointer to memory that is gone is `dangling`, and `none` is undefined behaviour.
-- cJSON is a parameter, and so is what `m_malloc` gives.
pub mod Saving
pub mod Bytes
pub mod Loading
pub mod Port
mod Tests
use modbus_things.Base.{
  ℕ, zero, suc, ◌+◌, Bool, true, false, ◌&&◌, Option, none, some, List, [], ◌∷◌, ◌++◌, ltb,
  if◌then◌else◌, length, take, drop, get_elem?, set,
}
use modbus_things.Base.Int.{ℤ, pos, negsuc, neg}
use modbus_things.Base.Text.{Text, codes}
use modbus_things.Base.Decimal.{digits}
use modbus_things.Disk.{Disk, update, rename}
use modbus_things.Scan.{Cjson}

-- a `char *` of the table
pub data Cell : Type 0 where
  null dangling : Cell
  at : Text → Cell

-- `simple_db_t`, with the disk; `size` is the length of the array.
pub record SimpleDb : Type 0 where
  pub array : List Cell
  pub disk : Disk

-- MBT_DB_FILE_PATH, and the name of the file that is written first
abbrev pub db_file_path : Text
db_file_path = codes "/opt/MBT/simple.db"

abbrev pub update_path : Text
update_path = db_file_path ++ codes ".update"

-- the whole text of an entry, {"%d":"%s"}
abbrev pub whole_entry : ℕ → Text → Text
whole_entry i v = codes "{\"" ++ (digits i ++ (codes "\":\"" ++ (v ++ codes "\"}")))

-- An entry of `convert_save`: `snprintf` cuts it to a buffer of `strlen(array[i]) + 6` bytes.
unfoldable pub entry : ℕ → Text → Text
entry i v = take (length v + 5) (whole_entry i v)

-- the entries from number `i` on, each with what is written after it; the length of a NULL, or of a
-- text that is gone, is undefined.
unfoldable pub entries : ℕ → List Cell → Option Text
entries i [] = some []
entries i (null ∷ cells) = none
entries i (dangling ∷ cells) = none
entries i (at v ∷ []) = some (entry i v ++ codes "]")
entries i (at v ∷ c ∷ cells) = elim (entries (suc i) (c ∷ cells)) [
  | none ↦ none
  | some t ↦ some (entry i v ++ (codes ",\n" ++ t))
]

-- what a file opened without O_TRUNC holds after `new` is written at its start
abbrev pub overlay : Option Text → Text → Text
overlay none new = new
overlay (some old) new = new ++ drop (length new) old

-- the file after the writes, of which those that have no room are dropped
abbrev pub written : Text → Disk → Disk
written new d = record d {
  files =
      update d.files update_path
        (some (overlay (d.files update_path) (take (d.room update_path) new)));
}

-- `convert_save`; its writes are not looked at.
unfoldable pub convert_save : SimpleDb → Option (ℤ × SimpleDb)
convert_save s =
    if s.disk.can_open update_path
    then (elim (entries 0 s.array) [
      | none ↦ none
      | some t ↦
          let (rc, d) = rename update_path db_file_path (written (codes "[" ++ t) s.disk) in
          some (rc, record s { disk = d })
    ])
    else some (neg 1, s)

-- `MBT_simpleDbPut`; a negative key stands before the array.
unfoldable pub put : ℤ → Cell → SimpleDb → Option (ℤ × SimpleDb)
put (negsuc k) value s = none
put (pos k) value s =
    if ltb k (length s.array)
    then (elim (convert_save (record s { array = set s.array k value })) [
      | none ↦ none
      | some (rc, s') ↦ some (neg 1, s')
    ])
    else some (neg 1, s)

-- `MBT_simpleDbGet`
unfoldable pub get : ℤ → SimpleDb → Option Cell
get (negsuc k) s = none
get (pos k) s = if ltb k (length s.array) then get_elem? s.array k else some null

-- the key of an item, ATTRIBUTE_KEY_PREFIX and its index
abbrev pub item_key : ℕ → Text
item_key index = codes "MBT_ATTRI_" ++ digits index

-- an array of NULL
unfoldable pub nulls : ℕ → List Cell
nulls zero = []
nulls (suc n) = null ∷ nulls n

-- `array[index] = c`, which is undefined past the end
abbrev pub store : ℕ → Cell → List Cell → Option (List Cell)
store index c a = if ltb index (length a) then some (set a index c) else none

-- what `m_malloc` gives to the three calls of `MBT_simpleDbInit`
pub record Memory : Type 0 where
  pub db : Bool
  pub array : Bool
  pub buffer : Bool

module _ {J : Type 0} (json : Cjson J) where
  -- what an item gives for its index; `m_strdup` of NULL is undefined.
  unfoldable pub item_cell : ℕ → J → Option Cell
  item_cell index item = elim (json.get_object_item item (item_key index)) [
    | none ↦ some null
    | some att ↦ elim (json.valuestring att) [ none ↦ none | some t ↦ some (at t) ]
  ]

  -- the loop of `parse_load`: `index` is counted up before the entry is stored.
  unfoldable pub parse_items : ℕ → List J → List Cell → Option (List Cell)
  parse_items index [] a = some a
  parse_items index (item ∷ items) a = elim (item_cell index item) [
    | none ↦ none
    | some c ↦ elim (store (suc index) c a) [
      | none ↦ none
      | some a' ↦
          let rest = parse_items (suc index) items a' in
          if ltb (length a') (suc index) then some a' else rest
    ]
  ]

  -- `parse_load`
  unfoldable pub parse_load : Text → List Cell → Option (ℤ × List Cell)
  parse_load buf a = elim (json.parse buf) [
    | none ↦ some (neg 1, a)
    | some root ↦ elim (parse_items 0 (json.items root) a) [
      | none ↦ none
      | some a' ↦ some (pos 0, a')
    ]
  ]

  -- the file is made if it is not there
  abbrev pub load_data : Bool → Disk → Option Text × Disk
  load_data buffer d =
      if d.can_open db_file_path
      then (elim (d.files db_file_path) [
        | none ↦ (
          if buffer then some [] else none,
          record d { files = update d.files db_file_path (some []) },
        )
        | some t ↦ (if buffer then some t else none, d)
      ])
      else (none, d)

  -- the start, with the array of NULL made
  abbrev pub loaded : List Cell → Option Text × Disk → Option (ℤ × Option SimpleDb)
  loaded a (none, d) = some (neg 1, some (record { array = a; disk = d }))
  loaded a (some buf, d) = elim (parse_load buf a) [
    | none ↦ none
    | some (rc, a') ↦ some (pos 0, some (record { array = a'; disk = d }))
  ]

  -- `MBT_simpleDbInit`: the code, and the handle if it is set
  unfoldable pub simple_db_init : Memory → ℕ → Disk → Option (ℤ × Option SimpleDb)
  simple_db_init m key_num_max d =
      if m.db && m.array
      then loaded (nulls key_num_max) (load_data m.buffer d)
      else some (neg 1, none)
