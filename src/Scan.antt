-- ===== src/Scan.antt =====
-- src/core/src/MBT_scan.c: the scan nodes on their heap, their configuration, the scan of the registers
-- and the merge of what was read. cJSON and the Modbus master are parameters. What `m_malloc` leaves
-- in a new array of registers is the parameter `garbage`.
pub mod Hex
pub mod Config
pub mod Reconfigure
pub mod OutOfMemory
pub mod Rounds
pub mod Reads
pub mod Merge
pub mod Tests
use modbus_things.Base.{
  ℕ, zero, suc, ◌+◌, ◌-◌, ◌*◌, ◌/◌, ◌%◌, ◌^◌, Bool, true, false, ◌||◌, Option, none, some, List, [],
  ◌∷◌, ◌++◌, leb, ltb, ◌==◌, if◌then◌else◌, length, take, Run, ok, fault, blocked, Cmd, pure, ◌>>=◌,
  ◌>>◌,
}
use modbus_things.Base.Int.{ℤ, pos, negsuc, neg, is_neg, pos_part, signed32, bits32, ◌-ℤ◌}
use modbus_things.Base.Text.{Text, codes, text_eq}
use modbus_things.Base.Decimal.{print_int}
use modbus_things.Queue.{Ptr, null}
use Hex.{bin2hex}

-- `mb_type_e`
pub data MbType : Type 0 where
  coils discret_input input_reg hold_reg : MbType

-- `scan_stat_e`; `calloc` leaves `success`, which is 0.
pub data ScanStat : Type 0 where
  success fail : ScanStat

-- `mds_item_t` with the input registers of its union; a register array has `size / 2` cells.
pub record Item : Type 0 where
  pub module_name : Text
  pub start : ℤ
  pub offset : ℤ
  pub dev_addr : ℤ
  pub kind : MbType
  pub value : List ℕ
  pub size : ℤ
  pub stat : ScanStat
  pub alias_name : Text
  pub next : Ptr

-- `mds_scan_t`, its nodes, the next address that `calloc` gives and how many nodes it still has
pub record Scan : Type 0 where
  pub nodes : Ptr → Option Item
  pub head : Ptr
  pub fresh : Ptr
  pub left : ℕ

-- What the code uses of cJSON. A value's text is NULL unless it is a string.
pub record Cjson (J : Type 0) : Type 0 where
  pub parse : Text → Option J
  pub get_object_item : J → Text → Option J
  pub items : J → List J
  pub valueint : J → ℤ
  pub valuestring : J → Option Text

-- `scan.ops.read_input_regs`: an address and a count to a code and the registers
abbrev pub Read : Type 0
Read = ℤ → ℤ → ℤ × List ℕ

abbrev pub write : (Ptr → Option Item) → Ptr → Item → Ptr → Option Item
write h p n a = if a == p then some n else h a

abbrev pub load : Ptr → Cmd Scan Item
load p s = if p == null then fault else elim (s.nodes p) [ none ↦ fault | some n ↦ ok n s ]

abbrev pub store : Ptr → Item → Cmd Scan (Unit {0})
store p n s = ok tt (record s { nodes = write s.nodes p n })

-- `(offset - start) * sizeof(unsigned short)`, as an `int`
unfoldable pub item_size : ℤ → ℤ → ℤ
item_size start offset = signed32 ((bits32 (offset -ℤ start) * 2) % 2 ^ 32)

-- the number of registers of a size that is not negative
abbrev pub half : ℤ → ℕ
half z = pos_part z / 2

-- `node->size / 2`
abbrev pub half_int : ℤ → ℤ
half_int (pos n) = pos (n / 2)
half_int (negsuc n) = neg (suc n / 2)

-- MB_TYPE_*
abbrev pub mb_type_coils : Text
mb_type_coils = codes "coils"

abbrev pub mb_type_discret_input : Text
mb_type_discret_input = codes "discret_input"

abbrev pub mb_type_input_reg : Text
mb_type_input_reg = codes "input_reg"

abbrev pub mb_type_hold_reg : Text
mb_type_hold_reg = codes "hold_reg"

-- `data_type`
abbrev pub data_type : List Text
data_type = mb_type_coils ∷ mb_type_discret_input ∷ mb_type_input_reg ∷ mb_type_hold_reg ∷ []

-- `clear_all_scan_node`, whose body is empty
abbrev pub clear_all_scan_node : Cmd Scan (Unit {0})
clear_all_scan_node = pure tt

module _ (garbage : ℕ → List ℕ) where
  -- the node that the body of the loop of `parse_input_reg_config` fills in
  abbrev pub item : ℤ → ℤ → ℤ → Text → Item
  item start offset addr name = record {
    module_name = name;
    start = start;
    offset = offset;
    dev_addr = addr;
    kind = input_reg;
    value = garbage (half (item_size start offset));
    size = item_size start offset;
    stat = success;
    alias_name = take 31 (print_int addr ++ (b':' ∷ name));
    next = null;
  }

  -- `if(re->head == NULL) …`: a new node goes behind the head, whatever stands there.
  abbrev pub link : Ptr → Cmd Scan (Unit {0})
  link p s =
      if s.head == null
      then ok tt (record s { head = p })
      else (do h ← load s.head; store s.head (record h { next = p })) s

  -- the node is filled in and linked
  abbrev pub add : Item → Cmd Scan (Unit {0})
  add n s =
      link s.fresh
        (record s { nodes = write s.nodes s.fresh n; fresh = suc s.fresh; left = s.left - 1 })

  module _ {J : Type 0} (json : Cjson J) where
    -- the four values of an entry, each of which is read through
    abbrev pub entry : J → Option Item
    entry j = elim (json.get_object_item j (codes "start")) [
      | none ↦ none
      | some st ↦ elim (json.get_object_item j (codes "offset")) [
        | none ↦ none
        | some off ↦ elim (json.get_object_item j (codes "devAddres")) [
          | none ↦ none
          | some ad ↦ elim (json.get_object_item j (codes "module")) [
            | none ↦ none
            | some la ↦ elim (json.valuestring la) [
              | none ↦ none
              | some t ↦ some (item (json.valueint st) (json.valueint off) (json.valueint ad) t)
            ]
          ]
        ]
      ]
    ]

    -- `parse_input_reg_config`. Memory may run out for the nodes only: the copy of a name and the array of
    -- registers, which the code does not test, are there.
    unfoldable pub parse_input_reg_config : List J → Cmd Scan ℤ
    parse_input_reg_config [] s = ok (pos 0) s
    parse_input_reg_config (j ∷ js) s =
        if s.left == 0
        then ok (neg 1) s
        else (elim (entry j) [ none ↦ fault | some n ↦ (do add n; parse_input_reg_config js) s ])

    -- The `mb_config` of a document, under "shared" if that is there.
    abbrev pub mb_config : J → Option J
    mb_config root = elim (json.get_object_item root (codes "shared")) [
      | none ↦ json.get_object_item root (codes "mb_config")
      | some shared ↦ json.get_object_item shared (codes "mb_config")
    ]

    -- `parse_hold_reg_config`
    abbrev pub parse_hold_reg_config : J → Cmd Scan ℤ
    parse_hold_reg_config conf = pure (pos 0)

    -- `mdcps`: the parsers by the data types, NULL for the first two
    abbrev pub mdcps : List (Text × Option (J → Cmd Scan ℤ))
    mdcps =
        (mb_type_coils, none)
        ∷ (mb_type_discret_input, none)
        ∷ (mb_type_input_reg, some (λ dt. parse_input_reg_config (json.items dt)))
        ∷ (mb_type_hold_reg, some parse_hold_reg_config)
        ∷ []

    -- the inner loop: the first parser that is there for the type
    unfoldable pub parse_type :
        List (Text × Option (J → Cmd Scan ℤ)) → Text → J → Cmd Scan (Unit {0})
    parse_type [] type dt s = ok tt s
    parse_type ((t, none) ∷ l) type dt s = parse_type l type dt s
    parse_type ((t, some parser) ∷ l) type dt s =
        let rest = parse_type l type dt s in
        if text_eq t type then (do parser dt; pure tt) s else rest

    -- the loop over the data types, of which those that are not there are passed over
    unfoldable pub dispatch : List Text → J → Cmd Scan (Unit {0})
    dispatch [] config = pure tt
    dispatch (type ∷ types) config = do
      (λ s. elim (json.get_object_item config type) [
        | none ↦ ok tt s
        | some dt ↦ parse_type mdcps type dt s
      ])
      dispatch types config

    -- `mds_parse_scan`
    unfoldable pub parse_scan : Option (Text → Text) → Text → Cmd Scan ℤ
    parse_scan convert text s = elim (json.parse (elim convert [ none ↦ text | some c ↦ c text ])) [
      | none ↦ ok (neg 1) s
      | some root ↦ elim (mb_config root) [
        | none ↦ ok (neg 1) s
        | some config ↦ (do clear_all_scan_node; dispatch data_type config; pure (pos 0)) s
      ]
    ]

-- one node of `mds_scan`: the new node. The address that is read is the device's.
abbrev pub scan_item : Read → Item → Item
scan_item read n = elim n.kind [
  | input_reg ↦
      let r = read n.dev_addr (half_int n.size) in
      if is_neg r.0 then record n { stat = fail } else record n { stat = success; value = r.1 }
  | _ ↦ n
]

abbrev pub is_success : ScanStat → Bool
is_success success = true
is_success fail = false

module _ (read : Read) where
  -- the loop of `mds_scan` from a node on, with fuel: whether any node has been read
  unfoldable pub scan_loop : ℕ → Ptr → Bool → Cmd Scan Bool
  scan_loop zero p any = λ s. blocked
  scan_loop (suc f) p any = if p == null then pure any else do
    n ← load p
    store p (scan_item read n)
    scan_loop f n.next (any || is_success (scan_item read n).stat)

  -- `mds_scan`: there are fewer nodes than `fresh`.
  unfoldable pub scan : Cmd Scan ℤ
  unfolding scan_loop
  scan s = (do any ← scan_loop s.fresh s.head false; pure (if any then pos 0 else neg 1)) s

-- the field of "rawData" for a node of input registers; its key is printed into 32 bytes
abbrev pub input_field : Item → Cmd Scan (List (Text × Text))
input_field n s =
    if leb 32 (length (codes "input." ++ n.module_name))
    then fault
    else ok ((codes "input." ++ n.module_name, bin2hex (take (half n.size) n.value)) ∷ []) s

-- the field for a node; an array of `size * 2 + 1` bytes is undefined where the size is negative, or
-- where that is no `int`.
abbrev pub field : Item → Cmd Scan (List (Text × Text))
field n s =
    if is_neg n.size || leb (2 ^ 30) (pos_part n.size)
    then fault
    else (elim n.kind [ input_reg ↦ input_field n s | _ ↦ ok [] s ])

-- the fields that `mds_merge_result` collects from a node on, with fuel
unfoldable pub collect : ℕ → Ptr → Cmd Scan (List (Text × Text))
collect zero p = λ s. blocked
collect (suc f) p =
    if p == null
    then pure []
    else do n ← load p; here ← field n; rest ← collect f n.next; pure (here ++ rest)

-- `mds_merge_result`, with the printing of the document, at the time `now`: the code and `*result`.
-- The allocations of cJSON succeed.
unfoldable pub merge_result :
    (List (Text × Text) → ℤ → Text) → ℤ → Option Text → Cmd Scan (ℤ × Option Text)
unfolding collect
merge_result print now result = do
  fields ← (λ s. collect s.fresh s.head s)
  pure (pos 0, elim result [ none ↦ none | some old ↦ some (print fields now) ])

-- `mds_scan_service_init`
unfoldable pub init : ℕ → Scan
init left = record { nodes = λ _. none; head = null; fresh = 1; left = left }
