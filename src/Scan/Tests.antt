-- ===== src/Scan/Tests.antt =====
-- Runs of src/core/src/MBT_scan.c on two nodes, and of its configuration on three entries.
use modbus_things.Base.{
  ℕ, ◌≡◌, refl, Option, none, some, List, [], ◌∷◌, arith, ◌==◌, if◌then◌else◌, length, ok, and_then,
  ◌<◌, ◌^◌, false,
}
use modbus_things.Base.Int.{ℤ, pos, neg, is_neg, pos_part, ◌-ℤ◌}
use modbus_things.Base.Text.{Text, codes, text_eq}
use modbus_things.Queue.{Ptr}
use modbus_things.Scan.{
  Item, Scan, Cjson, Read, item, init, parse_scan, scan, merge_result, item_size,
}
use modbus_things.Scan.Hex.{bin2hex, hex2bin, hex2bin-bin2hex, length-bin2hex}
use modbus_things.Scan.Reconfigure.{Document, Further, parse_all, reconfigured}
use modbus_things.Scan.Config.{Entries, Pair}
use modbus_things.Scan.Rounds.{Nodes, Listed}
use modbus_things.Scan.Reads.{any_good, AreScanned, scan_reads}
use modbus_things.Scan.Merge.{raw_data, merge_result_lem}

hex2bin-bin2hex_example : hex2bin (bin2hex (258 ∷ 65535 ∷ [])) ≡ 258 ∷ 65535 ∷ []
hex2bin-bin2hex_example = hex2bin-bin2hex (258 ∷ 65535 ∷ []) (omega arith, (omega arith, tt))

length-bin2hex_example : length (bin2hex (258 ∷ 65535 ∷ [])) ≡ 8
length-bin2hex_example = length-bin2hex (258 ∷ 65535 ∷ [])

-- a node of two registers of device `addr`
abbrev pub node : ℤ → Text → Ptr → Item
node addr name next = record (item (λ n. 0 ∷ 0 ∷ []) (pos 10) (pos 12) addr name) { next = next }

abbrev pub nodes : Nodes
nodes = (1, node (pos 7) (codes "a") 2) ∷ (2, node (pos 8) (codes "b") 0) ∷ []

abbrev pub two : Scan
two = record {
  nodes = λ p.
      if p == 1
      then some (node (pos 7) (codes "a") 2)
      else (if p == 2 then some (node (pos 8) (codes "b") 0) else none);
  head = 1;
  fresh = 3;
  left = 5;
}

pub two-Listed : Listed two.nodes 1 nodes
two-Listed = (refl, omega arith, refl, refl, (refl, omega arith, refl, refl, refl))

-- A master that reads two registers.
abbrev pub master : Read
master addr count = (pos 2, 1 ∷ 2 ∷ [])

scan_reads_example :
    (s' : Scan) × (ys : Nodes) × (scan master two
      ≡ ok (if any_good master nodes then pos 0 else neg 1) s')
    × Listed s'.nodes s'.head ys
    × AreScanned master nodes ys
    × (s'.fresh ≡ 3)
scan_reads_example = scan_reads master two nodes two-Listed (omega arith)

abbrev pub print : List (Text × Text) → ℤ → Text
print fields now = codes "{}"

-- the size of two registers
pub two_registers :
    (is_neg (item_size (pos 10) (pos 12)) ≡ false)
    × (pos_part (item_size (pos 10) (pos 12)) < 2 ^ 30)
unfolding item_size ◌-ℤ◌
two_registers = (refl, omega arith)

merge_result_lem_example :
    (merge_result print (pos 9) (some (codes "x")) two
      ≡ ok (pos 0, some (print (raw_data nodes) (pos 9))) two)
    × (merge_result print (pos 9) none two ≡ ok (pos 0, none) two)
merge_result_lem_example =
    merge_result_lem print (pos 9) (codes "x") two nodes two-Listed
      ((refl, omega arith, two_registers), ((refl, omega arith, two_registers), tt)) (omega arith)

-- values of a document: the four fields of an entry, a number and a text
pub data Value : Type 0 where
  fields : ℤ → ℤ → ℤ → Text → Value
  number : ℤ → Value
  text : Text → Value

abbrev pub field_of : Value → Text → Option Value
field_of (fields start offset addr name) key =
    if text_eq key (codes "start")
    then some (number start)
    else (if text_eq key (codes "offset")
        then some (number offset)
        else (if text_eq key (codes "devAddres")
            then some (number addr)
            else (if text_eq key (codes "module") then some (text name) else none)))
field_of _ key = none

abbrev pub value_int : Value → ℤ
value_int (number z) = z
value_int _ = pos 0

abbrev pub value_string : Value → Option Text
value_string (text t) = some t
value_string _ = none

abbrev json : Cjson Value
json = record {
  parse = λ t. none;
  get_object_item = field_of;
  items = λ j. [];
  valueint = value_int;
  valuestring = value_string;
}

abbrev pub no_cells : ℕ → List ℕ
no_cells n = []

abbrev pub device : ℕ → Value
device n = fields (pos 10) (pos 12) (pos n) (codes "m")

abbrev pub device_item : ℕ → Item
device_item n = item no_cells (pos 10) (pos 12) (pos n) (codes "m")

-- two documents, "one" and any other text
pub data Doc : Type 0 where
  document config registers : Text → Doc
  value : Value → Doc

abbrev pub item_of : Doc → Text → Option Doc
item_of (document t) key = if text_eq key (codes "mb_config") then some (config t) else none
item_of (config t) key = if text_eq key (codes "input_reg") then some (registers t) else none
item_of (registers t) key = none
item_of (value v) key = elim (field_of v key) [ none ↦ none | some u ↦ some (value u) ]

abbrev pub items_of : Doc → List Doc
items_of (registers t) =
    if text_eq t (codes "one")
    then value (device 1) ∷ value (device 2) ∷ []
    else value (device 3) ∷ []
items_of _ = []

abbrev pub json_value : Doc → Value
json_value (value v) = v
json_value _ = number (pos 0)

abbrev pub documents : Cjson Doc
documents = record {
  parse = λ t. some (document t);
  get_object_item = item_of;
  items = items_of;
  valueint = λ j. value_int (json_value j);
  valuestring = λ j. value_string (json_value j);
}

pub one : Document no_cells documents (codes "one") (value (device 1) ∷ value (device 2) ∷ [])
unfolding text_eq
one = record {
  root = document (codes "one");
  config = config (codes "one");
  registers = registers (codes "one");
  parsed = refl;
  found = refl;
  input = refl;
  entries = refl;
}

other : Document no_cells documents (codes "other") (value (device 3) ∷ [])
unfolding text_eq
other = record {
  root = document (codes "other");
  config = config (codes "other");
  registers = registers (codes "other");
  parsed = refl;
  found = refl;
  input = refl;
  entries = refl;
}

pub first_devices :
    Entries no_cells documents
      (value (device 1) ∷ value (device 2) ∷ [])
      (device_item 1 ∷ device_item 2 ∷ [])
unfolding text_eq
first_devices = (refl, (refl, tt))

third_device : Entries no_cells documents (value (device 3) ∷ []) (device_item 3 ∷ [])
unfolding text_eq
third_device = (refl, tt)

abbrev third : Further no_cells documents
third = record {
  text = codes "other";
  values = value (device 3) ∷ [];
  items = device_item 3 ∷ [];
  document = other;
  well_formed = third_device;
}

reconfigured_example :
    (s' : Scan) × (q : Ptr) × (and_then
        (parse_scan no_cells documents none (codes "one") (init 9))
        (λ _. parse_all no_cells documents (third ∷ third ∷ []))
      ≡ ok tt s')
    × Pair no_cells documents s' 1 (device_item 1) q (device_item 3)
unfolding init
reconfigured_example =
    reconfigured no_cells documents (codes "one") (init 9) (value (device 1)) (value (device 2)) []
      (device_item 1) (device_item 2) [] (third ∷ third ∷ []) one refl (omega arith) first_devices
      (omega arith)
