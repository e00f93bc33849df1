-- ===== src/Scan/Merge.antt =====
-- mds_merge_result: the fields that it collects, and the result that it does not hand out.
use modbus_things.Base.{
  ℕ, zero, suc, ◌<◌, ◌≡◌, ◌≢◌, ◌^◌, false, none, some, List, [], ◌∷◌, ◌++◌, arith, length, take, ok,
}
use modbus_things.Base.Int.{ℤ, pos, is_neg, pos_part}
use modbus_things.Base.Text.{Text, codes}
use modbus_things.Queue.{Ptr, null}
use modbus_things.Scan.{Item, Scan, input_reg, half, collect, merge_result}
use modbus_things.Scan.Hex.{bin2hex}
use modbus_things.Scan.Rounds.{Nodes, Listed}

-- what a node of input registers gives to "rawData"
abbrev pub raw_field : Item → Text × Text
raw_field n = (codes "input." ++ n.module_name, bin2hex (take (half n.size) n.value))

abbrev pub raw_data : Nodes → List (Text × Text)
raw_data [] = []
raw_data ((a, n) ∷ xs) = raw_field n ∷ raw_data xs

-- The size of a node is not negative, and `size * 2 + 1` is an `int`.
abbrev pub IsSized : Item → Type 0
IsSized n = (is_neg n.size ≡ false) × (pos_part n.size < 2 ^ 30)

-- All nodes are of input registers, with such a size, and with names that fit in the table of 32 bytes.
abbrev pub AllNamed : Nodes → Type 0
AllNamed [] = Unit
AllNamed ((a, n) ∷ xs) =
    ((n.kind ≡ input_reg) × (length n.module_name < 26) × IsSized n) × AllNamed xs

collect_step :
    (f : ℕ) (p a : Ptr) (n : Item) (s : Scan) (rest : List (Text × Text))
    → p ≡ a
    → a ≢ null
    → s.nodes a ≡ some n
    → n.kind ≡ input_reg
    → length n.module_name < 26
    → IsSized n
    → collect f n.next s ≡ ok rest s
    → collect (suc f) p s ≡ ok (raw_field n ∷ rest) s
unfolding collect
collect_step f p a n s rest e nn at k l z r = ground arith

collect-raw_data :
    (f : ℕ) (p : Ptr) (s : Scan) (xs : Nodes)
    → Listed s.nodes p xs
    → AllNamed xs
    → length xs < f
    → collect f p s ≡ ok (raw_data xs) s
unfolding collect
collect-raw_data zero p s xs l a h = absurd (omega arith)
collect-raw_data (suc f) p s [] l a h = rw l
collect-raw_data (suc f) p s ((b, n) ∷ xs) l a h =
    collect_step f p b n s (raw_data xs) l.0 l.1 l.3 a.0.0 a.0.1 a.0.2
      (collect-raw_data f n.next s xs l.4 a.1 (omega arith))

-- mds_merge_result over a list of nodes of input registers, whose names have fewer than 26 bytes, so that
-- they fit in the table of 32, and whose sizes are not negative and below 2^30, ends with 0 and changes no
-- node. Only a `*result` that was
-- not NULL is given the text of the document, which has a field for each node in order; a NULL one
-- stays NULL, although 0 is returned.
pub merge_result_lem :
    (print : List (Text × Text) → ℤ → Text) (now : ℤ) (old : Text) (s : Scan) (xs : Nodes)
    → Listed s.nodes s.head xs
    → AllNamed xs
    → length xs < s.fresh
    → (merge_result print now (some old) s ≡ ok (pos 0, some (print (raw_data xs) now)) s)
      × (merge_result print now none s ≡ ok (pos 0, none) s)
unfolding merge_result
merge_result_lem print now old s xs l a h =
    let e = collect-raw_data s.fresh s.head s xs l a h in (rw e, rw e)
