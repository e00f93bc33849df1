-- ===== src/Scan/Reads.antt =====
-- mds_scan of src/core/src/MBT_scan.c against a description of what a read does to a node.
use modbus_things.Base.{
  ◌<◌, ◌≡◌, ◌≢◌, refl, ap, ◌∙◌, Bool, true, false, ◌||◌, not, [], ◌∷◌, arith, length, ok,
  if◌then◌else◌,
}
use modbus_things.Base.Int.{ℤ, pos, neg, is_neg}
use modbus_things.Scan.{
  Item, Scan, Read, input_reg, success, fail, half_int, scan_item, is_success, scan,
}
use modbus_things.Scan.Rounds.{Nodes, Listed, scanned, any_success, scan-scanned}

module _ (read : Read) where
  -- the answer to the read of a node
  abbrev pub answer_code : Item → ℤ
  answer_code n = (read n.dev_addr (half_int n.size)).0

  -- What a scan makes of one node: only input registers are read, a negative code of the read is a
  -- failure, which keeps the registers of the read before, and any other code brings new ones.
  pub record IsScanned (n n' : Item) : Type 0 where
    pub other : n.kind ≢ input_reg → n' ≡ n
    pub failed : n.kind ≡ input_reg → is_neg (answer_code n) ≡ true → n' ≡ record n { stat = fail }
    pub done :
        n.kind ≡ input_reg
        → is_neg (answer_code n) ≡ false
        → n' ≡ record n { stat = success; value = (read n.dev_addr (half_int n.size)).1 }

  -- Each node of the list has been scanned, and stands where it stood.
  abbrev pub AreScanned : Nodes → Nodes → Type 0
  AreScanned [] [] = Unit
  AreScanned ((a, n) ∷ xs) ((b, m) ∷ ys) = (a ≡ b) × IsScanned n m × AreScanned xs ys
  AreScanned _ _ = ⊥

  -- The read of some node of input registers went well, or a node of another type has not failed.
  abbrev pub is_good : Item → Bool
  is_good n = elim n.kind [
    | input_reg ↦ not (is_neg (answer_code n))
    | _ ↦ elim n.stat [ success ↦ true | fail ↦ false ]
  ]

  abbrev pub any_good : Nodes → Bool
  any_good [] = false
  any_good ((a, n) ∷ xs) = is_good n || any_good xs

  scan_item-IsScanned : (n : Item) → IsScanned n (scan_item read n)
  scan_item-IsScanned n = record {
    other = λ k. ground arith;
    failed = λ k r. ground (arith, k, r);
    done = λ k r. ground (arith, k, r);
  }

  scanned-AreScanned : (xs : Nodes) → AreScanned xs (scanned read xs)
  scanned-AreScanned [] = tt
  scanned-AreScanned ((a, n) ∷ xs) = (refl, scan_item-IsScanned n, scanned-AreScanned xs)

  is_success-is_good : (n : Item) → is_success (scan_item read n).stat ≡ is_good n
  is_success-is_good n = ground arith

  any_success-any_good : (xs : Nodes) → any_success read xs ≡ any_good xs
  any_success-any_good [] = refl
  any_success-any_good ((a, n) ∷ xs) =
      rw (is_success-is_good n) (ap (λ r. is_good n || r) (any_success-any_good xs))

  -- mds_scan on a list of nodes, fewer than the addresses given out, ends, and the list has the same
  -- nodes in the same order. A node of input registers whose read gives a negative code is marked as
  -- failed and keeps its registers, one whose read gives another code is marked as read and has the new
  -- registers, and the other nodes are as before. The code is 0 if a node of input registers has been
  -- read or there is a node of another type that is not marked as failed, and otherwise -1. No node is
  -- allocated.
  pub scan_reads :
      (s : Scan) (xs : Nodes)
      → Listed s.nodes s.head xs
      → length xs < s.fresh
      → (s' : Scan) × (ys : Nodes) × (scan read s ≡ ok (if any_good xs then pos 0 else neg 1) s')
        × Listed s'.nodes s'.head ys
        × AreScanned xs ys
        × (s'.fresh ≡ s.fresh)
  scan_reads s xs l h =
      let (s', e, t, fr) = scan-scanned read s xs l h in
      (
        s',
        scanned read xs,
        e ∙ ap (λ b. ok (if b then pos 0 else neg 1) s') (any_success-any_good xs),
        t,
        scanned-AreScanned xs,
        fr,
      )
