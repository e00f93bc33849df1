-- ===== src/Master/Unconnected.antt =====
-- Scans over the port of src/port/src/libmodbus where its connection has failed.
use modbus_things.Base.{
  ℕ, zero, suc, ◌<◌, ◌≡◌, refl, ◌∙◌, ap, true, false, none, List, [], ◌∷◌, arith, length, Cmd, ok,
  pure, ◌>>=◌,
}
use modbus_things.Base.Int.{ℤ, neg, is_neg}
use modbus_things.Scan.{Item, Scan, Read, input_reg, fail, half_int, scan, scan_item}
use modbus_things.Scan.Rounds.{Nodes, Listed, scanned, any_success, scan-scanned}
use modbus_things.Master.{Libmodbus, context, master_init, master_read_input_regs}

-- The nodes are of input registers.
abbrev pub AllInput : Nodes → Type 0
AllInput [] = Unit
AllInput ((a, n) ∷ xs) = (n.kind ≡ input_reg) × AllInput xs

-- A master that reads nothing.
abbrev pub Silent : Read → Type 0
Silent read = (addr nb : ℤ) → is_neg (read addr nb).0 ≡ true

-- the scans one after the other, with their codes
unfoldable pub scans : Read → ℕ → Cmd Scan (List ℤ)
scans read zero = pure []
scans read (suc n) = do rc ← scan read; rcs ← scans read n; pure (rc ∷ rcs)

-- `n` codes of a scan that failed
unfoldable pub failures : ℕ → List ℤ
failures zero = []
failures (suc n) = neg 1 ∷ failures n

module _ (read : Read) (silent : Silent read) where
  item_fails : (n : Item) → n.kind ≡ input_reg → (scan_item read n).stat ≡ fail
  item_fails n k = rw (k, scan_item) (rw (silent n.dev_addr (half_int n.size)) refl)

  item_kind : (n : Item) → n.kind ≡ input_reg → (scan_item read n).kind ≡ input_reg
  item_kind n k = ground (arith, k)

  no_success : (xs : Nodes) → AllInput xs → any_success read xs ≡ false
  no_success [] h = refl
  no_success ((a, n) ∷ xs) h = rw (item_fails n h.0) (no_success xs h.1)

  scanned-AllInput : (xs : Nodes) → AllInput xs → AllInput (scanned read xs)
  scanned-AllInput [] h = tt
  scanned-AllInput ((a, n) ∷ xs) h = (item_kind n h.0, scanned-AllInput xs h.1)

  length-scanned : (xs : Nodes) → length (scanned read xs) ≡ length xs
  length-scanned [] = refl
  length-scanned (x ∷ xs) = ap (λ k. suc k) (length-scanned xs)

  all_scans_fail :
      (n : ℕ) (s : Scan) (xs : Nodes)
      → Listed s.nodes s.head xs
      → length xs < s.fresh
      → AllInput xs
      → (s' : Scan) × (ys : Nodes) × (scans read n s ≡ ok (failures n) s')
        × Listed s'.nodes s'.head ys
        × (length ys ≡ length xs)
  unfolding scans failures
  all_scans_fail zero s xs l h a = (s, xs, refl, l, refl)
  all_scans_fail (suc n) s xs l h a =
      let (s1, e, l1, f) = scan-scanned read s xs l h in
      let (s2, ys, e2, l2, k) =
        all_scans_fail n s1 (scanned read xs) l1 (omega (arith, length-scanned xs, f))
          (scanned-AllInput xs a) in
      (s2, ys, rw (e, no_success xs a, e2) refl, l2, k ∙ length-scanned xs)

-- Where the connection of MBT_masterInit fails, and libmodbus fails a read of a NULL context, as it
-- documents, any number of calls of mds_scan over the list of nodes for input registers end with -1:
-- no later call connects again. No node is added or lost.
pub unconnected_scans_fail :
    {C : Type 0} (lib : Libmodbus C) (n : ℕ) (s : Scan) (xs : Nodes)
    → (lib.connect (context lib)).0 ≡ neg 1
    → Silent (lib.read_input_registers none)
    → Listed s.nodes s.head xs
    → length xs < s.fresh
    → AllInput xs
    → (s' : Scan) × (ys : Nodes) × (scans (master_read_input_regs lib (master_init lib)) n s
        ≡ ok (failures n) s')
      × Listed s'.nodes s'.head ys
      × (length ys ≡ length xs)
unconnected_scans_fail lib n s xs e q l h a =
    let c : master_init lib ≡ none = unfold master_init in rw e refl in
    rw c (all_scans_fail (lib.read_input_registers none) q n s xs l h a)
