-- ===== src/Scan/OutOfMemory.antt =====
-- mds_parse_scan of src/core/src/MBT_scan.c where memory for the nodes may run out.
use modbus_things.Base.{
  ℕ, suc, ◌+◌, ◌-◌, ◌<◌, ◌≡◌, refl, ap, ◌≢◌, ◌∙◌, ◌⊎◌, inl, inr, none, some, List, [], ◌∷◌, arith,
  leb, length, ok, if◌then◌else◌, true, false, ◌==◌, Bool-cases,
}
use modbus_things.Base.Int.{ℤ, pos, neg}
use modbus_things.Base.Text.{Text}
use modbus_things.Queue.{null}
use modbus_things.Scan.{Item, Scan, Cjson, entry, write, parse_input_reg_config, parse_scan}
use modbus_things.Scan.Config.{Entries, added, step_first, step_more}
use modbus_things.Scan.Reconfigure.{Document, parse_scan_lem}

-- The list is empty, or its head is a node.
pub record IsReady (s : Scan) : Type 0 where
  pub fresh : 0 < s.fresh
  pub head :
      (s.head ≡ null)
      ⊎ ((h : Item) × (s.nodes s.head ≡ some h) × (s.head ≢ null) × (s.head < s.fresh))

module _ (garbage : ℕ → List ℕ) {J : Type 0} (json : Cjson J) where
  -- what a parse of `n` entries returns
  abbrev pub code : ℕ → ℕ → ℤ
  code n left = if leb n left then pos 0 else neg 1

  code_zero : (left : ℕ) → pos 0 ≡ code 0 left
  code_zero left = ground arith

  code_none : (n left : ℕ) → (left == 0) ≡ true → neg 1 ≡ code (suc n) left
  code_none n left e = ground arith

  code_more : (n left l : ℕ) → (left == 0) ≡ false → l ≡ left - 1 → code n l ≡ code (suc n) left
  code_more n left l e h = ground arith

  -- A parse ends with the code for what memory there is.
  abbrev Parses : List J → Scan → ℕ → Type 0
  Parses js s n =
      (s' : Scan) × (parse_input_reg_config garbage json js s ≡ ok (code n s.left) s')
      × IsReady s'
      × (s'.fresh + s'.left ≡ s.fresh + s.left)

  -- one entry that is added
  added_one :
      (s : Scan) (n : Item) (j : J) (js : List J)
      → IsReady s
      → 0 < s.left
      → entry garbage json j ≡ some n
      → (s1 : Scan) × (parse_input_reg_config garbage json (j ∷ js) s
          ≡ parse_input_reg_config garbage json js s1)
        × IsReady s1
        × (s1.left ≡ s.left - 1)
        × (s1.fresh ≡ suc s.fresh)
  added_one s n j js r l e = elim (r.head) [
    | inl z ↦ (
      record s {
        nodes = write s.nodes s.fresh n;
        head = s.fresh;
        fresh = suc s.fresh;
        left = s.left - 1;
      },
      step_first garbage json s n j js e l z,
      record {
        fresh = omega arith;
        head = inr (n, ground arith, omega (arith, r.fresh), omega arith);
      },
      refl,
      refl,
    )
    | inr (h, at, nn, b) ↦ (
      added garbage json s s.head h n,
      step_more garbage json s s.head h.next h n j js e l refl nn b at,
      record {
        fresh = omega arith;
        head = inr (record h { next = s.fresh }, ground arith, nn, omega (arith, b));
      },
      refl,
      refl,
    )
  ]

  parse-Parses :
      (js : List J) (ns : List Item) (s : Scan)
      → IsReady s
      → Entries garbage json js ns
      → Parses js s (length ns)
  unfolding parse_input_reg_config
  parse-Parses [] [] s r es = (s, ap (λ c. ok c s) (code_zero s.left), r, refl)
  parse-Parses [] (n ∷ ns) s r es = absurd es
  parse-Parses (j ∷ js) [] s r es = absurd es
  parse-Parses (j ∷ js) (n ∷ ns) s r es = elim (Bool-cases (s.left == 0)) [
    | inl none_left ↦
        (s, rw none_left (ap (λ c. ok c s) (code_none (length ns) s.left none_left)), r, refl)
    | inr more ↦
        let some_left : 0 < s.left = ground (arith, more) in
        let (s1, e, r1, l, f) = added_one s n j js r some_left es.0 in
        let (s2, e2, r2, k) = parse-Parses js ns s1 r1 es.1 in
        (
          s2,
          e ∙ e2 ∙ ap (λ c. ok c s2) (code_more (length ns) s.left s1.left more l),
          r2,
          omega (arith, k, l, f, some_left),
        )
  ]

  -- Whatever list earlier configurations have left, and whatever memory for nodes there is, with the
  -- memory for the names and the registers there, a parse of well-formed
  -- entries for input registers is defined. parse_input_reg_config returns 0 if there are
  -- nodes for all of them and -1 if not; mds_parse_scan of the document returns 0 in both cases. What it leaves
  -- is such a list again, and it has taken as many nodes as it has allocated.
  pub out_of_memory :
      (text : Text) (js : List J) (ns : List Item) (s : Scan)
      → IsReady s
      → Document garbage json text js
      → Entries garbage json js ns
      → (s' : Scan) × (parse_input_reg_config garbage json js s ≡ ok (code (length ns) s.left) s')
        × (parse_scan garbage json none text s ≡ ok (pos 0) s')
        × IsReady s'
        × (s'.fresh + s'.left ≡ s.fresh + s.left)
  out_of_memory text js ns s r d es =
      let (s', e, r', k) = parse-Parses js ns s r es in
      (s', e, parse_scan_lem garbage json text js s s' (code (length ns) s.left) d e, r', k)
