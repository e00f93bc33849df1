-- ===== src/Scan/Reconfigure.antt =====
-- mds_parse_scan of src/core/src/MBT_scan.c: a first and a second configuration.
use modbus_things.Base.{
  ℕ, Cmd, pure, ◌>>◌, ℕ, suc, ◌+◌, ◌≤◌, ◌≡◌, refl, ◌≢◌, none, some, List, [], ◌∷◌, arith, length,
  ◌∙◌, ok, and_then, Option-cases, inl, inr,
}
use modbus_things.Base.Int.{ℤ, pos}
use modbus_things.Base.Text.{Text, text_eq}
use modbus_things.Queue.{Ptr, null}
use modbus_things.Scan.{
  Item, Scan, Cjson, parse_input_reg_config, parse_type, mdcps, dispatch, data_type, mb_config,
  parse_scan, mb_type_coils, mb_type_discret_input, mb_type_input_reg, mb_type_hold_reg,
}
use modbus_things.Scan.Config.{Entries, Pair, last_item, parse_more, parse_keeps_two}

module _ (garbage : ℕ → List ℕ) {J : Type 0} (json : Cjson J) where
  -- A text that is a document with these entries for input registers.
  pub record Document (text : Text) (js : List J) : Type 0 where
    pub root : J
    pub config : J
    pub registers : J
    pub parsed : json.parse text ≡ some root
    pub found : mb_config garbage json root ≡ some config
    pub input : json.get_object_item config mb_type_input_reg ≡ some registers
    pub entries : json.items registers ≡ js

  -- The parsers of the other types change nothing.
  abbrev IsIdle : Text → Type 0
  IsIdle type =
      (dt : J) (s : Scan) → parse_type garbage json (mdcps garbage json) type dt s ≡ ok tt s

  coils-IsIdle : IsIdle mb_type_coils
  unfolding parse_type text_eq
  coils-IsIdle dt s = refl

  discret_input-IsIdle : IsIdle mb_type_discret_input
  unfolding parse_type text_eq
  discret_input-IsIdle dt s = refl

  hold_reg-IsIdle : IsIdle mb_type_hold_reg
  unfolding parse_type text_eq
  hold_reg-IsIdle dt s = refl

  input_reg_parsed :
      (dt : J) (s s' : Scan) (rc : ℤ)
      → parse_input_reg_config garbage json (json.items dt) s ≡ ok rc s'
      → parse_type garbage json (mdcps garbage json) mb_type_input_reg dt s ≡ ok tt s'
  unfolding parse_type text_eq
  input_reg_parsed dt s s' rc e = rw e refl

  idle_type :
      (type : Text) (types : List Text) (config : J) (s : Scan)
      → IsIdle type
      → dispatch garbage json (type ∷ types) config s ≡ dispatch garbage json types config s
  unfolding dispatch
  idle_type type types config s i = elim (Option-cases (json.get_object_item config type)) [
    | inl n ↦ rw n refl
    | inr (dt, e) ↦ rw (e, i dt s) refl
  ]

  input_type :
      (types : List Text) (config dt : J) (s s' : Scan) (rc : ℤ)
      → json.get_object_item config mb_type_input_reg ≡ some dt
      → parse_input_reg_config garbage json (json.items dt) s ≡ ok rc s'
      → dispatch garbage json (mb_type_input_reg ∷ types) config s
        ≡ dispatch garbage json types config s'
  unfolding dispatch
  input_type types config dt s s' rc g e = rw (g, input_reg_parsed dt s s' rc e) refl

  -- mds_parse_scan of a document is the parse of its entries for input registers, whatever it has of
  -- the other types.
  pub parse_scan_lem :
      (text : Text) (js : List J) (s s' : Scan) (rc : ℤ)
      → Document text js
      → parse_input_reg_config garbage json js s ≡ ok rc s'
      → parse_scan garbage json none text s ≡ ok (pos 0) s'
  unfolding parse_scan
  parse_scan_lem text js s s' rc d e =
      let p : dispatch garbage json data_type d.config s ≡ ok tt s' =
        idle_type mb_type_coils _ d.config s coils-IsIdle
        ∙ idle_type mb_type_discret_input _ d.config s discret_input-IsIdle
        ∙ input_type _ d.config d.registers s s' rc d.input (rw (d.entries) e)
        ∙ idle_type mb_type_hold_reg [] d.config s' hold_reg-IsIdle
        ∙ unfold dispatch in refl in
      rw (d.parsed, parse_scan) (rw (d.found, parse_scan) (rw (p, parse_scan) refl))

  -- a further document, with its entries and the nodes that they stand for
  pub record Further : Type 0 where
    pub text : Text
    pub values : List J
    pub items : List Item
    pub document : Document text values
    pub well_formed : Entries garbage json values items

  -- mds_parse_scan of the documents one after the other
  unfoldable pub parse_all : List Further → Cmd Scan (Unit {0})
  parse_all [] = pure tt
  parse_all (d ∷ ds) = do parse_scan garbage json none d.text; parse_all ds

  -- the number of their entries
  abbrev pub entries_of : List Further → ℕ
  entries_of [] = 0
  entries_of (d ∷ ds) = length d.items + entries_of ds

  -- the last entry of all, behind `m`
  abbrev pub latest : Item → List Further → Item
  latest m [] = m
  latest m (d ∷ ds) = latest (last_item garbage json m d.items) ds

  parse_all-Pair :
      (ds : List Further) (s : Scan) (p x : Ptr) (h m : Item)
      → Pair garbage json s p h x m
      → entries_of ds ≤ s.left
      → (s' : Scan) × (q : Ptr) × (parse_all ds s ≡ ok tt s')
        × Pair garbage json s' p h q (latest m ds)
  unfolding parse_all
  parse_all-Pair [] s p x h m r l = (s, x, refl, r)
  parse_all-Pair (d ∷ ds) s p x h m r l =
      let (s1, q1, e1, r1, c) =
        parse_more garbage json s p x h m d.values d.items r d.well_formed (omega arith) in
      let (s2, q2, e2, r2) =
        parse_all-Pair ds s1 p q1 h (last_item garbage json m d.items) r1 (omega (arith, c, l)) in
      (s2, q2, rw (parse_scan_lem d.text d.values s s1 (pos 0) d.document e1) e2, r2)

  -- From an empty scan, a first document with two or more well-formed entries and any number of further
  -- ones, with memory for all of their entries, are parsed. The head of the list is then still the
  -- first entry of the first document, and the only other node is the last entry of all: no new
  -- configuration replaces the old one.
  pub reconfigured :
      (t : Text) (s : Scan) (j1 j2 : J) (js : List J) (n1 n2 : Item) (ns : List Item)
      (ds : List Further)
      → Document t (j1 ∷ j2 ∷ js)
      → s.head ≡ null
      → s.fresh ≢ null
      → Entries garbage json (j1 ∷ j2 ∷ js) (n1 ∷ n2 ∷ ns)
      → suc (suc (length ns)) + entries_of ds ≤ s.left
      → (s' : Scan) × (q : Ptr) × (and_then (parse_scan garbage json none t s) (λ _. parse_all ds)
          ≡ ok tt s')
        × Pair garbage json s' s.fresh n1 q (latest (last_item garbage json n2 ns) ds)
  reconfigured t s j1 j2 js n1 n2 ns ds d hd f es l =
      let (s1, q1, e1, p1, _, c) =
        parse_keeps_two garbage json s j1 j2 js n1 n2 ns hd f es (omega arith) in
      let (s2, q2, e2, p2) =
        parse_all-Pair ds s1 s.fresh q1 n1 (last_item garbage json n2 ns) p1
          (omega (arith, c, l)) in
      (s2, q2, rw (parse_scan_lem t (j1 ∷ j2 ∷ js) s s1 (pos 0) d e1) e2, p2)
