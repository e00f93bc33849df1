-- ===== src/SimpleDb/Loading.antt =====
-- parse_load and MBT_simpleDbInit of src/core/src/MBT_simpleDb.c.
use modbus_things.Base.{
  ℕ, zero, suc, ◌+◌, ◌≤◌, ◌<◌, ◌≡◌, ◌≢◌, refl, ap, ◌∙◌, inl, inr, true, false, none, some, List, [],
  ◌∷◌, arith, ltb, length, get_elem?, set, ◌==◌, if◌then◌else◌, Option-cases, Bool-cases,
}
use modbus_things.Base.Int.{pos}
use modbus_things.Base.Text.{Text}
use modbus_things.Disk.{Disk, update}
use modbus_things.Scan.{Cjson}
use modbus_things.SimpleDb.{
  Cell, null, SimpleDb, update_path, db_file_path, nulls, item_cell, parse_items, parse_load,
  loaded, simple_db_init, put,
}
use modbus_things.SimpleDb.Saving.{length-set, get_elem?-set_self, get_elem?-set_ne, put_lost}

module _ {J : Type 0} (json : Cjson J) where
  -- The items give these entries, each for its own index.
  abbrev pub Gives : ℕ → List J → List Cell → Type 0
  Gives index [] [] = Unit
  Gives index (item ∷ items) (c ∷ cs) =
      (item_cell json index item ≡ some c) × Gives (suc index) items cs
  Gives index _ _ = ⊥

  -- `a'` is `a` with `cs` behind the index `index`
  pub record Shifted (index : ℕ) (cs a a' : List Cell) : Type 0 where
    pub size : length a' ≡ length a
    pub before : (j : ℕ) → j ≤ index → get_elem? a' j ≡ get_elem? a j
    pub stored : (j : ℕ) → j < length cs → get_elem? a' (suc index + j) ≡ get_elem? cs j
    pub behind : (j : ℕ) → suc index + length cs ≤ j → get_elem? a' j ≡ get_elem? a j

  parse_items-Gives :
      (index : ℕ) (items : List J) (cs a : List Cell)
      → Gives index items cs
      → index + length items < length a
      → (a' : List Cell) × (parse_items json index items a ≡ some a') × Shifted index cs a a'
  unfolding parse_items
  parse_items-Gives index [] [] a g h = (
    a,
    refl,
    record {
      size = refl;
      before = λ j l. refl;
      stored = λ j l. absurd (omega arith);
      behind = λ j l. refl;
    },
  )
  parse_items-Gives index [] (c ∷ cs) a g h = absurd g
  parse_items-Gives index (item ∷ items) [] a g h = absurd g
  parse_items-Gives index (item ∷ items) (c ∷ cs) a (e, g) h =
      let a1 : List Cell = set a (suc index) c in
      let size1 : length a1 ≡ length a = length-set a (suc index) c in
      let (a', e', s) = parse_items-Gives (suc index) items cs a1 g (omega (arith, size1, h)) in
      let fits : ltb (suc index) (length a) ≡ true = ground arith in
      let go : ltb (length a1) (suc index) ≡ false = ground (arith, size1) in
      (
        a',
        rw (e, fits, go, e', parse_items) refl,
        record {
          size = s.size ∙ size1;
          before = λ j l.
              s.before j (omega (arith, l)) ∙ get_elem?-set_ne a (suc index) j c (omega (arith, l));
          stored = stored_at index c cs a a' (omega (arith, h)) s;
          behind = λ j l.
              s.behind j (omega (arith, l)) ∙ get_elem?-set_ne a (suc index) j c (omega (arith, l));
        },
      )
    where
      stored_at :
          (index : ℕ) (c : Cell) (cs a a' : List Cell)
          → suc index < length a
          → Shifted (suc index) cs (set a (suc index) c) a'
          → (j : ℕ) → j < length (c ∷ cs)
          → get_elem? a' (suc index + j) ≡ get_elem? (c ∷ cs) j
      stored_at index c cs a a' h s zero l =
          ap (get_elem? a') (omega arith)
          ∙ s.before (suc index) (omega arith)
          ∙ get_elem?-set_self a (suc index) c h
      stored_at index c cs a a' h s (suc j) l =
          ap (get_elem? a') (omega arith) ∙ s.stored j (omega (arith, l))

  -- Where the items are fewer than the entries of the table, parse_load ends with 0. The first entry
  -- stays NULL, and the text of each item, which is looked up under the item's index, is stored under
  -- the next key: a value that was saved under a key is loaded under another.
  pub parse_load_shifts :
      (buf : Text) (root : J) (cs a : List Cell)
      → json.parse buf ≡ some root
      → Gives 0 (json.items root) cs
      → length (json.items root) < length a
      → (a' : List Cell) × (parse_load json buf a ≡ some (pos 0, a')) × Shifted 0 cs a a'
  unfolding parse_load
  parse_load_shifts buf root cs a e g h =
      let (a', p, s) = parse_items-Gives 0 (json.items root) cs a g (omega (arith, h)) in
      (a', rw (e, p, parse_load) refl, s)

  parse_items-overflow :
      (index : ℕ) (items : List J) (a : List Cell)
      → 0 < length items
      → length a ≤ index + length items
      → parse_items json index items a ≡ none
  unfolding parse_items
  parse_items-overflow index [] a p h = absurd (omega arith)
  parse_items-overflow index (item ∷ items) a p h =
      elim (Option-cases (item_cell json index item)) [
        | inl e ↦ rw (e, parse_items) refl
        | inr (c, e) ↦ elim (Bool-cases (ltb (suc index) (length a))) [
          | inr full ↦ rw (e, full, parse_items) refl
          | inl fits ↦
              let size1 = length-set a (suc index) c in
              let go : ltb (length (set a (suc index) c)) (suc index) ≡ false =
                ground (arith, size1) in
              rw
                (
                  e,
                  fits,
                  go,
                  parse_items-overflow (suc index) items (set a (suc index) c)
                      (ground (arith, size1)) (omega (arith, size1, h)),
                  parse_items,
                )
                refl
        ]
      ]

  -- A file with as many items as the table has entries, which is what convert_save writes, makes
  -- parse_load undefined: it writes past the end of the array.
  pub parse_load_overflows :
      (buf : Text) (root : J) (a : List Cell)
      → json.parse buf ≡ some root
      → 0 < length (json.items root)
      → length a ≤ length (json.items root)
      → parse_load json buf a ≡ none
  unfolding parse_load
  parse_load_overflows buf root a e p h =
      rw (e, parse_items-overflow 0 (json.items root) a p (omega (arith, h)), parse_load) refl

  length-nulls : (n : ℕ) → length (nulls n) ≡ n
  unfolding nulls
  length-nulls zero = refl
  length-nulls (suc n) = ap suc (length-nulls n)

  get_elem?-nulls : (n j : ℕ) → j < n → get_elem? (nulls n) j ≡ some null
  unfolding nulls
  get_elem?-nulls zero j h = absurd (omega arith)
  get_elem?-nulls (suc n) zero h = refl
  get_elem?-nulls (suc n) (suc j) h = get_elem?-nulls n j (omega arith)

  loaded-empty :
      (buf : Text) (a : List Cell) (d : Disk)
      → json.parse buf ≡ none
      → loaded json a (some buf, d) ≡ some (pos 0, some (record { array = a; disk = d }))
  unfolding parse_load
  loaded-empty buf a d p = rw (p, parse_load, loaded) refl

  -- A device with no file of the table yet, where that file and the file of an update can be opened, there
  -- is memory, and cJSON parses no empty text, starts with 0 and no values, and then cannot save one: with
  -- two keys or more, MBT_simpleDbPut under any key in range is undefined.
  pub first_put_fault :
      (n k : ℕ) (v : Cell) (d : Disk)
      → 2 ≤ n
      → k < n
      → d.files db_file_path ≡ none
      → d.can_open db_file_path ≡ true
      → d.can_open update_path ≡ true
      → json.parse [] ≡ none
      → (s : SimpleDb) × (simple_db_init json
            (record { db = true; array = true; buffer = true })
            n
            d
          ≡ some (pos 0, some s))
        × (put (pos k) v s ≡ none)
  unfolding simple_db_init
  first_put_fault n k v d two h absent opens updates p =
      let j : ℕ = if k == 0 then 1 else 0 in
      let j_in : j < n = ground arith in
      let j_ne : j ≢ k = ground arith in
      let s : SimpleDb = record {
        array = nulls n;
        disk = record d { files = update d.files db_file_path (some []) };
      } in
      (
        s,
        rw (opens, absent) (loaded-empty [] (nulls n) s.disk p),
        put_lost k j v s (ground (arith, length-nulls n)) j_ne (inl (get_elem?-nulls n j j_in))
            updates,
      )
