-- ===== src/SimpleDb/Port.antt =====
-- src/port/src/simpledb/portDB.c: the port's store over the table. The handle is a parameter, and a
-- text that is saved must stay where it is.
use modbus_things.Base.{
  ℕ, ◌<◌, ◌≡◌, refl, ap, ◌∙◌, true, Option, none, some, arith, ltb, length, set,
}
use modbus_things.Base.Int.{ℤ, pos, negsuc, neg}
use modbus_things.Base.Text.{Text}
use modbus_things.Base.Decimal.{print_int, atoi}
use modbus_things.SimpleDb.{Cell, null, dangling, at, SimpleDb, put, get}
use modbus_things.SimpleDb.Saving.{AllTexts, put_ends, length-set, get_elem?-set_self}

-- `service_db_load`
abbrev pub service_db_load : ℤ → SimpleDb → Option Cell
service_db_load = get

-- `service_db_save`
abbrev pub service_db_save : ℤ → Text → SimpleDb → Option (ℤ × SimpleDb)
service_db_save key value = put key (at value)

-- what `atoi` reads of a value, none where there is none; reading memory that is gone is undefined.
abbrev pub int_of : Cell → Option (Option ℤ)
int_of null = some none
int_of dangling = none
int_of (at t) = some (some (atoi t))

-- `service_db_load_int`; the inner `none` is the code -1.
unfoldable pub service_db_load_int : ℤ → SimpleDb → Option (Option ℤ)
service_db_load_int key s = elim (get key s) [ none ↦ none | some c ↦ int_of c ]

-- after the return of `service_db_save_int` the text that it printed on its stack is gone.
abbrev pub forget : ℤ → SimpleDb → SimpleDb
forget (pos k) s = record s { array = set s.array k dangling }
forget (negsuc k) s = s

-- `service_db_save_int`
unfoldable pub service_db_save_int : ℤ → ℤ → SimpleDb → Option (ℤ × SimpleDb)
service_db_save_int key value s = elim (put key (at (print_int value)) s) [
  | none ↦ none
  | some (rc, s') ↦ some (rc, forget key s')
]

-- service_db_save_int of a key in range, with texts for the other keys, returns -1, and the number
-- cannot be loaded: service_db_load_int of the key reads memory that is gone.
pub save_int_lost :
    (k : ℕ) (v : ℤ) (s : SimpleDb)
    → k < length s.array
    → AllTexts (set s.array k (at (print_int v)))
    → (s' : SimpleDb) × (service_db_save_int (pos k) v s ≡ some (neg 1, s'))
      × (service_db_load_int (pos k) s' ≡ none)
unfolding service_db_save_int service_db_load_int get
save_int_lost k v s h a =
    let (t, s', c, e, kept, file) = put_ends k (print_int v) s h a in
    let size : length s'.array ≡ length s.array =
      ap length kept ∙ length-set s.array k (at (print_int v)) in
    let inside : ltb k (length (set s'.array k dangling)) ≡ true =
      ground (arith, length-set s'.array k dangling, size, h) in
    let gone = get_elem?-set_self s'.array k dangling (omega (arith, size, h)) in
    (
      forget (pos k) s',
      rw (c, service_db_save_int) refl,
      rw (inside, gone, service_db_load_int) refl,
    )
