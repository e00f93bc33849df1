-- ===== src/EasyFlash/Keys.antt =====
-- The names of the keys in src/port/src/easyflash/portDB.c: the table of names does not show.
use modbus_things.Base.{
  ℕ, ◌<◌, ◌≡◌, refl, ap, false, some, arith, leb, drop, Option-cases, inl, inr,
}
use modbus_things.Base.Int.{pos, pos_part}
use modbus_things.Base.Text.{Text}
use modbus_things.Base.Decimal.{print_int, print_int-injective}
use modbus_things.Attributes.{cached}
use modbus_things.Attributes.Key
use modbus_things.EasyFlash.{Flash, str_key, convert_str_key}

-- Every name in the table is the one of its key.
abbrev pub IsKeyed : {E : Type 0} → Flash E → Type 0
IsKeyed s = (k : ℕ) (t : Text) → s.key_map k ≡ some t → t ≡ str_key k

-- For a key in range and a table of right names, convert_str_key gives the name that it would print,
-- whether it is in the table or not; the names in the table stay right, and the environment is as
-- before.
pub convert_str_key_lem :
    {E : Type 0} (key : ℕ) (s : Flash E)
    → IsKeyed s
    → key < Key.key_num
    → (s' : Flash E) × (convert_str_key key s ≡ some (str_key key, s'))
      × IsKeyed s'
      × (s'.env ≡ s.env)
unfolding convert_str_key
convert_str_key_lem key s keyed h = elim (Option-cases (s.key_map key)) [
  | inr (t, e) ↦
      let inside : leb Key.key_num key ≡ false = ground arith in
      (s, rw (inside, e) (ap (λ r. some (r, s)) (keyed key t e)), keyed, refl)
  | inl e ↦
      let inside : leb Key.key_num key ≡ false = ground arith in
      (
        record s { key_map = cached s.key_map key (some (str_key key)) },
        rw (inside, e) refl,
        λ k t p. ground (arith, keyed k t),
        refl,
      )
]

-- Two keys have two names.
pub str_key-injective : (a b : ℕ) → str_key a ≡ str_key b → a ≡ b
unfolding str_key
str_key-injective a b e =
    ap pos_part (print_int-injective (pos a) (pos b) (unfold print_int in ap (drop 10) e))
