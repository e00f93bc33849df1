-- ===== src/Scan/Hex.antt =====
-- bin2hexString of src/core/src/MBT_scan.c.
use modbus_things.Base.{
  ℕ, ◌+◌, ◌-◌, ◌*◌, ◌/◌, ◌%◌, ◌<◌, ◌^◌, ◌≡◌, refl, List, [], ◌∷◌, ◌++◌, arith, ltb, leb,
  if◌then◌else◌, length, ap,
}
use modbus_things.Base.Text.{Text}

-- a lower-case hexadecimal digit
unfoldable pub hex_digit : ℕ → ℕ
hex_digit d = if ltb d 10 then b'0' + d else b'a' + (d - 10)

-- "%02x" of a byte
abbrev pub hex_byte : ℕ → Text
hex_byte b = hex_digit (b / 16) ∷ hex_digit (b % 16) ∷ []

-- `bin2hexString`: each register, high byte first
unfoldable pub bin2hex : List ℕ → Text
bin2hex [] = []
bin2hex (r ∷ rs) = hex_byte (r / 256) ++ (hex_byte (r % 256) ++ bin2hex rs)

-- What a reader of the text makes of it.
unfoldable pub hex_value : ℕ → ℕ
hex_value c = if leb b'a' c then c - b'a' + 10 else c - b'0'

unfoldable pub hex2bin : Text → List ℕ
hex2bin (a ∷ b ∷ c ∷ d ∷ s) =
    (((hex_value a * 16 + hex_value b) * 16 + hex_value c) * 16 + hex_value d) ∷ hex2bin s
hex2bin _ = []

abbrev pub AllWords : List ℕ → Type 0
AllWords [] = Unit
AllWords (r ∷ rs) = (r < 2 ^ 16) × AllWords rs

hex_value-hex_digit : (d : ℕ) → d < 16 → hex_value (hex_digit d) ≡ d
unfolding hex_value hex_digit
hex_value-hex_digit d h = ground arith

-- Four characters for each register.
pub length-bin2hex : (rs : List ℕ) → length (bin2hex rs) ≡ 4 * length rs
unfolding bin2hex
length-bin2hex [] = refl
length-bin2hex (r ∷ rs) = omega (arith, length-bin2hex rs)

-- Reading the text back gives the registers, so that no two scans have one text.
pub hex2bin-bin2hex : (rs : List ℕ) → AllWords rs → hex2bin (bin2hex rs) ≡ rs
unfolding bin2hex hex2bin
hex2bin-bin2hex [] a = refl
hex2bin-bin2hex (r ∷ rs) a =
    rw
      (
        hex_value-hex_digit (r / 256 / 16) (omega arith),
        hex_value-hex_digit (r / 256 % 16) (omega arith),
        hex_value-hex_digit (r % 256 / 16) (omega arith),
        hex_value-hex_digit (r % 256 % 16) (omega arith),
        hex2bin-bin2hex rs a.1,
      )
      (ap (λ x. x ∷ rs) (omega arith))
