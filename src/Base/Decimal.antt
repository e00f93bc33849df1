-- ===== src/Base/Decimal.antt =====
-- `%d` of `printf`, and `atoi`.
use Prim.Native.Nat.{ℕ, zero, suc, ◌+◌, ◌-◌, ◌*◌, ◌/◌, ◌%◌, ◌^◌, ◌≤◌, ◌<◌}
use mathlib.Core.Path.{◌≡◌, refl, sym, ap, ◌∙◌}
use mathlib.Core.Bool.{Bool, true, ◌&&◌, ◌||◌}
use mathlib.Core.List.{[], ◌∷◌, ◌++◌}
use mathlib.Core.Logic.{inl, inr}
use native.Mathlib.Omega.{arith}
use native.Mathlib.Nat.{pow-suc}
use modbus_things.Base.Tests.{ltb, leb, ◌==◌, if◌then◌else◌, Bool-cases}
use modbus_things.Base.Lists.{length, length-append}
use modbus_things.Base.Int.{ℤ, pos, negsuc, neg}
use modbus_things.Base.Text.{Text}

-- the decimal digits of a number, with fuel above it
unfoldable pub digits_from : ℕ → ℕ → Text
digits_from zero n = []
digits_from (suc f) n =
    let rest = digits_from f (n / 10) ++ ((48 + n % 10) ∷ []) in
    if ltb n 10 then (48 + n) ∷ [] else rest

unfoldable pub digits : ℕ → Text
unfolding digits_from
digits n = digits_from (suc n) n

-- `sprintf("%d")`
unfoldable pub print_int : ℤ → Text
unfolding digits
print_int (pos n) = digits n
print_int (negsuc n) = b'-' ∷ digits (suc n)

abbrev pub is_digit : ℕ → Bool
is_digit c = leb 48 c && leb c 57

-- the digits at the front of a text, added to what was read before
unfoldable pub read_digits : ℕ → Text → ℕ
read_digits acc [] = acc
read_digits acc (c ∷ s) = if is_digit c then read_digits (acc * 10 + (c - 48)) s else acc

abbrev pub is_space : ℕ → Bool
is_space c = (c == 32) || (leb 9 c && leb c 13)

-- a sign, then digits
abbrev pub read_signed : Text → ℤ
read_signed [] = pos 0
read_signed (c ∷ s) =
    if c == b'-'
    then neg (read_digits 0 s)
    else (if c == b'+' then pos (read_digits 0 s) else pos (read_digits 0 (c ∷ s)))

-- `atoi` on a text whose number fits in an `int`
unfoldable pub atoi : Text → ℤ
unfolding read_digits
atoi [] = pos 0
atoi (c ∷ s) = let rest = atoi s in if is_space c then rest else read_signed (c ∷ s)

-- Every byte is a digit.
abbrev pub AllDigits : Text → Type 0
AllDigits [] = Unit
AllDigits (c ∷ s) = (is_digit c ≡ true) × AllDigits s

read_digits-append :
    (acc d : ℕ) (s : Text)
    → AllDigits s
    → d < 10
    → read_digits acc (s ++ ((48 + d) ∷ [])) ≡ read_digits acc s * 10 + d
unfolding read_digits
read_digits-append acc d [] a h = ground arith
read_digits-append acc d (c ∷ s) a h =
    ground (arith, read_digits-append (acc * 10 + (c - 48)) d s a.1 h)

AllDigits-snoc : (d : ℕ) (s : Text) → AllDigits s → d < 10 → AllDigits (s ++ ((48 + d) ∷ []))
AllDigits-snoc d [] a h = (ground arith, tt)
AllDigits-snoc d (c ∷ s) a h = (a.0, AllDigits-snoc d s a.1 h)

digits_from-AllDigits : (f n : ℕ) → AllDigits (digits_from f n)
unfolding digits_from
digits_from-AllDigits zero n = tt
digits_from-AllDigits (suc f) n = elim (Bool-cases (ltb n 10)) [
  | inl small ↦ rw small (ground arith, tt)
  | inr large ↦
      rw large (AllDigits-snoc (n % 10) _ (digits_from-AllDigits f (n / 10)) (omega arith))
]

pub digits-AllDigits : (n : ℕ) → AllDigits (digits n)
unfolding digits
digits-AllDigits n = digits_from-AllDigits (suc n) n

read-digits_from : (f n : ℕ) → n < f → read_digits 0 (digits_from f n) ≡ n
unfolding digits_from read_digits
read-digits_from zero n h = absurd (omega arith)
read-digits_from (suc f) n h = elim (Bool-cases (ltb n 10)) [
  | inl small ↦ rw small (ground arith)
  | inr large ↦
      rw
        (
          large,
          read_digits-append 0 (n % 10) (digits_from f (n / 10)) (digits_from-AllDigits f (n / 10))
              (omega arith),
          read-digits_from f (n / 10) (ground arith),
        )
        (omega arith)
]

-- Reading the printed digits gives the number back.
pub read_digits-digits : (n : ℕ) → read_digits 0 (digits n) ≡ n
unfolding digits
read_digits-digits n = read-digits_from (suc n) n (omega arith)

pub atoi_digits : (s : Text) → AllDigits s → atoi s ≡ pos (read_digits 0 s)
unfolding atoi
atoi_digits [] a = refl
atoi_digits (c ∷ s) a = ground arith

-- `atoi` reads what `%d` prints.
pub atoi-print_int : (z : ℤ) → atoi (print_int z) ≡ z
unfolding print_int atoi
atoi-print_int (pos n) =
    atoi_digits (digits n) (digits_from-AllDigits (suc n) n) ∙ ap pos (read_digits-digits n)
atoi-print_int (negsuc n) = ap neg (read_digits-digits (suc n))

-- Printing is one to one.
pub print_int-injective : (a b : ℤ) → print_int a ≡ print_int b → a ≡ b
print_int-injective a b e = sym (atoi-print_int a) ∙ ap atoi e ∙ atoi-print_int b

length-digits_from : (k f n : ℕ) → n < 10 ^ suc k → length (digits_from f n) ≤ suc k
unfolding digits_from
length-digits_from k zero n h = omega arith
length-digits_from zero (suc f) n h = elim (Bool-cases (ltb n 10)) [
  | inl small ↦ rw small (omega arith)
  | inr large ↦ absurd (ground arith)
]
length-digits_from (suc k) (suc f) n h = elim (Bool-cases (ltb n 10)) [
  | inl small ↦ rw small (omega arith)
  | inr large ↦ rw large (
      let q : n < 10 ^ suc k * 10 = (rw (pow-suc 10 (suc k)) at h) in
      omega (
        arith,
        length-append {0} (digits_from f (n / 10)) ((48 + n % 10) ∷ []),
        length-digits_from k f (n / 10) (omega arith),
      ))
]

-- An `int` prints to eleven characters at most.
pub length-print_int-pos : (n : ℕ) → n < 2 ^ 32 → length (print_int (pos n)) ≤ 10
unfolding print_int
length-print_int-pos n h = length-digits_from 9 (suc n) n (omega arith)

pub length-print_int-negsuc : (n : ℕ) → n < 2 ^ 31 → length (print_int (negsuc n)) ≤ 11
unfolding print_int
length-print_int-negsuc n h =
    omega (arith, length-digits_from 9 (suc (suc n)) (suc n) (omega arith))
