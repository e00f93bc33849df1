-- ===== src/Base/Text.antt =====
-- C strings as lists of bytes, without the closing NUL.
use Prim.Native.Nat.{ℕ}
use Prim.Native.Char.{code}
use Prim.Native.String.{String}
use mathlib.Core.Path.{◌≡◌, refl}
use mathlib.Core.Bool.{Bool, true, false, ◌&&◌}
use mathlib.Core.List.{List, [], ◌∷◌, ◌++◌}
use native.Mathlib.Omega.{arith}
use modbus_things.Base.Tests.{◌==◌, if◌then◌else◌}
use mathlib.Core.Logic.{◌≢◌}

abbrev pub Text : Type 0
Text = List ℕ

abbrev pub codes : String → Text
codes String.[] = []
codes (String.◌∷◌ c s) = code c ∷ codes s

-- `strcmp(s, t) == 0`
unfoldable pub text_eq : Text → Text → Bool
text_eq [] [] = true
text_eq (a ∷ s) (b ∷ t) = (a == b) && text_eq s t
text_eq _ _ = false

pub text_eq_refl : (s : Text) → text_eq s s ≡ true
unfolding text_eq
text_eq_refl [] = refl
text_eq_refl (a ∷ s) = ground (arith, text_eq_refl s)

pub text_eq→eq : (s t : Text) → text_eq s t ≡ true → s ≡ t
unfolding text_eq
text_eq→eq [] [] h = refl
text_eq→eq [] (b ∷ t) h = cc
text_eq→eq (a ∷ s) [] h = cc
text_eq→eq (a ∷ s) (b ∷ t) h = ground (arith, text_eq→eq s t)

-- the last byte, `d` if there is none
unfoldable pub last_byte : ℕ → Text → ℕ
last_byte d [] = d
last_byte d (c ∷ s) = last_byte c s

pub last_byte-append : (d c : ℕ) (s t : Text) → last_byte d (s ++ (c ∷ t)) ≡ last_byte c t
unfolding last_byte
last_byte-append d c [] t = refl
last_byte-append d c (a ∷ s) t = last_byte-append a c s t

-- the text that a C string of these bytes stands for: those before the first NUL
unfoldable pub before_nul : Text → Text
before_nul [] = []
before_nul (c ∷ s) = let rest = before_nul s in if c == 0 then [] else c ∷ rest

-- No byte is a NUL.
abbrev pub NoNul : Text → Type 0
NoNul [] = Unit
NoNul (c ∷ s) = (c ≢ 0) × NoNul s

pub before_nul-append : (s r : Text) → NoNul s → before_nul (s ++ (0 ∷ r)) ≡ s
unfolding before_nul
before_nul-append [] r h = refl
before_nul-append (c ∷ s) r h = rw (before_nul-append s r h.1) (ground (arith, h.0))
