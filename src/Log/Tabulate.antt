-- ===== src/Log/Tabulate.antt =====
-- Runs of bytes of a memory, as texts.
use modbus_things.Base.{
  ℕ, zero, suc, ◌+◌, ◌<◌, ◌≡◌, refl, [], ◌∷◌, ◌++◌, arith, length, ap, take, drop,
}
use mathlib.Core.Path.{ap₂}
use native.Mathlib.Nat.{add-zero}
use modbus_things.Base.Text.{Text}

-- the byte of a text at an index
abbrev pub byte : Text → ℕ → ℕ
byte [] i = 0
byte (c ∷ s) zero = c
byte (c ∷ s) (suc i) = byte s i

-- the `n` bytes from index `i` on
unfoldable pub tab : (ℕ → ℕ) → ℕ → ℕ → Text
tab f i zero = []
tab f i (suc n) = f i ∷ tab f (suc i) n

pub tab_eq :
    (f g : ℕ → ℕ) (i j n : ℕ) → ((k : ℕ) → k < n → f (i + k) ≡ g (j + k)) → tab f i n ≡ tab g j n
unfolding tab
tab_eq f g i j zero h = refl
tab_eq f g i j (suc n) h = ap₂ ◌∷◌ (cc (h 0 (omega arith), add-zero i, add-zero j)) (
    tab_eq f g (suc i) (suc j) n λ k l.
      let e : suc i + k ≡ i + suc k = omega arith in
      let d : suc j + k ≡ j + suc k = omega arith in rw (e, d) (h (suc k) (omega arith)))

pub tab-append : (f : ℕ → ℕ) (i n m : ℕ) → tab f i (n + m) ≡ tab f i n ++ tab f (i + n) m
unfolding tab
tab-append f i zero m = ap₂ (tab f) (omega arith) (omega arith)
tab-append f i (suc n) m =
    let e : suc n + m ≡ suc (n + m) = omega arith in
    let d : i + suc n ≡ suc i + n = omega arith in
    rw (e, d) (ap (λ r. f i ∷ r) (tab-append f (suc i) n m))

-- A text laid out in memory.
pub tab-byte :
    (f : ℕ → ℕ) (i : ℕ) (msg : Text)
    → ((k : ℕ) → k < length msg → f (i + k) ≡ byte msg k)
    → tab f i (length msg) ≡ msg
unfolding tab
tab-byte f i [] h = refl
tab-byte f i (c ∷ msg) h = ap₂ ◌∷◌ (cc (h 0 (omega arith), add-zero i)) (
    tab-byte f (suc i) msg
      λ k l. let e : suc i + k ≡ i + suc k = omega arith in rw e (h (suc k) (omega arith)))

pub byte-take : (n : ℕ) (msg : Text) (k : ℕ) → k < n → byte (take n msg) k ≡ byte msg k
byte-take zero msg k h = absurd (omega arith)
byte-take (suc n) [] k h = refl
byte-take (suc n) (c ∷ msg) zero h = refl
byte-take (suc n) (c ∷ msg) (suc k) h = byte-take n msg k (omega arith)

pub byte-drop : (n : ℕ) (msg : Text) (k : ℕ) → byte (drop n msg) k ≡ byte msg (n + k)
byte-drop zero msg k = ap (byte msg) (omega arith)
byte-drop (suc n) [] k = refl
byte-drop (suc n) (c ∷ msg) k =
    let e : suc n + k ≡ suc (n + k) = omega arith in rw e (byte-drop n msg k)
