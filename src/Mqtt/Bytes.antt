-- ===== src/Mqtt/Bytes.antt =====
-- A C buffer and `memcpy` into it. `none` is a buffer after a copy out of bounds.
use modbus_things.Base.{
  ℕ, ◌+◌, ◌≤◌, ◌≡◌, ◌&&◌, Option, none, some, List, ◌++◌, arith, leb, if◌then◌else◌, length, take,
  drop, length-append, length-take, length-drop,
}
use modbus_things.Base.Text.{Text}

abbrev pub Buffer : Type 0
Buffer = Option (List ℕ)

-- the bytes of `buf` with `n` bytes of `src` written from `off` on
unfoldable pub overlay : List ℕ → ℕ → Text → ℕ → List ℕ
overlay buf off src n = take off buf ++ (take n src ++ drop (off + n) buf)

-- `memcpy(buf + off, src, n)`, defined where both ranges are inside their objects
unfoldable pub memcpy : Buffer → ℕ → Text → ℕ → Buffer
memcpy none off src n = none
memcpy (some buf) off src n =
    if leb (off + n) (length buf) && leb n (length src) then some (overlay buf off src n) else none

-- A copy in bounds keeps the buffer's size.
pub length-overlay :
    (buf : List ℕ) (off : ℕ) (src : Text) (n : ℕ)
    → off + n ≤ length buf
    → n ≤ length src
    → length (overlay buf off src n) ≡ length buf
unfolding overlay
length-overlay buf off src n h k = omega (
  arith,
  length-append (take off buf) (take n src ++ drop (off + n) buf),
  length-append (take n src) (drop (off + n) buf),
  length-take off buf,
  length-take n src,
  length-drop (off + n) buf,
)

pub memcpy-ok :
    (buf : List ℕ) (off : ℕ) (src : Text) (n : ℕ)
    → off + n ≤ length buf
    → n ≤ length src
    → memcpy (some buf) off src n ≡ some (overlay buf off src n)
unfolding memcpy
memcpy-ok buf off src n h k = ground arith
