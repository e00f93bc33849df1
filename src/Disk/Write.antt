-- ===== src/Disk/Write.antt =====
-- m_write of src/os/Linux/src/MBT_osFs.c: what it has written when it returns, and that it returns.
use mathlib.Core.Option
use modbus_things.Base.{
  ℕ, zero, suc, ◌≤◌, ◌≡◌, refl, ap, ◌∙◌, ◌⊎◌, inl, inr, Bool, true, false, Option, none, some, List,
  [], ◌∷◌, ◌++◌, arith, length, take, drop, append-nil, append_assoc, length-drop, take-drop-append,
}
use modbus_things.Base.Int.{ℤ, pos, neg}
use modbus_things.Base.Text.{Text}
use modbus_things.Disk.{Written, interrupted, failed, took, write_loop, result, m_write}

-- How a loop over `left` ends: the bytes out, and what is left of them unless it ended well.
abbrev Ends : Text → Text → Bool × Text → Type 0
Ends out left (true, written) = written ≡ out ++ left
Ends out left (false, written) = (rest : Text) × (written ++ rest ≡ out ++ left)

move : (n : ℕ) (out left : Text) → (out ++ take n left) ++ drop n left ≡ out ++ left
move n out left =
    append_assoc out (take n left) (drop n left) ∙ ap (λ r. out ++ r) (take-drop-append n left)

write_loop-Ends :
    (w : List Written) (out left : Text) (r : Bool × Text)
    → write_loop w out left ≡ some r
    → Ends out left r
unfolding write_loop
write_loop-Ends w out [] (true, written) e = cc (append-nil out)
write_loop-Ends w out [] (false, written) e = cc
write_loop-Ends [] out (c ∷ left) (d, written) e = cc
write_loop-Ends (interrupted ∷ w) out (c ∷ left) r e = write_loop-Ends w out (c ∷ left) r e
write_loop-Ends (failed ∷ w) out (c ∷ left) (true, written) e = cc
write_loop-Ends (failed ∷ w) out (c ∷ left) (false, written) e = (c ∷ left, cc)
write_loop-Ends (took n ∷ w) out (c ∷ left) (true, written) e =
    write_loop-Ends w _ _ (true, written) e ∙ move n out (c ∷ left)
write_loop-Ends (took n ∷ w) out (c ∷ left) (false, written) e =
    let (rest, p) = write_loop-Ends w _ _ (false, written) e in (rest, p ∙ move n out (c ∷ left))

-- m_write, when it returns, gives the length and has written all of the buffer, or gives -1 and has
-- written a part of it from the front.
pub m_write_lem :
    (w : List Written) (buf written : Text) (rc : ℤ)
    → m_write w buf ≡ some (rc, written)
    → ((rc ≡ pos (length buf)) × (written ≡ buf))
      ⊎ ((rc ≡ neg 1) × ((rest : Text) × (written ++ rest ≡ buf)))
unfolding m_write
m_write_lem w buf written rc e = go (write_loop w [] buf) refl e
  where
    go :
        (o : Option (Bool × Text))
        → write_loop w [] buf ≡ o
        → Option.map (result buf) o ≡ some (rc, written)
        → ((rc ≡ pos (length buf)) × (written ≡ buf))
          ⊎ ((rc ≡ neg 1) × ((rest : Text) × (written ++ rest ≡ buf)))
    go none e f = cc
    go (some (true, out)) e f =
        let h : out ≡ buf = write_loop-Ends w [] buf (true, out) e in inl (cc, cc)
    go (some (false, out)) e f =
        let (rest, h) = write_loop-Ends w [] buf (false, out) e in
        let k : written ≡ out = cc in inr (cc, (rest, rw k h))

-- the answers that take at least one byte
abbrev pub rounds : List Written → ℕ
rounds [] = 0
rounds (interrupted ∷ w) = rounds w
rounds (failed ∷ w) = suc (rounds w)
rounds (took zero ∷ w) = rounds w
rounds (took (suc n) ∷ w) = suc (rounds w)

write_loop-ends :
    (w : List Written) (out left : Text)
    → length left ≤ rounds w
    → (r : Bool × Text) × (write_loop w out left ≡ some r)
unfolding write_loop
write_loop-ends [] out [] h = (_, refl)
write_loop-ends (x ∷ w) out [] h = (_, refl)
write_loop-ends [] out (c ∷ left) h = absurd (omega arith)
write_loop-ends (interrupted ∷ w) out (c ∷ left) h = write_loop-ends w out (c ∷ left) h
write_loop-ends (failed ∷ w) out (c ∷ left) h = (_, refl)
write_loop-ends (took zero ∷ w) out (c ∷ left) h = write_loop-ends w _ (c ∷ left) h
write_loop-ends (took (suc n) ∷ w) out (c ∷ left) h =
    write_loop-ends w _ (drop n left) (omega (arith, length-drop {0} n left))

-- m_write returns once `write` has failed or taken bytes as often as the buffer has bytes; calls
-- that are interrupted, or that take nothing, may come in any number between.
pub m_write_ends :
    (w : List Written) (buf : Text)
    → length buf ≤ rounds w
    → (r : ℤ × Text) × (m_write w buf ≡ some r)
unfolding m_write
m_write_ends w buf h = let (r, e) = write_loop-ends w [] buf h in (result buf r, rw e)
