-- ===== src/Scan/Rounds.antt =====
-- mds_scan over the nodes of a list: each is read once, and the code tells whether any read went
-- well.
use mathlib.Core.Bool.{or_assoc}
use modbus_things.Base.{
  ℕ, zero, suc, ◌<◌, ◌≡◌, refl, ◌≢◌, Bool, false, ◌||◌, Option, some, List, [], ◌∷◌, arith, ◌==◌,
  if◌then◌else◌, length, ok, ◌∙◌, ap, sym, subst,
}
use modbus_things.Base.Int.{pos, neg}
use modbus_things.Queue.{Ptr, null}
use modbus_things.Scan.{Item, Scan, Read, write, scan_item, is_success, scan_loop, scan}

abbrev pub Nodes : Type 0
Nodes = List (Ptr × Item)

abbrev pub has : Ptr → Nodes → Bool
has a [] = false
has a ((p, _) ∷ xs) = (a == p) || has a xs

-- From `p` the `next` pointers lead through the distinct nodes `xs` to NULL.
abbrev pub Listed : (Ptr → Option Item) → Ptr → Nodes → Type 0
Listed h p [] = p ≡ null
Listed h p ((a, n) ∷ xs) =
    (p ≡ a) × (a ≢ null) × (has a xs ≡ false) × (h a ≡ some n) × Listed h n.next xs

Listed-write :
    (h : Ptr → Option Item) (p a : Ptr) (n : Item) (xs : Nodes)
    → Listed h p xs
    → has a xs ≡ false
    → Listed (write h a n) p xs
Listed-write h p a n [] l e = l
Listed-write h p a n ((b, m) ∷ xs) l e =
    (l.0, l.1, l.2, ground arith, Listed-write h m.next a n xs l.4 (ground arith))

module _ (read : Read) where
  abbrev pub scanned : Nodes → Nodes
  scanned [] = []
  scanned ((a, n) ∷ xs) = (a, scan_item read n) ∷ scanned xs

  -- Some node's last read is not a failure.
  abbrev pub any_success : Nodes → Bool
  any_success [] = false
  any_success ((a, n) ∷ xs) = is_success (scan_item read n).stat || any_success xs

  has-scanned : (a : Ptr) (xs : Nodes) → has a (scanned xs) ≡ has a xs
  has-scanned a [] = refl
  has-scanned a ((b, n) ∷ xs) = ap (λ r. (a == b) || r) (has-scanned a xs)

  next-scan_item : (n : Item) → (scan_item read n).next ≡ n.next
  next-scan_item n = ground arith

  scan_step :
      (f : ℕ) (p a : Ptr) (n : Item) (any : Bool) (s : Scan)
      → p ≡ a
      → a ≢ null
      → s.nodes a ≡ some n
      → scan_loop read (suc f) p any s
        ≡ scan_loop read f n.next
            (any || is_success (scan_item read n).stat)
            (record s { nodes = write s.nodes a (scan_item read n) })
  unfolding scan_loop
  scan_step f p a n any s e nn at = ground arith

  scan_loop-scanned :
      (f : ℕ) (p : Ptr) (any : Bool) (s : Scan) (xs : Nodes)
      → Listed s.nodes p xs
      → length xs < f
      → (s' : Scan) × (scan_loop read f p any s ≡ ok (any || any_success xs) s')
        × Listed s'.nodes p (scanned xs)
        × ((a : Ptr) → has a xs ≡ false → s'.nodes a ≡ s.nodes a)
        × (s'.head ≡ s.head)
        × (s'.fresh ≡ s.fresh)
  unfolding scan_loop
  scan_loop-scanned zero p any s xs l h = absurd (omega arith)
  scan_loop-scanned (suc f) p any s [] l h = (s, ground arith, l, λ a e. refl, refl, refl)
  scan_loop-scanned (suc f) p any s ((a, n) ∷ xs) l h =
      let (s', e, t, kept, hd, fr) =
        scan_loop-scanned f n.next (any || is_success (scan_item read n).stat)
          (record s { nodes = write s.nodes a (scan_item read n) }) xs
          (Listed-write s.nodes n.next a (scan_item read n) xs l.4 l.2) (omega arith) in
      (
        s',
        scan_step f p a n any s l.0 l.1 l.3
            ∙ e
            ∙ ap (λ b. ok b s')
                (or_assoc any (is_success (scan_item read n).stat) (any_success xs)),
        (
          l.0,
          l.1,
          has-scanned a xs ∙ l.2,
          kept a l.2 ∙ ground arith,
          subst (λ r. Listed s'.nodes r (scanned xs)) (sym (next-scan_item n)) t,
        ),
        λ b out. ground (arith, kept b),
        hd,
        fr,
      )

  -- mds_scan on a list of nodes, one below `fresh` in number, ends. It replaces each node by what
  -- one read makes of it, keeps their order, and returns 0 if the last read of any node did not
  -- fail, and otherwise -1; with no node at all it returns -1. It allocates no node.
  pub scan-scanned :
      (s : Scan) (xs : Nodes)
      → Listed s.nodes s.head xs
      → length xs < s.fresh
      → (s' : Scan) × (scan read s ≡ ok (if any_success xs then pos 0 else neg 1) s')
        × Listed s'.nodes s'.head (scanned xs)
        × (s'.fresh ≡ s.fresh)
  unfolding scan
  scan-scanned s xs l h =
      let (s', e, t, kept, hd, fr) = scan_loop-scanned s.fresh s.head false s xs l h in
      (s', rw e, subst (λ r. Listed s'.nodes r (scanned xs)) (sym hd) t, fr)
