-- ===== src/Scan/Config.antt =====
-- Which nodes a configuration leaves reachable.
use modbus_things.Base.{
  ℕ, suc, ◌+◌, ◌-◌, ◌<◌, ◌≤◌, ◌≡◌, refl, ◌≢◌, some, List, [], ◌∷◌, arith, length, ◌∙◌, ok,
}
use modbus_things.Base.Int.{pos}
use modbus_things.Queue.{Ptr, null}
use modbus_things.Scan.{Item, Scan, Cjson, write, entry, parse_input_reg_config}

module _ (garbage : ℕ → List ℕ) {J : Type 0} (json : Cjson J) where
  -- The entries are well formed and stand for these nodes.
  abbrev pub Entries : List J → List Item → Type 0
  Entries [] [] = Unit
  Entries (j ∷ js) (n ∷ ns) = (entry garbage json j ≡ some n) × Entries js ns
  Entries _ _ = ⊥

  entry-next : (j : J) (n : Item) → entry garbage json j ≡ some n → n.next ≡ null
  entry-next j n e = ground arith

  abbrev pub last_item : Item → List Item → Item
  last_item n [] = n
  last_item n (m ∷ ms) = last_item m ms

  last_item-next :
      (js : List J) (ns : List Item) (m : Item)
      → m.next ≡ null
      → Entries js ns
      → (last_item m ns).next ≡ null
  last_item-next [] [] m e es = e
  last_item-next [] (n ∷ ns) m e es = absurd es
  last_item-next (j ∷ js) [] m e es = absurd es
  last_item-next (j ∷ js) (n ∷ ns) m e es = last_item-next js ns n (entry-next j n es.0) es.1

  -- The head, at `p`, is `h`, and leads to one more node, which is `m`.
  pub record Pair (s : Scan) (p : Ptr) (h : Item) (x : Ptr) (m : Item) : Type 0 where
    pub head : s.head ≡ p
    pub ne_null : p ≢ null
    pub first : s.nodes p ≡ some (record h { next = x })
    pub apart : x ≢ p
    pub x_ne_null : x ≢ null
    pub second : s.nodes x ≡ some m
    pub below : p < s.fresh
    pub x_below : x < s.fresh

  -- the state after one more node is filled in and put behind the head
  abbrev pub added : Scan → Ptr → Item → Item → Scan
  added s p h n = record s {
    nodes = write (write s.nodes s.fresh n) p (record h { next = s.fresh });
    fresh = suc s.fresh;
    left = s.left - 1;
  }

  pub step_more :
      (s : Scan) (p x : Ptr) (h n : Item) (j : J) (js : List J)
      → entry garbage json j ≡ some n
      → 0 < s.left
      → s.head ≡ p
      → p ≢ null
      → p < s.fresh
      → s.nodes p ≡ some (record h { next = x })
      → parse_input_reg_config garbage json (j ∷ js) s
        ≡ parse_input_reg_config garbage json js (added s p h n)
  unfolding parse_input_reg_config
  step_more s p x h n j js e l hd nn b at = ground arith

  pub step_first :
      (s : Scan) (n : Item) (j : J) (js : List J)
      → entry garbage json j ≡ some n
      → 0 < s.left
      → s.head ≡ null
      → parse_input_reg_config garbage json (j ∷ js) s
        ≡ parse_input_reg_config garbage json js (record s {
          nodes = write s.nodes s.fresh n;
          head = s.fresh;
          fresh = suc s.fresh;
          left = s.left - 1;
        })
  unfolding parse_input_reg_config
  step_first s n j js e l hd = ground arith

  added-Pair :
      (s : Scan) (p x : Ptr) (h n : Item)
      → s.head ≡ p
      → p ≢ null
      → p < s.fresh
      → Pair (added s p h n) p h s.fresh n
  added-Pair s p x h n hd nn b = record {
    head = hd;
    ne_null = nn;
    first = ground arith;
    apart = omega arith;
    x_ne_null = omega arith;
    second = ground arith;
    below = omega arith;
    x_below = omega arith;
  }

  pub parse_more :
      (s : Scan) (p x : Ptr) (h m : Item) (js : List J) (ns : List Item)
      → Pair s p h x m
      → Entries js ns
      → length ns ≤ s.left
      → (s' : Scan) × (q : Ptr) × (parse_input_reg_config garbage json js s ≡ ok (pos 0) s')
        × Pair s' p h q (last_item m ns)
        × (s'.left + length ns ≡ s.left)
  unfolding parse_input_reg_config
  parse_more s p x h m [] [] pr es l = (s, x, refl, pr, omega arith)
  parse_more s p x h m [] (n ∷ ns) pr es l = absurd es
  parse_more s p x h m (j ∷ js) [] pr es l = absurd es
  parse_more s p x h m (j ∷ js) (n ∷ ns) pr es l =
      let (s', q, e, r, k) =
        parse_more (added s p h n) p s.fresh h n js ns
          (added-Pair s p x h n pr.head pr.ne_null pr.below) es.1 (omega arith) in
      (
        s',
        q,
        step_more s p x h n j js es.0 (omega arith) pr.head pr.ne_null pr.below pr.first ∙ e,
        r,
        omega (arith, k, l),
      )

  -- parse_input_reg_config on an empty scan, with two or more well-formed entries and memory for
  -- them, returns 0 and leaves two nodes on the list: the first and the last. The nodes between
  -- them are lost, since each new node is put behind the head; but each of them has been allocated.
  pub parse_keeps_two :
      (s : Scan) (j k : J) (js : List J) (n m : Item) (ns : List Item)
      → s.head ≡ null
      → s.fresh ≢ null
      → Entries (j ∷ k ∷ js) (n ∷ m ∷ ns)
      → suc (suc (length ns)) ≤ s.left
      → (s' : Scan) × (q : Ptr) × (parse_input_reg_config garbage json (j ∷ k ∷ js) s
          ≡ ok (pos 0) s')
        × Pair s' s.fresh n q (last_item m ns)
        × ((last_item m ns).next ≡ null)
        × (s'.left + suc (suc (length ns)) ≡ s.left)
  parse_keeps_two s j k js n m ns hd f es l =
      let s1 : Scan = record s {
        nodes = write s.nodes s.fresh n;
        head = s.fresh;
        fresh = suc s.fresh;
        left = s.left - 1;
      } in
      let n0 : n.next ≡ null = entry-next j n es.0 in
      let at : s1.nodes s.fresh ≡ some (record n { next = null }) = ground arith in
      let (s', q, e, r, c) =
        parse_more (added s1 s.fresh n m) s.fresh (suc s.fresh) n m js ns
          (added-Pair s1 s.fresh null n m refl f (omega arith)) es.1.1 (omega arith) in
      (
        s',
        q,
        step_first s n j (k ∷ js) es.0 (omega arith) hd
            ∙ step_more s1 s.fresh null n m k js es.1.0 (omega arith) refl f (omega arith) at
            ∙ e,
        r,
        last_item-next js ns m (entry-next k m es.1.0) es.1.1,
        omega (arith, c, l),
      )
