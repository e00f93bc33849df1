-- ===== src/Queue/Chain.antt =====
-- The nodes from `head` on, as a list of addresses and messages.
use modbus_things.Base.{
  ◌≡◌, refl, ◌≢◌, Bool, true, false, ◌||◌, Option, none, some, List, [], ◌∷◌, ◌++◌, arith, ◌==◌,
  length, ap, suc,
}
use modbus_things.Queue.{Ptr, null, Node, write}

abbrev pub Cells : Type 0 → Type 0
Cells M = Ptr → Option (Node M)

abbrev pub has : {M : Type 0} → Ptr → List (Ptr × M) → Bool
has a [] = false
has a ((p, _) ∷ xs) = (a == p) || has a xs

abbrev pub node : {M : Type 0} → M → Ptr → Node M
node m q = record { msg = m; next = q }

-- From `p` the `next` pointers lead through the distinct nodes `xs` to NULL.
abbrev pub Chain : {M : Type 0} → Cells M → Ptr → List (Ptr × M) → Type 0
Chain h p [] = p ≡ null
Chain h p ((a, m) ∷ xs) =
    (q : Ptr) × (p ≡ a) × (a ≢ null) × (has a xs ≡ false) × (h a ≡ some (node m q)) × Chain h q xs

-- the address of the last node, `d` if there is none
abbrev pub last : {M : Type 0} → Ptr → List (Ptr × M) → Ptr
last d [] = d
last d ((a, _) ∷ xs) = last a xs

unfoldable pub msgs : {M : Type 0} → List (Ptr × M) → List M
msgs [] = []
msgs ((a, m) ∷ xs) = m ∷ msgs xs

module _ {M : Type 0} where
  pub last-ne-null :
      (h : Cells M) (p d : Ptr) (xs : List (Ptr × M)) → Chain h p xs → d ≢ null → last d xs ≢ null
  last-ne-null h p d [] c n = n
  last-ne-null h p d ((a, m) ∷ xs) c n = last-ne-null h c.0 a xs c.5 c.2

  pub has-last : (xs : List (Ptr × M)) (d : Ptr) (m : M) → has (last d xs) ((d, m) ∷ xs) ≡ true
  has-last [] d m = ground arith
  has-last ((a, n) ∷ xs) d m = ground (arith, has-last xs a n)

  has-snoc :
      (a f : Ptr) (v : M) (xs : List (Ptr × M))
      → has a (xs ++ ((f, v) ∷ [])) ≡ (has a xs || (a == f))
  has-snoc a f v [] = ground arith
  has-snoc a f v ((b, n) ∷ xs) = ground (arith, has-snoc a f v xs)

  -- An address that holds no node is not on the chain.
  pub not_has :
      (h : Cells M) (f p : Ptr) (xs : List (Ptr × M)) → Chain h p xs → h f ≡ none → has f xs ≡ false
  not_has h f p [] c e = refl
  not_has h f p ((a, m) ∷ xs) c e = ground (arith, not_has h f c.0 xs c.5 e)

  -- The last node holds NULL.
  pub last-node :
      (h : Cells M) (p a : Ptr) (m : M) (xs : List (Ptr × M))
      → Chain h p ((a, m) ∷ xs)
      → (n : M) × (h (last a xs) ≡ some (node n null))
  last-node h p a m [] c = (m, ground arith)
  last-node h p a m ((b, n) ∷ xs) c = last-node h c.0 b n xs c.5

  -- A new node, linked behind the last one, extends the chain.
  pub Chain-snoc :
      (h : Cells M) (f : Ptr) (v n : M) (p a : Ptr) (m : M) (xs : List (Ptr × M))
      → Chain h p ((a, m) ∷ xs)
      → f ≢ null
      → has f ((a, m) ∷ xs) ≡ false
      → h (last a xs) ≡ some (node n null)
      → Chain
          (write (write h f (node v null)) (last a xs) (node n f))
          p
          (((a, m) ∷ xs) ++ ((f, v) ∷ []))
  Chain-snoc h f v n p a m [] c fn out e =
      (f, c.1, c.2, ground arith, ground arith, (null, refl, fn, refl, ground arith, refl))
  Chain-snoc h f v n p a m ((b, k) ∷ xs) c fn out e = (
    c.0,
    c.1,
    c.2,
    ground (arith, has-snoc a f v ((b, k) ∷ xs)),
    ground (arith, has-last xs b k),
    Chain-snoc h f v n c.0 b k xs c.5 fn (ground arith) e,
  )

  -- A new node is a chain of its own.
  pub Chain-one :
      (h : Cells M) (f : Ptr) (v : M) → f ≢ null → Chain (write h f (node v null)) f ((f, v) ∷ [])
  Chain-one h f v fn = (null, refl, fn, refl, ground arith, refl)

  pub last-snoc : (d f : Ptr) (v : M) (xs : List (Ptr × M)) → last d (xs ++ ((f, v) ∷ [])) ≡ f
  last-snoc d f v [] = refl
  last-snoc d f v ((a, m) ∷ xs) = last-snoc a f v xs

  pub msgs-snoc :
      (f : Ptr) (v : M) (xs : List (Ptr × M)) → msgs (xs ++ ((f, v) ∷ [])) ≡ msgs xs ++ (v ∷ [])
  unfolding msgs
  msgs-snoc f v [] = refl
  msgs-snoc f v ((a, m) ∷ xs) = ap (λ r. m ∷ r) (msgs-snoc f v xs)

  pub length-msgs : (xs : List (Ptr × M)) → length (msgs xs) ≡ length xs
  unfolding msgs
  length-msgs [] = refl
  length-msgs ((a, m) ∷ xs) = ap suc (length-msgs xs)
