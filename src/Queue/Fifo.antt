-- ===== src/Queue/Fifo.antt =====
-- MBT_mqSend and MBT_mqRecv of a queue that holds messages, against a bounded FIFO.
use modbus_things.Base.{
  ℕ, ◌+◌, ◌≤◌, ◌<◌, ◌≡◌, refl, sym, subst, ◌≢◌, false, none, some, List, [], ◌∷◌, ◌++◌, arith, ltb,
  if◌then◌else◌, length, length-append, Run, ok, Bool-cases, inl, inr, ltb→lt,
}
use modbus_things.Base.Int.{ℤ, pos, neg}
use modbus_things.Queue.{Ptr, null, Queue, qerror_full, write, create, send}
use modbus_things.Queue.Chain.{
  node, Chain, last, msgs, last-ne-null, not_has, last-node, Chain-snoc, Chain-one, last-snoc,
  msgs-snoc, length-msgs,
}

-- The queue is well formed: its nodes are the distinct nodes `xs`, `tail` is the last, the count
-- is right and within the bound, and the lock is free.
pub record IsValid {M : Type 0} (q : Queue M) (xs : List (Ptr × M)) : Type 0 where
  pub chain : Chain q.cells q.head xs
  pub tail_last : q.tail ≡ last null xs
  pub count : q.item_num ≡ length xs
  pub bound : q.item_num ≤ q.item_max
  pub free : q.locked ≡ false

-- The abstract queue: at most `cap` messages, oldest first.
unfoldable pub enqueue : {M : Type 0} → ℕ → List M → M → ℤ × List M
enqueue cap l m = if ltb (length l) cap then (pos 0, l ++ (m ∷ [])) else (neg qerror_full, l)

-- A command returns `a` and leaves the messages `l` in a well-formed queue of the same bound.
abbrev pub Returns : {M A : Type 0} → Run (Queue M) A → ℕ → A → List M → Type 0
Returns {M} r cap a l =
    (q : Queue M) × (xs : List (Ptr × M)) × (r ≡ ok a q)
    × IsValid q xs
    × (msgs xs ≡ l)
    × (q.item_max ≡ cap)

pub create-IsValid : {M : Type 0} (n : ℕ) → IsValid {M = M} (create n) []
unfolding create
create-IsValid n = record {
  chain = refl;
  tail_last = refl;
  count = refl;
  bound = omega arith;
  free = refl;
}

module _ {M : Type 0} where
  -- A full queue refuses the message and is left as it was.
  pub send_full :
      (q : Queue M) (f : Ptr) (m : M)
      → q.locked ≡ false
      → q.item_max ≤ q.item_num
      → send f m q ≡ ok (neg qerror_full) (record q { locked = false })
  unfolding send
  send_full q f m e h = ground arith

  abbrev sent_empty : Queue M → Ptr → M → Queue M
  sent_empty q f m = record q {
    cells = write q.cells f (node m null);
    head = f;
    tail = f;
    locked = false;
    item_num = q.item_num + 1;
  }

  send-empty :
      (q : Queue M) (f : Ptr) (m : M)
      → IsValid q []
      → q.item_num < q.item_max
      → f ≢ null
      → send f m q ≡ ok (pos 0) (sent_empty q f m)
  unfolding send
  send-empty q f m v h fn = ground arith

  abbrev sent_more : Queue M → Ptr → M → M → Queue M
  sent_more q f m n = record q {
    cells = write (write q.cells f (node m null)) q.tail (node n f);
    tail = f;
    locked = false;
    item_num = q.item_num + 1;
  }

  send-more :
      (q : Queue M) (f : Ptr) (m n : M)
      → q.locked ≡ false
      → q.tail ≢ null
      → q.tail ≢ f
      → q.cells q.tail ≡ some (node n null)
      → q.item_num < q.item_max
      → f ≢ null
      → send f m q ≡ ok (pos 0) (sent_more q f m n)
  unfolding send
  send-more q f m n l tn tf e h fn = ground arith

  sent_empty-IsValid :
      (q : Queue M) (f : Ptr) (m : M)
      → IsValid q []
      → q.item_num < q.item_max
      → f ≢ null
      → IsValid (sent_empty q f m) ((f, m) ∷ [])
  sent_empty-IsValid q f m v h fn = record {
    chain = Chain-one q.cells f m fn;
    tail_last = refl;
    count = omega (arith, v.count);
    bound = omega arith;
    free = refl;
  }

  send-some :
      (q : Queue M) (f : Ptr) (m n : M) (a : Ptr) (k : M) (xs : List (Ptr × M))
      → IsValid q ((a, k) ∷ xs)
      → q.item_num < q.item_max
      → f ≢ null
      → q.cells f ≡ none
      → q.cells (last a xs) ≡ some (node n null)
      → Returns (send f m q) q.item_max (pos 0) (msgs ((a, k) ∷ xs) ++ (m ∷ []))
  send-some q f m n a k xs v h fn e t = (
    sent_more q f m n,
    ((a, k) ∷ xs) ++ ((f, m) ∷ []),
    send-more q f m n v.free (ground (arith, v.tail_last, last-ne-null q.cells _ a xs v.chain.5))
        (ground (arith, v.tail_last)) (ground (arith, v.tail_last)) h fn,
    record {
      chain =
          subst
            (λ t.
              Chain (write (write q.cells f (node m null)) t (node n f)) q.head
                (((a, k) ∷ xs) ++ ((f, m) ∷ [])))
            (sym v.tail_last)
            (Chain-snoc q.cells f m n q.head a k xs v.chain fn
              (not_has q.cells f q.head ((a, k) ∷ xs) v.chain e) t);
      tail_last = sym (last-snoc a f m xs);
      count = omega (arith, v.count, length-append {0} xs ((f, m) ∷ []));
      bound = omega arith;
      free = refl;
    },
    msgs-snoc f m ((a, k) ∷ xs),
    refl,
  )

  -- On a well-formed queue, with a new node from `m_malloc`, MBT_mqSend does what the FIFO of at
  -- most `item_max` messages does: it returns 0 and appends the message, or it returns
  -- -MBT_QERROR_FULL and changes nothing; and the queue is well formed again.
  pub send_refines :
      (q : Queue M) (xs : List (Ptr × M)) (f : Ptr) (m : M)
      → IsValid q xs
      → f ≢ null
      → q.cells f ≡ none
      → let (rc, l) = enqueue q.item_max (msgs xs) m in Returns (send f m q) q.item_max rc l
  unfolding enqueue
  send_refines q xs f m v fn e = elim (Bool-cases (ltb (length (msgs xs)) q.item_max)) [
    | inl h ↦ rw h (go xs v (ltb→lt _ _ h))
    | inr h ↦ rw h (
      record q { locked = false },
      xs,
      send_full q f m v.free (ground (arith, length-msgs xs, v.count)),
      record {
        chain = v.chain;
        tail_last = v.tail_last;
        count = v.count;
        bound = v.bound;
        free = refl;
      },
      refl,
      refl,
    )
  ]
    where
      go :
          (xs : List (Ptr × M))
          → IsValid q xs
          → length (msgs xs) < q.item_max
          → Returns (send f m q) q.item_max (pos 0) (msgs xs ++ (m ∷ []))
      go [] v h = (
        sent_empty q f m,
        (f, m) ∷ [],
        send-empty q f m v (omega (arith, v.count)) fn,
        sent_empty-IsValid q f m v (omega (arith, v.count)) fn,
        unfold msgs in refl,
        refl,
      )
      go ((a, k) ∷ xs) v h =
          let (n, t) = last-node q.cells q.head a k xs v.chain in
          send-some q f m n a k xs v (omega (arith, v.count, length-msgs ((a, k) ∷ xs))) fn e t
