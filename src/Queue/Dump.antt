-- ===== src/Queue/Dump.antt =====
-- MBT_mqDumpLimit against a walk over the messages, and the lock that it keeps.
use modbus_things.Base.{
  ℕ, zero, suc, ◌+◌, ◌≡◌, refl, Bool, true, false, some, List, [], ◌∷◌, arith, ◌==◌, if◌then◌else◌,
  length, ok, blocked, Bool-cases, inl, inr,
}
use modbus_things.Base.Int.{ℤ, is_neg, pos_part}
use modbus_things.Queue.{
  Ptr, null, Queue, send, recv, Wait, DoDump, dump_loop, dump_limit, sub_size,
}
use modbus_things.Queue.Chain.{Cells, node, Chain, last, msgs}
use modbus_things.Queue.Fifo.{IsValid}

abbrev is_nil : {A : Type 0} → List A → Bool
is_nil [] = true
is_nil (x ∷ xs) = false

-- A queue whose lock is taken holds up every call of it.
pub locked_blocks :
    {M B : Type 0} (q : Queue M) (f : Ptr) (m : M) (wait : Wait M) (timeout : ℤ) (d : DoDump M B)
    (max off : ℕ) (buf : B)
    → q.locked ≡ true
    → (send f m q ≡ blocked)
      × (recv wait timeout q ≡ blocked)
      × (dump_limit d max off buf q ≡ blocked)
unfolding send recv dump_limit
locked_blocks q f m wait timeout d max off buf l = (ground arith, ground arith, ground arith)

-- the queue that a dump leaves, with the lock still taken
pub record Left {M : Type 0} (q : Queue M) (ys : List (Ptr × M)) (cells : Cells M) (ms : List M)
    : Type 0 where
  pub chain : Chain q.cells q.head ys
  pub left : msgs ys ≡ ms
  pub count : q.item_num ≡ length ys
  pub tail_last : q.tail ≡ last q.tail ys
  pub locked : q.locked ≡ true
  pub kept : q.cells ≡ cells

module _ {M B : Type 0} (d : DoDump M B) (max : ℕ) where
  -- The walk: each message is handed over with the offset and the room left, until one is refused.
  -- It gives the messages left, the bytes written and the buffer.
  unfoldable pub dump_all : List M → ℕ → ℕ → B → List M × ℕ × B
  dump_all [] off total buf = ([], total, buf)
  dump_all (m ∷ ms) off total buf =
      let r = d m off (sub_size max total) buf in
      let rest = dump_all ms (off + pos_part r.0) (total + pos_part r.0) r.1 in
      if is_neg r.0 then (m ∷ ms, total, r.1) else rest

  last_any : (a t : Ptr) (xs : List (Ptr × M)) → t ≡ last a xs → t ≡ last t xs
  last_any a t [] e = refl
  last_any a t (x ∷ xs) e = e

  LoopLeaves : Queue M → ℕ → ℕ → ℕ → B → List M → Type 0
  LoopLeaves q k off total buf ms =
      let (rest, t, buf') = dump_all ms off total buf in
      (q' : Queue M) × (ys : List (Ptr × M)) × (dump_loop d max k off total buf q
        ≡ ok (is_nil rest, t, buf') q')
      × Left q' ys q.cells rest

  loop_step :
      (q : Queue M) (k off total : ℕ) (buf : B) (a next : Ptr) (m : M)
      → q.head ≡ a
      → q.cells a ≡ some (node m next)
      → (a == null) ≡ false
      → is_neg (d m off (sub_size max total) buf).0 ≡ false
      → let r = d m off (sub_size max total) buf in
        dump_loop d max (suc k) off total buf q
        ≡ dump_loop d max k
            (off + pos_part r.0)
            (total + pos_part r.0)
            r.1
            (record q { head = next; item_num = k })
  unfolding dump_loop
  loop_step q k off total buf a next m e c n h = ground arith

  loop_stop :
      (q : Queue M) (k off total : ℕ) (buf : B) (a next : Ptr) (m : M)
      → q.head ≡ a
      → q.cells a ≡ some (node m next)
      → (a == null) ≡ false
      → is_neg (d m off (sub_size max total) buf).0 ≡ true
      → dump_loop d max (suc k) off total buf q
        ≡ ok (false, total, (d m off (sub_size max total) buf).1) q
  unfolding dump_loop
  loop_stop q k off total buf a next m e c n h = ground arith

  dump_loop-LoopLeaves :
      (q : Queue M) (xs : List (Ptr × M)) (k off total : ℕ) (buf : B)
      → Chain q.cells q.head xs
      → k ≡ length xs
      → q.item_num ≡ k
      → q.tail ≡ last q.tail xs
      → q.locked ≡ true
      → LoopLeaves q k off total buf (msgs xs)
  unfolding LoopLeaves dump_all dump_loop msgs
  dump_loop-LoopLeaves q [] zero off total buf c e n t l = (
    q,
    [],
    refl,
    record { chain = c; left = refl; count = n; tail_last = refl; locked = l; kept = refl },
  )
  dump_loop-LoopLeaves q [] (suc k) off total buf c e n t l = absurd (omega arith)
  dump_loop-LoopLeaves q ((a, m) ∷ xs) zero off total buf c e n t l = absurd (omega arith)
  dump_loop-LoopLeaves q ((a, m) ∷ xs) (suc k) off total buf c e n t l =
      elim (Bool-cases (is_neg (d m off (sub_size max total) buf).0)) [
        | inl h ↦ rw h (
          q,
          (a, m) ∷ xs,
          loop_stop q k off total buf a c.0 m c.1 c.4 (ground arith) h,
          record {
            chain = c;
            left = refl;
            count = omega (arith, n, e);
            tail_last = t;
            locked = l;
            kept = refl;
          },
        )
        | inr h ↦
            rw (h, loop_step q k off total buf a c.0 m c.1 c.4 (ground arith) h)
              (dump_loop-LoopLeaves (record q { head = c.0; item_num = k }) xs k _ _ _ c.5
                (omega arith) refl (last_any a q.tail xs t) l)
      ]

  limit_lem :
      (q q' : Queue M) (off t : ℕ) (buf buf' : B) (rest : List M) (ys : List (Ptr × M))
      → q.locked ≡ false
      → dump_loop d max q.item_num off 0 buf (record q { locked = true })
        ≡ ok (is_nil rest, t, buf') q'
      → Left q' ys q.cells rest
      → (q'' : Queue M) × (zs : List (Ptr × M)) × (dump_limit d max off buf q ≡ ok (t, buf') q'')
        × Left q'' zs q.cells rest
        × (q''.tail ≡ last null zs)
  unfolding dump_limit msgs
  limit_lem q q' off t buf buf' [] [] l e f = (
    record q' { tail = null },
    [],
    rw (l, e, f.chain),
    record {
      chain = f.chain;
      left = refl;
      count = f.count;
      tail_last = refl;
      locked = f.locked;
      kept = f.kept;
    },
    refl,
  )
  limit_lem q q' off t buf buf' [] (y ∷ ys) l e f = cc (f.left)
  limit_lem q q' off t buf buf' (m ∷ ms) [] l e f = cc (f.left)
  limit_lem q q' off t buf buf' (m ∷ ms) (y ∷ ys) l e f = (q', y ∷ ys, rw (l, e), f, f.tail_last)

  -- MBT_mqDumpLimit on a well-formed queue ends, with what the walk over its messages gives: the
  -- number of bytes and the buffer. The messages from the first refused one on stay queued, in
  -- order, with the count, `head` and `tail` right; no node is given back; and the lock is taken.
  pub dump_limit_refines :
      (q : Queue M) (xs : List (Ptr × M)) (off : ℕ) (buf : B)
      → IsValid q xs
      → let (rest, t, buf') = dump_all (msgs xs) off 0 buf in
        (q' : Queue M) × (ys : List (Ptr × M)) × (dump_limit d max off buf q ≡ ok (t, buf') q')
        × Left q' ys q.cells rest
        × (q'.tail ≡ last null ys)
  unfolding LoopLeaves
  dump_limit_refines q xs off buf v =
      let (q', ys, e, f) =
        dump_loop-LoopLeaves (record q { locked = true }) xs q.item_num off 0 buf v.chain v.count
          refl (last_any null q.tail xs v.tail_last) refl in
      limit_lem q q' off _ buf _ _ ys v.free e f

  -- After MBT_mqDumpLimit on a well-formed queue, every later call of the queue waits for ever.
  pub dump_limit_blocks :
      (q : Queue M) (xs : List (Ptr × M)) (off : ℕ) (buf : B)
      → IsValid q xs
      → (t : ℕ) × (buf' : B) × (q' : Queue M) × (dump_limit d max off buf q ≡ ok (t, buf') q')
        × ((f : Ptr) (m : M) (wait : Wait M) (timeout : ℤ) (off' : ℕ)
            → (send f m q' ≡ blocked)
              × (recv wait timeout q' ≡ blocked)
              × (dump_limit d max off' buf' q' ≡ blocked))
  dump_limit_blocks q xs off buf v =
      let (q', ys, e, f, t) = dump_limit_refines q xs off buf v in
      (
        _,
        _,
        q',
        e,
        λ g m wait timeout off'. locked_blocks q' g m wait timeout d max off' _ f.locked,
      )
