-- ===== src/Queue/Receive.antt =====
-- MBT_mqRecv: what it takes, and what it does on an empty queue.
use modbus_things.Base.{
  ◌-◌, ◌<◌, ◌≡◌, refl, ◌≢◌, Bool, true, false, none, some, List, [], ◌∷◌, arith, if◌then◌else◌, ok,
  fault,
}
use modbus_things.Base.Int.{ℤ, pos, is_neg, is_pos}
use modbus_things.Queue.{Ptr, null, Queue, recv, take_head, Wait}
use modbus_things.Queue.Chain.{node, last, msgs, has-last}
use modbus_things.Queue.Fifo.{IsValid, Returns}

module _ {M : Type 0} where
  -- the queue without its first node; the node itself is not given back
  abbrev pub popped : Queue M → Ptr → List (Ptr × M) → Queue M
  popped q next xs = record q {
    head = next;
    tail = last null xs;
    locked = false;
    item_num = q.item_num - 1;
  }

  take_head-cons :
      (q : Queue M) (a next : Ptr) (m : M)
      → q.head ≡ a
      → a ≢ null
      → q.cells a ≡ some (node m next)
      → q.tail ≢ a
      → take_head q
        ≡ ok (pos 0, some m) (record q { head = next; locked = false; item_num = q.item_num - 1 })
  unfolding take_head
  take_head-cons q a next m e n c t = ground arith

  take_head-one :
      (q : Queue M) (a : Ptr) (m : M)
      → q.head ≡ a
      → a ≢ null
      → q.cells a ≡ some (node m null)
      → q.tail ≡ a
      → q.item_num ≡ 1
      → take_head q
        ≡ ok
            (pos 0, some m)
            (record q { head = null; tail = null; locked = false; item_num = q.item_num - 1 })
  unfolding take_head
  take_head-one q a m e n c t k = ground arith

  -- On a queue that holds messages, the end of MBT_mqRecv takes the oldest.
  pub take_head_refines :
      (q : Queue M) (a : Ptr) (m : M) (xs : List (Ptr × M))
      → IsValid q ((a, m) ∷ xs)
      → Returns (take_head q) q.item_max (pos 0, some m) (msgs xs)
  take_head_refines q a m [] v = (
    record q { head = null; tail = null; locked = false; item_num = q.item_num - 1 },
    [],
    take_head-one q a m v.chain.1 v.chain.2 (ground (arith, v.chain.4, v.chain.5)) v.tail_last
        v.count,
    record {
      chain = refl;
      tail_last = refl;
      count = omega (arith, v.count);
      bound = omega (arith, v.bound);
      free = refl;
    },
    refl,
    refl,
  )
  take_head_refines q a m ((b, k) ∷ ys) v = (
    record q { head = v.chain.0; locked = false; item_num = q.item_num - 1 },
    (b, k) ∷ ys,
    take_head-cons q a v.chain.0 m v.chain.1 v.chain.2 v.chain.4
        (ground (arith, v.tail_last, has-last ys b k)),
    record {
      chain = v.chain.5;
      tail_last = v.tail_last;
      count = omega (arith, v.count);
      bound = omega (arith, v.bound);
      free = refl;
    },
    refl,
    refl,
  )

  -- The lock is not read between `lock` and `unlock`.
  take_head-locked : (q : Queue M) (b : Bool) → take_head (record q { locked = b }) ≡ take_head q
  unfolding take_head
  take_head-locked q b = ground arith

  recv_busy :
      (wait : Wait M) (timeout : ℤ) (q : Queue M)
      → q.locked ≡ false
      → 0 < q.item_num
      → recv wait timeout q ≡ take_head (record q { locked = true })
  unfolding recv
  recv_busy wait timeout q l h = ground arith

  -- MBT_mqRecv on a well-formed queue that holds messages returns 0 and the oldest message at once,
  -- whatever the timeout, and leaves the others, in order, in a well-formed queue.
  pub recv_refines :
      (wait : Wait M) (timeout : ℤ) (q : Queue M) (a : Ptr) (m : M) (xs : List (Ptr × M))
      → IsValid q ((a, m) ∷ xs)
      → Returns (recv wait timeout q) q.item_max (pos 0, some m) (msgs xs)
  recv_refines wait timeout q a m xs v =
      rw (recv_busy wait timeout q v.free (omega (arith, v.count)), take_head-locked q true)
        (take_head_refines q a m xs v)

  take_head-nil : (q : Queue M) → q.head ≡ null → take_head q ≡ fault
  unfolding take_head
  take_head-nil q e = ground arith

  -- what the wait of an empty queue gives: its result and the queue after it
  abbrev pub waited : Wait M → ℤ → Queue M → ℤ × Queue M
  waited wait timeout q =
      wait (if is_pos timeout then some timeout else none) (record q { locked = true })

  recv-woken :
      (wait : Wait M) (timeout : ℤ) (q : Queue M)
      → q.locked ≡ false
      → q.item_num ≡ 0
      → is_neg (waited wait timeout q).0 ≡ false
      → recv wait timeout q ≡ take_head (waited wait timeout q).1
  unfolding recv
  recv-woken wait timeout q l h k = ground arith

  -- On an empty queue MBT_mqRecv waits. If the wait ends with no negative result and other threads
  -- have left the (locked) queue with messages, it takes the oldest of those.
  pub recv_woken_refines :
      (wait : Wait M) (timeout : ℤ) (q : Queue M) (a : Ptr) (m : M) (xs : List (Ptr × M))
      → q.locked ≡ false
      → q.item_num ≡ 0
      → is_neg (waited wait timeout q).0 ≡ false
      → IsValid (record (waited wait timeout q).1 { locked = false }) ((a, m) ∷ xs)
      → Returns (recv wait timeout q) (waited wait timeout q).1.item_max (pos 0, some m) (msgs xs)
  recv_woken_refines wait timeout q a m xs l h k v =
      rw (recv-woken wait timeout q l h k, ← take_head-locked (waited wait timeout q).1 false)
        (take_head_refines _ a m xs v)

  -- The wait's time runs out, which POSIX reports by a positive number, or it wakes with no cause,
  -- and the queue is still empty: MBT_mqRecv then reads through the null `head`.
  pub recv_timeout_fault :
      (wait : Wait M) (timeout : ℤ) (q : Queue M)
      → IsValid q []
      → is_neg (waited wait timeout q).0 ≡ false
      → (waited wait timeout q).1.head ≡ null
      → recv wait timeout q ≡ fault
  recv_timeout_fault wait timeout q v k e =
      rw (recv-woken wait timeout q v.free v.count k) (take_head-nil _ e)
