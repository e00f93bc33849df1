-- ===== src/Queue.antt =====
-- src/utils/src/MBT_queue.c and src/utils/inc/MBT_queue.h: the bounded message queue, as commands on its
-- nodes and its `queue_t`. A message is abstract. What a thread does while another holds the lock
-- is a wait without end, since no call of the queue gives a lock back for another.
pub mod Chain
pub mod Fifo
pub mod Receive
pub mod Dump
pub mod History
mod Tests
use Prim.Native.Nat.{◌^◌}
use modbus_things.Base.{
  ℕ, zero, suc, ◌+◌, ◌-◌, ◌%◌, Bool, true, false, Option, none, some, Run, ok, fault, blocked, Cmd,
  pure, ◌>>=◌, ◌>>◌, require, ltb, ◌==◌, if◌then◌else◌,
}
use modbus_things.Base.Int.{ℤ, pos, neg, is_neg, is_pos, pos_part}

abbrev pub Ptr : Type 0
Ptr = ℕ

abbrev pub null : Ptr
null = 0

-- `qitem_t`
pub record Node (M : Type 0) : Type 0 where
  pub msg : M
  pub next : Ptr

-- `queue_t`, with the nodes that its pointers lead to. `item_max` is the positive constant that the
-- program passes.
pub record Queue (M : Type 0) : Type 0 where
  pub cells : Ptr → Option (Node M)
  pub head : Ptr
  pub tail : Ptr
  pub locked : Bool
  pub item_num : ℕ
  pub item_max : ℕ

-- MBT_QERROR_FULL
abbrev pub qerror_full : ℕ
qerror_full = 1

-- `pthread_mutex_lock`: no thread that holds the lock runs any more.
abbrev pub lock : {M : Type 0} → Cmd (Queue M) (Unit {0})
lock q = if q.locked then blocked else ok tt (record q { locked = true })

abbrev pub unlock : {M : Type 0} → Cmd (Queue M) (Unit {0})
unlock q = ok tt (record q { locked = false })

-- `*p`, undefined at NULL and where no node lives
abbrev pub load : {M : Type 0} → Ptr → Cmd (Queue M) (Node M)
load p q = if p == null then fault else elim (q.cells p) [ none ↦ fault | some n ↦ ok n q ]

abbrev pub write : {M : Type 0} → (Ptr → Option (Node M)) → Ptr → Node M → Ptr → Option (Node M)
write h p n a = if a == p then some n else h a

abbrev pub get : {M : Type 0} → Cmd (Queue M) (Queue M)
get q = ok q q

abbrev pub put : {M : Type 0} → Queue M → Cmd (Queue M) (Unit {0})
put q' q = ok tt q'

unfoldable pub create : {M : Type 0} → ℕ → Queue M
create n = record {
  cells = λ _. none;
  head = null;
  tail = null;
  locked = false;
  item_num = 0;
  item_max = n;
}

-- `item->msg = msg; item->next = NULL;` at what `m_malloc` returned
abbrev pub new_item : {M : Type 0} → Ptr → M → Cmd (Queue M) (Unit {0})
new_item p m q =
    if p == null
    then fault
    else ok tt (record q { cells = write q.cells p (record { msg = m; next = null }) })

-- `q->tail->next = item`
abbrev pub set_tail_next : {M : Type 0} → Ptr → Cmd (Queue M) (Unit {0})
set_tail_next p = do
  q ← get
  n ← load q.tail
  put (record q { cells = write q.cells q.tail (record n { next = p }) })

-- the link of a new item, on both branches of `if(q->tail)`
abbrev pub link : {M : Type 0} → Ptr → Cmd (Queue M) (Unit {0})
link p = do
  q ← get
  if q.tail == null
      then put (record q { tail = p; head = p })
      else do set_tail_next p; q' ← get; put (record q' { tail = p })

-- `MBT_mqSend`; `fresh` is what `m_malloc` returns.
unfoldable pub send : {M : Type 0} → Ptr → M → Cmd (Queue M) ℤ
send fresh m = do
  lock
  q ← get
  if ltb q.item_max (q.item_num + 1) then (do unlock; pure (neg qerror_full)) else do
    new_item fresh m
    link fresh
    q' ← get
    put (record q' { item_num = q'.item_num + 1 })
    unlock
    pure (pos 0)

-- the end of `MBT_mqRecv`, from `*msg = q->head->msg` on
unfoldable pub take_head : {M : Type 0} → Cmd (Queue M) (ℤ × Option M)
take_head = do
  q ← get
  n ← load q.head
  if q.tail == q.head then require (q.item_num == 1) else pure tt
  put (record q {
    tail = if q.tail == q.head then null else q.tail;
    head = n.next;
    item_num = q.item_num - 1;
  })
  unlock
  pure (pos 0, some n.msg)

-- What `pthread_cond_wait` and `pthread_cond_timedwait` do: with the time to wait, if there is one,
-- they give their result and the queue as the other threads left it, locked again.
abbrev pub Wait : Type 0 → Type 0
Wait M = Option ℤ → Queue M → ℤ × Queue M

-- the `if(q->itemNum < 1)` of `MBT_mqRecv` with a timeout
abbrev pub timed_wait : {M : Type 0} → Wait M → ℤ → Cmd (Queue M) (ℤ × Option M)
timed_wait wait timeout = do
  q ← get
  put (wait (some timeout) q).1
  if is_neg (wait (some timeout) q).0 then (do unlock; pure (neg 1, none)) else take_head

-- and with none
abbrev pub plain_wait : {M : Type 0} → Wait M → Cmd (Queue M) (ℤ × Option M)
plain_wait wait = do q ← get; put (wait none q).1; take_head

-- `MBT_mqRecv`
unfoldable pub recv : {M : Type 0} → Wait M → ℤ → Cmd (Queue M) (ℤ × Option M)
recv wait timeout = do
  lock
  q ← get
  if ltb q.item_num 1
      then (if is_pos timeout then timed_wait wait timeout else plain_wait wait)
      else take_head

-- `size_t` subtraction
abbrev pub sub_size : ℕ → ℕ → ℕ
sub_size a b = (a + 2 ^ 64 - b) % 2 ^ 64

-- `do_dump`: a message, the offset and the room that are left, and the bytes before and after
abbrev pub DoDump : Type 0 → Type 0 → Type 0
DoDump M B = M → ℕ → ℕ → B → ℤ × B

module _ {M B : Type 0} (do_dump : DoDump M B) (max : ℕ) where
  -- the `while(q->itemNum)` loop; the flag says whether it ended by its test. A round takes one from
  -- `itemNum`, which is the number of rounds left.
  unfoldable pub dump_loop : ℕ → ℕ → ℕ → B → Cmd (Queue M) (Bool × ℕ × B)
  dump_loop zero off total buf = pure (true, total, buf)
  dump_loop (suc k) off total buf = do
    q ← get
    n ← load q.head
    let r = do_dump n.msg off (sub_size max total) buf
    if is_neg (r.0) then pure (false, total, r.1) else do
      put (record q { head = n.next; item_num = k })
      dump_loop k (off + pos_part (r.0)) (total + pos_part (r.0)) (r.1)

  -- `MBT_mqDumpLimit`: on neither of its ways out does it give the lock back.
  unfoldable pub dump_limit : ℕ → B → Cmd (Queue M) (ℕ × B)
  unfolding dump_loop
  dump_limit off buf = do
    lock
    q ← get
    r ← dump_loop q.item_num off 0 buf
    q' ← get
    if r.0 then (do require (q'.head == null); put (record q' { tail = null })) else pure tt
    pure (r.1, r.2)
