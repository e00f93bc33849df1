-- ===== src/Queue/Tests.antt =====
-- Runs of the queue of src/utils/src/MBT_queue.c on small queues.
use modbus_things.Base.{
  ℕ, ◌≡◌, refl, false, Option, none, some, List, [], ◌∷◌, arith, ◌==◌, if◌then◌else◌, ok, fault,
}
use modbus_things.Base.Int.{pos, neg}
use modbus_things.Queue.{Ptr, Node, Queue, Wait, DoDump, create, send, recv, take_head, dump_limit}
use modbus_things.Queue.Chain.{node, last, msgs}
use modbus_things.Queue.Fifo.{IsValid, Returns, enqueue, send_refines}
use modbus_things.Queue.Receive.{recv_refines, recv_timeout_fault}
use modbus_things.Queue.History.{Reach, start, sent, received, InOrder, reach-InOrder}
use modbus_things.Queue.Dump.{Left, dump_all, dump_limit_refines}

-- two messages, at the addresses 5 and 6, in a queue of three
abbrev pub two_cells : Ptr → Option (Node ℕ)
two_cells p = if p == 5 then some (node 10 6) else (if p == 6 then some (node 11 0) else none)

abbrev pub two : Queue ℕ
two = record { cells = two_cells; head = 5; tail = 6; locked = false; item_num = 2; item_max = 3 }

abbrev pub two_nodes : List (Ptr × ℕ)
two_nodes = (5, 10) ∷ (6, 11) ∷ []

pub two-IsValid : IsValid two two_nodes
two-IsValid = record {
  chain = (6, refl, omega arith, refl, refl, (0, refl, omega arith, refl, refl, refl));
  tail_last = refl;
  count = refl;
  bound = omega arith;
  free = refl;
}

abbrev empty : Queue ℕ
empty = record { cells = λ p. none; head = 0; tail = 0; locked = false; item_num = 0; item_max = 3 }

empty-IsValid : IsValid empty []
empty-IsValid = record {
  chain = refl;
  tail_last = refl;
  count = refl;
  bound = omega arith;
  free = refl;
}

-- ETIMEDOUT, with the queue as it was
abbrev timed_out : Wait ℕ
timed_out timeout q = (pos 110, q)

-- One byte is written for each message, if there is room.
abbrev one_byte : DoDump ℕ ℕ
one_byte m off room buf = if room == 0 then (neg 1, buf) else (pos 1, m)

send_refines_example : let (rc, l) = enqueue 3 (msgs two_nodes) 12 in Returns (send 7 12 two) 3 rc l
send_refines_example = send_refines two two_nodes 7 12 two-IsValid (omega arith) refl

recv_refines_example :
    Returns (recv timed_out (pos 10) two) 3 (pos 0, some 10) (msgs ((6, 11) ∷ []))
recv_refines_example = recv_refines timed_out (pos 10) two 5 10 ((6, 11) ∷ []) two-IsValid

recv_timeout_fault_example : recv timed_out (pos 10) empty ≡ fault
recv_timeout_fault_example = recv_timeout_fault timed_out (pos 10) empty empty-IsValid refl refl

dump_limit_refines_example :
    let (rest, t, buf') = dump_all one_byte 2 (msgs two_nodes) 0 0 9 in
    (q' : Queue ℕ) × (ys : List (Ptr × ℕ)) × (dump_limit one_byte 2 0 9 two ≡ ok (t, buf') q')
    × Left q' ys two.cells rest
    × (q'.tail ≡ last 0 ys)
dump_limit_refines_example = dump_limit_refines one_byte 2 two two_nodes 0 9 two-IsValid

-- a message is sent and received again
abbrev one_cell : Ptr → Option (Node ℕ)
one_cell p = if p == 7 then some (node 12 0) else none

abbrev one : Queue ℕ
one = record { cells = one_cell; head = 7; tail = 7; locked = false; item_num = 1; item_max = 3 }

abbrev none_left : Queue ℕ
none_left = record {
  cells = one_cell;
  head = 0;
  tail = 0;
  locked = false;
  item_num = 0;
  item_max = 3;
}

there_and_back : Reach 3 (12 ∷ []) (12 ∷ []) none_left
unfolding create send recv take_head
there_and_back =
    received timed_out (pos 10) (pos 0) 12 (sent 7 12 (pos 0) start (omega arith) refl refl)
      (omega arith) refl

reach-InOrder_example : InOrder 3 (12 ∷ []) (12 ∷ []) none_left
reach-InOrder_example = reach-InOrder there_and_back
