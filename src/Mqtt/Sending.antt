-- ===== src/Mqtt/Sending.antt =====
-- mqtt_push_data and the sending thread: what is published, and in what order.

use modbus_things.Base.{
  ℕ, zero, suc, ◌≡◌, refl, ◌≢◌, Option, none, some, List, [], ◌∷◌, ◌++◌, map, arith, ltb,
  if◌then◌else◌, length, Cmd, pure, ◌>>=◌, ◌∙◌, Bool-cases, inl, inr,
}
use modbus_things.Base.Int.{ℤ, pos, neg}
use modbus_things.Base.Text.{Text}
use modbus_things.Queue.{Ptr, Queue, Wait}
use modbus_things.Queue.Chain.{msgs}
use modbus_things.Queue.Fifo.{IsValid, Returns, enqueue, send_refines}
use modbus_things.Queue.Receive.{recv_refines}
use modbus_things.Mqtt.{Telemetry, realtime_err_queue_full, push_data, send_round, published}

-- The outgoing queue for a client: 0 and the message appended, or -REALTIME_ERR_QUEUE_FULL.
abbrev pub accept : ℕ → List Telemetry → Telemetry → ℤ × List Telemetry
accept cap l raw =
    if ltb (length l) cap then (pos 0, l ++ (raw ∷ [])) else (neg realtime_err_queue_full, l)

-- mqtt_push_data on a well-formed queue with room returns 0 and appends the message; on a full one
-- it returns -REALTIME_ERR_QUEUE_FULL and keeps the messages. The queue stays well formed.
pub push_data_refines :
    (q : Queue Telemetry) (xs : List (Ptr × Telemetry)) (f : Ptr) (raw : Telemetry)
    → IsValid q xs
    → f ≢ 0
    → q.cells f ≡ none
    → let (rc, l) = accept q.item_max (msgs xs) raw in Returns (push_data f raw q) q.item_max rc l
unfolding push_data enqueue
push_data_refines q xs f raw v fn e = elim (Bool-cases (ltb (length (msgs xs)) q.item_max)) [
  | inl h ↦ rw h (
      let (q', ys, s, v', m, c) = (rw h at (send_refines q xs f raw v fn e)) in
      (q', ys, rw s, v', m, c))
  | inr h ↦ rw h (
      let (q', ys, s, v', m, c) = (rw h at (send_refines q xs f raw v fn e)) in
      (q', ys, rw s, v', m, c))
]

module _ (wait : Wait Telemetry) where
  -- A round of the thread publishes the oldest message under its own topic.
  pub send_round_refines :
      (q : Queue Telemetry) (a : Ptr) (raw : Telemetry) (xs : List (Ptr × Telemetry))
      → IsValid q ((a, raw) ∷ xs)
      → Returns (send_round wait q) q.item_max (some (published raw)) (msgs xs)
  unfolding send_round
  send_round_refines q a raw xs v =
      let (q', ys, s, v', m, c) = recv_refines wait (neg 1) q a raw xs v in (q', ys, rw s, v', m, c)

  -- the first `n` rounds of the thread, and what they publish
  unfoldable pub rounds : ℕ → Cmd (Queue Telemetry) (List (Option (Text × Text)))
  rounds zero = pure []
  rounds (suc n) = do p ← send_round wait; ps ← rounds n; pure (p ∷ ps)

  -- As many rounds as a well-formed queue holds messages publish each of them once, oldest first,
  -- without waiting, and leave the queue empty and well formed.
  pub rounds_publish :
      (q : Queue Telemetry) (xs : List (Ptr × Telemetry)) (l : List Telemetry)
      → IsValid q xs
      → msgs xs ≡ l
      → Returns (rounds (length l) q) q.item_max (map (λ raw. some (published raw)) l) []
  unfolding rounds msgs
  rounds_publish q [] [] v e = (q, [], refl, v, refl, refl)
  rounds_publish q [] (raw ∷ l) v e = cc
  rounds_publish q (x ∷ xs) [] v e = cc
  rounds_publish q ((a, m) ∷ xs) (raw ∷ l) v e =
      let (q', ys, s, v', r, c) = send_round_refines q a m xs v in
      let (q'', zs, s', v'', r', c') = rounds_publish q' ys l v' (cc) in
      (q'', zs, rw (s, s') (ground arith), v'', r', c' ∙ c)
