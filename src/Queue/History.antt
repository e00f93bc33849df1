-- ===== src/Queue/History.antt =====
-- All that is sent to and received from a queue of src/utils/src/MBT_queue.c since MBT_mqCreate.
use modbus_things.Base.{
  ℕ, ◌<◌, ◌≡◌, ◌≢◌, refl, sym, ap, subst, ◌∙◌, true, false, none, some, List, [], ◌∷◌, ◌++◌, arith,
  ltb, if◌then◌else◌, length, append_assoc, Bool-cases, inl, inr, Run, ok,
}
use modbus_things.Base.Int.{ℤ, pos, neg, is_zero}
use modbus_things.Queue.{Ptr, null, Queue, Wait, qerror_full, create, send, recv}
use modbus_things.Queue.Chain.{msgs}
use modbus_things.Queue.Fifo.{IsValid, Returns, enqueue, create-IsValid, send_refines}
use modbus_things.Queue.Receive.{recv_refines}

module _ {M : Type 0} where
  -- the messages that are accepted, after a call of MBT_mqSend with this code
  abbrev pub accepted : ℤ → M → List M → List M
  accepted rc m sent = if is_zero rc then sent ++ (m ∷ []) else sent

  -- A queue of at most `n` messages, what it has accepted and what it has given back, after any calls
  -- of MBT_mqSend, and of MBT_mqRecv while it holds messages. The address of a new node is one that
  -- no node had before.
  pub data Reach (n : ℕ) : List M → List M → Queue M → Type 0 where
    start : Reach n [] [] (create n)
    sent :
        {s r : List M} {q q' : Queue M} (f : Ptr) (m : M) (rc : ℤ)
        → Reach n s r q
        → f ≢ null
        → q.cells f ≡ none
        → send f m q ≡ ok rc q'
        → Reach n (accepted rc m s) r q'
    received :
        {s r : List M} {q q' : Queue M} (wait : Wait M) (timeout rc : ℤ) (m : M)
        → Reach n s r q
        → 0 < q.item_num
        → recv wait timeout q ≡ ok (rc, some m) q'
        → Reach n s (r ++ (m ∷ [])) q'

  -- The queue is well formed, and what it holds is what it has accepted without what it has given back.
  pub record InOrder (n : ℕ) (s r : List M) (q : Queue M) : Type 0 where
    pub nodes : List (Ptr × M)
    pub valid : IsValid q nodes
    pub order : s ≡ r ++ msgs nodes
    pub size : q.item_max ≡ n

  -- a queue that a call was seen to leave, by what the call is known to do
  abbrev Landed : {A : Type 0} → Queue M → ℕ → A → A → List M → Type 0
  Landed q cap a b l =
      (a ≡ b) × ((xs : List (Ptr × M)) × IsValid q xs × (msgs xs ≡ l) × (q.item_max ≡ cap))

  landed :
      {A : Type 0} {x : Run (Queue M) A} {cap : ℕ} {a b : A} {l : List M} {q : Queue M}
      → Returns x cap a l
      → x ≡ ok b q
      → Landed q cap a b l
  landed {A} {x} {cap} {a} {b} {l} {q} (q1, xs, e1, v, m, c) e =
      let same : ok a q1 ≡ ok b q = sym e1 ∙ e in
      let queue : q1 ≡ q = cc in
      (cc, (xs, subst (λ z. IsValid z xs) queue v, m, ap (λ z. z.item_max) (sym queue) ∙ c))

  enqueue-room :
      (cap : ℕ) (l : List M) (m : M)
      → ltb (length l) cap ≡ true
      → enqueue cap l m ≡ (pos 0, l ++ (m ∷ []))
  unfolding enqueue
  enqueue-room cap l m h = rw h refl

  enqueue-full :
      (cap : ℕ) (l : List M) (m : M)
      → ltb (length l) cap ≡ false
      → enqueue cap l m ≡ (neg qerror_full, l)
  unfolding enqueue
  enqueue-full cap l m h = rw h refl

  -- what MBT_mqSend does, where the FIFO answers `b`
  sent_as :
      (q : Queue M) (xs : List (Ptr × M)) (f : Ptr) (m : M) {b : ℤ × List M}
      → IsValid q xs
      → f ≢ null
      → q.cells f ≡ none
      → enqueue q.item_max (msgs xs) m ≡ b
      → Returns (send f m q) q.item_max b.0 b.1
  sent_as q xs f m v fn e b =
      subst (λ z. Returns (send f m q) q.item_max z.0 z.1) b (send_refines q xs f m v fn e)

  sent-InOrder :
      (n : ℕ) (s r : List M) (q q' : Queue M) (f : Ptr) (m : M) (rc : ℤ)
      → InOrder n s r q
      → f ≢ null
      → q.cells f ≡ none
      → send f m q ≡ ok rc q'
      → InOrder n (accepted rc m s) r q'
  sent-InOrder n s r q q' f m rc o fn e g =
      elim (Bool-cases (ltb (length (msgs o.nodes)) q.item_max)) [
        | inl room ↦
            let (z, (xs, v, l, c)) =
              landed
                (sent_as q o.nodes f m o.valid fn e (enqueue-room q.item_max (msgs o.nodes) m room))
                g in
            record {
              nodes = xs;
              valid = v;
              order =
                  ap (λ w. accepted w m s) (sym z)
                  ∙ ap (λ w. w ++ (m ∷ [])) o.order
                  ∙ append_assoc r (msgs o.nodes) (m ∷ [])
                  ∙ ap (λ w. r ++ w) (sym l);
              size = c ∙ o.size;
            }
        | inr full ↦
            let (z, (xs, v, l, c)) =
              landed
                (sent_as q o.nodes f m o.valid fn e (enqueue-full q.item_max (msgs o.nodes) m full))
                g in
            record {
              nodes = xs;
              valid = v;
              order = ap (λ w. accepted w m s) (sym z) ∙ o.order ∙ ap (λ w. r ++ w) (sym l);
              size = c ∙ o.size;
            }
      ]

  received-InOrder :
      (n : ℕ) (s r : List M) (q q' : Queue M) (wait : Wait M) (timeout rc : ℤ) (m : M)
      → InOrder n s r q
      → 0 < q.item_num
      → recv wait timeout q ≡ ok (rc, some m) q'
      → InOrder n s (r ++ (m ∷ [])) q'
  unfolding msgs
  received-InOrder n s r q q' wait timeout rc m o p g = go o.nodes o.valid o.order
    where
      go : (xs : List (Ptr × M)) → IsValid q xs → s ≡ r ++ msgs xs → InOrder n s (r ++ (m ∷ [])) q'
      go [] v order = absurd (omega (arith, p, v.count))
      go ((a, k) ∷ xs) v order =
          let (z, (ys, w, l, c)) = landed (recv_refines wait timeout q a k xs v) g in
          let first : k ≡ m = cc in
          record {
            nodes = ys;
            valid = w;
            order =
                order
                ∙ ap (λ u. r ++ (u ∷ msgs xs)) first
                ∙ ap (λ u. r ++ (m ∷ u)) (sym l)
                ∙ sym (append_assoc r (m ∷ []) (msgs ys));
            size = c ∙ o.size;
          }

  -- Whatever calls of MBT_mqSend, and of MBT_mqRecv while the queue holds messages, come after
  -- MBT_mqCreate: the queue is well formed, and the accepted messages are those that were given back,
  -- in their order, followed by those that it holds. None is lost, doubled or overtaken.
  pub reach-InOrder : {n : ℕ} {s r : List M} {q : Queue M} → Reach n s r q → InOrder n s r q
  reach-InOrder {n} start = record {
    nodes = [];
    valid = create-IsValid n;
    order = unfold msgs in refl;
    size = unfold create in refl;
  }
  reach-InOrder {n} (sent {s} {r} {q} {q'} f m rc h fn e g) =
      sent-InOrder n s r q q' f m rc (reach-InOrder h) fn e g
  reach-InOrder {n} (received {s} {r} {q} {q'} wait timeout rc m h p g) =
      received-InOrder n s r q q' wait timeout rc m (reach-InOrder h) p g
