-- ===== src/Mymqtt/Sending.antt =====
-- mqtt_push_data and mqtt_app_thread of src/port/src/mymqtt/portMqtt.c over a queue of RT-Thread that does
-- what is documented of it.
use modbus_things.Base.{
  ℕ, zero, suc, ◌<◌, ◌≤◌, ◌≡◌, refl, ap, sym, true, false, List, [], ◌∷◌, ◌++◌, map, arith, ltb,
  length, append_assoc, append-nil, Cmd, ok, pure, ◌>>◌, Bool-cases, inl, inr, ltb→lt,
}
use modbus_things.Base.Int.{ℤ, pos, eq_ℤ}
use modbus_things.Base.Text.{Text}
use modbus_things.Mqtt.{Telemetry, published}
use modbus_things.Mqtt.Sending.{accept}
use modbus_things.Mymqtt.{RtMq, Port, app_turn, mqtt_push_data}

-- The documented queue: messages are received in the order in which they were sent, and a send to a
-- queue that has as many as its pool holds gives `full` and changes nothing.
pub record IsFifo {Q : Type 0} (mq : RtMq Q) (full : ℤ) : Type 0 where
  pub contents : Q → List Telemetry
  pub capacity : Q → ℕ
  pub is_failure : eq_ℤ (pos 0) full ≡ false
  pub is_itself : eq_ℤ full full ≡ true
  pub send_room :
      (raw : Telemetry) (q : Q)
      → length (contents q) < capacity q
      → ((mq.send raw q).0 ≡ pos 0)
        × (contents (mq.send raw q).1 ≡ contents q ++ (raw ∷ []))
        × (capacity (mq.send raw q).1 ≡ capacity q)
  pub send_full :
      (raw : Telemetry) (q : Q)
      → capacity q ≤ length (contents q)
      → ((mq.send raw q).0 ≡ full)
        × (contents (mq.send raw q).1 ≡ contents q)
        × (capacity (mq.send raw q).1 ≡ capacity q)
  pub recv_first :
      (raw : Telemetry) (l : List Telemetry) (q : Q)
      → contents q ≡ raw ∷ l
      → (q' : Q) × (mq.recv q ≡ ok (pos 0, raw) q') × (contents q' ≡ l) × (capacity q' ≡ capacity q)

-- the turns of the thread one after the other
unfoldable pub turns : {Q : Type 0} → RtMq Q → (Text × Text → ℤ) → ℕ → Cmd (Port Q) (Unit {0})
turns mq publish zero = pure tt
turns mq publish (suc n) = do app_turn mq publish; turns mq publish n

-- a message as it was given to paho_mqtt_publish, and the code
abbrev pub tried : (Text × Text → ℤ) → Telemetry → (Text × Text) × ℤ
tried publish raw = (published raw, publish (published raw))

module _ {Q : Type 0} (mq : RtMq Q) (full : ℤ) (laws : IsFifo mq full) where
  -- Over the documented queue, mqtt_push_data of this port keeps the same contract as that of the other
  -- one: with room it returns 0 and appends the message, and on a full queue it returns
  -- -REALTIME_ERR_QUEUE_FULL and keeps the messages.
  pub rt_push_data_refines :
      (raw : Telemetry) (q : Q)
      → let (rc, l) = accept (laws.capacity q) (laws.contents q) raw in
        (q' : Q) × (mqtt_push_data mq full raw q ≡ ok rc q')
        × (laws.contents q' ≡ l)
        × (laws.capacity q' ≡ laws.capacity q)
  unfolding mqtt_push_data
  rt_push_data_refines raw q =
      elim (Bool-cases (ltb (length (laws.contents q)) (laws.capacity q))) [
        | inl h ↦
            let (c, e, k) = laws.send_room raw q (ltb→lt _ _ h) in
            rw h ((mq.send raw q).1, rw (c, laws.is_failure) refl, e, k)
        | inr h ↦
            let (c, e, k) = laws.send_full raw q (ground (arith, h)) in
            rw h ((mq.send raw q).1, rw (c, laws.is_itself) refl, e, k)
      ]

  module _ (publish : Text × Text → ℤ) where
    pub turn_publishes :
        (p : Port Q) (raw : Telemetry) (l : List Telemetry)
        → p.connected ≡ true
        → laws.contents p.mq ≡ raw ∷ l
        → (q : Q) × (app_turn mq publish p
            ≡ ok tt (record p { mq = q; sent = p.sent ++ (tried publish raw ∷ []) }))
          × (laws.contents q ≡ l)
          × (laws.capacity q ≡ laws.capacity p.mq)
    unfolding app_turn
    turn_publishes p raw l c e =
        let (q, r, k, b) = laws.recv_first raw l p.mq e in (q, simp (c, r), k, b)

    turn_sleeps : (p : Port Q) → p.connected ≡ false → app_turn mq publish p ≡ ok tt p
    unfolding app_turn
    turn_sleeps p c = simp c

    connected_turns :
        (l : List Telemetry) (p : Port Q)
        → p.connected ≡ true
        → laws.contents p.mq ≡ l
        → (q : Q) × (turns mq publish (length l) p
            ≡ ok tt (record p { mq = q; sent = p.sent ++ map (tried publish) l }))
          × (laws.contents q ≡ [])
    unfolding turns
    connected_turns [] p c e =
        (p.mq, ap (λ r. ok tt (record p { sent = r })) (sym (append-nil p.sent)), e)
    connected_turns (raw ∷ l) p c e =
        let (q, t, k, _) = turn_publishes p raw l c e in
        let (q', t', k') =
          connected_turns l (record p { mq = q; sent = p.sent ++ (tried publish raw ∷ []) }) c k in
        (
          q',
          rw (t, t')
              (ap (λ r. ok tt (record p { mq = q'; sent = r }))
                (append_assoc p.sent (tried publish raw ∷ []) (map (tried publish) l))),
          k',
        )

    sleeping_turns : (n : ℕ) (p : Port Q) → p.connected ≡ false → turns mq publish n p ≡ ok tt p
    unfolding turns
    sleeping_turns zero p d = refl
    sleeping_turns (suc n) p d = rw (turn_sleeps p d) (sleeping_turns n p d)

    -- With a connection, as many turns of mqtt_app_thread as messages wait give each of them to
    -- paho_mqtt_publish once, oldest first, without waiting, and leave the queue empty: a message
    -- whose publication fails is not kept. Without one, no turn takes a message.
    pub turns_publish :
        (l : List Telemetry) (p : Port Q)
        → laws.contents p.mq ≡ l
        → (p.connected ≡ true
            → (q : Q) × (turns mq publish (length l) p
                ≡ ok tt (record p { mq = q; sent = p.sent ++ map (tried publish) l }))
              × (laws.contents q ≡ []))
          × ((n : ℕ) → p.connected ≡ false → turns mq publish n p ≡ ok tt p)
    turns_publish l p e = (λ c. connected_turns l p c e, λ n d. sleeping_turns n p d)
