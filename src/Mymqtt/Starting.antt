-- ===== src/Mymqtt/Starting.antt =====
-- mqtt_client_init and mqtt_client_start of src/port/src/mymqtt/portMqtt.c.
use modbus_things.Base.{
  ℕ, suc, ◌+◌, ◌≤◌, ◌<◌, ◌≡◌, refl, Bool, true, false, ◌&&◌, none, some, List, [], ◌∷◌, arith, ltb,
  length, if◌then◌else◌, ok, Option, Bool-cases, inl, inr,
}
use modbus_things.Base.Int.{ℤ, is_zero}
use modbus_things.Base.Text.{Text}
use modbus_things.Mymqtt.{
  MqttClient, call_backs, subscribe_all, mqtt_client_init, mqtt_client_start, new_client,
}

-- each topic with its index, from `i` on
unfoldable pub numbered : ℕ → List Text → List (Text × ℕ)
numbered i [] = []
numbered i (topic ∷ topics) = (topic, i) ∷ numbered (suc i) topics

subscribe_fits :
    (max i : ℕ) (topics : List Text)
    → i + length topics ≤ call_backs
    → i + length topics ≤ max
    → subscribe_all max i topics ≡ some (numbered i topics)
unfolding subscribe_all numbered
subscribe_fits max i [] h k = refl
subscribe_fits max i (t ∷ ts) h k =
    let fits : (ltb i call_backs && ltb i max) ≡ true = ground (arith, h, k) in
    rw (subscribe_fits max (suc i) ts (omega arith) (omega arith), fits) refl

subscribe_overflows :
    (max i : ℕ) (topics : List Text)
    → i ≤ call_backs
    → call_backs < i + length topics
    → subscribe_all max i topics ≡ none
unfolding subscribe_all
subscribe_overflows max i [] h k = absurd (omega arith)
subscribe_overflows max i (t ∷ ts) h k = elim (Bool-cases (ltb i call_backs)) [
  | inl p ↦
      rw (subscribe_overflows max (suc i) ts (ground (arith, p)) (omega (arith, k)))
        (either (ltb i call_backs && ltb i max))
  | inr p ↦ rw p refl
]
  where
    either : (c : Bool) → ◌≡◌ {A = Option (List (Text × ℕ))} (if c then none else none) none
    either true = refl
    either false = refl

-- With a token, and memory for the client and its two buffers, mqtt_client_init gives a client of the
-- token, the identity and the address. mqtt_client_start then subscribes it to every topic, the
-- first with the first callback and a second one with the second, where the client has a handler for
-- each; of more than two topics it reads past the end of the table of callbacks.
pub started_client_lem :
    (token : Text) (cid uri : Option Text) (max : ℕ) (mq_init : ℤ) (thread : Bool)
    (topics : List Text)
    → length topics ≤ max
    → (c : MqttClient) × (mqtt_client_init (some token) cid uri (true ∷ true ∷ true ∷ [])
        ≡ ok (some c) [])
      × (c.user_name ≡ token)
      × (c.client_id ≡ cid)
      × (c.uri ≡ uri)
      × (length topics ≤ call_backs
          → mqtt_client_start max mq_init thread topics c
            ≡ some (record c { message_handlers = numbered 0 topics }, is_zero mq_init && thread))
      × (call_backs < length topics → mqtt_client_start max mq_init thread topics c ≡ none)
unfolding mqtt_client_init mqtt_client_start
started_client_lem token cid uri max mq_init thread topics h = (
  new_client token cid uri,
  refl,
  refl,
  refl,
  refl,
  λ k.
      rw (subscribe_fits max 0 topics (omega (arith, k)) (omega (arith, h)), mqtt_client_start)
        refl,
  λ k.
      rw (subscribe_overflows max 0 topics (omega arith) (omega (arith, k)), mqtt_client_start)
        refl,
)
