-- ===== src/Mqtt/Incoming.antt =====
-- mqtt_sub_callback of src/port/src/mqttclient/portMqtt.c: what becomes of a message that comes in. The
-- adapters are known by their addresses, as is the client of the MQTT library that is passed back.
use modbus_things.Base.{
  ℕ, ◌+◌, ◌-◌, ◌≡◌, ◌≢◌, Option, none, some, List, [], ◌∷◌, arith, ◌==◌, if◌then◌else◌, fault, Cmd,
}
use modbus_things.Base.Text.{Text}
use modbus_things.Queue.{Ptr}

-- `msg_ops_node_t`: a handler is a command on what it changes.
pub record MsgNode (S : Type 0) : Type 0 where
  pub topic : Text
  pub on_message : Text → Cmd S (Unit {0})

-- the nodes of the `msg_ops` of each adapter, by its address
abbrev pub Adapters : Type 0 → Type 0
Adapters S = Ptr → Option (List (MsgNode S))

-- `offsetof(struct mqttAdapter, client)`: it is the first field.
abbrev pub client_offset : ℕ
client_offset = 0

-- `nodes[0].onMessage`
abbrev pub first_handler : {S : Type 0} → List (MsgNode S) → Text → Cmd S (Unit {0})
first_handler [] payload s = fault
first_handler (n ∷ ns) payload s = n.on_message payload s

-- `mqtt_sub_callback`: `container_of` is taken of the pointer that the library passes, and is
-- undefined where no adapter stands at the address that it gives.
unfoldable pub mqtt_sub_callback : {S : Type 0} → Adapters S → Ptr → Text → Cmd S (Unit {0})
mqtt_sub_callback adapters client payload s = elim (adapters (client - client_offset)) [
  | none ↦ fault
  | some ops ↦ first_handler ops payload s
]

-- the only adapter, at `mqtt`
abbrev pub at_address : {S : Type 0} → Ptr → List (MsgNode S) → Adapters S
at_address mqtt ops p = if p == mqtt then some ops else none

-- With one adapter, and the client elsewhere, as the library has allocated it, every message that the
-- library passes on is undefined and reaches no handler. The address of the field `client` of the
-- adapter, in place of what the field holds, would have it handled by the first node.
pub sub_callback_lem :
    {S : Type 0} (mqtt client : Ptr) (n : MsgNode S) (ns : List (MsgNode S)) (payload : Text)
    (s : S)
    → client ≢ mqtt
    → (mqtt_sub_callback (at_address mqtt (n ∷ ns)) client payload s ≡ fault)
      × (mqtt_sub_callback (at_address mqtt (n ∷ ns)) (mqtt + client_offset) payload s
          ≡ n.on_message payload s)
unfolding mqtt_sub_callback
sub_callback_lem mqtt client n ns payload s d = (ground (arith, d), ground arith)
