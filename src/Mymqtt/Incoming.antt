-- ===== src/Mymqtt/Incoming.antt =====
-- mqtt_sub_callback of src/port/src/mymqtt/portMqtt.c.
use native.Mathlib.Numerals.{unary_clauses}
use modbus_things.Base.{
  ℕ, ◌≡◌, refl, ap, ◌∙◌, some, [], ◌∷◌, ◌++◌, arith, length, length-append, fault, Cmd,
}
use modbus_things.Base.Text.{Text, NoNul, before_nul-append}
use modbus_things.Mqtt.Bytes.{memcpy, memcpy-ok, overlay}
use modbus_things.Mymqtt.{mqtt_sub_callback}

overlay_nul :
    (msg rest : Text) (x : ℕ)
    → overlay (msg ++ (x ∷ rest)) (length msg) (0 ∷ []) 1 ≡ msg ++ (0 ∷ rest)
unfolding overlay
overlay_nul [] rest x = refl
overlay_nul (c ∷ msg) rest x =
    simp unary_clauses (ap (λ r. c ∷ r) (simp unary_clauses at (overlay_nul msg rest x)))

write_nul :
    (msg rest : Text) (x : ℕ)
    → memcpy (some (msg ++ (x ∷ rest))) (length msg) (0 ∷ []) 1 ≡ some (msg ++ (0 ∷ rest))
write_nul msg rest x =
    memcpy-ok (msg ++ (x ∷ rest)) (length msg) (0 ∷ []) 1
      (omega (arith, length-append msg (x ∷ rest))) (omega arith)
    ∙ ap some (overlay_nul msg rest x)

delivered :
    {S : Type 0} (on_message : Text → Cmd S (Unit {0})) (msg rest : Text) (x : ℕ) (s : S)
    → NoNul msg
    → mqtt_sub_callback on_message (msg ++ (x ∷ rest)) (length msg) s ≡ on_message msg s
unfolding mqtt_sub_callback
delivered on_message msg rest x s h =
    rw (write_nul msg rest x, mqtt_sub_callback, before_nul-append msg rest h) refl

past_end :
    {S : Type 0} (on_message : Text → Cmd S (Unit {0})) (msg : Text) (s : S)
    → mqtt_sub_callback on_message msg (length msg) s ≡ fault
unfolding mqtt_sub_callback memcpy
past_end on_message msg s = ground arith

-- A message without NUL reaches the handler as it came, if the buffer of the library has at least one
-- more byte; if the message fills the buffer, the NUL is written past its end.
pub rt_sub_callback_lem :
    {S : Type 0} (on_message : Text → Cmd S (Unit {0})) (msg rest : Text) (x : ℕ) (s : S)
    → NoNul msg
    → (mqtt_sub_callback on_message (msg ++ (x ∷ rest)) (length msg) s ≡ on_message msg s)
      × (mqtt_sub_callback on_message msg (length msg) s ≡ fault)
rt_sub_callback_lem on_message msg rest x s h =
    (delivered on_message msg rest x s h, past_end on_message msg s)
