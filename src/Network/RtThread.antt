-- ===== src/Network/RtThread.antt =====
-- src/os/RT-Thread/src/MBT_osNetwork.c. The driver of the network is a parameter: whether it is up, and
-- the answers to the pings; the codes of a ping are numbers of RT-Thread. A device of the family is taken
-- to be there: the code uses what `netdev_get_by_family` gives without a test for NULL.
use modbus_things.Base.{
  ◌≡◌, refl, Bool, true, false, ◌||◌, ◌&&◌, Option, none, some, List, [], ◌∷◌, ◌++◌, if◌then◌else◌,
}
use mathlib.Core.Option
use modbus_things.Base.Int.{ℤ, pos, is_zero, eq_ℤ}
use modbus_things.Attributes.Setup.{NetState, offline, online, MdbNetwork}

-- `get_net_state`, by what `netdev_is_internet_up` gives
unfoldable pub get_net_state : Bool → NetState
get_net_state up = if up then online else offline

-- a ping: its code, and the states of the network that are seen after it
pub record Ping : Type 0 where
  pub code : ℤ
  pub later : List NetState

module _ (rt_error rt_etimeout : ℤ) where
  -- The two codes after which a ping is repeated.
  abbrev pub is_retried : Ping → Bool
  is_retried p = eq_ℤ p.code rt_etimeout || eq_ℤ p.code rt_error

  -- `wait_for_ready`, with the pings that come: the one whose code it returns
  unfoldable pub wait_for_ready : List Ping → ℤ → Option Ping
  wait_for_ready [] timeout = none
  wait_for_ready (p ∷ ps) timeout =
      let rest = wait_for_ready ps timeout in
      if is_zero timeout && is_retried p then rest else some p

  -- the service, over the pings that come
  abbrev pub rt_thread : List Ping → MdbNetwork
  rt_thread ps = record {
    wait_for_ready = λ timeout l. Option.map (λ p. p.later) (wait_for_ready ps timeout);
  }

  abbrev pub AllRetried : List Ping → Type 0
  AllRetried [] = Unit
  AllRetried (p ∷ ps) = (is_retried p ≡ true) × AllRetried ps

  -- With no timeout, wait_for_ready repeats the ping for as long as its code is -RT_ETIMEOUT or
  -- -RT_ERROR, and returns at the first other one; while there is none it does not return. With a
  -- timeout it returns after one ping, whatever its code.
  pub wait_for_ready_lem :
      (failed : List Ping) (p : Ping) (ps : List Ping) (timeout : ℤ)
      → AllRetried failed
      → (is_retried p ≡ false → wait_for_ready (failed ++ (p ∷ ps)) (pos 0) ≡ some p)
        × (wait_for_ready failed (pos 0) ≡ none)
        × (is_zero timeout ≡ false → wait_for_ready (p ∷ ps) timeout ≡ some p)
  unfolding wait_for_ready
  wait_for_ready_lem [] p ps timeout a = (λ h. rw h refl, refl, λ h. rw h refl)
  wait_for_ready_lem (f ∷ fs) p ps timeout a =
      let (x, y, z) = wait_for_ready_lem fs p ps timeout a.1 in (λ h. rw (a.0) (x h), rw (a.0) y, z)
