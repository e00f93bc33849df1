-- ===== src/Network/Linux.antt =====
-- src/os/Linux/src/MBT_osNetwork.c. What `getaddrinfo` gives is an argument, and so are its code for a
-- failure that may pass, EAI_AGAIN, and the size of an IPv4 address.
use modbus_things.Base.{
  ℕ, suc, ◌+◌, ◌≡◌, refl, Bool, true, false, ◌&&◌, not, some, List, [], ◌∷◌, map, arith, ◌==◌,
  if◌then◌else◌, ok, Cmd, pure, ◌>>=◌, ap,
}
use modbus_things.Base.Int.{ℤ, is_zero, is_neg, eq_ℤ}
use modbus_things.Attributes.Setup.{NetState, unknown, offline, online, MdbNetwork}

-- a call of `getaddrinfo`: its code, and where that is 0 the length of the first address
pub record Answer : Type 0 where
  pub code : ℤ
  pub ai_addrlen : ℕ

-- `wait_for_ready`: it returns 0 at once.
abbrev pub linux : MdbNetwork
linux = record { wait_for_ready = λ timeout l. some l }

module _ (eai_again : ℤ) (sizeof_sockaddr_in : ℕ) where
  -- what `get_net_state` makes of the code
  unfoldable pub state_of : ℤ → NetState
  state_of rc = if eq_ℤ rc eai_again then offline else (if is_neg rc then unknown else online)

  -- the lists that are allocated after a call
  abbrev lists_after : Answer → ℕ → ℕ
  lists_after a lists =
      if is_zero a.code
      then (if a.ai_addrlen == sizeof_sockaddr_in then lists else suc lists)
      else lists

  -- `get_net_state`; its state is how many lists of addresses are allocated. A list is freed only if
  -- its first address has the size of an IPv4 one.
  unfoldable pub get_net_state : Answer → Cmd ℕ NetState
  get_net_state a lists = ok (state_of a.code) (lists_after a lists)

  -- the calls one after the other
  unfoldable pub get_net_states : List Answer → Cmd ℕ (List NetState)
  get_net_states [] = pure []
  get_net_states (a ∷ l) = do n ← get_net_state a; ns ← get_net_states l; pure (n ∷ ns)

  -- how many of the answers are of a name that has been found, with another address first
  abbrev pub not_freed : List Answer → ℕ
  not_freed [] = 0
  not_freed (a ∷ l) =
      let rest = not_freed l in
      if is_zero a.code && not (a.ai_addrlen == sizeof_sockaddr_in) then suc rest else rest

  -- Any number of calls of get_net_state give the states of their codes, and leave one more list of
  -- addresses allocated for each name that was found with a first address that does not have the size of an IPv4 one.
  pub get_net_states_lem :
      (l : List Answer) (lists : ℕ)
      → get_net_states l lists ≡ ok (map (λ a. state_of a.code) l) (lists + not_freed l)
  unfolding get_net_states get_net_state
  get_net_states_lem [] lists = ap (λ n. ok [] n) (omega arith)
  get_net_states_lem (a ∷ l) lists = rw (get_net_states_lem l (lists_after a lists)) (
      ap (λ n. ok (state_of a.code ∷ map (λ b. state_of b.code) l) n)
        (counted (is_zero a.code) (a.ai_addrlen == sizeof_sockaddr_in)))
    where
      counted :
          (c d : Bool)
          → (if c then (if d then lists else suc lists) else lists) + not_freed l
            ≡ lists + (if c && not d then suc (not_freed l) else not_freed l)
      counted true true = refl
      counted true false = omega arith
      counted false d = refl
