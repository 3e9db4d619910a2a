-- ===== src/Signals/Intercom.antt =====
-- What a command does to the intercom, by IntercomStateHangle of
-- 1.0.x/ProdExplUnits/sourcecode/bcu_function.cxx on the table of rules of BCURuleTableInit.
use mitcbcu.Common.{
  ℕ, Bool-cases, ==-of_ne, ==→eq, ◌≡◌, ◌≢◌, inl, inr, refl, ap, ◌∙◌, Bool, true, false, not, ◌&&◌,
  if◌then◌else◌, ◌==◌, List, [], Option, none, some, arith,
}
use mitcbcu.Rules.{
  event_transfer_to_d2d_or_driver_call, event_ptt_or_driver_call, event_confirm_transfer_to_d2p,
  event_confirm_pcu_call, event_confirm_release_pcu, Handler, rule_table_init,
}
use mitcbcu.Rules.Change.{lookup, reaction}
use mitcbcu.Rules.Exchange.{exchange_lem, intercom_transitions}
use mitcbcu.Rules.Intercom.{IsIntercom}
use mitcbcu.StateMachine.{
  ann_idle, intercom_idle, occ_event, d2d_intercomm_event, d2p_intercomm_event,
  d2d_hangup_d2p_event,
}
use mitcbcu.Signals.{
  event_max, Request, Active, intercom_state_handle, exchange_intercom, note_pcu, get_event_type,
  ann_sig, intercom_sig, whether_want_to_exchange_state,
}

-- What a command of the intercom asks for.
pub data Wish : Type 0 where
  call_driver end_driver call_passenger end_passenger nothing : Wish

abbrev pub wish : Request → Wish
wish r =
    if r.command.event_type_intercom == d2d_intercomm_event
    then if r.d2d_intercomm_active == 1
      then Wish.call_driver
      else if r.d2d_intercomm_active == 0
      then Wish.end_driver
      else Wish.nothing
    else if r.command.event_type_intercom == d2p_intercomm_event
    then if r.d2p_intercomm_active == 1
      then Wish.call_passenger
      else if r.d2p_intercomm_active == 0
      then Wish.end_passenger
      else Wish.nothing
    else Wish.nothing

-- The states that the wishes lead to.
abbrev pub granted : ℕ → Wish → Option ℕ
granted s Wish.call_driver =
    if s == intercom_idle
    then some d2d_intercomm_event
    else if s == d2p_intercomm_event
    then some d2d_hangup_d2p_event
    else none
granted s Wish.end_driver = if s == d2d_hangup_d2p_event then some d2p_intercomm_event else none
granted s Wish.call_passenger = if s == intercom_idle then some d2p_intercomm_event else none
granted s Wish.end_passenger = if s == d2p_intercomm_event then some intercom_idle else none
granted s Wish.nothing = none

-- The state of the intercom and the handlers that ran.
abbrev pub outcome : Option (Active × List Handler) → Option (ℕ × List Handler)
outcome none = none
outcome (some (a, hs)) = some (a.intercom_state, hs)

-- The state that the code leads to.
abbrev answer : Active → Request → Option ℕ
answer a r =
    if not (r.command.event_type_intercom == intercom_idle)
      && whether_want_to_exchange_state a.ann_state a.intercom_state r
    then lookup intercom_transitions a.intercom_state (get_event_type a.intercom_state r)
    else none

exchange_outcome :
    (b : Active) (r : Request)
    → outcome (exchange_intercom rule_table_init b r)
      ≡ some (
          reaction b.intercom_state
            (lookup intercom_transitions b.intercom_state (get_event_type b.intercom_state r)))
exchange_outcome b r =
    ground (arith, exchange_lem b.intercom_state (get_event_type b.intercom_state r))

note_pcu-intercom_state :
    (a : Active) (r : Request) → (note_pcu a r).intercom_state ≡ a.intercom_state
note_pcu-intercom_state a r = ground arith

handle_outcome :
    (a : Active) (r : Request)
    → a.ann_state ≢ occ_event
    → outcome (intercom_state_handle rule_table_init a r)
      ≡ some (reaction a.intercom_state (answer a r))
unfolding intercom_state_handle
handle_outcome a r no_occ = elim (Bool-cases (r.command.event_type_intercom == intercom_idle)) [
  | inl e ↦ ground (arith, e)
  | inr e ↦ elim (Bool-cases (whether_want_to_exchange_state a.ann_state a.intercom_state r)) [
    | inl w ↦
        rw (w, e, ==-of_ne a.ann_state occ_event no_occ)
          (exchange_outcome (note_pcu a r) r
            ∙ ap (λ s. some (reaction s (lookup intercom_transitions s (get_event_type s r))))
                (note_pcu-intercom_state a r))
    | inr w ↦
        rw (w, e, ==-of_ne a.ann_state occ_event no_occ)
          (ap (λ s. some (s, [])) (note_pcu-intercom_state a r))
  ]
]

module _ (r : Request) (quiet : r.command.event_type_ann ≡ ann_idle) where
  signal_quiet : (s : ℕ) → get_event_type s r ≡ intercom_sig s r 0
  unfolding get_event_type ann_sig
  signal_quiet s = ground (arith, quiet)

  want_driver :
      (b s : ℕ)
      → r.command.event_type_intercom ≡ d2d_intercomm_event
      → whether_want_to_exchange_state b s r ≡ (
          if not (s == d2d_intercomm_event) && not (s == d2d_hangup_d2p_event)
          then true
          else r.d2d_intercomm_active == 0)
  unfolding whether_want_to_exchange_state
  want_driver b s e = rw (quiet, e) refl

  want_passenger :
      (b s : ℕ)
      → r.command.event_type_intercom ≡ d2p_intercomm_event
      → whether_want_to_exchange_state b s r ≡ (
          if not (s == d2p_intercomm_event) && r.d2p_intercomm_active == 0
          then false
          else if not (s == d2p_intercomm_event)
          then true
          else r.d2p_intercomm_active == 0)
  unfolding whether_want_to_exchange_state
  want_passenger b s e = rw (quiet, e) refl

  signal_driver :
      (s : ℕ)
      → r.command.event_type_intercom ≡ d2d_intercomm_event
      → get_event_type s r ≡ (
          if r.d2d_intercomm_active == 1
          then if s == d2p_intercomm_event
            then event_transfer_to_d2d_or_driver_call
            else event_ptt_or_driver_call
          else event_confirm_transfer_to_d2p)
  unfolding intercom_sig
  signal_driver s e = signal_quiet s ∙ rw e refl

  signal_passenger :
      (s : ℕ)
      → r.command.event_type_intercom ≡ d2p_intercomm_event
      → get_event_type s r ≡ (
          if r.d2p_intercomm_active == 1 then event_confirm_pcu_call else event_confirm_release_pcu)
  unfolding intercom_sig
  signal_passenger s e = signal_quiet s ∙ rw e refl

  signal_other :
      (s : ℕ)
      → (r.command.event_type_intercom == intercom_idle) ≡ false
      → (r.command.event_type_intercom == d2d_intercomm_event) ≡ false
      → (r.command.event_type_intercom == d2p_intercomm_event) ≡ false
      → get_event_type s r ≡ event_max
  unfolding intercom_sig
  signal_other s n e f = signal_quiet s ∙ rw (n, e, f) refl

driver_table :
    (s active : ℕ)
    → IsIntercom s
    → (if if not (s == d2d_intercomm_event) && not (s == d2d_hangup_d2p_event)
          then true
          else active == 0
        then lookup intercom_transitions s (
            if active == 1
            then if s == d2p_intercomm_event
              then event_transfer_to_d2d_or_driver_call
              else event_ptt_or_driver_call
            else event_confirm_transfer_to_d2p)
        else none)
      ≡ granted s (
          if active == 1
          then Wish.call_driver
          else if active == 0
          then Wish.end_driver
          else Wish.nothing)
driver_table s active (inl i) = rw i (ground arith)
driver_table s active (inr (inl i)) = rw i (ground arith)
driver_table s active (inr (inr (inl i))) = rw i (ground arith)
driver_table s active (inr (inr (inr i))) = rw i (ground arith)

passenger_table :
    (s active : ℕ)
    → IsIntercom s
    → (if if not (s == d2p_intercomm_event) && active == 0
          then false
          else if not (s == d2p_intercomm_event)
          then true
          else active == 0
        then lookup intercom_transitions s
            (if active == 1 then event_confirm_pcu_call else event_confirm_release_pcu)
        else none)
      ≡ granted s (
          if active == 1
          then Wish.call_passenger
          else if active == 0
          then Wish.end_passenger
          else Wish.nothing)
passenger_table s active (inl i) = rw i (ground arith)
passenger_table s active (inr (inl i)) = rw i (ground arith)
passenger_table s active (inr (inr (inl i))) = rw i (ground arith)
passenger_table s active (inr (inr (inr i))) = rw i (ground arith)

other_table :
    (s : ℕ) (b : Bool) → (if b then lookup intercom_transitions s event_max else none) ≡ none
other_table s b = ground arith

answer_lem :
    (a : Active) (r : Request)
    → IsIntercom a.intercom_state
    → r.command.event_type_ann ≡ ann_idle
    → answer a r ≡ granted a.intercom_state (wish r)
answer_lem a r i quiet = elim (Bool-cases (r.command.event_type_intercom == d2d_intercomm_event)) [
  | inl d ↦
      let e = ==→eq _ _ d in
      rw
        (
          want_driver r quiet a.ann_state a.intercom_state e,
          signal_driver r quiet a.intercom_state e,
          e,
        )
        (driver_table a.intercom_state r.d2d_intercomm_active i)
  | inr d ↦ elim (Bool-cases (r.command.event_type_intercom == d2p_intercomm_event)) [
    | inl p ↦
        let e = ==→eq _ _ p in
        rw
          (
            want_passenger r quiet a.ann_state a.intercom_state e,
            signal_passenger r quiet a.intercom_state e,
            e,
          )
          (passenger_table a.intercom_state r.d2p_intercomm_active i)
    | inr p ↦ elim (Bool-cases (r.command.event_type_intercom == intercom_idle)) [
      | inl n ↦ rw (n, d, p) refl
      | inr n ↦
          rw (signal_other r quiet a.intercom_state n d p, n, d, p)
            (other_table a.intercom_state
              (whether_want_to_exchange_state a.ann_state a.intercom_state r))
    ]
  ]
]

-- IntercomStateHangle in one of the four states of the intercom, on a command that is about no
-- announcement, without an announcement of the control centre: it faults on no command. A driver's
-- call is granted in the idle state, and during a passenger's call, which it puts on hold; the end of
-- a driver's call is granted only if it lets a passenger wait, and leads back to that call; a
-- passenger's call is granted in the idle state only, and its end in its own state only. A wish that
-- is granted runs the exit of the old state and the enter of the new one; any other command keeps the
-- state and runs nothing.
pub command_lem :
    (a : Active) (r : Request)
    → IsIntercom a.intercom_state
    → r.command.event_type_ann ≡ ann_idle
    → a.ann_state ≢ occ_event
    → outcome (intercom_state_handle rule_table_init a r)
      ≡ some (reaction a.intercom_state (granted a.intercom_state (wish r)))
command_lem a r i quiet no_occ =
    handle_outcome a r no_occ
    ∙ ap (λ o. some (reaction a.intercom_state o)) (answer_lem a r i quiet)
