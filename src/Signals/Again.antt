-- ===== src/Signals/Again.antt =====
-- A command that comes twice, for the intercom, by IntercomStateHangle of
-- 1.0.x/ProdExplUnits/sourcecode/bcu_function.cxx.
use mitcbcu.Common.{ℕ, ◌≡◌, ◌≢◌, inl, inr, refl, ap, sym, ◌∙◌, List, [], none, some, arith}
use mitcbcu.Rules.{Handler, rule_table_init}
use mitcbcu.Rules.Change.{reaction}
use mitcbcu.Rules.Intercom.{IsIntercom}
use mitcbcu.StateMachine.{ann_idle, occ_event}
use mitcbcu.Signals.{Request, Active, intercom_state_handle}
use mitcbcu.Signals.Intercom.{Wish, wish, granted, outcome, command_lem}

reaction-IsIntercom : (s : ℕ) (w : Wish) → IsIntercom s → IsIntercom (reaction s (granted s w)).0
reaction-IsIntercom s Wish.call_driver (inl i) = rw i (inr (inl refl))
reaction-IsIntercom s Wish.call_driver (inr (inl i)) = rw i (inr (inl refl))
reaction-IsIntercom s Wish.call_driver (inr (inr (inl i))) = rw i (inr (inr (inr refl)))
reaction-IsIntercom s Wish.call_driver (inr (inr (inr i))) = rw i (inr (inr (inr refl)))
reaction-IsIntercom s Wish.end_driver (inl i) = rw i (inl refl)
reaction-IsIntercom s Wish.end_driver (inr (inl i)) = rw i (inr (inl refl))
reaction-IsIntercom s Wish.end_driver (inr (inr (inl i))) = rw i (inr (inr (inl refl)))
reaction-IsIntercom s Wish.end_driver (inr (inr (inr i))) = rw i (inr (inr (inl refl)))
reaction-IsIntercom s Wish.call_passenger (inl i) = rw i (inr (inr (inl refl)))
reaction-IsIntercom s Wish.call_passenger (inr (inl i)) = rw i (inr (inl refl))
reaction-IsIntercom s Wish.call_passenger (inr (inr (inl i))) = rw i (inr (inr (inl refl)))
reaction-IsIntercom s Wish.call_passenger (inr (inr (inr i))) = rw i (inr (inr (inr refl)))
reaction-IsIntercom s Wish.end_passenger (inl i) = rw i (inl refl)
reaction-IsIntercom s Wish.end_passenger (inr (inl i)) = rw i (inr (inl refl))
reaction-IsIntercom s Wish.end_passenger (inr (inr (inl i))) = rw i (inl refl)
reaction-IsIntercom s Wish.end_passenger (inr (inr (inr i))) = rw i (inr (inr (inr refl)))
reaction-IsIntercom s Wish.nothing i = i

granted_again : (s : ℕ) (w : Wish) → IsIntercom s → granted (reaction s (granted s w)).0 w ≡ none
granted_again s Wish.nothing i = refl
granted_again s Wish.call_driver i = ground (arith, i)
granted_again s Wish.end_driver i = ground (arith, i)
granted_again s Wish.call_passenger i = ground (arith, i)
granted_again s Wish.end_passenger i = ground (arith, i)

kept :
    (a a' : Active) (r : Request) (hs : List Handler)
    → intercom_state_handle rule_table_init a r ≡ some (a', hs)
    → a'.ann_state ≡ a.ann_state
unfolding intercom_state_handle
kept a a' r hs h = ground (arith, h)

-- A command that is repeated runs no handler the second time: after IntercomStateHangle has handled it
-- once, as above, the same command keeps the state and runs nothing.
pub command_again :
    (a a' : Active) (r : Request) (hs : List Handler)
    → IsIntercom a.intercom_state
    → r.command.event_type_ann ≡ ann_idle
    → a.ann_state ≢ occ_event
    → intercom_state_handle rule_table_init a r ≡ some (a', hs)
    → outcome (intercom_state_handle rule_table_init a' r) ≡ some (a'.intercom_state, [])
command_again a a' r hs i quiet no_occ h =
    let s = a.intercom_state in
    let now : some (a'.intercom_state, hs) ≡ some (reaction s (granted s (wish r))) =
      ap outcome (sym h) ∙ command_lem a r i quiet no_occ in
    let state : a'.intercom_state ≡ (reaction s (granted s (wish r))).0 = cc in
    let next =
      command_lem a' r (rw state (reaction-IsIntercom s (wish r) i)) quiet
        (rw (kept a a' r hs h) no_occ) in
    let none_left : granted a'.intercom_state (wish r) ≡ none =
      rw state (granted_again s (wish r) i) in
    next ∙ ap (λ o. some (reaction a'.intercom_state o)) none_left
