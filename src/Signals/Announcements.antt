-- ===== src/Signals/Announcements.antt =====
-- What a command does to the announcements, by ANNStateHangle of
-- 1.0.x/ProdExplUnits/sourcecode/bcu_function.cxx.
use mitcbcu.Common.{
  ℕ, ◌≤◌, ◌≡◌, ◌≢◌, ◌⊎◌, inl, inr, refl, ap, sym, ◌∙◌, Bool, true, false, not, ◌&&◌, if◌then◌else◌,
  ◌==◌, List, [], ◌∷◌, some, arith, Bool-cases, if_ind, ==→eq, ==-of_ne,
}
use mitcbcu.Rules.{Handler, exit_of, enter_of}
use mitcbcu.StateMachine.{
  Command, Node, active_of, get_ann_state_priority, occ_event, live_ann_event, mic_3d5_outer_event,
  emerg_ann_event, manual_ann_event, tms_auto_ann_event, ann_idle, intercom_idle,
  d2d_intercomm_event, d2p_intercomm_event,
}
use mitcbcu.StateMachine.Priority.{AllNodes}
use mitcbcu.StateMachine.Exchange.{IsAnswer, exchange_priority, whether_over_package_lem}
use mitcbcu.Signals.{
  Request, Active, ann_state_handle, whether_want_to_exchange_state, no_owner, toggles,
  current_event,
}

-- The command starts its announcement, of a priority value that is not above the current one's, in
-- another state.
abbrev pub IsStart : List Node → ℕ → Command → ℕ → Type 0
IsStart nodes s c d =
    (d ≡ c.event_type_ann)
    × (d ≢ s)
    × (p : ℕ) × (q : ℕ) × (active : ℕ) × (active_of c ≡ some active)
    × (active ≢ 0)
    × (get_ann_state_priority nodes d ≡ some p)
    × (get_ann_state_priority nodes s ≡ some q)
    × (p ≤ q)

-- The command ends the announcement that is running.
abbrev pub IsEnd : ℕ → Command → ℕ → Type 0
IsEnd s c d = (active_of c ≡ some 0) × (c.event_type_ann ≡ s) × (d ≡ ann_idle)

-- A command that is wanted: it starts an announcement in another state, or ends the current one.
abbrev IsWanted : ℕ → Command → Type 0
IsWanted s c =
    ((c.event_type_ann ≢ s) × (active : ℕ) × (active_of c ≡ some active) × (active ≢ 0))
    ⊎ ((c.event_type_ann ≡ s) × (active_of c ≡ some 0))

toggles_wanted :
    (s e active : ℕ)
    → ((if not (s == e) then not (active == 0) else active == 0) ≡ true)
    → ((e ≢ s) × (active ≢ 0)) ⊎ ((e ≡ s) × (active ≡ 0))
toggles_wanted s e active h = elim (Bool-cases (s == e)) [
  | inl k ↦ inr (ground (arith, k), ground (arith, k, h))
  | inr k ↦ inl (ground (arith, k), ground (arith, k, h))
]

IsWanted-case :
    (s : ℕ) (c : Command) (e active : ℕ)
    → c.event_type_ann ≡ e
    → active_of c ≡ some active
    → toggles s e active ≡ true
    → IsWanted s c
IsWanted-case s c e active k h t = elim (toggles_wanted s e active t) [
  | inl (n, m) ↦ inl ((λ q. n (sym k ∙ q)), active, h, m)
  | inr (n, m) ↦ inr (k ∙ n, h ∙ ap some m)
]

-- A command about an announcement, and not about the intercom.
abbrev pub IsAnnouncement : Command → Type 0
IsAnnouncement c =
    (c.event_type_ann ≢ ann_idle)
    × (c.event_type_ann ≢ d2d_intercomm_event)
    × (c.event_type_ann ≢ d2p_intercomm_event)

wanted :
    (a b : ℕ) (r : Request)
    → IsAnnouncement r.command
    → whether_want_to_exchange_state a b r ≡ true
    → IsWanted a r.command
unfolding whether_want_to_exchange_state
wanted a b r (n, nd, np) =
    let P : Bool → Type 0 = λ x. x ≡ true → IsWanted a r.command in
    let same : current_event r ≡ r.command.event_type_ann = ground (arith, n) in
    if_ind P _ _ _
      (λ e t. case occ_event r.command.occ_active (sym same ∙ ==→eq _ _ e) (λ k. rw k refl) t)
      λ _.
        if_ind P _ _ _
          (λ e t.
            case live_ann_event r.command.live_active (sym same ∙ ==→eq _ _ e) (λ k. rw k refl) t)
          λ _.
            if_ind P _ _ _
              (λ e t.
                case mic_3d5_outer_event r.command.outer_3d5_active (sym same ∙ ==→eq _ _ e)
                  (λ k. rw k refl) t)
              λ _.
                if_ind P _ _ _
                  (λ e t.
                    case emerg_ann_event r.command.emerg_active (sym same ∙ ==→eq _ _ e)
                      (λ k. rw k refl) t)
                  λ _.
                    if_ind P _ _ _
                      (λ e t.
                        case manual_ann_event r.command.manual_active (sym same ∙ ==→eq _ _ e)
                          (λ k. rw k refl) t)
                      λ _.
                        if_ind P _ _ _
                          (λ e t.
                            case tms_auto_ann_event r.command.tms_auto_active
                              (sym same ∙ ==→eq _ _ e) (λ k. rw k refl) t)
                          λ _.
                            if_ind P _ _ _ (λ e t. absurd (nd (sym same ∙ ==→eq _ _ e)))
                              λ _.
                                if_ind P _ _ _ (λ e t. absurd (np (sym same ∙ ==→eq _ _ e)))
                                  λ _ t. cc
  where
    case :
        (e active : ℕ)
        → r.command.event_type_ann ≡ e
        → (r.command.event_type_ann ≡ e → active_of r.command ≡ some active)
        → toggles a e active ≡ true
        → IsWanted a r.command
    case e active k h t = IsWanted-case a r.command e active k (h k) t

-- An answer of BcuDynamicStateExchange to a command that is wanted.
abbrev pub IsResult : List Node → ℕ → Command → ℕ → List Handler → Type 0
IsResult nodes s c d hs =
    ((d ≡ s) × (hs ≡ []))
    ⊎ ((hs ≡ (exit_of s ∷ enter_of d ∷ [])) × (IsEnd s c d ⊎ IsStart nodes s c d))

result :
    (nodes : List Node) (s : ℕ) (c : Command) (d : ℕ) (hs : List Handler)
    → IsWanted s c
    → c.event_type_intercom ≡ intercom_idle
    → IsAnswer nodes s c (d, hs)
    → IsResult nodes s c d hs
result nodes s c d hs w i (inl h) = inl h
result nodes s c d hs (inl (n, _, _, _)) i (inr (h, inl (o, e, k))) = absurd (n e)
result nodes s c d hs (inr (e', w)) i (inr (h, inl (o, e, k))) = inr (h, inl (w, e, k))
result nodes s c d hs (inl (n, active, w, z)) i (inr (h, inr (o, k, p, q, hp, hq, l))) =
    inr (h, inr (k, (λ m. n (sym k ∙ m)), p, q, active, w, z, hp, hq, l))
result nodes s c d hs (inr (e, w)) i (inr (h, inr (o, k, p, q, hp, hq, l))) =
    absurd (ground (arith, o, e, whether_over_package_lem c i w))

-- A live announcement of the driver while the microphone has an owner.
abbrev pub is_busy : Active → Request → Bool
is_busy a r =
    r.command.event_type_ann == live_ann_event
    && (not (a.mic_owner == no_owner) && r.command.live_active == 1)

-- ANNStateHangle, on a list whose nodes lead to their own states and on a command about an announcement
-- and not about the intercom, changes the state of the announcements and runs handlers in two cases
-- only: the command starts its announcement in another state, of a priority value that is not above the
-- current one's, and it is not a live announcement of the driver while the microphone has an owner; or
-- it ends the announcement that is running, which leads to the idle state. The exit of the old state
-- and the enter of the new one run then. The intercom's state and the owner do not change.
pub ann_state_handle_lem :
    (nodes : List Node) (a : Active) (r : Request)
    → AllNodes nodes
    → IsAnnouncement r.command
    → r.command.event_type_intercom ≡ intercom_idle
    → let (a', r', hs) = ann_state_handle nodes a r in
      IsResult nodes a.ann_state r.command a'.ann_state hs
      × (a'.intercom_state ≡ a.intercom_state)
      × (a'.mic_owner ≡ a.mic_owner)
      × ((a'.ann_state ≡ a.ann_state) ⊎ (is_busy a r ≡ false))
unfolding ann_state_handle
ann_state_handle_lem nodes a r all ann i =
    elim (Bool-cases (whether_want_to_exchange_state a.ann_state a.intercom_state r)) [
      | inl w ↦ elim (Bool-cases (is_busy a r)) [
        | inl busy ↦ rw (==-of_ne _ _ ann.0, w, busy) (inl (refl, refl), refl, refl, inl refl)
        | inr free ↦
            rw (==-of_ne _ _ ann.0, w, free)
              (
                result nodes a.ann_state r.command _ _ (wanted a.ann_state a.intercom_state r ann w)
                    i (exchange_priority nodes a.ann_state r.command all),
                refl,
                refl,
                inr refl,
              )
      ]
      | inr w ↦ rw (==-of_ne _ _ ann.0, w) (inl (refl, refl), refl, refl, inl refl)
    ]
