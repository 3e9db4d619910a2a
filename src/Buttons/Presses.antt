-- ===== src/Buttons/Presses.antt =====
-- The presses and releases that the functions of the buttons report.
use mitcbcu.Common.{
  ℕ, ◌≡◌, ap, arith, List, [], ◌∷◌, Bool, ◌&&◌, not, if◌then◌else◌, ltb, leb, min, ◌==◌, ◌⊎◌, inl,
  inr, Bool-cases,
}
use mitcbcu.Buttons.{
  Pins, Buttons, edge, Edge, press, release, no_edge, live_result, get_live_extern_button_state,
  get_pa_all_outer_button_state, get_pa_all_outer_button_state2, get_mr_extern_button_state,
  get_d2p_extern_button_state, press_result,
}
use mitcbcu.Buttons.Debounce.{held, pins, Sample, sampled, IsUncounted, sampled_lem, sampled_flags}

-- The threads' calls, in the order they take effect: samples, and polls of the live button.
pub data Call : Type 0 where
  sample : Pins → Call
  sample_with_ptt : Pins → Call
  poll : Call

-- What the polls return.
pub polls : Buttons → List Call → List ℕ
polls s [] = []
polls s (sample p ∷ cs) = polls (get_pa_all_outer_button_state p s) cs
polls s (sample_with_ptt p ∷ cs) = polls (get_pa_all_outer_button_state2 p s) cs
polls s (poll ∷ cs) = let (s', ret) = get_live_extern_button_state s in ret ∷ polls s' cs

-- Polls that return 3 for nothing new, and 1 for a press and 0 for a release in turn.
abbrev pub IsAlternating : ℕ → List ℕ → Type 0
IsAlternating pressed [] = Unit
IsAlternating pressed (n ∷ ns) =
    ((n ≡ 3) × IsAlternating pressed ns)
    ⊎ (((pressed ≡ 0) × (n ≡ 1) × IsAlternating 1 ns)
        ⊎ ((pressed ≡ 1) × (n ≡ 0) × IsAlternating 0 ns))

-- What a poll may find, for a pressed flag.
abbrev IsEdge : ℕ → ℕ × Edge → Type 0
IsEdge pressed r =
    ((r ≡ (pressed, no_edge)))
    ⊎ (((pressed ≡ 0) × (r ≡ (1, press))) ⊎ ((pressed ≡ 1) × (r ≡ (0, release))))

edge-cases : (flag pressed : ℕ) → IsEdge pressed (edge flag pressed)
unfolding edge
edge-cases flag pressed = elim (Bool-cases (leb 2 flag && pressed == 0)) [
  | inl a ↦ inr (inl (ground arith, ground arith))
  | inr a ↦ elim (Bool-cases (ltb flag 2 && pressed == 1)) [
    | inl b ↦ inr (inr (ground arith, ground arith))
    | inr b ↦ inl (ground arith)
  ]
]

reported :
    (pressed : ℕ) (r : ℕ × Edge) (ns : List ℕ)
    → IsEdge pressed r
    → IsAlternating r.0 ns
    → IsAlternating pressed (live_result r.1 ∷ ns)
reported pressed r ns (inl e) a = inl (ap (λ x. live_result x.1) e, rw⁻¹ (ap (λ x. x.0) e) a)
reported pressed r ns (inr (inl (z, e))) a =
    inr (inl (z, ap (λ x. live_result x.1) e, rw⁻¹ (ap (λ x. x.0) e) a))
reported pressed r ns (inr (inr (z, e))) a =
    inr (inr (z, ap (λ x. live_result x.1) e, rw⁻¹ (ap (λ x. x.0) e) a))

-- Whatever samples are taken between them, the polls of the live button report a press and a release
-- in turn, first the press if none is reported yet.
pub polls-IsAlternating :
    (s : Buttons) (cs : List Call) → IsAlternating s.whether_live_button_is_pressed (polls s cs)
unfolding polls get_live_extern_button_state get_pa_all_outer_button_state
    get_pa_all_outer_button_state2
polls-IsAlternating s [] = tt
polls-IsAlternating s (sample p ∷ cs) = polls-IsAlternating (get_pa_all_outer_button_state p s) cs
polls-IsAlternating s (sample_with_ptt p ∷ cs) =
    polls-IsAlternating (get_pa_all_outer_button_state2 p s) cs
polls-IsAlternating s (poll ∷ cs) =
    let (s', ret) = get_live_extern_button_state s in
    reported s.whether_live_button_is_pressed
      (edge s.pa_state_flag s.whether_live_button_is_pressed) (polls s' cs)
      (edge-cases s.pa_state_flag s.whether_live_button_is_pressed) (polls-IsAlternating s' cs)

-- A key that was down for two samples is down.
abbrev pub is_down {ℓ} : {A : Type ℓ} → (A → Bool) → List A → Bool
is_down f xs = leb 2 (held f xs)

abbrev pub new_press : Bool → ℕ → ℕ
new_press down pressed = if down && pressed == 0 then 1 else 0

live-edge :
    (flag pressed h w : ℕ)
    → flag ≡ min 100 h
    → pressed ≡ w
    → live_result (edge flag pressed).1
      ≡ (if leb 2 h && w == 0 then 1 else if not (leb 2 h) && w == 1 then 0 else 3)
unfolding edge
live-edge flag pressed h w e f = ground arith

press-edge :
    (flag pressed h w : ℕ)
    → flag ≡ min 100 h
    → pressed ≡ w
    → press_result (edge flag pressed).1 ≡ new_press (leb 2 h) w
unfolding edge
press-edge flag pressed h w e f = ground arith

-- With the counters 0 before any samples: the functions that the threads poll for the live, the D2P and
-- the monitor button take its key for pressed if it was down in the last two samples. For the live button a poll returns 1 if it is
-- pressed and no press is reported yet, 0 if it is not and one is, and else 3; for the others it
-- returns 1 in the first case, and else 0.
pub polled_lem :
    (s : Buttons) (xs : List Sample)
    → IsUncounted s
    → let t = sampled s xs in
      let live = is_down (λ x. (pins x).key_1 == 0) xs in
      let w = s.whether_live_button_is_pressed in
      ((get_live_extern_button_state t).1
        ≡ (if live && w == 0 then 1 else if not live && w == 1 then 0 else 3))
      × ((get_d2p_extern_button_state t).1
          ≡ new_press (is_down (λ x. (pins x).key_2 == 0) xs) s.whether_d2p_button_is_pressed)
      × ((get_mr_extern_button_state t).1
          ≡ new_press (is_down (λ x. (pins x).key_4 == 0) xs) s.whether_monitor_button_is_pressed)
unfolding get_live_extern_button_state get_d2p_extern_button_state get_mr_extern_button_state
polled_lem s xs z =
    let (pa, pc, _, mr, _) = sampled_lem s xs z in
    let (live, d2p, _, monitor) = sampled_flags s xs in
    (live-edge _ _ _ _ pa live, press-edge _ _ _ _ pc d2p, press-edge _ _ _ _ mr monitor)
