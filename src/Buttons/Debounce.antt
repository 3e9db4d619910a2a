-- ===== src/Buttons/Debounce.antt =====
-- The counters of the buttons tell for how many samples a key has been down without a break.
use mitcbcu.Common.{
  ℕ, suc, ◌≡◌, refl, arith, List, [], ◌∷◌, Bool, true, false, if◌then◌else◌, ◌==◌, min,
}
use mitcbcu.Buttons.{
  Pins, Buttons, count_key, get_pa_all_outer_button_state, get_pa_all_outer_button_state2,
}

-- The last samples in a row, the latest one first, that hold.
abbrev pub held {ℓ} : {A : Type ℓ} → (A → Bool) → List A → ℕ
held f [] = 0
held f (x ∷ xs) = if f x then suc (held f xs) else 0

-- The state after samples, the latest one first; each is of either function.
pub data Sample : Type 0 where
  without_ptt : Pins → Sample
  with_ptt : Pins → Sample

abbrev pub pins : Sample → Pins
pins (without_ptt p) = p
pins (with_ptt p) = p

pub sampled : Buttons → List Sample → Buttons
sampled s [] = s
sampled s (without_ptt p ∷ xs) = get_pa_all_outer_button_state p (sampled s xs)
sampled s (with_ptt p ∷ xs) = get_pa_all_outer_button_state2 p (sampled s xs)

-- All counters but the one of the microphone's key are 0.
abbrev pub IsUncounted : Buttons → Type 0
IsUncounted s =
    (s.pa_state_flag ≡ 0)
    × (s.pc_state_flag ≡ 0)
    × (s.cc_state_flag ≡ 0)
    × (s.mr_state_flag ≡ 0)
    × (s.out_3d5_state_flag ≡ 0)

-- One more sample.
count_key_lem :
    (active : Bool) (flag n : ℕ)
    → flag ≡ min 100 n
    → count_key active flag ≡ min 100 (if active then suc n else 0)
unfolding count_key
count_key_lem true flag n e = ground arith
count_key_lem false flag n e = refl

-- With all counters 0 before, and after any samples of both functions, each of the
-- five counters is the number of the last samples in a row in which its key was down (for the plug,
-- in; for the D2D button, in which read_cc_key gave 0), up to 100.
pub sampled_lem :
    (s : Buttons) (xs : List Sample)
    → IsUncounted s
    → let t = sampled s xs in
      (t.pa_state_flag ≡ min 100 (held (λ x. (pins x).key_1 == 0) xs))
      × (t.pc_state_flag ≡ min 100 (held (λ x. (pins x).key_2 == 0) xs))
      × (t.cc_state_flag ≡ min 100 (held (λ x. (pins x).cc_result == 0) xs))
      × (t.mr_state_flag ≡ min 100 (held (λ x. (pins x).key_4 == 0) xs))
      × (t.out_3d5_state_flag ≡ min 100 (held (λ x. (pins x).hd == 1) xs))
unfolding sampled get_pa_all_outer_button_state get_pa_all_outer_button_state2
sampled_lem s [] z = z
sampled_lem s (without_ptt p ∷ xs) z =
    let (a, b, c, d, e) = sampled_lem s xs z in
    (
      count_key_lem _ _ _ a,
      count_key_lem _ _ _ b,
      count_key_lem _ _ _ c,
      count_key_lem _ _ _ d,
      count_key_lem _ _ _ e,
    )
sampled_lem s (with_ptt p ∷ xs) z =
    let (a, b, c, d, e) = sampled_lem s xs z in
    (
      count_key_lem _ _ _ a,
      count_key_lem _ _ _ b,
      count_key_lem _ _ _ c,
      count_key_lem _ _ _ d,
      count_key_lem _ _ _ e,
    )

-- Samples change no pressed flag.
pub sampled_flags :
    (s : Buttons) (xs : List Sample)
    → let t = sampled s xs in
      (t.whether_live_button_is_pressed ≡ s.whether_live_button_is_pressed)
      × (t.whether_d2p_button_is_pressed ≡ s.whether_d2p_button_is_pressed)
      × (t.whether_d2d_button_is_pressed ≡ s.whether_d2d_button_is_pressed)
      × (t.whether_monitor_button_is_pressed ≡ s.whether_monitor_button_is_pressed)
unfolding sampled get_pa_all_outer_button_state get_pa_all_outer_button_state2
sampled_flags s [] = (refl, refl, refl, refl)
sampled_flags s (without_ptt p ∷ xs) = sampled_flags s xs
sampled_flags s (with_ptt p ∷ xs) = sampled_flags s xs
