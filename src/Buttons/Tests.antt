-- ===== src/Buttons/Tests.antt =====
-- The live button held, polled and let go.
use mitcbcu.Common.{◌≡◌, refl, [], ◌∷◌}
use mitcbcu.Buttons.{
  Pins, released, get_live_extern_button_state, get_d2p_extern_button_state,
  get_mr_extern_button_state, get_ptt_state,
}
use mitcbcu.Buttons.Debounce.{without_ptt, with_ptt, sampled}
use mitcbcu.Buttons.Presses.{polled_lem}

-- No key is down, and the live key is.
abbrev no_key : Pins
no_key = record { ptt = 1; key_1 = 1; key_2 = 1; cc_result = 1; key_4 = 1; hd = 0 }

abbrev live_key : Pins
live_key = record no_key { key_1 = 0 }

polled_lem_example :
    let t = sampled released (with_ptt live_key ∷ without_ptt live_key ∷ []) in
    ((get_live_extern_button_state t).1 ≡ 1)
    × ((get_d2p_extern_button_state t).1 ≡ 0)
    × ((get_mr_extern_button_state t).1 ≡ 0)
polled_lem_example =
    polled_lem released (with_ptt live_key ∷ without_ptt live_key ∷ [])
      (refl, refl, refl, refl, refl)

ptt_held : get_ptt_state (record released { ppt_state_flag = 2 }) ≡ 1
unfolding get_ptt_state
ptt_held = refl
