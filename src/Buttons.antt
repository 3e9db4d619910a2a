-- ===== src/Buttons.antt =====
-- The buttons of 1.0.x/ProdExplUnits/sourcecode/bcu_extern_button.cxx: two functions that sample the
-- pins into counters, and the functions that turn the counters into presses. `read_cc_key` has no
-- return statement, so that what its call gives is an input, which need not be the pin of that key;
-- printing is left out.
pub mod Debounce
pub mod Presses
mod Tests
use mitcbcu.Common.{ℕ, ◌+◌, Bool, true, false, ◌&&◌, if◌then◌else◌, ltb, leb, ◌==◌, u8}

-- What the calls that read the pins give; a key is down at 0, and a plug is in at 1. What read_cc_key
-- gives is not the pin, but whatever a call without a return statement leaves.
pub record Pins : Type 0 where
  pub ptt : ℕ
  pub key_1 : ℕ
  pub key_2 : ℕ
  pub cc_result : ℕ  -- of read_cc_key
  pub key_4 : ℕ
  pub hd : ℕ

-- The variables of the file, and the four of other files that trace where the threads are.
pub record Buttons : Type 0 where
  pub ppt_state_flag : ℕ
  pub pa_state_flag : ℕ
  pub pc_state_flag : ℕ
  pub cc_state_flag : ℕ
  pub mr_state_flag : ℕ
  pub out_3d5_state_flag : ℕ
  pub whether_live_button_is_pressed : ℕ
  pub whether_d2p_button_is_pressed : ℕ
  pub whether_d2d_button_is_pressed : ℕ
  pub whether_monitor_button_is_pressed : ℕ
  pub control_flag : ℕ
  pub last_control_flag : ℕ
  pub sample_flag : ℕ
  pub last_sample_flag : ℕ

-- The variables when the program starts; the trace variables are set elsewhere.
abbrev pub released : Buttons
released = record {
  ppt_state_flag = 0;
  pa_state_flag = 0;
  pc_state_flag = 0;
  cc_state_flag = 0;
  mr_state_flag = 0;
  out_3d5_state_flag = 0;
  whether_live_button_is_pressed = 0;
  whether_d2p_button_is_pressed = 0;
  whether_d2d_button_is_pressed = 0;
  whether_monitor_button_is_pressed = 0;
  control_flag = 0;
  last_control_flag = 0;
  sample_flag = 0;
  last_sample_flag = 0;
}

-- One sample of a key into its counter.
pub count_key : Bool → ℕ → ℕ
count_key active flag = if active then (if leb 100 flag then 100 else u8 (flag + 1)) else 0

-- The samples that the two functions share.
abbrev pub count_keys : Pins → Buttons → Buttons
count_keys p s = record s {
  pa_state_flag = count_key (p.key_1 == 0) s.pa_state_flag;
  pc_state_flag = count_key (p.key_2 == 0) s.pc_state_flag;
  cc_state_flag = count_key (p.cc_result == 0) s.cc_state_flag;
  mr_state_flag = count_key (p.key_4 == 0) s.mr_state_flag;
  out_3d5_state_flag = count_key (p.hd == 1) s.out_3d5_state_flag;
}

abbrev pub trace_control : ℕ → Buttons → Buttons
trace_control n s = record s { last_control_flag = s.control_flag; control_flag = n }

abbrev pub trace_sample : ℕ → Buttons → Buttons
trace_sample n s = record s { last_sample_flag = s.sample_flag; sample_flag = n }

-- GetPAAllOuterButtonState.
pub get_pa_all_outer_button_state : Pins → Buttons → Buttons
get_pa_all_outer_button_state p s = trace_control 190 (trace_control 188 (count_keys p s))

-- GetPAAllOuterButtonState2.
pub get_pa_all_outer_button_state2 : Pins → Buttons → Buttons
get_pa_all_outer_button_state2 p s =
    let s' = record s { ppt_state_flag = count_key (p.ptt == 0) s.ppt_state_flag } in
    trace_sample 9 (trace_sample 7 (trace_sample 6 (trace_sample 5 (count_keys p s'))))

-- A counter and a pressed flag: the flag afterwards, and whether a press or a release is new.
pub data Edge : Type 0 where
  press : Edge
  release : Edge
  no_edge : Edge

pub edge : ℕ → ℕ → ℕ × Edge
edge flag pressed =
    if leb 2 flag && pressed == 0
    then (1, press)
    else if ltb flag 2 && pressed == 1
    then (0, release)
    else (pressed, no_edge)

abbrev pub live_result : Edge → ℕ
live_result press = 1
live_result release = 0
live_result no_edge = 3

abbrev pub press_result : Edge → ℕ
press_result press = 1
press_result release = 0
press_result no_edge = 0

-- GetLiveExternButtonState.
pub get_live_extern_button_state : Buttons → Buttons × ℕ
get_live_extern_button_state s =
    let (pressed, e) = edge s.pa_state_flag s.whether_live_button_is_pressed in
    (record s { whether_live_button_is_pressed = pressed }, live_result e)

-- GetMRExternButtonState.
pub get_mr_extern_button_state : Buttons → Buttons × ℕ
get_mr_extern_button_state s =
    let (pressed, e) = edge s.mr_state_flag s.whether_monitor_button_is_pressed in
    (record s { whether_monitor_button_is_pressed = pressed }, press_result e)

-- GetD2PExternButtonState.
pub get_d2p_extern_button_state : Buttons → Buttons × ℕ
get_d2p_extern_button_state s =
    let (pressed, e) = edge s.pc_state_flag s.whether_d2p_button_is_pressed in
    (record s { whether_d2p_button_is_pressed = pressed }, press_result e)

-- GetD2DExternButtonState.
pub get_d2d_extern_button_state : Buttons → Buttons × ℕ
get_d2d_extern_button_state s =
    let (pressed, e) = edge s.cc_state_flag s.whether_d2d_button_is_pressed in
    (record s { whether_d2d_button_is_pressed = pressed }, press_result e)

-- GetPTTState.
pub get_ptt_state : Buttons → ℕ
get_ptt_state s = if leb 2 s.ppt_state_flag then 1 else 0
