-- ===== src/AlarmSound.antt =====
-- The sound that announces a passenger's request: BcuResetPlayAlarmAudioWhenD2pReq,
-- BcuInitPlayAlarmAudioWhenD2pReq and StartOrBrokeBroadcastPcuRequestAlarmAudioData of
-- 1.0.x/ProdExplUnits/sourcecode/bcu_intercom.cxx, and the part of bcu_main.cxx that calls them when the
-- number of requests changes. Buffers, timers and the lamp are outputs.
pub mod Restart
mod Tests
use mitcbcu.Common.{
  ℕ, ◌≡◌, Bool, true, false, not, ◌&&◌, ◌||◌, ◌==◌, ltb, if◌then◌else◌, List, [], ◌∷◌, ◌++◌,
}
use mitcbcu.StateMachine.{
  ann_idle, live_ann_event, emerg_ann_event, manual_ann_event, tms_manual_ann_event,
  tms_auto_ann_event, intercom_idle, d2p_intercomm_event,
}

pub data Output : Type 0 where
  close_sample_timer : Output
  open_sample_timer : Output
  set_interval : ℕ → Output
  clear_alarm_buffer : Output
  clear_pending_buffer : Output
  lamp : Output
  no_pcu_to_ccu : Output

-- The fields of `bcu_state` that are used: those of `pcu_request_info`, the identifiers of the active
-- states, and that of the other BCU; `snd_mode` is what GetSndCurrentMode returns.
pub record AlarmSound : Type 0 where
  pub request_number : ℕ
  pub open_snd_playback : ℕ
  pub pcu_alarm_playing : ℕ
  pub pcu_alarm_playing_again : ℕ
  pub ann_state_id : ℕ
  pub intercom_state_id : ℕ
  pub other_bcu_intercomm_state : ℕ
  pub snd_mode : ℕ

-- BcuResetPlayAlarmAudioWhenD2pReq.
unfoldable pub reset_play : AlarmSound → AlarmSound × List Output
reset_play s = (
  record s {
    open_snd_playback = 0;
    pcu_alarm_playing_again = 0;
    pcu_alarm_playing = if s.pcu_alarm_playing == 1 then 0 else s.pcu_alarm_playing;
  },
  close_sample_timer
      ∷ clear_alarm_buffer
      ∷ clear_pending_buffer
      ∷ ((if s.ann_state_id == live_ann_event then open_sample_timer ∷ [] else []) ++ (lamp ∷ [])),
)

-- BcuInitPlayAlarmAudioWhenD2pReq.
unfoldable pub init_play : AlarmSound → AlarmSound × List Output
init_play s =
    if (s.open_snd_playback == 0 && 2 == s.snd_mode)
      || (s.pcu_alarm_playing == 0 && 1 == s.snd_mode)
    then (
      record s { pcu_alarm_playing = 1; open_snd_playback = 1 },
      clear_alarm_buffer ∷ clear_pending_buffer ∷ set_interval 22 ∷ open_sample_timer ∷ [],
    )
    else if s.pcu_alarm_playing == 1 && 1 == s.snd_mode
    then (if s.request_number == 0 then reset_play s else (s, []))
    else (s, [])

-- StartOrBrokeBroadcastPcuRequestAlarmAudioData.
abbrev pub may_play : AlarmSound → Bool
may_play s =
    (s.intercom_state_id == intercom_idle
      && not (s.other_bcu_intercomm_state == d2p_intercomm_event))
    && (s.ann_state_id == ann_idle
        || (s.ann_state_id == emerg_ann_event
            || (s.ann_state_id == manual_ann_event
                || (s.ann_state_id == tms_manual_ann_event
                    || s.ann_state_id == tms_auto_ann_event))))

unfoldable pub start_or_broke : AlarmSound → AlarmSound × List Output
start_or_broke s = if may_play s then init_play s else (s, [])

-- The part of the loop in bcu_main.cxx behind an update of the requests, with their number before.
abbrev pub requests_gone : AlarmSound → ℕ → AlarmSound × List Output
requests_gone s before =
    if s.request_number == 0 && ltb 0 before
    then ((reset_play s).0, (reset_play s).1 ++ (no_pcu_to_ccu ∷ []))
    else (s, [])

unfoldable pub requests_changed : AlarmSound → ℕ → AlarmSound × List Output
requests_changed s before =
    let gone = requests_gone s before in
    if before == s.request_number
    then gone
    else ((start_or_broke gone.0).0, gone.1 ++ (start_or_broke gone.0).1)
