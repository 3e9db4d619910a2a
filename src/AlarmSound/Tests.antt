-- ===== src/AlarmSound/Tests.antt =====
-- The sound of 1.0.x/ProdExplUnits/sourcecode/bcu_intercom.cxx in the idle states.
use mitcbcu.Common.{◌≡◌, refl, arith, [], ◌∷◌, inl}
use mitcbcu.AlarmSound.{
  AlarmSound, init_play, reset_play, start_or_broke, requests_changed, close_sample_timer,
  clear_alarm_buffer, clear_pending_buffer, lamp, no_pcu_to_ccu, set_interval, open_sample_timer,
}
use mitcbcu.AlarmSound.Restart.{requests_changed_restarts}

abbrev requested : AlarmSound
requested = record {
  request_number = 1;
  open_snd_playback = 0;
  pcu_alarm_playing = 0;
  pcu_alarm_playing_again = 0;
  ann_state_id = 254;
  intercom_state_id = 255;
  other_bcu_intercomm_state = 255;
  snd_mode = 1;
}

abbrev gone : AlarmSound
gone = record requested { request_number = 0; open_snd_playback = 1; pcu_alarm_playing = 1 }

requests_changed_restarts_example :
    ((requests_changed gone 1).0.pcu_alarm_playing ≡ 1)
    × ((requests_changed gone 1).0.open_snd_playback ≡ 1)
    × ((requests_changed gone 1).0.request_number ≡ 0)
requests_changed_restarts_example =
    requests_changed_restarts gone 1 refl (omega arith) refl (inl refl) refl

-- The timer that the reset closes is opened again.
gone_output :
    (requests_changed gone 1).1
    ≡ close_sample_timer
      ∷ clear_alarm_buffer
      ∷ clear_pending_buffer
      ∷ lamp
      ∷ no_pcu_to_ccu
      ∷ clear_alarm_buffer
      ∷ clear_pending_buffer
      ∷ set_interval 22
      ∷ open_sample_timer
      ∷ []
unfolding requests_changed start_or_broke init_play reset_play
gone_output = refl
