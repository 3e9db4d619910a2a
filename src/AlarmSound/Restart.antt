-- ===== src/AlarmSound/Restart.antt =====
-- The sound of a passenger's request in 1.0.x/ProdExplUnits/sourcecode/bcu_intercom.cxx: it is started once,
-- and started again when the requests have gone.
use mitcbcu.Common.{ℕ, ◌<◌, ◌≡◌, ◌⊎◌, inl, inr, refl, arith, true, ltb-of_lt, ==-of_ne, ap, ◌∙◌, []}
use mitcbcu.AlarmSound.{
  AlarmSound, reset_play, init_play, start_or_broke, may_play, requests_changed,
}

-- While a request waits, BcuInitPlayAlarmAudioWhenD2pReq starts the sound at most once: called again
-- in the state that it has left, it changes nothing and calls nothing.
pub init_play-init_play :
    (s : AlarmSound) → 0 < s.request_number → init_play (init_play s).0 ≡ ((init_play s).0, [])
unfolding init_play
init_play-init_play s h = ground arith

-- The sound that is played, reset.
abbrev silent : AlarmSound → AlarmSound
silent s = record s { open_snd_playback = 0; pcu_alarm_playing_again = 0; pcu_alarm_playing = 0 }

reset_silent : (s : AlarmSound) → s.pcu_alarm_playing ≡ 1 → (reset_play s).0 ≡ silent s
unfolding reset_play
reset_silent s p = rw p refl

init_silent :
    (s : AlarmSound)
    → (s.snd_mode ≡ 1) ⊎ (s.snd_mode ≡ 2)
    → (init_play (silent s)).0 ≡ record (silent s) { pcu_alarm_playing = 1; open_snd_playback = 1 }
unfolding init_play
init_silent s (inl m) = rw m refl
init_silent s (inr m) = rw m refl

restarted :
    (s : AlarmSound)
    → (s.snd_mode ≡ 1) ⊎ (s.snd_mode ≡ 2)
    → may_play s ≡ true
    → (start_or_broke (silent s)).0
      ≡ record (silent s) { pcu_alarm_playing = 1; open_snd_playback = 1 }
unfolding start_or_broke
restarted s m y = rw y (init_silent s m)

changed_lem :
    (s : AlarmSound) (before : ℕ)
    → s.request_number ≡ 0
    → 0 < before
    → (requests_changed s before).0 ≡ (start_or_broke (reset_play s).0).0
unfolding requests_changed
changed_lem s before z b =
    rw z (rw (==-of_ne before 0 (omega arith)) (rw (ltb-of_lt 0 before b) refl))

-- When the number of requests falls to 0 while the sound is played, in one of the two modes of the
-- sound card and in states in which the sound may be played, bcu_main.cxx resets the sound and then
-- starts it again: the two flags say that it is played, though no request waits.
pub requests_changed_restarts :
    (s : AlarmSound) (before : ℕ)
    → s.request_number ≡ 0
    → 0 < before
    → s.pcu_alarm_playing ≡ 1
    → (s.snd_mode ≡ 1) ⊎ (s.snd_mode ≡ 2)
    → may_play s ≡ true
    → ((requests_changed s before).0.pcu_alarm_playing ≡ 1)
      × ((requests_changed s before).0.open_snd_playback ≡ 1)
      × ((requests_changed s before).0.request_number ≡ 0)
requests_changed_restarts s before z b p m y =
    let e =
      changed_lem s before z b
      ∙ ap (λ t. (start_or_broke t).0) (reset_silent s p)
      ∙ restarted s m y in
    (
      ap (λ t. t.pcu_alarm_playing) e,
      ap (λ t. t.open_snd_playback) e,
      ap (λ t. t.request_number) e ∙ z,
    )
