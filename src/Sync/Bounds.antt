-- ===== src/Sync/Bounds.antt =====
-- The counters of BcuGdThreadEntry in 1.0.x/ProdExplUnits/sourcecode/bcu_gd_sync.cxx never wrap.
use mitcbcu.Common.{ℕ, ◌≤◌, ◌≡◌, ◌⊎◌, inl, refl, Bool, List, [], ◌∷◌, Option, none, some, arith}
use mitcbcu.Sync.{Sync, Package, start, send_db_sync_req, expire}
use mitcbcu.Sync.Phases.{
  switch_phase, switch_phase_ind, phase_power_up, phase_choose, phase_ready, phase_table, phase_end,
  reset, choose_server, server_by_pair, server_by_count,
}
use mitcbcu.Sync.Receive.{
  receive, receive_sync, receive_bep, receive_row, receive_ready, receive_end, repeat_bep,
  repeat_ready, Round, part1, part2, part3, part4, round, run,
}

-- The bounds between the turns of the loop, and behind its switch, where phase 2 has had less than
-- three responses and less than ten time-outs.
pub record IsBounded (s : Sync) : Type 0 where
  pub phase : s.current_phase ≤ 5
  pub detections : s.detect_active_ccu_count ≤ 5
  pub responses : s.ready_package_response_count ≤ 3
  pub timeouts : s.ready_package_request_timeouts ≤ 10
  pub rows : s.table_package_timeouts ≤ 10
  pub server : (s.db_server_dev_no ≡ 1) ⊎ (s.db_server_dev_no ≡ 2)

pub record IsSwitched (s : Sync) : Type 0 where
  pub bounded : IsBounded s
  pub few_responses : s.current_phase ≡ 2 → s.ready_package_response_count ≤ 2
  pub few_timeouts : s.current_phase ≡ 2 → s.ready_package_request_timeouts ≤ 9

choose_server-le : (s : Sync) → IsBounded s → (choose_server s ≡ 1) ⊎ (choose_server s ≡ 2)
unfolding choose_server server_by_pair server_by_count
choose_server-le s b = ground (arith, b.server)

expire-IsBounded : (f : Bool) (s : Sync) → IsBounded s → IsBounded (expire f s)
expire-IsBounded f s b = record {
  phase = b.phase;
  detections = b.detections;
  responses = b.responses;
  timeouts = b.timeouts;
  rows = b.rows;
  server = b.server;
}

phase_ready-IsSwitched : (s : Sync) → IsBounded s → IsSwitched (phase_ready s)
unfolding phase_ready reset
phase_ready-IsSwitched s b = ground (arith, b.server)

phase_table-IsSwitched : (s : Sync) → s.current_phase ≡ 3 → IsBounded s → IsSwitched (phase_table s)
unfolding phase_table reset
phase_table-IsSwitched s e b = ground (arith, b.server)

phase_choose-IsSwitched :
    (s : Sync) (sent : Bool)
    → s.current_phase ≡ 1
    → IsBounded s
    → IsSwitched (phase_choose s sent).0
unfolding phase_choose send_db_sync_req
phase_choose-IsSwitched s sent e b = ground (arith, choose_server-le s b, b.server)

switch_phase-IsSwitched :
    (s : Sync) (sent : Bool) → IsBounded s → IsSwitched (switch_phase s sent).0
unfolding phase_power_up phase_end
switch_phase-IsSwitched s sent b =
    switch_phase_ind (λ r. IsSwitched r.0) s sent (λ e. ground (arith, b.server))
      (λ e. phase_choose-IsSwitched s sent e b) (λ e. phase_ready-IsSwitched s b)
      (λ e. phase_table-IsSwitched s e b) (λ e. ground (arith, b.server))
      (λ e. ground (arith, b.server))

receive_bep-IsBounded : (s : Sync) (p : Package) → IsBounded s → IsBounded (receive_bep s p)
unfolding receive_bep
receive_bep-IsBounded s p b = ground (arith, b.server)

receive_ready-IsBounded : (s : Sync) (p : Package) → IsSwitched s → IsBounded (receive_ready s p)
unfolding receive_ready
receive_ready-IsBounded s p v = ground (arith, v.bounded.server)

receive-IsBounded : (s : Sync) (o : Option Package) → IsSwitched s → IsBounded (receive s o).0
unfolding receive receive_sync receive_row receive_end
receive-IsBounded s none v = v.bounded
receive-IsBounded s (some p) v =
    ground
      (arith, v.bounded.server, receive_bep-IsBounded s p v.bounded, receive_ready-IsBounded s p v)

repeat-IsBounded :
    (s : Sync) → IsBounded s → IsBounded (repeat_bep s).0 × IsBounded (repeat_ready s).0
unfolding repeat_bep repeat_ready send_db_sync_req
repeat-IsBounded s b = ground (arith, b.server)

-- The state after each part of a turn.
abbrev AreBounded : Sync → Round → Type 0
AreBounded s r = IsBounded (part2 s r).0 × IsBounded (part3 s r).0 × IsBounded (part4 s r).0

round_parts : (s : Sync) (r : Round) → IsBounded s → AreBounded s r
round_parts s r b =
    let v = switch_phase-IsSwitched (expire r.before_switch s) r.sent (expire-IsBounded _ s b) in
    let b2 = receive-IsBounded (expire r.before_receive (part1 s r).0) r.waiting (record {
      bounded = expire-IsBounded _ _ v.bounded;
      few_responses = v.few_responses;
      few_timeouts = v.few_timeouts;
    }) in
    let b3 = (repeat-IsBounded _ (expire-IsBounded r.before_bep _ b2)).0 in
    (b2, b3, (repeat-IsBounded _ (expire-IsBounded r.before_ready _ b3)).1)

round-IsBounded : (s : Sync) (r : Round) → IsBounded s → IsBounded (round s r).0
unfolding round
round-IsBounded s r b = (round_parts s r b).2

run-IsBounded' : (s : Sync) (rs : List Round) → IsBounded s → IsBounded (run s rs).0
run-IsBounded' s [] b = b
run-IsBounded' s (r ∷ rs) b = run-IsBounded' (round s r).0 rs (round-IsBounded s r b)

-- Whatever packages come and whenever the alarm times out, from the start of the thread on: the phase
-- is one of 0 to 5, the counter of detections is at most 5, that of READY responses at most 3, those
-- of time-outs at most 10, so that none of these `unsigned char` counters wraps, and the server is
-- CCU-1 or CCU-2.
pub run-IsBounded :
    (serial dev_no : ℕ) (rs : List Round) → IsBounded (run (start serial dev_no) rs).0
unfolding start
run-IsBounded serial dev_no rs = run-IsBounded' _ rs (record {
  phase = omega arith;
  detections = omega arith;
  responses = omega arith;
  timeouts = omega arith;
  rows = omega arith;
  server = inl refl;
})
