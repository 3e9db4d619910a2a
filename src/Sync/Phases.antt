-- ===== src/Sync/Phases.antt =====
-- The switch over the phases in BcuGdThreadEntry of 1.0.x/ProdExplUnits/sourcecode/bcu_gd_sync.cxx.
use mitcbcu.Common.{
  ℕ, ◌+◌, ◌-◌, ◌≡◌, ◌≤◌, ◌⊎◌, inl, inr, Bool, true, false, ◌&&◌, if◌then◌else◌, ◌==◌, ltb, leb,
  List, [], u8, arith, if_ind, ==→eq,
}
use mitcbcu.Sync.{
  stopped, running, is_running, is_timed_out, CcuServer, no_server, Sync, Output, send_db_sync_req,
  subevent_type_ready_sync_req,
}

-- case 0.
unfoldable pub phase_power_up : Sync → Sync
phase_power_up s =
    if s.ccu_enter_bep_phase
    then record s {
      current_phase = 1;
      timer = running;
      server_ccu_sync_cmd = false;
      bcu_to_ccu_net_ok = false;
      db_ccu_status = λ i. no_server;
    }
    else s

-- The comparisons of the flags and the counts of the two CCUs.
unfoldable pub server_by_count : CcuServer → CcuServer → ℕ → ℕ
server_by_count ccu1 ccu2 old =
    if ccu1.flag == 1 && ccu2.flag == 2
    then if ltb ccu1.connect_count ccu2.connect_count then 2 else old
    else if ccu1.flag == 2 && ccu2.flag == 1
    then if ltb ccu2.connect_count ccu1.connect_count then 1 else old
    else if ltb ccu1.connect_count ccu2.connect_count
    then 2
    else if ltb ccu2.connect_count ccu1.connect_count
    then 1
    else old

-- The pairing of BCU-1 with CCU-1 and of BCU-2 with CCU-2.
unfoldable pub server_by_pair : ℕ → CcuServer → CcuServer → ℕ → ℕ
server_by_pair dev_no ccu1 ccu2 old =
    if dev_no == 1
    then if ltb 0 ccu1.connect_count then 1 else if ltb 0 ccu2.connect_count then 2 else old
    else if dev_no == 2
    then if ltb 0 ccu2.connect_count then 2 else if ltb 0 ccu1.connect_count then 1 else old
    else old

unfoldable pub choose_server : Sync → ℕ
choose_server s =
    let ccu1 = s.db_ccu_status 1 in
    let ccu2 = s.db_ccu_status 2 in
    server_by_pair s.dev_no ccu1 ccu2 (server_by_count ccu1 ccu2 s.db_server_dev_no)

-- What case 1 sets once its request is in the send buffer.
abbrev pub await_ready : Sync → Sync
await_ready s = record s {
  timer = running;
  current_phase = 2;
  ready_package_request_timeouts = 0;
  ready_package_response_count = 0;
  ready_req_cmd = false;
}

-- Its request, to the CCU that it chooses.
abbrev pub ask_ready : Sync → Sync × List Output
ask_ready s =
    send_db_sync_req (record s { db_server_dev_no = choose_server s }) subevent_type_ready_sync_req
      (choose_server s)

-- case 1; `sent` is whether BlockBufferWrite takes the request.
unfoldable pub phase_choose : Sync → Bool → Sync × List Output
phase_choose s sent =
    if s.bcu_to_ccu_net_ok && s.ccu_enter_bep_phase
    then (if sent then await_ready (ask_ready s).0 else (ask_ready s).0, (ask_ready s).1)
    else (s, [])

-- What is reset in the cases 2 and 3, back to the phase of power up.
unfoldable pub reset : Sync → Sync
reset s = record s {
  bcu_to_ccu_net_ok = false;
  ccu_enter_bep_phase = false;
  bcu_update_finish = false;
  detect_active_ccu_count = 0;
  ready_package_response_count = 0;
  ready_package_request_timeouts = 0;
  receive_ccu_table_item_flag = false;
  table_package_timeouts = 0;
  server_ccu_sync_cmd = false;
  ready_req_cmd = false;
  current_phase = 0;
  db_ccu_status = λ i. no_server;
  timer = running;
}

abbrev pub enough_responses : Sync → Sync
enough_responses s =
    if leb 3 s.ready_package_response_count
    then record s {
      current_phase = 3;
      timer = running;
      table_package_timeouts = 0;
      update_start = true;
    }
    else s

-- case 2.
unfoldable pub phase_ready : Sync → Sync
phase_ready s = enough_responses (if leb 10 s.ready_package_request_timeouts then reset s else s)

-- The three alternatives behind the reset of case 3.
abbrev pub await_row : Sync → Sync
await_row s =
    if is_timed_out s.timer && (if s.receive_ccu_table_item_flag then false else true)
    then record s { timer = running; table_package_timeouts = u8 (s.table_package_timeouts + 1) }
    else if is_running s.timer && s.receive_ccu_table_item_flag
    then record s { timer = running; receive_ccu_table_item_flag = false }
    else if is_timed_out s.timer && s.receive_ccu_table_item_flag
    then record s { timer = running; receive_ccu_table_item_flag = false }
    else s

-- case 3.
unfoldable pub phase_table : Sync → Sync
phase_table s = await_row (if leb 10 s.table_package_timeouts then reset s else s)

-- case 4.
unfoldable pub phase_end : Sync → Sync
phase_end s = record s { timer = stopped; current_phase = 5; update_start = false }

unfoldable pub switch_phase : Sync → Bool → Sync × List Output
switch_phase s sent =
    if s.current_phase == 0
    then (phase_power_up s, [])
    else if s.current_phase == 1
    then phase_choose s sent
    else if s.current_phase == 2
    then (phase_ready s, [])
    else if s.current_phase == 3
    then (phase_table s, [])
    else if s.current_phase == 4
    then (phase_end s, [])
    else (s, [])

-- BCU-1 and BCU-2 choose the CCU of their own number if it answered, or else the other one if that
-- answered, whatever the flags and the numbers of answers are; if none answered they keep the one
-- that they had.
pub choose_server_lem :
    (s : Sync)
    → (s.dev_no ≡ 1) ⊎ (s.dev_no ≡ 2)
    → choose_server s ≡ (
        if ltb 0 (s.db_ccu_status s.dev_no).connect_count
        then s.dev_no
        else if ltb 0 (s.db_ccu_status (3 - s.dev_no)).connect_count
        then 3 - s.dev_no
        else s.db_server_dev_no)
unfolding choose_server server_by_pair server_by_count
choose_server_lem s (inl h) = rw h (ground arith)
choose_server_lem s (inr h) = rw h (ground arith)

-- To prove a property of the switch, for each of its cases.
pub switch_phase_ind :
    (P : Sync × List Output → Type 0) (s : Sync) (sent : Bool)
    → (s.current_phase ≡ 0 → P (phase_power_up s, []))
    → (s.current_phase ≡ 1 → P (phase_choose s sent))
    → (s.current_phase ≡ 2 → P (phase_ready s, []))
    → (s.current_phase ≡ 3 → P (phase_table s, []))
    → (s.current_phase ≡ 4 → P (phase_end s, []))
    → (5 ≤ s.current_phase → P (s, []))
    → P (switch_phase s sent)
unfolding switch_phase
switch_phase_ind P s sent h0 h1 h2 h3 h4 h5 =
    if_ind P _ _ _ (λ e. h0 (==→eq _ _ e))
      λ n0.
        if_ind P _ _ _ (λ e. h1 (==→eq _ _ e))
          λ n1.
            if_ind P _ _ _ (λ e. h2 (==→eq _ _ e))
              λ n2.
                if_ind P _ _ _ (λ e. h3 (==→eq _ _ e))
                  λ n3.
                    if_ind P _ _ _ (λ e. h4 (==→eq _ _ e))
                      λ n4. h5 (ground (arith, n0, n1, n2, n3, n4))
