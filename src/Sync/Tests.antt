-- ===== src/Sync/Tests.antt =====
-- Runs of the thread of 1.0.x/ProdExplUnits/sourcecode/bcu_gd_sync.cxx on concrete packages.
use mitcbcu.Common.{
  ℕ, ◌-◌, ◌≡◌, refl, List, [], ◌∷◌, ◌++◌, none, some, arith, replicate, if◌then◌else◌, ltb,
}
use mitcbcu.Sync.{
  Sync, Package, request, response, table_row, start, send_db_sync_req, send_common_net_response,
}
use mitcbcu.Sync.Phases.{
  choose_server, switch_phase, phase_power_up, phase_choose, phase_ready, phase_end,
  server_by_count, server_by_pair,
}
use mitcbcu.Sync.Receive.{
  Round, round, run, receive, receive_sync, receive_bep, receive_row, receive_ready, receive_end,
  repeat_bep, repeat_ready,
}
use mitcbcu.Sync.Bounds.{IsBounded, run-IsBounded}
use mitcbcu.Sync.Finish.{IsFinished, OnlyResponses, finished_lem}
use mitcbcu.Sync.Stall.{StillWaits, ready_stalls, timed_rounds}
use mitcbcu.Sync.Handshake.{quick, timed_out_turn}

-- "SERVER" where the code looks for it, and the flag of a main server.
abbrev context : ℕ → ℕ
context n =
    if ltb n 64
    then 0
    else if ltb n 65
    then 83
    else if ltb n 66
    then 69
    else if ltb n 67
    then 82
    else if ltb n 68
    then 86
    else if ltb n 69
    then 69
    else if ltb n 70
    then 82
    else if ltb n 105
    then 0
    else if ltb n 106
    then 1
    else 0

abbrev answer : ℕ → ℕ → Package
answer mask sequence = record {
  src_dev_number = 2;
  dst_dev_number = 1;
  event_type_common = 251;
  sequence = sequence;
  gd_sync_mask = mask;
  gd_sync_req = 1;
  gd_sync_res = 1;
  gd_sync_context = context;
}

abbrev demand : ℕ → Package
demand mask = record (answer mask 9) { gd_sync_res = 0; dst_dev_number = 251 }

abbrev update : List Round
update =
    timed_out_turn
    ∷ (replicate 7 (quick (some (answer 2 1)))
        ++ (replicate 3 (quick (some (answer 254 2))) ++ (quick none ∷ [])))

abbrev ended : Round
ended = quick (some (demand 255))

-- The first request goes to all, and the one for the tables to CCU-2, which is the one that answered.
update_output : (run (start 0 1) update).1 ≡ request 2 251 1 ∷ request 254 2 2 ∷ []
unfolding round start switch_phase phase_power_up phase_choose phase_ready choose_server
    server_by_count server_by_pair receive receive_sync receive_bep receive_ready repeat_bep
    repeat_ready send_db_sync_req
update_output = refl

-- A row is stored and answered, and after the end of the update it is only answered.
rows_output :
    (run (start 0 1) (quick (some (demand 17)) ∷ ended ∷ quick (some (demand 17)) ∷ [])).1
    ≡ response (demand 17) 1
      ∷ table_row (demand 17)
      ∷ response (demand 255) 1
      ∷ response (demand 17) 1
      ∷ []
unfolding round start switch_phase phase_power_up phase_end receive receive_sync receive_row
    receive_end repeat_bep repeat_ready send_common_net_response
rows_output = refl

run-IsBounded_example : IsBounded (run (start 0 1) (update ++ (ended ∷ []))).0
run-IsBounded_example = run-IsBounded 0 1 (update ++ (ended ∷ []))

finished_lem_example :
    IsFinished (run (round (start 0 1) ended).0 update).0
    × OnlyResponses (run (round (start 0 1) ended).0 update).1
finished_lem_example = finished_lem (start 0 1) ended update (refl, refl)

abbrev waiting : Sync
waiting = record (start 0 1) { current_phase = 2; ready_package_response_count = 1 }

ready_stalls_example : StillWaits waiting (run waiting (timed_rounds 20)).0
unfolding start
ready_stalls_example = ready_stalls waiting (timed_rounds 20) (omega arith) (omega arith)

-- BCU-1 when only CCU-2 answered.
abbrev only_ccu2 : Sync
only_ccu2 = record (start 0 1) { db_ccu_status = λ i. record { flag = i; connect_count = i - 1 } }
