-- ===== src/Sync/Handshake.antt =====
-- A CCU that answers, in the phases 0 to 3 of BcuGdThreadEntry in
-- 1.0.x/ProdExplUnits/sourcecode/bcu_gd_sync.cxx.
use mitcbcu.Common.{ℕ, ◌≡◌, true, false, [], Option, none, some, arith}
use mitcbcu.Sync.{
  running, Sync, Package, event_type_sys_update_sync, subevent_type_db_version_sync_bep,
}
use mitcbcu.Sync.Phases.{switch_phase, phase_choose}
use mitcbcu.Sync.Receive.{
  receive, receive_sync, receive_bep, repeat_bep, repeat_ready, Round, round,
}

-- A response of the kind `mask` to the request with this sequence.
pub record IsAnswer (mask sequence : ℕ) (p : Package) : Type 0 where
  pub kind : p.event_type_common ≡ event_type_sys_update_sync
  pub sub_event : p.gd_sync_mask ≡ mask
  pub req : p.gd_sync_req ≡ 1
  pub res : p.gd_sync_res ≡ 1
  pub to : p.sequence ≡ sequence

-- A turn in which a package comes, or none, before the alarm times out.
abbrev pub quick : Option Package → Round
quick o = record {
  before_switch = false;
  sent = true;
  before_receive = false;
  waiting = o;
  before_bep = false;
  before_ready = false;
}

-- A turn in which no package comes, and the alarm times out behind the reading.
abbrev pub timed_out_turn : Round
timed_out_turn = record (quick none) { before_bep = true }

-- Phase 0, after a request.
record IsCalling (serial : ℕ) (s : Sync) : Type 0 where
  phase : s.current_phase ≡ 0
  alarm : s.timer ≡ running
  waits : s.ccu_enter_bep_phase ≡ false
  unchosen : s.server_ccu_sync_cmd ≡ false
  detected : s.detect_active_ccu_count ≡ 0
  at : s.serial_number ≡ serial

-- The CCU has been heard.
record IsInvited (serial : ℕ) (s : Sync) : Type 0 where
  phase : s.current_phase ≡ 0
  entered : s.ccu_enter_bep_phase ≡ true
  detected : s.detect_active_ccu_count ≡ 0
  at : s.serial_number ≡ serial

-- Phase 1 with `n` answers.
record IsDetecting (serial n : ℕ) (s : Sync) : Type 0 where
  phase : s.current_phase ≡ 1
  entered : s.ccu_enter_bep_phase ≡ true
  alarm : s.timer ≡ running
  waits : s.bcu_to_ccu_net_ok ≡ false
  detected : s.detect_active_ccu_count ≡ n
  at : s.serial_number ≡ serial

record IsConnected (serial : ℕ) (s : Sync) : Type 0 where
  phase : s.current_phase ≡ 1
  entered : s.ccu_enter_bep_phase ≡ true
  connected : s.bcu_to_ccu_net_ok ≡ true
  at : s.serial_number ≡ serial

-- Phase 2 with `n` answers of the CCU `dest`.
record IsAsking (dest serial n : ℕ) (s : Sync) : Type 0 where
  phase : s.current_phase ≡ 2
  alarm : s.timer ≡ running
  timeouts : s.ready_package_request_timeouts ≡ 0
  answered : s.ready_package_response_count ≡ n
  server : s.db_server_dev_no ≡ dest
  at : s.serial_number ≡ serial

connected :
    (serial : ℕ) (p : Package) (s : Sync)
    → IsAnswer subevent_type_db_version_sync_bep serial p
    → IsDetecting serial 5 s
    → IsConnected serial (round s (quick (some p))).0 × ((round s (quick (some p))).1 ≡ [])
unfolding round switch_phase phase_choose receive receive_sync receive_bep repeat_bep repeat_ready
connected serial p s a v = ground (
  arith, a.kind, a.sub_event, a.req, a.res, a.to, v.phase, v.entered, v.alarm, v.waits, v.detected,
  v.at,
)
