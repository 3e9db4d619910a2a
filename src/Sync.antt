-- ===== src/Sync.antt =====
-- The thread that fetches the database from a CCU, BcuGdThreadEntry of
-- 1.0.x/ProdExplUnits/sourcecode/bcu_gd_sync.cxx, with the functions that send for it. The state has
-- the variables of the thread, a flag that only gets 0 and 1 as a Bool. A round is one turn of the
-- endless loop: the switch over the phases, the package that is read if there is one, and the two
-- repetitions of a request. The thread's alarm may time out between any two of these parts, and
-- within a part the code asks only for states that a later time-out does not change. What a round
-- puts into the send buffer and into the tables is its output. What is printed, the delay of one
-- second before the end of the update is reported, and the packages that are only printed are left out.
pub mod Phases
pub mod Receive
pub mod Bounds
pub mod Finish
pub mod Stall
pub mod Handshake
mod Tests
use mitcbcu.Common.{
  ℕ, ◌+◌, Bool, true, false, not, ◌&&◌, ◌||◌, if◌then◌else◌, ◌==◌, ltb, leb, List, [], ◌∷◌, ◌++◌,
  Option, none, some, u32, u8, update,
}

-- What AlarmCheckTimeOut returns: -1, 0 and 1.
pub data Timer : Type 0 where
  stopped running timed_out : Timer

abbrev pub is_running : Timer → Bool
is_running stopped = false
is_running running = true
is_running timed_out = false

abbrev pub is_timed_out : Timer → Bool
is_timed_out stopped = false
is_timed_out running = false
is_timed_out timed_out = true

-- `ccu_server_table_t`.
pub record CcuServer : Type 0 where
  pub flag : ℕ
  pub connect_count : ℕ

abbrev pub no_server : CcuServer
no_server = record { flag = 0; connect_count = 0 }

-- The variables of BcuGdThreadEntry with those of `bcu_config_info` that it changes or compares, the
-- file's serial number, and what it sets for other threads.
pub record Sync : Type 0 where
  pub serial_number : ℕ
  pub dev_no : ℕ
  pub db_server_dev_no : ℕ
  pub db_ccu_status : ℕ → CcuServer
  pub timer : Timer
  pub server_ccu_sync_cmd : Bool
  pub bcu_to_ccu_net_ok : Bool
  pub ccu_enter_bep_phase : Bool
  pub bcu_update_finish : Bool
  pub detect_active_ccu_count : ℕ
  pub ready_req_cmd : Bool
  pub ready_package_response_count : ℕ
  pub ready_package_request_timeouts : ℕ
  pub receive_ccu_table_item_flag : Bool
  pub table_package_timeouts : ℕ
  pub current_phase : ℕ
  pub update_start : Bool
  pub data_from_ccu_state : ℕ

-- The state in which the loop starts on a BCU of this number.
pub start : ℕ → ℕ → Sync
start serial dev_no = record {
  serial_number = serial;
  dev_no = dev_no;
  db_server_dev_no = 1;
  db_ccu_status = λ i. no_server;
  timer = running;
  server_ccu_sync_cmd = false;
  bcu_to_ccu_net_ok = false;
  ccu_enter_bep_phase = false;
  bcu_update_finish = false;
  detect_active_ccu_count = 0;
  ready_req_cmd = false;
  ready_package_response_count = 0;
  ready_package_request_timeouts = 0;
  receive_ccu_table_item_flag = false;
  table_package_timeouts = 0;
  current_phase = 0;
  update_start = false;
  data_from_ccu_state = 0;
}

-- The fields of a `common_big_package_t` that the thread looks at; an `int` by its bits, and the
-- context by its bytes.
pub record Package : Type 0 where
  pub src_dev_number : ℕ
  pub dst_dev_number : ℕ
  pub event_type_common : ℕ
  pub sequence : ℕ
  pub gd_sync_mask : ℕ
  pub gd_sync_req : ℕ
  pub gd_sync_res : ℕ
  pub gd_sync_context : ℕ → ℕ

-- What is handed to the send buffer or stored: a request by its sub-event, the number of its
-- destination and its sequence; a response by the package that it
-- answers and the number of the sender in it; a row of a table that is stored.
pub data Output : Type 0 where
  request : ℕ → ℕ → ℕ → Output
  response : Package → ℕ → Output
  table_row : Package → Output

abbrev pub event_type_sys_update_sync : ℕ
event_type_sys_update_sync = 251

abbrev pub subevent_type_db_version_sync_bep : ℕ
subevent_type_db_version_sync_bep = 2

abbrev pub subevent_type_db_server_changed : ℕ
subevent_type_db_server_changed = 3

abbrev pub subevent_type_line_station_table_sync : ℕ
subevent_type_line_station_table_sync = 17

abbrev pub subevent_type_station_bcu_ts_password : ℕ
subevent_type_station_bcu_ts_password = 32

abbrev pub subevent_type_all_dev_version : ℕ
subevent_type_all_dev_version = 128

abbrev pub subevent_type_pcu_updated : ℕ
subevent_type_pcu_updated = 250

abbrev pub subevent_type_eamp_updating : ℕ
subevent_type_eamp_updating = 253

abbrev pub subevent_type_ready_sync_req : ℕ
subevent_type_ready_sync_req = 254

abbrev pub subevent_type_end_sync : ℕ
subevent_type_end_sync = 255

abbrev pub mul_dst_no : ℕ
mul_dst_no = 230

abbrev pub mul_sync_dst_no : ℕ
mul_sync_dst_no = 251

-- BcuSendDbSyncReqCommon, with its `++send_package_serial_number`.
abbrev pub next_serial : Sync → ℕ
next_serial s = u32 (s.serial_number + 1)

pub send_db_sync_req : Sync → ℕ → ℕ → Sync × List Output
send_db_sync_req s sub_event dest_dev_no =
    (record s { serial_number = next_serial s }, request sub_event dest_dev_no (next_serial s) ∷ [])

-- BcuSendCommonNetResponse: a package that is not a request gets no response.
pub send_common_net_response : Sync → Package → List Output
send_common_net_response s p =
    if p.gd_sync_req == 1 && p.gd_sync_res == 0
    then response p (
        if p.dst_dev_number == mul_dst_no || p.dst_dev_number == mul_sync_dst_no
        then s.dev_no
        else p.dst_dev_number)
      ∷ []
    else []

-- AlarmDisable and then AlarmEnable.
abbrev pub restart : Sync → Sync
restart s = record s { timer = running }

-- The alarm's call-back.
abbrev pub expire : Bool → Sync → Sync
expire fired s = record s { timer = if fired && is_running s.timer then timed_out else s.timer }
