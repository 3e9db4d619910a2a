-- ===== src/Sync/Receive.antt =====
-- What BcuGdThreadEntry of 1.0.x/ProdExplUnits/sourcecode/bcu_gd_sync.cxx does with a package that it
-- reads from its buffer, its two repetitions of a request, and a whole turn of its loop.
use mitcbcu.Common.{
  ℕ, ◌+◌, ◌≡◌, refl, Bool, true, false, ◌&&◌, if◌then◌else◌, ◌==◌, ltb, leb, List, [], ◌∷◌, ◌++◌,
  Option, none, some, u32, u8, update, if_ind, ==→eq,
}
use mitcbcu.Sync.{
  stopped, running, is_running, is_timed_out, CcuServer, Sync, Package, Output, table_row,
  event_type_sys_update_sync, subevent_type_db_version_sync_bep, subevent_type_db_server_changed,
  subevent_type_line_station_table_sync, subevent_type_station_bcu_ts_password,
  subevent_type_all_dev_version, subevent_type_pcu_updated, subevent_type_eamp_updating,
  subevent_type_ready_sync_req, subevent_type_end_sync, mul_sync_dst_no, send_db_sync_req,
  send_common_net_response, restart, expire,
}
use mitcbcu.Sync.Phases.{switch_phase}

-- `0==strcmp(tmptr, "SERVER")` behind the two version strings of 32 bytes.
abbrev pub says_server : (ℕ → ℕ) → Bool
says_server context =
    context 64 == 83
    && context 65 == 69
    && context 66 == 82
    && context 67 == 86
    && context 68 == 69
    && context 69 == 82
    && context 70 == 0

-- The flag behind "SERVER", the device name of 30 bytes and the number of 4: the low byte of an `int`.
abbrev pub server_flag : (ℕ → ℕ) → ℕ
server_flag context = context 105

-- `db_ccu_status` after an answer of the CCU.
abbrev pub count_ccu : Sync → Package → ℕ → CcuServer
count_ccu s p =
    if says_server p.gd_sync_context && ltb p.src_dev_number 4
    then update s.db_ccu_status p.src_dev_number (record {
      flag = server_flag p.gd_sync_context;
      connect_count = u32 ((s.db_ccu_status p.src_dev_number).connect_count + 1);
    })
    else s.db_ccu_status

abbrev pub is_response : Package → Bool
is_response p = p.gd_sync_req == 1 && p.gd_sync_res == 1

-- A response in time and to the last request.
abbrev pub answers : Sync → Package → Bool
answers s p = is_running s.timer && s.serial_number == p.sequence

-- SUBEVENT_TYPE_DB_VERSION_SYNC_BEP.
unfoldable pub receive_bep : Sync → Package → Sync
receive_bep s p =
    if is_response p && answers s p
    then if s.current_phase == 1
      then if leb 5 s.detect_active_ccu_count
        then record s {
          timer = stopped;
          db_ccu_status = count_ccu s p;
          ccu_enter_bep_phase = true;
          server_ccu_sync_cmd = true;
          bcu_to_ccu_net_ok = true;
        }
        else record s {
          timer = running;
          db_ccu_status = count_ccu s p;
          ccu_enter_bep_phase = true;
          server_ccu_sync_cmd = false;
          detect_active_ccu_count = u8 (s.detect_active_ccu_count + 1);
        }
      else record s {
        timer = stopped;
        db_ccu_status = count_ccu s p;
        ccu_enter_bep_phase = true;
        server_ccu_sync_cmd = true;
      }
    else s

-- The rows of the tables.
unfoldable pub receive_row : Sync → Package → Sync × List Output
receive_row s p = (
  record s { receive_ccu_table_item_flag = true },
  send_common_net_response s p ++ (if s.bcu_update_finish then [] else table_row p ∷ []),
)

-- SUBEVENT_TYPE_READY_SYNC_REQ.
unfoldable pub receive_ready : Sync → Package → Sync
receive_ready s p =
    if is_response p
    then if answers s p
      then if s.current_phase == 2
        then record s {
          timer = running;
          ready_req_cmd = false;
          ready_package_response_count = u8 (s.ready_package_response_count + 1);
        }
        else record s { timer = stopped; ready_req_cmd = true }
      else if is_timed_out s.timer && s.ready_package_response_count == 0
      then if s.current_phase == 2
        then record s {
          timer = running;
          ready_req_cmd = false;
          ready_package_request_timeouts = u8 (s.ready_package_request_timeouts + 1);
        }
        else record s { timer = stopped }
      else s
    else s

-- SUBEVENT_TYPE_END_SYNC.
unfoldable pub receive_end : Sync → Package → Sync × List Output
receive_end s p = (
  record s { data_from_ccu_state = 1; bcu_update_finish = true; current_phase = 4 },
  send_common_net_response s p,
)

-- The chain of sub-events; BcuSaveDeviceVersionTable returns 0.
unfoldable pub receive_sync : Sync → Package → Sync × List Output
receive_sync s p =
    if p.gd_sync_mask == subevent_type_db_server_changed
    then (s, [])
    else if p.gd_sync_mask == subevent_type_db_version_sync_bep
    then (receive_bep s p, [])
    else if leb subevent_type_line_station_table_sync p.gd_sync_mask
        && leb p.gd_sync_mask subevent_type_station_bcu_ts_password
    then receive_row s p
    else if leb subevent_type_pcu_updated p.gd_sync_mask
        && leb p.gd_sync_mask subevent_type_eamp_updating
    then (s, [])
    else if p.gd_sync_mask == subevent_type_ready_sync_req
    then (receive_ready s p, [])
    else if p.gd_sync_mask == subevent_type_end_sync
    then receive_end s p
    else if p.gd_sync_mask == subevent_type_all_dev_version
    then (s, send_common_net_response s p)
    else (s, [])

unfoldable pub receive : Sync → Option Package → Sync × List Output
receive s none = (s, [])
receive s (some p) =
    if p.event_type_common == event_type_sys_update_sync then receive_sync s p else (s, [])

-- The repetition of the request to all CCUs.
unfoldable pub repeat_bep : Sync → Sync × List Output
repeat_bep s =
    if (if s.server_ccu_sync_cmd then false else true) && is_timed_out s.timer
    then send_db_sync_req (restart s) subevent_type_db_version_sync_bep mul_sync_dst_no
    else (s, [])

-- The repetition of the request to the CCU that was chosen.
unfoldable pub repeat_ready : Sync → Sync × List Output
repeat_ready s =
    if (if s.ready_req_cmd then false else true) && is_timed_out s.timer
    then send_db_sync_req (restart s) subevent_type_ready_sync_req s.db_server_dev_no
    else (s, [])

-- What a turn of the loop meets: whether the alarm times out before each of its four parts, whether
-- the request of case 1 is taken, and the package that waits.
pub record Round : Type 0 where
  pub before_switch : Bool
  pub sent : Bool
  pub before_receive : Bool
  pub waiting : Option Package
  pub before_bep : Bool
  pub before_ready : Bool

-- A turn of the loop of BcuGdThreadEntry: the four parts, each on the state that the last one left.
abbrev pub part1 : Sync → Round → Sync × List Output
part1 s r = switch_phase (expire r.before_switch s) r.sent

abbrev pub part2 : Sync → Round → Sync × List Output
part2 s r = receive (expire r.before_receive (part1 s r).0) r.waiting

abbrev pub part3 : Sync → Round → Sync × List Output
part3 s r = repeat_bep (expire r.before_bep (part2 s r).0)

abbrev pub part4 : Sync → Round → Sync × List Output
part4 s r = repeat_ready (expire r.before_ready (part3 s r).0)

unfoldable pub round : Sync → Round → Sync × List Output
round s r = ((part4 s r).0, (part1 s r).1 ++ ((part2 s r).1 ++ ((part3 s r).1 ++ (part4 s r).1)))

abbrev pub run : Sync → List Round → Sync × List Output
run s [] = (s, [])
run s (r ∷ rs) = ((run (round s r).0 rs).0, (round s r).1 ++ (run (round s r).0 rs).1)

-- What a thread does with a package, by the kind of the package.
module _ (P : Sync × List Output → Type 0) (s : Sync) where
  receive_sync_ind :
      (p : Package)
      → P (s, [])
      → (p.gd_sync_mask ≡ subevent_type_db_version_sync_bep → P (receive_bep s p, []))
      → P (receive_row s p)
      → (p.gd_sync_mask ≡ subevent_type_ready_sync_req → P (receive_ready s p, []))
      → (p.gd_sync_mask ≡ subevent_type_end_sync → P (receive_end s p))
      → P (s, send_common_net_response s p)
      → P (receive_sync s p)
  unfolding receive_sync
  receive_sync_ind p stay bep row ready end version =
      let m = p.gd_sync_mask in
      if_ind P (m == subevent_type_db_server_changed) _ _ (λ _. stay)
        λ _.
          if_ind P _ _ _ (λ e. bep (==→eq _ _ e))
            λ _.
              if_ind P
                (leb subevent_type_line_station_table_sync m
                  && leb m subevent_type_station_bcu_ts_password)
                _ _ (λ _. row)
                λ _.
                  if_ind P (leb subevent_type_pcu_updated m && leb m subevent_type_eamp_updating) _
                    _ (λ _. stay)
                    λ _.
                      if_ind P _ _ _ (λ e. ready (==→eq _ _ e))
                        λ _.
                          if_ind P _ _ _ (λ e. end (==→eq _ _ e))
                            λ _.
                              if_ind P (m == subevent_type_all_dev_version) _ _ (λ _. version)
                                (λ _. stay)

  pub receive_ind :
      (o : Option Package)
      → P (s, [])
      → ((p : Package) → P (receive_bep s p, []))
      → ((p : Package) → P (receive_row s p))
      → ((p : Package)
          → o ≡ some p
          → p.event_type_common ≡ event_type_sys_update_sync
          → p.gd_sync_mask ≡ subevent_type_ready_sync_req
          → P (receive_ready s p, []))
      → ((p : Package)
          → o ≡ some p
          → p.event_type_common ≡ event_type_sys_update_sync
          → p.gd_sync_mask ≡ subevent_type_end_sync
          → P (receive_end s p))
      → ((p : Package) → P (s, send_common_net_response s p))
      → P (receive s o)
  unfolding receive
  receive_ind none stay bep row ready end version = stay
  receive_ind (some p) stay bep row ready end version =
      if_ind P _ _ _
        (λ e.
          receive_sync_ind p stay (λ _. bep p) (row p) (ready p refl (==→eq _ _ e))
            (end p refl (==→eq _ _ e)) (version p))
        (λ _. stay)
