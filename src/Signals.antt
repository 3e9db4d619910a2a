-- ===== src/Signals.antt =====
-- How a command reaches the two state machines: GetEventType, WhetherWantToExchangeState,
-- ANNStateHangle and IntercomStateHangle of 1.0.x/ProdExplUnits/sourcecode/bcu_function.cxx. The states
-- are known by their `state_id`; the handlers that run are named. What is printed and the control flags
-- for debugging are left out.
pub mod Events
pub mod Intercom
pub mod Again
pub mod Announcements
mod Tests
use mitcbcu.Common.{
  ℕ, Bool, true, false, not, ◌&&◌, ◌||◌, if◌then◌else◌, ◌==◌, List, [], ◌∷◌, Option, none, some,
}
use mitcbcu.Rules.{Handler, Table, state_machine_exchange}
use mitcbcu.Rules
use mitcbcu.StateMachine.{
  Command, Node, dynamic_state_exchange, occ_event, live_ann_event, emerg_ann_event,
  manual_ann_event, tms_manual_ann_event, tms_auto_ann_event, d2d_intercomm_event,
  d2p_intercomm_event, d2d_hangup_d2p_event, mic_3d5_outer_event, ann_idle, intercom_idle,
}

-- The rest of `send_infomation_t`, as far as it is used here.
pub record Request : Type 0 where
  pub command : Command
  pub manual_begin_or_over : ℕ
  pub d2d_intercomm_active : ℕ
  pub d2p_intercomm_active : ℕ
  pub d2p_intercomm_request_or_over : ℕ
  pub d2p_intercomm_pcu_device_no : ℕ
  pub src_devices_no : ℕ
  pub src_devices_name : List ℕ

-- `event_trigger` of bcu_function.h, beside the events of the rules.
abbrev pub event_live_button_press : ℕ
event_live_button_press = 0

abbrev pub event_occ_command : ℕ
event_occ_command = 3

abbrev pub event_occ_release : ℕ
event_occ_release = 4

abbrev pub event_emergency_button_press : ℕ
event_emergency_button_press = 5

abbrev pub event_transfer_to_manual : ℕ
event_transfer_to_manual = 1

abbrev pub event_manual_mode : ℕ
event_manual_mode = 7

abbrev pub event_return_button_press : ℕ
event_return_button_press = 8

abbrev pub event_tms_signal : ℕ
event_tms_signal = 9

abbrev pub event_tms_signal_over : ℕ
event_tms_signal_over = 10

abbrev pub event_max : ℕ
event_max = 19

-- NONE of state_machine.h: nobody holds the microphone.
abbrev pub no_owner : ℕ
no_owner = 2

-- The signal of a manual announcement.
abbrev pub manual_sig : ℕ → Request → ℕ
manual_sig s r =
    if s == ann_idle
    then if r.command.manual_active == 1 then event_manual_mode else event_return_button_press
    else if s == tms_auto_ann_event
    then if r.manual_begin_or_over == 0 then event_transfer_to_manual else event_return_button_press
    else if s == manual_ann_event
    then if r.command.manual_active == 1 then event_manual_mode else event_return_button_press
    else 0

-- The first half of GetEventType: the signal, and whether it is returned at once.
pub ann_sig : ℕ → Request → ℕ × Bool
ann_sig s r =
    let e = r.command.event_type_ann in
    if e == ann_idle
    then (0, false)
    else if e == occ_event
    then (if r.command.occ_active == 1 then event_occ_command else event_occ_release, false)
    else if e == live_ann_event
    then (
      if r.command.live_active == 1 then event_live_button_press else event_return_button_press,
      true,
    )
    else if e == emerg_ann_event
    then (
      if r.command.emerg_active == 1
          then event_emergency_button_press
          else event_return_button_press,
      true,
    )
    else if e == manual_ann_event
    then (manual_sig s r, false)
    else if e == tms_manual_ann_event
    then (100, false)
    else if e == tms_auto_ann_event
    then (if r.command.tms_auto_active == 1 then event_tms_signal else event_tms_signal_over, false)
    else (event_max, false)

-- The second half, which keeps the first one's signal if there is no event of the intercom.
pub intercom_sig : ℕ → Request → ℕ → ℕ
intercom_sig s r sig =
    let e = r.command.event_type_intercom in
    if e == intercom_idle
    then sig
    else if e == d2d_intercomm_event
    then if r.d2d_intercomm_active == 1
      then if s == d2p_intercomm_event
        then Rules.event_transfer_to_d2d_or_driver_call
        else Rules.event_ptt_or_driver_call
      else Rules.event_confirm_transfer_to_d2p
    else if e == d2p_intercomm_event
    then if r.d2p_intercomm_active == 1
      then Rules.event_confirm_pcu_call
      else Rules.event_confirm_release_pcu
    else event_max

-- GetEventType.
pub get_event_type : ℕ → Request → ℕ
get_event_type s r = if (ann_sig s r).1 then (ann_sig s r).0 else intercom_sig s r (ann_sig s r).0

-- `current_event` of WhetherWantToExchangeState.
abbrev pub current_event : Request → ℕ
current_event r =
    if not (r.command.event_type_ann == ann_idle)
    then r.command.event_type_ann
    else if not (r.command.event_type_intercom == intercom_idle)
    then r.command.event_type_intercom
    else 0

-- An announcement is wanted by a command that starts it in another state, or ends it in its own.
abbrev pub toggles : ℕ → ℕ → ℕ → Bool
toggles s event active = if not (s == event) then not (active == 0) else active == 0

-- WhetherWantToExchangeState in the two active states.
pub whether_want_to_exchange_state : ℕ → ℕ → Request → Bool
whether_want_to_exchange_state ann_state intercom_state r =
    let e = current_event r in
    if e == occ_event
    then toggles ann_state occ_event r.command.occ_active
    else if e == live_ann_event
    then toggles ann_state live_ann_event r.command.live_active
    else if e == mic_3d5_outer_event
    then toggles ann_state mic_3d5_outer_event r.command.outer_3d5_active
    else if e == emerg_ann_event
    then toggles ann_state emerg_ann_event r.command.emerg_active
    else if e == manual_ann_event
    then toggles ann_state manual_ann_event r.command.manual_active
    else if e == tms_auto_ann_event
    then toggles ann_state tms_auto_ann_event r.command.tms_auto_active
    else if e == d2d_intercomm_event
    then if not (intercom_state == d2d_intercomm_event)
        && not (intercom_state == d2d_hangup_d2p_event)
      then true
      else r.d2d_intercomm_active == 0
    else if e == d2p_intercomm_event
    then if not (intercom_state == d2p_intercomm_event)
        && (r.command.event_type_intercom == d2p_intercomm_event && r.d2p_intercomm_active == 0)
      then false
      else if not (intercom_state == d2p_intercomm_event)
      then true
      else r.d2p_intercomm_active == 0
    else false

-- The fields of `bcu_state` that the two functions use, and the copies of commands that they keep.
pub record Active : Type 0 where
  pub ann_state : ℕ
  pub intercom_state : ℕ
  pub mic_owner : ℕ
  pub recept_pcu_no : ℕ
  pub recv_cmd_of_ann : Request
  pub recv_cmd_of_intercom : Request

abbrev pub no_source : Request → Request
no_source r = record r { src_devices_no = 0; src_devices_name = [] }

-- ANNStateHangle on the list of priorities: the state, the command, and the handlers that ran.
pub ann_state_handle : List Node → Active → Request → Active × Request × List Handler
ann_state_handle nodes a r =
    if not (r.command.event_type_ann == ann_idle)
    then if whether_want_to_exchange_state a.ann_state a.intercom_state r
      then if r.command.event_type_ann == live_ann_event
          && (not (a.mic_owner == no_owner) && r.command.live_active == 1)
        then (a, no_source r, [])
        else (
          record a { ann_state = (dynamic_state_exchange nodes a.ann_state r.command).0.0 },
          r,
          (dynamic_state_exchange nodes a.ann_state r.command).0.1,
        )
      else (record a { recv_cmd_of_ann = r }, r, [])
    else (a, r, [])

-- The passenger's number that IntercomStateHangle notes.
abbrev pub note_pcu : Active → Request → Active
note_pcu a r =
    if r.command.event_type_intercom == d2p_intercomm_event
      && (r.d2p_intercomm_active == 1 && r.d2p_intercomm_request_or_over == 0)
    then record a { recept_pcu_no = r.d2p_intercomm_pcu_device_no }
    else a

-- The exchange of the intercom's state; `none` is a fault of StateMachineExchange.
abbrev pub exchange_intercom : Table → Active → Request → Option (Active × List Handler)
exchange_intercom t a r =
    elim (state_machine_exchange t a.intercom_state (get_event_type a.intercom_state r)) [
      | none ↦ none
      | some (d, hs) ↦ some (record a { intercom_state = d }, hs)
    ]

-- IntercomStateHangle on a table of rules.
pub intercom_state_handle : Table → Active → Request → Option (Active × List Handler)
intercom_state_handle t a r =
    if not (r.command.event_type_intercom == intercom_idle)
    then if not (a.ann_state == occ_event)
      then if whether_want_to_exchange_state a.ann_state a.intercom_state r
        then exchange_intercom t (note_pcu a r) r
        else some (record (note_pcu a r) { recv_cmd_of_intercom = r }, [])
      else some
          (record (note_pcu a r) { recv_cmd_of_intercom = no_source a.recv_cmd_of_intercom }, [])
    else some (a, [])
