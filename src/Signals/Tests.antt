-- ===== src/Signals/Tests.antt =====
-- Commands of 1.0.x/ProdExplUnits/sourcecode/bcu_function.cxx in concrete states.
use mitcbcu.Common.{ℕ, ◌≡◌, refl, false, List, [], ◌∷◌, some, arith, inl, inr, ◌⊎◌}
use mitcbcu.Rules.{exit_of, enter_of, rule_table_init}
use mitcbcu.Rules.Exchange.{exchange_lem}
use mitcbcu.StateMachine.{Command, Node}
use mitcbcu.Signals.{
  Request, Active, get_event_type, ann_sig, intercom_sig, whether_want_to_exchange_state,
  ann_state_handle, intercom_state_handle,
}
use mitcbcu.Signals.Intercom.{outcome, command_lem}
use mitcbcu.Signals.Again.{command_again}
use mitcbcu.Signals.Announcements.{IsResult, is_busy, ann_state_handle_lem}

abbrev quiet : Command
quiet = record {
  event_type_ann = 254;
  event_type_intercom = 7;
  occ_active = 0;
  outer_3d5_active = 0;
  live_active = 1;
  emerg_active = 0;
  manual_active = 0;
  tms_manual_active = 0;
  tms_auto_active = 0;
}

-- The driver calls the other cab.
abbrev call_driver : Request
call_driver = record {
  command = quiet;
  manual_begin_or_over = 0;
  d2d_intercomm_active = 1;
  d2p_intercomm_active = 0;
  d2p_intercomm_request_or_over = 0;
  d2p_intercomm_pcu_device_no = 5;
  src_devices_no = 1;
  src_devices_name = [];
}

-- The driver speaks to the passengers.
abbrev live : Request
live = record call_driver {
  command = record quiet { event_type_ann = 2; event_type_intercom = 255 };
}

abbrev talking : ℕ → ℕ → Active
talking intercom owner = record {
  ann_state = 254;
  intercom_state = intercom;
  mic_owner = owner;
  recept_pcu_no = 0;
  recv_cmd_of_ann = live;
  recv_cmd_of_intercom = live;
}

abbrev nodes : List Node
nodes = record { unique_id = 2; priority = 3; this_state_process = some 2 } ∷ []

call_signal : get_event_type 8 call_driver ≡ 17
unfolding get_event_type ann_sig intercom_sig
call_signal = refl

unwanted : whether_want_to_exchange_state 254 9 call_driver ≡ false
unfolding whether_want_to_exchange_state
unwanted = refl

-- A passenger's call is put on hold.
command_lem_example :
    outcome (intercom_state_handle rule_table_init (talking 8 2) call_driver)
    ≡ some (9, exit_of 8 ∷ enter_of 9 ∷ [])
command_lem_example =
    command_lem (talking 8 2) call_driver (inr (inr (inl refl))) refl (omega arith)

handled :
    intercom_state_handle rule_table_init (talking 8 2) call_driver
    ≡ some (talking 9 2, exit_of 8 ∷ enter_of 9 ∷ [])
unfolding intercom_state_handle whether_want_to_exchange_state get_event_type ann_sig intercom_sig
handled = ground (arith, exchange_lem 8 17)

command_again_example :
    outcome (intercom_state_handle rule_table_init (talking 9 2) call_driver) ≡ some (9, [])
command_again_example =
    command_again (talking 8 2) (talking 9 2) call_driver (exit_of 8 ∷ enter_of 9 ∷ [])
      (inr (inr (inl refl))) refl (omega arith) handled

-- Another owner holds the microphone.
ann_state_handle_lem_example :
    let (a', r', hs) = ann_state_handle nodes (talking 255 0) live in
    IsResult nodes 254 live.command a'.ann_state hs
    × (a'.intercom_state ≡ 255)
    × (a'.mic_owner ≡ 0)
    × ((a'.ann_state ≡ 254) ⊎ (is_busy (talking 255 0) live ≡ false))
ann_state_handle_lem_example =
    ann_state_handle_lem nodes (talking 255 0) live (inr refl, tt) (omega arith) refl
