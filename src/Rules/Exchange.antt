-- ===== src/Rules/Exchange.antt =====
-- The table of BCURuleTableInit in 1.0.x/ProdExplUnits/sourcecode/bcu_function.cxx, written out.
use mitcbcu.Common.{ℕ, ◌≡◌, [], ◌∷◌, some}
use mitcbcu.Rules.{
  state_machine_exchange, rule_table_init, intercom_rules, rule_init, rule_set, intercom_idle,
  d2d_intercomm_event, d2p_intercomm_event, d2d_hangup_d2p_event, event_ptt_or_driver_call,
  event_ptt_release_and_driver_release, event_confirm_pcu_call, event_confirm_release_pcu,
  event_time_out, event_transfer_to_d2d_or_driver_call, event_confirm_transfer_to_d2p,
}
use mitcbcu.Rules.Change.{
  lookup, reaction, transitions, Transitions, state_machine_exchange_refines,
}
use mitcbcu.Rules.Intercom.{rule_table_init-IsTable}

abbrev pub intercom_transitions : Transitions
intercom_transitions =
    (intercom_idle, event_ptt_or_driver_call, d2d_intercomm_event)
    ∷ (intercom_idle, event_confirm_pcu_call, d2p_intercomm_event)
    ∷ (d2d_intercomm_event, event_ptt_release_and_driver_release, intercom_idle)
    ∷ (d2p_intercomm_event, event_confirm_release_pcu, intercom_idle)
    ∷ (d2p_intercomm_event, event_transfer_to_d2d_or_driver_call, d2d_hangup_d2p_event)
    ∷ (d2d_hangup_d2p_event, event_time_out, d2d_intercomm_event)
    ∷ (d2d_hangup_d2p_event, event_confirm_transfer_to_d2p, d2p_intercomm_event)
    ∷ []

pub exchange_lem :
    (s event : ℕ)
    → state_machine_exchange rule_table_init s event
      ≡ some (reaction s (lookup intercom_transitions s event))
unfolding transitions rule_table_init intercom_rules rule_init rule_set
exchange_lem s event =
    state_machine_exchange_refines rule_table_init s event rule_table_init-IsTable
