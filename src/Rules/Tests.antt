-- ===== src/Rules/Tests.antt =====
-- Rules added, disabled and removed, and runs of the intercom.
use mitcbcu.Common.{ℕ, ◌≡◌, refl, List, [], ◌∷◌, true, false, none, some, ◌⊎◌, inl, inr}
use mitcbcu.Rules.{
  to_state, wild, Table, rule_init, rule_table_init, intercom_rules, rule_set, remove_rule,
  disable_rule, enable_rule, change_first, same_rule, empty_entry, Handler, exit_of, enter_of,
  state_machine_exchange,
}
use mitcbcu.Rules.Table.{IsRule, IsTable}
use mitcbcu.Rules.Change.{
  transitions, IsCompact, state_machine_exchange_refines, remove_rule_faults,
}
use mitcbcu.Rules.Intercom.{
  Transition, rule_table_init-IsTable, intercom_exchange, exchange_all, IsChain, IsIntercom,
  exchange_all-IsIntercom,
}

state_machine_exchange_refines_example :
    state_machine_exchange rule_table_init 255 12 ≡ some (7, exit_of 255 ∷ enter_of 7 ∷ [])
unfolding transitions rule_table_init intercom_rules rule_init rule_set
state_machine_exchange_refines_example =
    state_machine_exchange_refines rule_table_init 255 12 rule_table_init-IsTable

-- One entry in use and one that is empty.
abbrev one_rule : Table
one_rule =
    record {
      xrule = record {
        psrc_state = to_state 255;
        dest_state = to_state 7;
        trigger_event = 12;
        is_empty = 0;
      };
      rule_enable = true;
    }
    ∷ empty_entry
    ∷ []

one_rule-IsTable : IsTable one_rule
one_rule-IsTable = (inr (refl, (255, 7, refl, refl)), (inl (refl, refl), tt))

one_rule-IsCompact : IsCompact one_rule
unfolding transitions
one_rule-IsCompact = ((λ e. refl), ((λ e. refl), tt))

-- The table with its rule removed.
abbrev no_rule : Table
no_rule =
    record {
      xrule = record {
        psrc_state = wild;
        dest_state = wild;
        trigger_event = 808464432;
        is_empty = 0;
      };
      rule_enable = false;
    }
    ∷ empty_entry
    ∷ []

one_rule-removed : remove_rule one_rule (rule_set 255 7 12) ≡ some no_rule
unfolding remove_rule change_first same_rule rule_set
one_rule-removed = refl

remove_rule_faults_example :
    (remove_rule no_rule (rule_set 255 7 12) ≡ none)
    × (disable_rule no_rule (rule_set 255 7 12) ≡ none)
    × (enable_rule no_rule (rule_set 255 7 12) ≡ none)
remove_rule_faults_example =
    remove_rule_faults one_rule no_rule (rule_set 255 7 12) one_rule-removed (λ e. cc)

call-IsRule : IsRule (rule_set 255 7 12)
unfolding rule_set
call-IsRule = (255, 7, refl, refl)

intercom_exchange_example :
    ((d : ℕ) × Transition 8 15 d
      × (state_machine_exchange rule_table_init 8 15 ≡ some (d, exit_of 8 ∷ enter_of d ∷ [])))
    ⊎ (((d : ℕ) → ¬ Transition 8 15 d)
        × (state_machine_exchange rule_table_init 8 15 ≡ some (8, [])))
intercom_exchange_example = intercom_exchange 8 15

-- A driver is called, the call is released, and a passenger's call is confirmed.
exchange_all-IsIntercom_example :
    (d : ℕ) × (hs : List Handler) × (exchange_all rule_table_init 255 (12 ∷ 13 ∷ 14 ∷ [])
      ≡ some (d, hs))
    × IsIntercom d
    × IsChain 255 hs d
exchange_all-IsIntercom_example = exchange_all-IsIntercom 255 (12 ∷ 13 ∷ 14 ∷ []) (inl refl)
