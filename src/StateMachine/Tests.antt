-- ===== src/StateMachine/Tests.antt =====
-- Tables sorted, lists made, and announcements that take over from each other.
use mitcbcu.Common.{◌≡◌, refl, arith, List, [], ◌∷◌, some, Returns, pos, negsuc, inr}
use mathlib.Core.List.{Perm}
use mitcbcu.StateMachine.Sort.{Row, Table, dynamic_state_sort}
use mitcbcu.StateMachine.Sort.Bubble.{IsSorted, dynamic_state_sort_lem}
use mitcbcu.StateMachine.{test_select_next_event, Node, Command, dynamic_state_exchange}
use mitcbcu.StateMachine.Priority.{AllNodes}
use mitcbcu.StateMachine.Exchange.{IsAnswer, exchange_priority}
use mitcbcu.StateMachine.Defaults.{bcu_ann_option_table, occ_name, live_name}

abbrev live_row : Row
live_row = record { event_name = live_name; event_priority = 3 }

abbrev occ_row : Row
occ_row = record { event_name = occ_name; event_priority = 1 }

abbrev rows : Table
rows = live_row ∷ occ_row ∷ []

dynamic_state_sort_lem_example : Returns (λ t. IsSorted t × Perm t rows) (dynamic_state_sort rows)
dynamic_state_sort_lem_example = dynamic_state_sort_lem rows (omega arith) (omega arith)

abbrev live_node : Node
live_node = record { unique_id = 2; priority = 3; this_state_process = some 2 }

abbrev occ_node : Node
occ_node = record { unique_id = 1; priority = 1; this_state_process = some 1 }

abbrev nodes : List Node
nodes = occ_node ∷ live_node ∷ []

nodes-AllNodes : AllNodes nodes
nodes-AllNodes = (inr refl, (inr refl, tt))

-- The control centre asks for its announcement.
abbrev occ_command : Command
occ_command = record {
  event_type_ann = 1;
  event_type_intercom = 255;
  occ_active = 1;
  outer_3d5_active = 0;
  live_active = 0;
  emerg_active = 0;
  manual_active = 0;
  tms_manual_active = 0;
  tms_auto_active = 0;
}

exchange_priority_example :
    IsAnswer nodes 2 occ_command (dynamic_state_exchange nodes 2 occ_command).0
exchange_priority_example = exchange_priority nodes 2 occ_command nodes-AllNodes

-- The counter goes through the fourteen options, and starts again.
select_events :
    (test_select_next_event bcu_ann_option_table 0 ≡ (1, pos 1))
    × (test_select_next_event bcu_ann_option_table 13 ≡ (14, pos 11))
    × (test_select_next_event bcu_ann_option_table 14 ≡ (0, negsuc 0))
unfolding test_select_next_event
select_events = (refl, refl, refl)
