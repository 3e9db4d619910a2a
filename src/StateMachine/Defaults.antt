-- ===== src/StateMachine/Defaults.antt =====
-- The tables of 1.0.x/ProdExplUnits/sourcecode/bcu_state_machine.cxx: the options with the
-- database (WITH_DB), and the default priorities. Names are lists of ASCII codes.
use mitcbcu.Common.{
  ℕ, ◌≤◌, ◌≡◌, refl, ap, ◌∙◌, arith, if◌then◌else◌, leb, ◌==◌, Option, none, some, List, [], ◌∷◌,
  take_all, ℤ, pos, leb-of_le,
}
use mitcbcu.StateMachine.Sort.{Table}
use mitcbcu.StateMachine.{
  Node, Options, list_update, reverse, linked, search, option_id, new_node, get_ann_state_priority,
  Command, priority_list_search, compare_nodes, dynamic_state_exchange, occ_event, live_ann_event,
  emerg_ann_event, manual_ann_event, tms_manual_ann_event, tms_auto_ann_event, d2d_intercomm_event,
  d2p_intercomm_event, d2d_hangup_d2p_event, d2p_intercom_pending, line_number_change_event,
  mic_3d5_outer_event, ann_idle, intercom_idle, no_id,
}
use mitcbcu.StateMachine.Priority.{nodes_of, create_priority_list_lem}

-- "OCC"
abbrev pub occ_name : List ℕ
occ_name = 79 ∷ 67 ∷ 67 ∷ []

-- "Outer3D5"
abbrev pub outer3d5_name : List ℕ
outer3d5_name = 79 ∷ 117 ∷ 116 ∷ 101 ∷ 114 ∷ 51 ∷ 68 ∷ 53 ∷ []

-- "LIVE"
abbrev pub live_name : List ℕ
live_name = 76 ∷ 73 ∷ 86 ∷ 69 ∷ []

-- "EMERG"
abbrev pub emerg_name : List ℕ
emerg_name = 69 ∷ 77 ∷ 69 ∷ 82 ∷ 71 ∷ []

-- "MANUAL"
abbrev pub manual_name : List ℕ
manual_name = 77 ∷ 65 ∷ 78 ∷ 85 ∷ 65 ∷ 76 ∷ []

-- "TMS-MANUAL"
abbrev pub tms_manual_name : List ℕ
tms_manual_name = 84 ∷ 77 ∷ 83 ∷ 45 ∷ 77 ∷ 65 ∷ 78 ∷ 85 ∷ 65 ∷ 76 ∷ []

-- "TMS-AUTO"
abbrev pub tms_auto_name : List ℕ
tms_auto_name = 84 ∷ 77 ∷ 83 ∷ 45 ∷ 65 ∷ 85 ∷ 84 ∷ 79 ∷ []

-- "ANN-IDLE"
abbrev pub ann_idle_name : List ℕ
ann_idle_name = 65 ∷ 78 ∷ 78 ∷ 45 ∷ 73 ∷ 68 ∷ 76 ∷ 69 ∷ []

-- "D2D"
abbrev pub d2d_name : List ℕ
d2d_name = 68 ∷ 50 ∷ 68 ∷ []

-- "D2P"
abbrev pub d2p_name : List ℕ
d2p_name = 68 ∷ 50 ∷ 80 ∷ []

-- "D2DXD2P"
abbrev pub d2dxd2p_name : List ℕ
d2dxd2p_name = 68 ∷ 50 ∷ 68 ∷ 88 ∷ 68 ∷ 50 ∷ 80 ∷ []

-- "D2PPEND"
abbrev pub d2ppend_name : List ℕ
d2ppend_name = 68 ∷ 50 ∷ 80 ∷ 80 ∷ 69 ∷ 78 ∷ 68 ∷ []

-- "INTERCOM-IDLE"
abbrev pub intercom_idle_name : List ℕ
intercom_idle_name = 73 ∷ 78 ∷ 84 ∷ 69 ∷ 82 ∷ 67 ∷ 79 ∷ 77 ∷ 45 ∷ 73 ∷ 68 ∷ 76 ∷ 69 ∷ []

-- "LINENO"
abbrev pub lineno_name : List ℕ
lineno_name = 76 ∷ 73 ∷ 78 ∷ 69 ∷ 78 ∷ 79 ∷ []

-- "MIC_3D5"
abbrev pub mic_3d5_name : List ℕ
mic_3d5_name = 77 ∷ 73 ∷ 67 ∷ 95 ∷ 51 ∷ 68 ∷ 53 ∷ []

-- `bcu_ann_option_table`.
abbrev pub bcu_ann_option_table : Options
bcu_ann_option_table =
    (occ_name, occ_event)
    ∷ (outer3d5_name, mic_3d5_outer_event)
    ∷ (live_name, live_ann_event)
    ∷ (emerg_name, emerg_ann_event)
    ∷ (manual_name, manual_ann_event)
    ∷ (tms_manual_name, tms_manual_ann_event)
    ∷ (tms_auto_name, tms_auto_ann_event)
    ∷ (ann_idle_name, ann_idle)
    ∷ (d2d_name, d2d_intercomm_event)
    ∷ (d2p_name, d2p_intercomm_event)
    ∷ (d2dxd2p_name, d2d_hangup_d2p_event)
    ∷ (d2ppend_name, d2p_intercom_pending)
    ∷ (intercom_idle_name, intercom_idle)
    ∷ (lineno_name, line_number_change_event)
    ∷ []

-- `bcu_ann_priority_default_table`.
abbrev pub bcu_ann_priority_default_table : Table
bcu_ann_priority_default_table =
    record { event_name = occ_name; event_priority = 1 }
    ∷ record { event_name = mic_3d5_name; event_priority = 2 }
    ∷ record { event_name = emerg_name; event_priority = 4 }
    ∷ record { event_name = live_name; event_priority = 3 }
    ∷ record { event_name = tms_auto_name; event_priority = 6 }
    ∷ record { event_name = manual_name; event_priority = 5 }
    ∷ record { event_name = tms_manual_name; event_priority = 7 }
    ∷ []

-- BcuSimulateStateInit.
pub simulate_state_init : List Node → ℕ → List Node × ℤ
simulate_state_init nodes memory =
    list_update bcu_ann_option_table bcu_ann_priority_default_table nodes none memory

-- The priority values of the default table, by the event.
abbrev pub default_priority : ℕ → Option ℕ
default_priority event_id =
    if event_id == ann_idle
    then some no_id
    else if event_id == tms_manual_ann_event
    then some 7
    else if event_id == manual_ann_event
    then some 5
    else if event_id == tms_auto_ann_event
    then some 6
    else if event_id == live_ann_event
    then some 3
    else if event_id == emerg_ann_event
    then some 4
    else if event_id == no_id
    then some 2
    else if event_id == occ_event
    then some 1
    else none

init-eq :
    (nodes : List Node) (memory : ℕ)
    → 7 ≤ memory
    → simulate_state_init nodes memory
      ≡ (nodes_of bcu_ann_option_table (reverse bcu_ann_priority_default_table), pos 0)
unfolding simulate_state_init list_update
init-eq nodes memory h =
    create_priority_list_lem bcu_ann_option_table nodes bcu_ann_priority_default_table memory
    ∙ ap (λ t. linked nodes (nodes_of bcu_ann_option_table t, leb 7 memory))
        (take_all memory (reverse bcu_ann_priority_default_table) h)
    ∙ ap
        (λ b.
          linked nodes (nodes_of bcu_ann_option_table (reverse bcu_ann_priority_default_table), b))
        (leb-of_le 7 memory h)

-- BcuSimulateStateInit, with memory for seven nodes and whatever list there was before: it returns 0,
-- and gives each event the value of the default table, the idle event the lowest priority, and no
-- value to the event of the outer microphone, whose row is kept under an identifier that no event has.
pub default_priorities :
    (nodes : List Node) (memory event_id : ℕ)
    → 7 ≤ memory
    → let (nodes', ret) = simulate_state_init nodes memory in
      (ret ≡ pos 0) × (get_ann_state_priority nodes' event_id ≡ default_priority event_id)
unfolding get_ann_state_priority search new_node option_id
default_priorities nodes memory event_id h = rw (init-eq nodes memory h) (refl, ground arith)

unknown_event :
    (nodes : List Node) (s : ℕ) (c : Command)
    → priority_list_search nodes c.event_type_ann ≡ none
    → (dynamic_state_exchange nodes s c).0 ≡ (s, [])
unfolding dynamic_state_exchange compare_nodes
unknown_event nodes s c e = ground (arith, e)

-- With the list of BcuSimulateStateInit no command brings up the outer microphone's state: a command
-- with its event changes no state and runs nothing, whatever the current state is.
pub default_ignores_mic :
    (nodes : List Node) (memory s : ℕ) (c : Command)
    → 7 ≤ memory
    → c.event_type_ann ≡ mic_3d5_outer_event
    → (dynamic_state_exchange (simulate_state_init nodes memory).0 s c).0 ≡ (s, [])
unfolding search new_node option_id
default_ignores_mic nodes memory s c h e = rw (init-eq nodes memory h) (
    unknown_event _ s c (
      ap
        (priority_list_search
          (nodes_of bcu_ann_option_table (reverse bcu_ann_priority_default_table)))
        e))
