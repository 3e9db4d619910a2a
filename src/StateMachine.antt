-- ===== src/StateMachine.antt =====
-- The state machine of the announcements, 1.0.x/ProdExplUnits/sourcecode/bcu_state_machine.cxx, with
-- the database defined (WITH_DB of include/struct_type.h): the table of priorities, the list of
-- events by priority, and the exchange of states. A `state_process_t *` is known by its `state_id`;
-- NULL is `none`. `debug_print` is an empty macro.
pub mod Sort
pub mod Priority
pub mod Exchange
pub mod Defaults
mod Tests
use mitcbcu.Common.{
  get_elem?, ◌+◌, ℕ, zero, suc, ◌+◌, ◌-◌, Bool, true, false, ◌&&◌, ◌||◌, not, if◌then◌else◌, ltb,
  leb, ◌==◌, Option, none, some, List, [], ◌∷◌, ◌++◌, length, ℤ, pos, negsuc, min,
}
use mitcbcu.Names.{strncmp_eq}
use mitcbcu.Rules.{Handler, exit_of, enter_of}
use mitcbcu.StateMachine.Sort.{Row, Table}

-- The event identifiers of include/struct_type.h.
abbrev pub occ_event : ℕ
occ_event = 1

abbrev pub live_ann_event : ℕ
live_ann_event = 2

abbrev pub emerg_ann_event : ℕ
emerg_ann_event = 3

abbrev pub manual_ann_event : ℕ
manual_ann_event = 4

abbrev pub tms_manual_ann_event : ℕ
tms_manual_ann_event = 5

abbrev pub tms_auto_ann_event : ℕ
tms_auto_ann_event = 6

abbrev pub d2d_intercomm_event : ℕ
d2d_intercomm_event = 7

abbrev pub d2p_intercomm_event : ℕ
d2p_intercomm_event = 8

abbrev pub d2d_hangup_d2p_event : ℕ
d2d_hangup_d2p_event = 9

abbrev pub d2p_intercom_pending : ℕ
d2p_intercom_pending = 10

abbrev pub line_number_change_event : ℕ
line_number_change_event = 11

abbrev pub mic_3d5_outer_event : ℕ
mic_3d5_outer_event = 12

abbrev pub ann_idle : ℕ
ann_idle = 254

abbrev pub intercom_idle : ℕ
intercom_idle = 255

abbrev pub no_id : ℕ
no_id = 4294967295

-- `state_priority_list_t` without its link.
pub record Node : Type 0 where
  pub unique_id : ℕ
  pub priority : ℕ
  pub this_state_process : Option ℕ

-- `bcu_ann_priority_list_node_idle`, the first node of the list. The list is given by the nodes behind it.
abbrev pub idle_node : Node
idle_node = record { unique_id = ann_idle; priority = no_id; this_state_process = some ann_idle }

-- `bcu_all_states`, by their identifiers.
abbrev pub bcu_all_states : List ℕ
bcu_all_states =
    tms_auto_ann_event ∷ ann_idle ∷ live_ann_event ∷ occ_event ∷ mic_3d5_outer_event
    ∷ emerg_ann_event ∷ manual_ann_event ∷ intercom_idle ∷ d2d_intercomm_event ∷ d2p_intercomm_event
    ∷ d2d_hangup_d2p_event ∷ []

-- A table of names and identifiers.
abbrev pub Options : Type 0
Options = List (List ℕ × ℕ)

-- BcuTestSelectNextEvent, with its counter.
pub test_select_next_event : Options → ℕ → ℕ × ℤ
test_select_next_event options count_next_event = elim (get_elem? options count_next_event) [
  | none ↦ (0, negsuc 0)
  | some (_, unique_id) ↦ (count_next_event + 1, pos unique_id)
]

-- The first option whose name and the event's are equal up to the shorter of the two.
pub option_id : Options → List ℕ → ℕ
option_id [] event_name = no_id
option_id ((name, id) ∷ options) event_name =
    if strncmp_eq (min (length name) (length event_name)) name event_name
    then id
    else option_id options event_name

-- The state with an identifier, of some states.
abbrev pub state_with : ℕ → List ℕ → Option ℕ
state_with id [] = none
state_with id (s ∷ states) = if id == s then some s else state_with id states

-- BcuAnnStateAddNewNode where malloc has memory, and the body of the loop of
-- BcuAnnStateCreatePriorityList.
pub new_node : Options → Row → Node
new_node options row =
    let id = option_id options row.event_name in
    record {
      unique_id = id;
      priority = row.event_priority;
      this_state_process = state_with id bcu_all_states;
    }

-- BcuAnnStateCreatePriorityNode; the table NULL is `none`.
pub create_priority_node : Options → List Node → Option Row → Bool → List Node × ℤ
create_priority_node options nodes none malloc_ok = (nodes, negsuc 0)
create_priority_node options nodes (some row) malloc_ok =
    if malloc_ok then (nodes ++ (new_node options row ∷ []), pos 0) else (nodes, negsuc 0)

-- The nodes of rows until malloc has no more memory (it has for `memory` nodes), and whether they
-- are all made.
abbrev pub make_nodes : Options → Table → ℕ → List Node × Bool
make_nodes options [] memory = ([], true)
make_nodes options (row ∷ rows) zero = ([], false)
make_nodes options (row ∷ rows) (suc memory) =
    let (nodes, ok) = make_nodes options rows memory in (new_node options row ∷ nodes, ok)

abbrev pub reverse : Table → Table
reverse [] = []
reverse (row ∷ rows) = reverse rows ++ (row ∷ [])

-- The first node made is linked behind the idle node, in place of the list there.
abbrev pub linked : List Node → List Node × Bool → List Node × ℤ
linked nodes ([], ok) = (nodes, if ok then pos 0 else negsuc 0)
linked nodes (n ∷ ns, ok) = (n ∷ ns, if ok then pos 0 else negsuc 0)

-- BcuAnnStateCreatePriorityList.
pub create_priority_list : Options → List Node → Option Table → ℕ → List Node × ℤ
create_priority_list options nodes none memory = (nodes, negsuc 0)
create_priority_list options nodes (some rows) memory =
    linked nodes (make_nodes options (reverse rows) memory)

-- BcuAnnStateListUpdate.
pub list_update : Options → Table → List Node → Option Table → ℕ → List Node × ℤ
list_update options default_table nodes none memory =
    create_priority_list options nodes (some default_table) memory
list_update options default_table nodes (some rows) memory =
    create_priority_list options nodes (some rows) memory

-- BcuAnnStateNodeUpdate.
pub node_update : Options → List Node → Option Row → Bool → List Node × ℤ
node_update options nodes none malloc_ok = create_priority_node options nodes none malloc_ok
node_update options nodes (some row) malloc_ok = (nodes, negsuc 0)

abbrev pub among : ℕ → List ℕ → Bool
among id [] = false
among id (s ∷ ss) = id == s || among id ss

-- BcuStateEventIdJudge.
pub event_id_judge : ℕ → ℤ
event_id_judge id =
    if among id (
      occ_event ∷ live_ann_event ∷ mic_3d5_outer_event ∷ emerg_ann_event ∷ manual_ann_event
      ∷ tms_manual_ann_event ∷ tms_auto_ann_event ∷ ann_idle ∷ [])
    then pos 0
    else if among id (
        d2d_intercomm_event ∷ d2p_intercomm_event ∷ d2d_hangup_d2p_event ∷ d2p_intercom_pending
        ∷ intercom_idle ∷ [])
    then pos 1
    else if id == line_number_change_event
    then pos 2
    else negsuc 0

-- The loop of BcuAnnStatePriorityListSearch.
pub search : List Node → ℕ → Option Node
search [] event_id = none
search (n ∷ ns) event_id = if event_id == n.unique_id then some n else search ns event_id

-- BcuAnnStatePriorityListSearch.
abbrev pub priority_list_search : List Node → ℕ → Option Node
priority_list_search nodes event_id = search (idle_node ∷ nodes) event_id

-- BcuGetAnnStatePriority; `none` is the use of a NULL pointer.
pub get_ann_state_priority : List Node → ℕ → Option ℕ
get_ann_state_priority nodes event_id = elim (priority_list_search nodes event_id) [
  | none ↦ none
  | some n ↦ some n.priority
]

-- `send_infomation_t`, as far as it is used here.
pub record Command : Type 0 where
  pub event_type_ann : ℕ
  pub event_type_intercom : ℕ
  pub occ_active : ℕ
  pub outer_3d5_active : ℕ
  pub live_active : ℕ
  pub emerg_active : ℕ
  pub manual_active : ℕ
  pub tms_manual_active : ℕ
  pub tms_auto_active : ℕ

-- The `active` field that belongs to the event, of the events that have one.
abbrev pub active_of : Command → Option ℕ
active_of c =
    if c.event_type_ann == occ_event
    then some c.occ_active
    else if c.event_type_ann == mic_3d5_outer_event
    then some c.outer_3d5_active
    else if c.event_type_ann == live_ann_event
    then some c.live_active
    else if c.event_type_ann == emerg_ann_event
    then some c.emerg_active
    else if c.event_type_ann == manual_ann_event
    then some c.manual_active
    else if c.event_type_ann == tms_manual_ann_event
    then some c.tms_manual_active
    else if c.event_type_ann == tms_auto_ann_event
    then some c.tms_auto_active
    else none

-- WhetherOverPackage.
pub whether_over_package : Command → Bool
whether_over_package c =
    if c.event_type_intercom == intercom_idle
    then elim (active_of c) [ none ↦ false | some active ↦ active == 0 ]
    else false

-- The node to enter: the idle one for the end of the current announcement, or else the event's.
abbrev pub new_state_node : Command → Node → Node → Node
new_state_node c new current =
    if whether_over_package c && new.unique_id == current.unique_id then idle_node else new

-- The current state is left for the node's, if it has one.
abbrev pub enter_node : ℕ → Node → ℕ × List Handler
enter_node s n = elim n.this_state_process [
  | none ↦ (s, [])
  | some d ↦ (d, exit_of s ∷ enter_of d ∷ [])
]

-- What follows the searches for the new and the current node.
pub compare_nodes : ℕ → Command → Option Node → Option Node → ℕ × List Handler
compare_nodes s c none current = (s, [])
compare_nodes s c (some new) none = (s, [])
compare_nodes s c (some new) (some current) =
    if leb new.priority current.priority
    then enter_node s (new_state_node c new current)
    else (s, [])

abbrev pub is_zero : ℤ → Bool
is_zero (pos n) = n == 0
is_zero (negsuc n) = false

-- BcuDynamicStateExchange from a state, with the handlers that run and the result; for the NULL
-- pointers it only returns -1.
pub dynamic_state_exchange : List Node → ℕ → Command → (ℕ × List Handler) × ℤ
dynamic_state_exchange nodes s c =
    if c.event_type_intercom == intercom_idle && not (c.event_type_ann == ann_idle)
    then (
      if is_zero (event_id_judge s)
          then compare_nodes s c (priority_list_search nodes c.event_type_ann)
              (priority_list_search nodes s)
          else (s, []),
      pos 0,
    )
    else if c.event_type_ann == ann_idle && not (c.event_type_intercom == intercom_idle)
    then ((s, []), pos 0)
    else ((s, []), negsuc 0)
