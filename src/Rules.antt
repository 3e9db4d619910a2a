-- ===== src/Rules.antt =====
-- The table of rules by which the intercom changes its state: the rule functions, BCURuleTableInit and
-- StateMachineExchange of 1.0.x/ProdExplUnits/sourcecode/bcu_function.cxx, with the types of
-- state_machine.h beside it. A state is known by its `state_id`, which no two states share. A
-- function returns `none` where the code follows a pointer that points to no state. The delay of
-- StateMachineExchange, what it prints, and the copies of state addresses that BCURuleTableInit keeps
-- for other code are left out. An event is an `int` read as its bits.
pub mod Table
pub mod Change
pub mod Calls
pub mod Intercom
pub mod Exchange
mod Tests
use mitcbcu.Common.{
  ℕ, zero, suc, Bool, true, false, ◌&&◌, if◌then◌else◌, ◌==◌, Option, none, some, List, [], ◌∷◌,
  replicate,
}
use mathlib.Core.Option

-- A `state_process_t *`: NULL, the address of a state, or some other address.
pub data StatePointer : Type 0 where
  null : StatePointer
  to_state : ℕ → StatePointer
  wild : StatePointer

-- `state_machine_rule_t` and `state_rule_table_t`.
pub record Rule : Type 0 where
  pub psrc_state : StatePointer
  pub dest_state : StatePointer
  pub trigger_event : ℕ
  pub is_empty : ℕ

pub record Entry : Type 0 where
  pub xrule : Rule
  pub rule_enable : Bool

abbrev pub Table : Type 0
Table = List Entry

-- RECORD_OF_RULES.
abbrev pub record_of_rules : ℕ
record_of_rules = 50

-- The state identifiers and the events of the intercom (an event is one less than the comment behind
-- it in bcu_function.h says, since the enumeration starts at -1), and the pattern that a `memset` to '0' leaves.
abbrev pub d2d_intercomm_event : ℕ
d2d_intercomm_event = 7

abbrev pub d2p_intercomm_event : ℕ
d2p_intercomm_event = 8

abbrev pub d2d_hangup_d2p_event : ℕ
d2d_hangup_d2p_event = 9

abbrev pub intercom_idle : ℕ
intercom_idle = 255

abbrev pub event_ptt_or_driver_call : ℕ
event_ptt_or_driver_call = 12

abbrev pub event_ptt_release_and_driver_release : ℕ
event_ptt_release_and_driver_release = 13

abbrev pub event_confirm_pcu_call : ℕ
event_confirm_pcu_call = 14

abbrev pub event_confirm_release_pcu : ℕ
event_confirm_release_pcu = 15

abbrev pub event_time_out : ℕ
event_time_out = 16

abbrev pub event_transfer_to_d2d_or_driver_call : ℕ
event_transfer_to_d2d_or_driver_call = 17

abbrev pub event_confirm_transfer_to_d2p : ℕ
event_confirm_transfer_to_d2p = 18

abbrev pub digit_zeros : ℕ
digit_zeros = 808464432

-- BCURuleInit.
abbrev pub empty_entry : Entry
empty_entry = record {
  xrule = record { psrc_state = null; dest_state = null; trigger_event = 0; is_empty = 1 };
  rule_enable = false;
}

pub rule_init : Table
rule_init = replicate record_of_rules empty_entry

-- BCUAddRule.
pub add_rule : Table → Rule → Table
add_rule [] x = []
add_rule (e ∷ t) x =
    if e.xrule.is_empty == 1
    then record { xrule = record x { is_empty = 0 }; rule_enable = true } ∷ t
    else e ∷ add_rule t x

-- `p->state_id == q->state_id`.
abbrev pub same_state : StatePointer → StatePointer → Option Bool
same_state (to_state a) (to_state b) = some (a == b)
same_state (to_state a) null = none
same_state (to_state a) wild = none
same_state null q = none
same_state wild q = none

-- A condition whose second part is looked at only if the first holds.
abbrev pub and_then : Option Bool → Option Bool → Option Bool
and_then none y = none
and_then (some true) y = y
and_then (some false) y = some false

-- The three nested comparisons of BCURemoveRule, BCUDisableRule and BCUEnableRule.
pub same_rule : Rule → Rule → Option Bool
same_rule a b =
    and_then (same_state a.psrc_state b.psrc_state)
      (and_then (same_state a.dest_state b.dest_state) (some (a.trigger_event == b.trigger_event)))

-- Their loop: the first entry in use that has the rule is changed.
pub change_first : (Entry → Entry) → Table → Rule → Option Table
change_first f [] x = some []
change_first f (e ∷ t) x =
    let rest = Option.map (λ t'. e ∷ t') (change_first f t x) in
    if e.xrule.is_empty == 0
    then elim (same_rule e.xrule x) [
      | none ↦ none
      | some same ↦ if same then some (f e ∷ t) else rest
    ]
    else rest

abbrev pub removed : Entry → Entry
removed e = record {
  xrule = record {
    psrc_state = wild;
    dest_state = wild;
    trigger_event = digit_zeros;
    is_empty = 0;
  };
  rule_enable = false;
}

-- BCURemoveRule.
pub remove_rule : Table → Rule → Option Table
remove_rule t x = change_first removed t x

-- BCUDisableRule.
pub disable_rule : Table → Rule → Option Table
disable_rule t x = change_first (λ e. record e { rule_enable = false }) t x

-- BCUEnableRule.
pub enable_rule : Table → Rule → Option Table
enable_rule t x = change_first (λ e. record e { rule_enable = true }) t x

-- RuleSet; `is_empty` is not set there, and 0 here.
pub rule_set : ℕ → ℕ → ℕ → Rule
rule_set src_state dst_state trigger_event = record {
  psrc_state = to_state src_state;
  dest_state = to_state dst_state;
  trigger_event = trigger_event;
  is_empty = 0;
}

abbrev pub add_rules : Table → List Rule → Table
add_rules t [] = t
add_rules t (x ∷ xs) = add_rules (add_rule t x) xs

-- The rules that BCURuleTableInit adds, in its order.
pub intercom_rules : List Rule
unfolding rule_set
intercom_rules =
    rule_set intercom_idle d2d_intercomm_event event_ptt_or_driver_call
    ∷ rule_set intercom_idle d2p_intercomm_event event_confirm_pcu_call
    ∷ rule_set d2d_intercomm_event intercom_idle event_ptt_release_and_driver_release
    ∷ rule_set d2p_intercomm_event intercom_idle event_confirm_release_pcu
    ∷ rule_set d2p_intercomm_event d2d_hangup_d2p_event event_transfer_to_d2d_or_driver_call
    ∷ rule_set d2d_hangup_d2p_event d2d_intercomm_event event_time_out
    ∷ rule_set d2d_hangup_d2p_event d2p_intercomm_event event_confirm_transfer_to_d2p
    ∷ []

-- The table that BCURuleTableInit makes.
pub rule_table_init : Table
unfolding rule_init add_rule intercom_rules
rule_table_init = add_rules rule_init intercom_rules

-- A handler of a state that runs.
pub data Handler : Type 0 where
  exit_of : ℕ → Handler
  enter_of : ℕ → Handler

-- The rule found: the old state's `exit` runs, then the new state's `enter`.
abbrev pub switch : ℕ → StatePointer → Option (ℕ × List Handler)
switch s null = none
switch s wild = none
switch s (to_state d) = some (d, exit_of s ∷ enter_of d ∷ [])

-- The condition of StateMachineExchange on an entry.
pub triggers : Entry → ℕ → ℕ → Option Bool
triggers e s trigger_signal = and_then (some e.rule_enable) (
    and_then (same_state (to_state s) e.xrule.psrc_state)
      (some (trigger_signal == e.xrule.trigger_event)))

-- StateMachineExchange: the state afterwards, and the handlers that ran.
pub state_machine_exchange : Table → ℕ → ℕ → Option (ℕ × List Handler)
state_machine_exchange [] s trigger_signal = some (s, [])
state_machine_exchange (e ∷ t) s trigger_signal =
    let rest = state_machine_exchange t s trigger_signal in
    elim (triggers e s trigger_signal) [
      | none ↦ none
      | some taken ↦ if taken then switch s e.xrule.dest_state else rest
    ]
