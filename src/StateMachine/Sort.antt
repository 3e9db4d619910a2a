-- ===== src/StateMachine/Sort.antt =====
-- BcuDynamicStateSort of 1.0.x/ProdExplUnits/sourcecode/bcu_state_machine.cxx, a bubble sort of the
-- table of priorities. An access outside of the table gives `none`; for a table without items this
-- happens at once, since the code counts to `table_items-1` in `unsigned int`.
pub mod Bubble
use mitcbcu.Common.{
  ℕ, zero, suc, if◌then◌else◌, ltb, List, [], ◌∷◌, length, Option, none, some, ◌>>=◌, sub_u32,
}

-- `event_priority_table_t`.
pub record Row : Type 0 where
  pub event_name : List ℕ
  pub event_priority : ℕ

abbrev pub Table : Type 0
Table = List Row

-- The inner loop for so many comparisons.
pub pass : ℕ → Table → Option Table
pass zero t = some t
pass (suc k) [] = none
pass (suc k) (a ∷ []) = none
pass (suc k) (a ∷ b ∷ t) =
    let larger = ltb b.event_priority a.event_priority in
    do rest ← pass k ((if larger then a else b) ∷ t); some ((if larger then b else a) ∷ rest)

-- The outer loop: `table_items-1` comparisons, then one less in each round, down to one.
pub passes : ℕ → Table → Option Table
passes zero t = some t
passes (suc k) t = do passed ← pass (suc k) t; passes k passed

-- BcuDynamicStateSort.
pub dynamic_state_sort : Table → Option Table
dynamic_state_sort t = passes (sub_u32 (length t) 1) t
