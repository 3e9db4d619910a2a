-- ===== src/Rules/Calls.antt =====
-- Rules added, disabled and enabled while the program runs.
use mitcbcu.Common.{ℕ, ◌≡◌, refl, Bool, true, false, Option, none, some, List, [], ◌∷◌, inl, inr}
use mitcbcu.Rules.{
  Rule, Entry, Table, add_rule, disable_rule, enable_rule, Handler, state_machine_exchange,
}
use mitcbcu.Rules.Table.{
  IsRule, IsEntry, IsTable, add_rule-IsTable, change_first-IsTable, IsExchange-some, IsExchange,
}

-- One call of a rule function, with its rule.
pub data Call : Type 0 where
  add : (x : Rule) → IsRule x → Call
  disable : (x : Rule) → IsRule x → Call
  enable : (x : Rule) → IsRule x → Call

pub step : Table → Call → Option Table
step t (add x _) = some (add_rule t x)
step t (disable x _) = disable_rule t x
step t (enable x _) = enable_rule t x

pub run : Table → List Call → Option Table
run t [] = some t
run t (c ∷ cs) = elim (step t c) [ none ↦ none | some t' ↦ run t' cs ]

set-IsEntry :
    (b : Bool) (e : Entry)
    → IsEntry e
    → e.xrule.is_empty ≡ 0
    → IsEntry (record e { rule_enable = b })
set-IsEntry b e (inl (free, _)) h = cc (free, h)
set-IsEntry b e (inr v) h = inr v

step-IsTable : (t : Table) (c : Call) → IsTable t → (t' : Table) × (step t c ≡ some t') × IsTable t'
unfolding step disable_rule enable_rule
step-IsTable t (add x r) v = (add_rule t x, refl, add_rule-IsTable t x v r)
step-IsTable t (disable x r) v = change_first-IsTable _ t x (set-IsEntry false) v r
step-IsTable t (enable x r) v = change_first-IsTable _ t x (set-IsEntry true) v r

-- Any calls that add, disable and enable rules between states, on a table without bad pointers such as
-- those of BCURuleInit and BCURuleTableInit, end without a fault; and StateMachineExchange on the table
-- after them then faults on no state and event: it keeps the state and runs nothing, or it runs the
-- exit of the old state and the enter of the new one.
pub rule_calls_lem :
    (t : Table) (cs : List Call) (s event : ℕ)
    → IsTable t
    → (t' : Table) × (out : ℕ × List Handler) × (run t cs ≡ some t')
      × (state_machine_exchange t' s event ≡ some out)
      × IsExchange s out
unfolding run
rule_calls_lem t [] s event v =
    let (out, e, x) = IsExchange-some t s event v in (t, out, refl, e, x)
rule_calls_lem t (c ∷ cs) s event v =
    let (u, e, w) = step-IsTable t c v in
    let (t', out, q, g, x) = rule_calls_lem u cs s event w in (t', out, rw (run, e) q, g, x)
