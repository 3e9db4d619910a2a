-- ===== src/Rules/Change.antt =====
-- What the rule functions do to the transitions that StateMachineExchange makes.
use mitcbcu.Common.{
  ℕ, ◌≡◌, ◌≢◌, refl, arith, Bool, true, false, ◌&&◌, ◌||◌, if◌then◌else◌, ◌==◌, Option, none, some,
  List, [], ◌∷◌, ◌++◌, inl, inr, Bool-cases, Option-cases,
}
use mitcbcu.Rules.{
  StatePointer, to_state, null, wild, Rule, Entry, Table, add_rule, same_rule, change_first,
  removed, remove_rule, disable_rule, enable_rule, rule_set, Handler, exit_of, enter_of, triggers,
  state_machine_exchange,
}
use mitcbcu.Rules.Table.{IsTable}

-- What a table stands for: the enabled transitions, each from a state, on an event, to a state.
abbrev pub Transitions : Type 0
Transitions = List (ℕ × ℕ × ℕ)

abbrev pub lookup : Transitions → ℕ → ℕ → Option ℕ
lookup [] s event = none
lookup ((a, e, d) ∷ ts) s event = if s == a && event == e then some d else lookup ts s event

abbrev between : StatePointer → ℕ → StatePointer → Transitions → Transitions
between (to_state a) e (to_state d) ts = (a, e, d) ∷ ts
between (to_state a) e null ts = ts
between (to_state a) e wild ts = ts
between null e q ts = ts
between wild e q ts = ts

unfoldable pub transitions : Table → Transitions
transitions [] = []
transitions (e ∷ t) =
    let rest = transitions t in
    if e.rule_enable
    then between e.xrule.psrc_state e.xrule.trigger_event e.xrule.dest_state rest
    else rest

-- What an exchange does for the state that it is to enter, if any.
abbrev pub reaction : ℕ → Option ℕ → ℕ × List Handler
reaction s none = (s, [])
reaction s (some d) = (d, exit_of s ∷ enter_of d ∷ [])

-- On a table without bad pointers StateMachineExchange faults on no event: it makes the first enabled
-- transition for the state and the event, running the old state's exit and then the new state's
-- enter, and does nothing if there is none.
pub state_machine_exchange_refines :
    (t : Table) (s event : ℕ)
    → IsTable t
    → state_machine_exchange t s event ≡ some (reaction s (lookup (transitions t) s event))
unfolding state_machine_exchange transitions triggers
state_machine_exchange_refines [] s event v = refl
state_machine_exchange_refines (e ∷ t) s event ((inl (free, off)), vt) =
    ground (arith, off, state_machine_exchange_refines t s event vt)
state_machine_exchange_refines (e ∷ t) s event ((inr (taken, (a, d, ea, ed))), vt) =
    ground (arith, ea, ed, state_machine_exchange_refines t s event vt)

-- An empty entry is left.
pub has_room : Table → Bool
has_room [] = false
has_room (e ∷ t) = (e.xrule.is_empty == 1) || has_room t

-- The entries behind an empty one are not enabled.
abbrev pub IsCompact : Table → Type 0
IsCompact [] = Unit
IsCompact (e ∷ t) = (e.xrule.is_empty ≡ 1 → transitions t ≡ []) × IsCompact t

-- BCUAddRule of a rule between states, on a table without bad pointers whose empty entries stand
-- behind the enabled ones: with room it adds the transition behind the others, so that it is made
-- wherever none was made before, and without room it changes nothing.
pub add_rule_lem :
    (t : Table) (s d event : ℕ)
    → IsTable t
    → IsCompact t
    → (has_room t ≡ true
        → transitions (add_rule t (rule_set s d event)) ≡ transitions t ++ ((s, event, d) ∷ []))
      × (has_room t ≡ false → add_rule t (rule_set s d event) ≡ t)
unfolding add_rule rule_set transitions has_room
add_rule_lem [] s d event v c = ((λ r. cc), λ r. refl)
add_rule_lem (e ∷ t) s d event ((inl (free, off)), vt) c =
    ((λ r. ground (arith, free, off, c.0)), λ r. ground (arith, free))
add_rule_lem (e ∷ t) s d event ((inr (taken, (a, b, ea, eb))), vt) c =
    let (more, same) = add_rule_lem t s d event vt c.1 in
    ((λ r. ground (arith, taken, ea, eb, more)), λ r. ground (arith, taken, same))

wild_entry :
    (f : Entry → Entry) (y : Entry) (t : Table) (x : Rule) → change_first f (removed y ∷ t) x ≡ none
unfolding change_first same_rule
wild_entry f y t x = refl

-- A second change of a rule whose entry the first change has made wild.
change_removed :
    (f : Entry → Entry) (t t' : Table) (x : Rule)
    → change_first removed t x ≡ some t'
    → t' ≢ t
    → change_first f t' x ≡ none
unfolding change_first same_rule
change_removed f [] t' x e n = absurd (n cc)
change_removed f (y ∷ t) t' x e n = elim (Bool-cases (y.xrule.is_empty == 0)) [
  | inl m ↦ elim (Option-cases (same_rule y.xrule x)) [
    | inl g ↦ ground (arith, g, m, e)
    | inr (c, g) ↦ elim (Bool-cases c) [
      | inl k ↦ ground (arith, g, k, m, e, wild_entry f y t x)
      | inr k ↦ elim (Option-cases (change_first removed t x)) [
        | inl q ↦ ground (arith, g, k, m, e, q)
        | inr (u, q) ↦ ground (arith, g, k, m, e, q, change_removed f t u x)
      ]
    ]
  ]
  | inr m ↦ elim (Option-cases (change_first removed t x)) [
    | inl q ↦ ground (arith, m, e, q)
    | inr (u, q) ↦ ground (arith, m, e, q, change_removed f t u x)
  ]
]

-- BCURemoveRule of a rule that is in the table leaves a table on which the next BCURemoveRule of the
-- same rule follows a bad pointer, and so do BCUDisableRule and BCUEnableRule: the entry is filled
-- with the character '0' and still counts as used.
pub remove_rule_faults :
    (t t' : Table) (x : Rule)
    → remove_rule t x ≡ some t'
    → t' ≢ t
    → (remove_rule t' x ≡ none) × (disable_rule t' x ≡ none) × (enable_rule t' x ≡ none)
unfolding remove_rule disable_rule enable_rule
remove_rule_faults t t' x e n =
    (change_removed _ t t' x e n, change_removed _ t t' x e n, change_removed _ t t' x e n)
