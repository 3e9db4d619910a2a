-- ===== src/Rules/Table.antt =====
-- The tables that hold no bad pointer: no rule function but BCURemoveRule makes one that does, and the
-- exchange of states then faults on no event.
use mitcbcu.Common.{
  ℕ, zero, suc, ◌≡◌, refl, arith, Bool, true, false, ◌==◌, some, List, [], ◌∷◌, ◌⊎◌, inl, inr,
  Bool-cases, replicate,
}
use mitcbcu.Rules.{
  to_state, Rule, Entry, Table, empty_entry, rule_init, add_rule, add_rules, same_rule,
  change_first, Handler, exit_of, enter_of, triggers, state_machine_exchange,
}

-- A rule between states.
abbrev pub IsRule : Rule → Type 0
IsRule x = (s : ℕ) × (d : ℕ) × (x.psrc_state ≡ to_state s) × (x.dest_state ≡ to_state d)

abbrev pub AllRules : List Rule → Type 0
AllRules [] = Unit
AllRules (x ∷ xs) = IsRule x × AllRules xs

-- An entry that is empty and not enabled, or in use with a rule between states.
abbrev pub IsEntry : Entry → Type 0
IsEntry e =
    ((e.xrule.is_empty ≡ 1) × (e.rule_enable ≡ false)) ⊎ ((e.xrule.is_empty ≡ 0) × IsRule e.xrule)

abbrev pub IsTable : Table → Type 0
IsTable [] = Unit
IsTable (e ∷ t) = IsEntry e × IsTable t

replicate-IsTable : (n : ℕ) → IsTable (replicate n empty_entry)
replicate-IsTable zero = tt
replicate-IsTable (suc n) = (inl (refl, refl), replicate-IsTable n)

pub rule_init-IsTable : IsTable rule_init
unfolding rule_init
rule_init-IsTable = replicate-IsTable 50

pub add_rule-IsTable : (t : Table) (x : Rule) → IsTable t → IsRule x → IsTable (add_rule t x)
unfolding add_rule
add_rule-IsTable [] x v r = tt
add_rule-IsTable (e ∷ t) x v r = elim (Bool-cases (e.xrule.is_empty == 1)) [
  | inl m ↦ rw m (inr (refl, r), v.1)
  | inr m ↦ rw m (v.0, add_rule-IsTable t x v.1 r)
]

pub add_rules-IsTable :
    (t : Table) (xs : List Rule) → IsTable t → AllRules xs → IsTable (add_rules t xs)
add_rules-IsTable t [] v r = v
add_rules-IsTable t (x ∷ xs) v r =
    add_rules-IsTable (add_rule t x) xs (add_rule-IsTable t x v r.0) r.1

-- Two rules between states can be compared.
pub same_rule-some : (a b : Rule) → IsRule a → IsRule b → (c : Bool) × (same_rule a b ≡ some c)
unfolding same_rule
same_rule-some a b (s, d, es, ed) (s', d', es', ed') =
    rw (es, ed, es', ed')
      (elim (Bool-cases (s == s')) [
        | inl m ↦ elim (Bool-cases (d == d')) [
          | inl n ↦ (a.trigger_event == b.trigger_event, rw (m, n) refl)
          | inr n ↦ (false, rw (m, n) refl)
        ]
        | inr m ↦ (false, rw m refl)
      ])

-- A change that keeps entries good, and looks only at their rules.
pub change_first-IsTable :
    (f : Entry → Entry) (t : Table) (x : Rule)
    → ((e : Entry) → IsEntry e → e.xrule.is_empty ≡ 0 → IsEntry (f e))
    → IsTable t
    → IsRule x
    → (t' : Table) × (change_first f t x ≡ some t') × IsTable t'
unfolding change_first
change_first-IsTable f [] x k v r = ([], refl, tt)
change_first-IsTable f (e ∷ t) x k ((inl (free, off)), vt) r =
    let (t', q, v') = change_first-IsTable f t x k vt r in
    (e ∷ t', ground (arith, free, q), (inl (free, off), v'))
change_first-IsTable f (e ∷ t) x k ((inr (taken, y)), vt) r =
    let (t', q, v') = change_first-IsTable f t x k vt r in
    let (c, g) = same_rule-some e.xrule x y r in
    elim (Bool-cases c) [
      | inl m ↦ (f e ∷ t, ground (arith, taken, g, m), (k e (inr (taken, y)) taken, vt))
      | inr m ↦ (e ∷ t', ground (arith, taken, g, m, q), (inr (taken, y), v'))
    ]

-- What an exchange may do: nothing, or leave one state and enter another.
abbrev pub IsExchange : ℕ → ℕ × List Handler → Type 0
IsExchange s (d, hs) = ((d ≡ s) × (hs ≡ [])) ⊎ (hs ≡ (exit_of s ∷ enter_of d ∷ []))

-- An entry can be tested, and one that is taken leads to a state.
pub triggers-some :
    (e : Entry) (s trigger : ℕ)
    → IsEntry e
    → (c : Bool) × (triggers e s trigger ≡ some c)
      × (c ≡ true → (d : ℕ) × (e.xrule.dest_state ≡ to_state d))
unfolding triggers
triggers-some e s trigger (inl (free, off)) = (false, rw off refl, λ k. cc)
triggers-some e s trigger (inr (taken, (a, d, ea, ed))) = elim (Bool-cases e.rule_enable) [
  | inl on ↦ elim (Bool-cases (s == a)) [
    | inl m ↦ (trigger == e.xrule.trigger_event, rw (on, ea, m) refl, λ k. (d, ed))
    | inr m ↦ (false, rw (on, ea, m) refl, λ k. (d, ed))
  ]
  | inr off ↦ (false, rw off refl, λ k. (d, ed))
]

pub IsExchange-some :
    (t : Table) (s trigger : ℕ)
    → IsTable t
    → (out : ℕ × List Handler) × (state_machine_exchange t s trigger ≡ some out) × IsExchange s out
unfolding state_machine_exchange
IsExchange-some [] s trigger v = ((s, []), refl, inl (refl, refl))
IsExchange-some (e ∷ t) s trigger v =
    let (out, q, i) = IsExchange-some t s trigger v.1 in
    let (c, g, k) = triggers-some e s trigger v.0 in
    elim (Bool-cases c) [
      | inl m ↦
          let (d, ed) = k m in
          ((d, exit_of s ∷ enter_of d ∷ []), rw (state_machine_exchange, g, m, ed) refl, inr refl)
      | inr m ↦ (out, rw (state_machine_exchange, g, m, q) refl, i)
    ]
