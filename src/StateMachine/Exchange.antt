-- ===== src/StateMachine/Exchange.antt =====
-- BcuDynamicStateExchange and the priorities.
use mitcbcu.Common.{
  ℕ, ◌≤◌, ◌≡◌, ◌≢◌, refl, ap, ◌∙◌, arith, true, false, ◌&&◌, not, leb, ◌==◌, Option, none, some,
  List, [], ◌∷◌, pos, Bool-cases, inl, inr, ◌⊎◌,
}
use mitcbcu.Rules.{Handler, exit_of, enter_of}
use mitcbcu.StateMachine.{
  active_of, Node, idle_node, search, priority_list_search, get_ann_state_priority, Command,
  whether_over_package, new_state_node, enter_node, compare_nodes, event_id_judge, is_zero,
  dynamic_state_exchange, ann_idle, intercom_idle, no_id,
}
use mitcbcu.StateMachine.Priority.{AllNodes, search-found, search-id}

-- The end of the announcement that is running: its state is left for the idle one.
abbrev pub IsOver : ℕ → Command → ℕ → Type 0
IsOver s c d = (whether_over_package c ≡ true) × (c.event_type_ann ≡ s) × (d ≡ ann_idle)

-- An event of a priority value that is not above the current one's: its state is entered.
abbrev pub IsRequest : List Node → ℕ → Command → ℕ → Type 0
IsRequest nodes s c d =
    ((whether_over_package c && c.event_type_ann == s) ≡ false)
    × (d ≡ c.event_type_ann)
    × (p : ℕ) × (q : ℕ) × (get_ann_state_priority nodes d ≡ some p)
    × (get_ann_state_priority nodes s ≡ some q)
    × (p ≤ q)

abbrev pub IsAnswer : List Node → ℕ → Command → ℕ × List Handler → Type 0
IsAnswer nodes s c (d, hs) =
    ((d ≡ s) × (hs ≡ []))
    ⊎ ((hs ≡ (exit_of s ∷ enter_of d ∷ [])) × (IsOver s c d ⊎ IsRequest nodes s c d))

priority_of_found :
    (nodes : List Node) (event_id : ℕ) (n : Node)
    → priority_list_search nodes event_id ≡ some n
    → get_ann_state_priority nodes event_id ≡ some n.priority
unfolding get_ann_state_priority
priority_of_found nodes event_id n e = ap (λ o. elim o [ none ↦ none | some m ↦ some m.priority ]) e

entered :
    (nodes : List Node) (s : ℕ) (c : Command) (new current : Node)
    → AllNodes (idle_node ∷ nodes)
    → priority_list_search nodes c.event_type_ann ≡ some new
    → priority_list_search nodes s ≡ some current
    → new.priority ≤ current.priority
    → IsAnswer nodes s c (enter_node s (new_state_node c new current))
entered nodes s c new current a e f h =
    let (id, state) = search-found (idle_node ∷ nodes) c.event_type_ann new a e in
    elim (Bool-cases (whether_over_package c && new.unique_id == current.unique_id)) [
      | inl m ↦
          let same = search-id (idle_node ∷ nodes) s current f in
          rw m (inr (refl, inl (ground (arith, m), ground (arith, m, id, same), refl)))
      | inr m ↦ elim state [
        | inl none_there ↦ rw (m, none_there) (inl (refl, refl))
        | inr own ↦
            rw (m, own ∙ ap some id)
              (inr (
                refl,
                inr (
                  (rw (id, search-id (idle_node ∷ nodes) s current f) at m),
                  refl,
                  new.priority,
                  current.priority,
                  priority_of_found nodes c.event_type_ann new e,
                  priority_of_found nodes s current f,
                  h,
                ),
              ))
      ]
    ]

compare_nodes_lem :
    (nodes : List Node) (s : ℕ) (c : Command) (new current : Option Node)
    → AllNodes (idle_node ∷ nodes)
    → priority_list_search nodes c.event_type_ann ≡ new
    → priority_list_search nodes s ≡ current
    → IsAnswer nodes s c (compare_nodes s c new current)
unfolding compare_nodes
compare_nodes_lem nodes s c none current a e f = inl (refl, refl)
compare_nodes_lem nodes s c (some new) none a e f = inl (refl, refl)
compare_nodes_lem nodes s c (some new) (some current) a e f =
    elim (Bool-cases (leb new.priority current.priority)) [
      | inl m ↦ rw m (entered nodes s c new current a e f (ground arith))
      | inr m ↦ rw m (inl (refl, refl))
    ]

-- An exchange on a list whose nodes lead to their own states, which every list made from a table is,
-- keeps the state and runs nothing, or it runs the exit of the old state and the enter of a new one.
-- The new state is the idle one if the command ends the announcement of the current state, and else it
-- is the state of the command's event, whose priority value is then not above the current state's.
pub exchange_priority :
    (nodes : List Node) (s : ℕ) (c : Command)
    → AllNodes nodes
    → IsAnswer nodes s c (dynamic_state_exchange nodes s c).0
unfolding dynamic_state_exchange
exchange_priority nodes s c a =
    elim (Bool-cases
      (c.event_type_intercom == intercom_idle && not (c.event_type_ann == ann_idle))) [
        | inl m ↦ elim (Bool-cases (is_zero (event_id_judge s))) [
          | inl j ↦
              rw (m, j)
                (compare_nodes_lem nodes s c (priority_list_search nodes c.event_type_ann)
                  (priority_list_search nodes s) (inr refl, a) refl refl)
          | inr j ↦ rw (m, j) (inl (refl, refl))
        ]
        | inr m ↦
            elim (Bool-cases
              (c.event_type_ann == ann_idle && not (c.event_type_intercom == intercom_idle))) [
                | inl j ↦ rw (m, j) (inl (refl, refl))
                | inr j ↦ rw (m, j) (inl (refl, refl))
              ]
      ]

-- The idle state gives way to every announcement: if the command names an event that has a node with
-- a state, whose priority value fits its 32 bits, and no intercom event, the event's state is entered
-- from the idle one.
pub idle_gives_way :
    (nodes : List Node) (c : Command) (n : Node) (d : ℕ)
    → c.event_type_intercom ≡ intercom_idle
    → c.event_type_ann ≢ ann_idle
    → search nodes c.event_type_ann ≡ some n
    → n.this_state_process ≡ some d
    → n.priority ≤ no_id
    → dynamic_state_exchange nodes ann_idle c ≡ ((d, exit_of ann_idle ∷ enter_of d ∷ []), pos 0)
unfolding dynamic_state_exchange compare_nodes event_id_judge search
idle_gives_way nodes c n d i h e p l = ground (arith, i, e, p, search-id nodes c.event_type_ann n e)

pub whether_over_package_lem :
    (c : Command)
    → c.event_type_intercom ≡ intercom_idle
    → active_of c ≡ some 0
    → whether_over_package c ≡ true
unfolding whether_over_package
whether_over_package_lem c i e = rw (i, e) refl
