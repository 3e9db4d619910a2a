-- ===== src/StateMachine/Priority.antt =====
-- The list of events by priority: how it is made, and what is found in it.
use mitcbcu.Common.{
  ℕ, zero, suc, ◌≡◌, refl, ap, sym, ◌∙◌, arith, Bool, true, if◌then◌else◌, leb, ◌==◌, Option, none,
  some, List, [], ◌∷◌, ◌++◌, length, take, negsuc, length-append, Bool-cases, inl, inr, ◌⊎◌, ==→eq,
  append_assoc, append-nil,
}
use mathlib.Core.Path.{subst}
use mitcbcu.StateMachine.Sort.{Row, Table}
use mitcbcu.StateMachine.{
  Node, Options, option_id, state_with, new_node, create_priority_node, make_nodes, reverse, linked,
  create_priority_list, node_update, search, get_ann_state_priority, bcu_all_states, ann_idle,
  no_id,
}

abbrev pub nodes_of : Options → Table → List Node
nodes_of options [] = []
nodes_of options (row ∷ rows) = new_node options row ∷ nodes_of options rows

length-reverse : (rows : Table) → length (reverse rows) ≡ length rows
length-reverse [] = refl
length-reverse (row ∷ rows) =
    omega (arith, length-append {0} (reverse rows) (row ∷ []), length-reverse rows)

make_nodes-take :
    (options : Options) (rows : Table) (memory : ℕ)
    → make_nodes options rows memory
      ≡ (nodes_of options (take memory rows), leb (length rows) memory)
make_nodes-take options [] zero = refl
make_nodes-take options [] (suc memory) = ground arith
make_nodes-take options (row ∷ rows) zero = ground arith
make_nodes-take options (row ∷ rows) (suc memory) =
    ground (arith, make_nodes-take options rows memory)

-- BcuAnnStateCreatePriorityList makes one node for each row of the table, the last row first, as far
-- as there is memory; the first node made replaces the list behind the idle node, and the result is 0
-- if all are made and -1 if not. A table without rows keeps the old list.
pub create_priority_list_lem :
    (options : Options) (nodes : List Node) (rows : Table) (memory : ℕ)
    → create_priority_list options nodes (some rows) memory
      ≡ linked nodes (nodes_of options (take memory (reverse rows)), leb (length rows) memory)
unfolding create_priority_list
create_priority_list_lem options nodes rows memory = ap (linked nodes) (
    make_nodes-take options (reverse rows) memory
    ∙ ap (λ n. (nodes_of options (take memory (reverse rows)), leb n memory)) (length-reverse rows))

-- BcuAnnStateNodeUpdate never adds a node, and returns -1, whether it is given a row or NULL: it hands
-- on only NULL.
pub node_update_never :
    (options : Options) (nodes : List Node) (row : Option Row) (malloc_ok : Bool)
    → node_update options nodes row malloc_ok ≡ (nodes, negsuc 0)
unfolding node_update create_priority_node
node_update_never options nodes none malloc_ok = refl
node_update_never options nodes (some row) malloc_ok = refl

-- BcuUpdatePriorArray for one row after the other of the database, with memory for all.
pub create_nodes : Options → List Node → Table → List Node
create_nodes options nodes [] = nodes
create_nodes options nodes (row ∷ rows) =
    create_nodes options (create_priority_node options nodes (some row) true).0 rows

create_nodes-append :
    (options : Options) (nodes : List Node) (rows : Table)
    → create_nodes options nodes rows ≡ nodes ++ nodes_of options rows
unfolding create_nodes create_priority_node
create_nodes-append options nodes [] = sym (append-nil nodes)
create_nodes-append options nodes (row ∷ rows) =
    create_nodes-append options (nodes ++ (new_node options row ∷ [])) rows
    ∙ append_assoc nodes (new_node options row ∷ []) (nodes_of options rows)

-- The priority value of the first row whose name is an event's.
abbrev pub row_priority : Options → Table → ℕ → Option ℕ
row_priority options [] event_id = none
row_priority options (row ∷ rows) event_id =
    if event_id == option_id options row.event_name
    then some row.event_priority
    else row_priority options rows event_id

search-nodes_of :
    (options : Options) (rows : Table) (event_id : ℕ)
    → elim (search (nodes_of options rows) event_id) [ none ↦ none | some n ↦ some n.priority ]
      ≡ row_priority options rows event_id
unfolding search new_node
search-nodes_of options [] event_id = refl
search-nodes_of options (row ∷ rows) event_id =
    ground (arith, search-nodes_of options rows event_id)

-- When the rows of the database have been added to an empty list, with memory for all, the priority
-- value of an event is the one of the first row whose name is the event's; the idle event has the
-- lowest priority whatever the rows say; and for any other event the code uses a NULL pointer.
pub get_ann_state_priority_lem :
    (options : Options) (rows : Table) (event_id : ℕ)
    → get_ann_state_priority (create_nodes options [] rows) event_id
      ≡ (if event_id == ann_idle then some no_id else row_priority options rows event_id)
unfolding get_ann_state_priority search
get_ann_state_priority_lem options rows event_id =
    ground (arith, create_nodes-append options [] rows, search-nodes_of options rows event_id)

-- A node of a state, or of none.
abbrev pub IsNode : Node → Type 0
IsNode n = (n.this_state_process ≡ none) ⊎ (n.this_state_process ≡ some n.unique_id)

abbrev pub AllNodes : List Node → Type 0
AllNodes [] = Unit
AllNodes (n ∷ ns) = IsNode n × AllNodes ns

state_with-cases :
    (id : ℕ) (states : List ℕ) → (state_with id states ≡ none) ⊎ (state_with id states ≡ some id)
state_with-cases id [] = inl refl
state_with-cases id (s ∷ states) = elim (Bool-cases (id == s)) [
  | inl e ↦ inr (rw e (ap some (sym (==→eq id s e))))
  | inr e ↦ rw e (state_with-cases id states)
]

pub nodes_of-AllNodes : (options : Options) (rows : Table) → AllNodes (nodes_of options rows)
unfolding new_node
nodes_of-AllNodes options [] = tt
nodes_of-AllNodes options (row ∷ rows) = (
  state_with-cases (option_id options row.event_name) bcu_all_states,
  nodes_of-AllNodes options rows,
)

pub search-id :
    (nodes : List Node) (event_id : ℕ) (n : Node)
    → search nodes event_id ≡ some n
    → n.unique_id ≡ event_id
unfolding search
search-id [] event_id n e = cc
search-id (x ∷ nodes) event_id n e = elim (Bool-cases (event_id == x.unique_id)) [
  | inl m ↦
      let same : x ≡ n = ground (arith, m, e) in
      ap (λ y. y.unique_id) (sym same) ∙ sym (==→eq event_id x.unique_id m)
  | inr m ↦ search-id nodes event_id n (ground (arith, m, e))
]

-- What a search finds has the identifier, and belongs to its state.
pub search-found :
    (nodes : List Node) (event_id : ℕ) (n : Node)
    → AllNodes nodes
    → search nodes event_id ≡ some n
    → (n.unique_id ≡ event_id) × IsNode n
unfolding search
search-found [] event_id n a e = cc
search-found (x ∷ nodes) event_id n a e = elim (Bool-cases (event_id == x.unique_id)) [
  | inl m ↦
      let same : x ≡ n = ground (arith, m, e) in
      (search-id (x ∷ nodes) event_id n e, subst IsNode same a.0)
  | inr m ↦ search-found nodes event_id n a.1 (ground (arith, m, e))
]
