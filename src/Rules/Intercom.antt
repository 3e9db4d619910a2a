-- ===== src/Rules/Intercom.antt =====
-- The state machine of the intercom, as BCURuleTableInit sets it up and StateMachineExchange runs it.
use mitcbcu.Common.{
  ℕ, ◌≡◌, refl, ap, ◌∙◌, arith, ◌==◌, Option, none, some, List, [], ◌∷◌, ◌++◌, ◌⊎◌, inl, inr,
  Bool-cases, ==→eq, Option-cases,
}
use mitcbcu.Rules.{
  Table, rule_init, rule_set, intercom_rules, rule_table_init, Handler, exit_of, enter_of,
  state_machine_exchange, d2d_intercomm_event, d2p_intercomm_event, d2d_hangup_d2p_event,
  intercom_idle, event_ptt_or_driver_call, event_ptt_release_and_driver_release,
  event_confirm_pcu_call, event_confirm_release_pcu, event_time_out,
  event_transfer_to_d2d_or_driver_call, event_confirm_transfer_to_d2p,
}
use mitcbcu.Rules.Table.{IsTable, IsRule, rule_init-IsTable, add_rules-IsTable}
use mitcbcu.Rules.Change.{
  Transitions, transitions, lookup, reaction, state_machine_exchange_refines,
}

-- The transitions of the intercom.
pub data Transition : ℕ → ℕ → ℕ → Type 0 where
  call_driver : Transition intercom_idle event_ptt_or_driver_call d2d_intercomm_event
  confirm_passenger : Transition intercom_idle event_confirm_pcu_call d2p_intercomm_event
  release_driver : Transition d2d_intercomm_event event_ptt_release_and_driver_release intercom_idle
  release_passenger : Transition d2p_intercomm_event event_confirm_release_pcu intercom_idle
  hang_up : Transition d2p_intercomm_event event_transfer_to_d2d_or_driver_call d2d_hangup_d2p_event
  time_out : Transition d2d_hangup_d2p_event event_time_out d2d_intercomm_event
  transfer_back : Transition d2d_hangup_d2p_event event_confirm_transfer_to_d2p d2p_intercomm_event

pub rule_table_init-IsTable : IsTable rule_table_init
unfolding rule_table_init rule_set intercom_rules
rule_table_init-IsTable =
    add_rules-IsTable rule_init intercom_rules rule_init-IsTable
      (between, (between, (between, (between, (between, (between, (between, tt)))))))
  where
    between : {a d : ℕ} → IsRule (rule_set a d 0)
    between {a} {d} = (a, d, refl, refl)

abbrev All : (ℕ → ℕ → ℕ → Type 0) → Transitions → Type 0
All P [] = Unit
All P ((s, e, d) ∷ ts) = P s e d × All P ts

all-lookup :
    (P : ℕ → ℕ → ℕ → Type 0) (ts : Transitions) (s event d : ℕ)
    → lookup ts s event ≡ some d
    → All P ts
    → P s event d
all-lookup P [] s event d h a = cc
all-lookup P ((x, e, y) ∷ ts) s event d h (p, ps) = elim (Bool-cases (s == x)) [
  | inl m ↦ elim (Bool-cases (event == e)) [
    | inl n ↦
        let same : d ≡ y = ground (arith, m, n, h) in rw (==→eq s x m, ==→eq event e n, same) p
    | inr n ↦ all-lookup P ts s event d (ground (arith, m, n, h)) ps
  ]
  | inr m ↦ all-lookup P ts s event d (ground (arith, m, h)) ps
]

found-Transition :
    (s event d : ℕ) → lookup (transitions rule_table_init) s event ≡ some d → Transition s event d
unfolding transitions rule_table_init intercom_rules rule_init rule_set
found-Transition s event d h = all-lookup Transition (transitions rule_table_init) s event d h (
  call_driver,
  (
    confirm_passenger,
    (release_driver, (release_passenger, (hang_up, (time_out, (transfer_back, tt))))),
  ),
)

made-Transition :
    (s event d : ℕ) → Transition s event d → lookup (transitions rule_table_init) s event ≡ some d
unfolding transitions rule_table_init intercom_rules rule_init rule_set
made-Transition _ _ _ call_driver = refl
made-Transition _ _ _ confirm_passenger = refl
made-Transition _ _ _ release_driver = refl
made-Transition _ _ _ release_passenger = refl
made-Transition _ _ _ hang_up = refl
made-Transition _ _ _ time_out = refl
made-Transition _ _ _ transfer_back = refl

-- StateMachineExchange on the table of BCURuleTableInit, from any state and on any event, makes the
-- transition of the intercom that there is, running the exit of the old state and then the enter of
-- the new one; if there is none it keeps the state and runs nothing.
pub intercom_exchange :
    (s event : ℕ)
    → ((d : ℕ) × Transition s event d
        × (state_machine_exchange rule_table_init s event ≡ some (d, exit_of s ∷ enter_of d ∷ [])))
      ⊎ (((d : ℕ) → ¬ Transition s event d)
          × (state_machine_exchange rule_table_init s event ≡ some (s, [])))
intercom_exchange s event =
    let run = state_machine_exchange_refines rule_table_init s event rule_table_init-IsTable in
    elim (Option-cases (lookup (transitions rule_table_init) s event)) [
      | inl e ↦
          inr ((λ d m. cc (e, made-Transition s event d m)), run ∙ ap (λ o. some (reaction s o)) e)
      | inr (d, e) ↦ inl (d, found-Transition s event d e, run ∙ ap (λ o. some (reaction s o)) e)
    ]

-- A sequence of events: the last state, and all the handlers that ran.
abbrev pub prepend : List Handler → Option (ℕ × List Handler) → Option (ℕ × List Handler)
prepend hs none = none
prepend hs (some (d, more)) = some (d, hs ++ more)

pub exchange_all : Table → ℕ → List ℕ → Option (ℕ × List Handler)
exchange_all t s [] = some (s, [])
exchange_all t s (event ∷ events) = elim (state_machine_exchange t s event) [
  | none ↦ none
  | some (d, hs) ↦ prepend hs (exchange_all t d events)
]

-- Handlers that leave each state they entered, one after the other.
pub data IsChain : ℕ → List Handler → ℕ → Type 0 where
  stay : {s : ℕ} → IsChain s [] s
  go : {s m d : ℕ} {hs : List Handler} → IsChain m hs d → IsChain s (exit_of s ∷ enter_of m ∷ hs) d

-- The four states of the intercom.
abbrev pub IsIntercom : ℕ → Type 0
IsIntercom s =
    (s ≡ intercom_idle)
    ⊎ ((s ≡ d2d_intercomm_event) ⊎ ((s ≡ d2p_intercomm_event) ⊎ (s ≡ d2d_hangup_d2p_event)))

Transition-IsIntercom : {s event d : ℕ} → Transition s event d → IsIntercom d
Transition-IsIntercom call_driver = inr (inl refl)
Transition-IsIntercom confirm_passenger = inr (inr (inl refl))
Transition-IsIntercom release_driver = inl refl
Transition-IsIntercom release_passenger = inl refl
Transition-IsIntercom hang_up = inr (inr (inr refl))
Transition-IsIntercom time_out = inr (inl refl)
Transition-IsIntercom transfer_back = inr (inr (inl refl))

-- From each of the four states of the intercom and for any sequence of events, the exchanges on the
-- table of BCURuleTableInit end without a fault in one of these states, and of the handlers that ran
-- each exit leaves the state entered last.
pub exchange_all-IsIntercom :
    (s : ℕ) (events : List ℕ)
    → IsIntercom s
    → (d : ℕ) × (hs : List Handler) × (exchange_all rule_table_init s events ≡ some (d, hs))
      × IsIntercom d
      × IsChain s hs d
unfolding exchange_all
exchange_all-IsIntercom s [] i = (s, [], refl, i, stay)
exchange_all-IsIntercom s (event ∷ events) i = elim (intercom_exchange s event) [
  | inl (m, t, e) ↦
      let (d, hs, q, j, c) = exchange_all-IsIntercom m events (Transition-IsIntercom t) in
      (d, exit_of s ∷ enter_of m ∷ hs, rw (exchange_all, e, q) refl, j, go c)
  | inr (_, e) ↦
      let (d, hs, q, j, c) = exchange_all-IsIntercom s events i in
      (d, hs, rw (exchange_all, e, q) refl, j, c)
]

-- The way back to the idle state.
way_home : {s : ℕ} → IsIntercom s → List ℕ
way_home (inl e) = []
way_home (inr (inl e)) = event_ptt_release_and_driver_release ∷ []
way_home (inr (inr (inl e))) = event_confirm_release_pcu ∷ []
way_home (inr (inr (inr e))) = event_time_out ∷ event_ptt_release_and_driver_release ∷ []

made :
    {s event d : ℕ}
    → Transition s event d
    → state_machine_exchange rule_table_init s event ≡ some (d, exit_of s ∷ enter_of d ∷ [])
made {s} {event} {d} t =
    state_machine_exchange_refines rule_table_init s event rule_table_init-IsTable
    ∙ ap (λ o. some (reaction s o)) (made-Transition s event d t)

home :
    (d : ℕ) (j : IsIntercom d)
    → (hs : List Handler) × (exchange_all rule_table_init d (way_home j) ≡ some (intercom_idle, hs))
unfolding exchange_all way_home
home d (inl e) = ([], ap (λ x. some (x, [])) e)
home d (inr (inl e)) = (
  exit_of d2d_intercomm_event ∷ enter_of intercom_idle ∷ [],
  rw e (rw (exchange_all, made release_driver) refl),
)
home d (inr (inr (inl e))) = (
  exit_of d2p_intercomm_event ∷ enter_of intercom_idle ∷ [],
  rw e (rw (exchange_all, made release_passenger) refl),
)
home d (inr (inr (inr e))) = (
  exit_of d2d_hangup_d2p_event
      ∷ enter_of d2d_intercomm_event
      ∷ exit_of d2d_intercomm_event
      ∷ enter_of intercom_idle
      ∷ [],
  rw e (rw (exchange_all, made time_out, exchange_all, made release_driver) refl),
)

-- After any sequence of events that starts in one of the four states of the intercom, some further
-- sequence leads back to the idle state.
pub intercom_comes_home :
    (s : ℕ) (events : List ℕ)
    → IsIntercom s
    → (d : ℕ) × (hs : List Handler) × (more : List ℕ) × (hs' : List Handler) × (exchange_all
          rule_table_init s events
        ≡ some (d, hs))
      × (exchange_all rule_table_init d more ≡ some (intercom_idle, hs'))
intercom_comes_home s events i =
    let (d, hs, q, j, c) = exchange_all-IsIntercom s events i in
    let (hs', h) = home d j in (d, hs, way_home j, hs', q, h)
