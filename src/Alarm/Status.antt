-- ===== src/Alarm/Status.antt =====
-- What a poll of an alarm finds after any sequence of calls and call-backs.
use mitcbcu.Common.{
  ℕ, ◌≡◌, refl, ap, List, [], ◌∷◌, true, Option, none, some, ℤ, pos, negsuc, ◌==◌, if◌then◌else◌,
  Bool-cases, inl, inr, update, ==→eq,
}
use mitcbcu.Names.{is_valid}
use mitcbcu.Pool.{IsSound, with_handle_valid, with_handle_invalid, heap-IsSound, with_handle}
use mitcbcu.Alarm.{
  Alarm, AlarmPool, KernelCall, enable, enable_with_new_trigger, disable, reset_time_out,
  check_time_out, time_out_process,
}

-- The calls that set an alarm's state, each with the handle that it names.
pub data Call : Type 0 where
  enable_call : ℕ → ℕ → Call
  enable_with_new_trigger_call : ℕ → ℕ → ℕ → ℕ → Call
  disable_call : ℕ → Call
  reset_time_out_call : ℕ → Call
  time_out_process_call : ℕ → Call

abbrev pub target : Call → ℕ
target (enable_call h _) = h
target (enable_with_new_trigger_call h _ _ _) = h
target (disable_call h) = h
target (reset_time_out_call h) = h
target (time_out_process_call h) = h

-- The state that the header gives to an alarm after a call: 0 running, 1 timed out, -1 stopped.
abbrev pub status : Call → ℤ
status (enable_call _ _) = pos 0
status (enable_with_new_trigger_call _ _ _ _) = pos 0
status (disable_call _) = negsuc 0
status (reset_time_out_call _) = negsuc 0
status (time_out_process_call _) = pos 1

-- The state that the last call about an alarm gave it.
abbrev pub last_status : List Call → ℕ → ℤ → ℤ
last_status [] h s = s
last_status (c ∷ cs) h s = last_status cs h (if h == target c then status c else s)

abbrev pub state : Option (AlarmPool × (List KernelCall × ℤ)) → Option AlarmPool
state none = none
state (some (p, _)) = some p

-- The pool after a call; `none` is a fault.
pub step : AlarmPool → Call → Option AlarmPool
step p (enable_call h now) = state (enable p h now)
step p (enable_with_new_trigger_call h t i now) = state (enable_with_new_trigger p h t i now)
step p (disable_call h) = state (disable p h)
step p (reset_time_out_call h) = state (reset_time_out p h)
step p (time_out_process_call h) = state (time_out_process p h)

pub run : AlarmPool → List Call → Option AlarmPool
run p [] = some p
run p (c ∷ cs) = elim (step p c) [ none ↦ none | some p' ↦ run p' cs ]

-- Behind every handle in the list lies an alarm.
abbrev pub IsAlarmPool : AlarmPool → Type 0
IsAlarmPool p = IsSound (λ a. Unit {0}) p

-- An alarm in the list, and its state.
abbrev pub IsIn : ℕ → ℤ → AlarmPool → Type 0
IsIn h s p = (is_valid h p.names ≡ true) × (a : Alarm) × (p.heap h ≡ some a) × (a.timeout ≡ s)

-- A call that gives the state `t` to the alarm of the handle `k`.
sets :
    (p : AlarmPool) (h k : ℕ) (s t : ℤ) (f : Alarm → Alarm × (List KernelCall × ℤ))
    → IsAlarmPool p
    → IsIn h s p
    → ((a : Alarm) → (f a).0.timeout ≡ t)
    → (p' : AlarmPool) × (state (with_handle p k ([], negsuc 0) f) ≡ some p')
      × IsAlarmPool p'
      × IsIn h (if h == k then t else s) p'
sets p h k s t f sound (valid, a, l, e) g = elim (Bool-cases (is_valid k p.names)) [
  | inl v ↦
      let (x, lx, _) = sound.live k v in
      (
        record p { heap = update p.heap k (some (f x).0) },
        ap state (with_handle_valid p k ([], negsuc 0) f x v lx),
        heap-IsSound (λ a. Unit) p k (f x).0 sound tt,
        elim (Bool-cases (h == k)) [
          | inl same ↦ (valid, (f x).0, rw same refl, rw same (g x))
          | inr other ↦ (valid, a, rw other l, rw other e)
        ],
      )
  | inr v ↦ (
    p,
    ap state (with_handle_invalid p k ([], negsuc 0) f v),
    sound,
    elim (Bool-cases (h == k)) [
      | inl same ↦ cc (==→eq h k same, valid, v)
      | inr other ↦ (valid, a, l, rw other e)
    ],
  )
]

step-sets :
    (p : AlarmPool) (h : ℕ) (s : ℤ) (c : Call)
    → IsAlarmPool p
    → IsIn h s p
    → (p' : AlarmPool) × (step p c ≡ some p')
      × IsAlarmPool p'
      × IsIn h (if h == target c then status c else s) p'
unfolding step enable enable_with_new_trigger disable reset_time_out time_out_process
step-sets p h s (enable_call k now) sound i = sets p h k s (pos 0) _ sound i (λ a. refl)
step-sets p h s (enable_with_new_trigger_call k t j now) sound i =
    sets p h k s (pos 0) _ sound i (λ a. refl)
step-sets p h s (disable_call k) sound i = sets p h k s (negsuc 0) _ sound i (λ a. refl)
step-sets p h s (reset_time_out_call k) sound i = sets p h k s (negsuc 0) _ sound i (λ a. refl)
step-sets p h s (time_out_process_call k) sound i = sets p h k s (pos 1) _ sound i (λ a. refl)

run-sets :
    (p : AlarmPool) (h : ℕ) (s : ℤ) (cs : List Call)
    → IsAlarmPool p
    → IsIn h s p
    → (p' : AlarmPool) × (run p cs ≡ some p') × IsIn h (last_status cs h s) p'
unfolding run
run-sets p h s [] sound i = (p, refl, i)
run-sets p h s (c ∷ cs) sound i =
    let (q, e, sound', i') = step-sets p h s c sound i in
    rw (run, e) (run-sets q h (if h == target c then status c else s) cs sound' i')

-- Any sequence of calls that enable, disable, reset or time out alarms, on any handles, valid or not,
-- ends without a fault on a sound pool; and for an alarm that is in the list, AlarmCheckTimeOut then
-- returns the state that the last call about this alarm stands for (0 running, 1 timed out,
-- -1 stopped), or the state it had before if there was none.
pub check_time_out_lem :
    (p : AlarmPool) (h : ℕ) (a : Alarm) (cs : List Call)
    → IsAlarmPool p
    → is_valid h p.names ≡ true
    → p.heap h ≡ some a
    → (p' : AlarmPool) × (run p cs ≡ some p')
      × (check_time_out p' h ≡ some (last_status cs h a.timeout))
unfolding check_time_out
check_time_out_lem p h a cs sound v l =
    let (p', e, (v', b, l', t)) = run-sets p h a.timeout cs sound (v, a, l, refl) in
    (p', e, rw (v', l') (ap some t))
