-- ===== src/Alarm/Create.antt =====
-- AlarmCreate makes an alarm that is stopped.
use mitcbcu.Common.{ℕ, ◌+◌, ◌≡◌, ◌≢◌, refl, List, [], ◌∷◌, true, false, some, ℤ, to_int}
use mitcbcu.Names.{is_valid, name_taken}
use mitcbcu.Names.Text.{IsName}
use mitcbcu.Names.Save.{IsCleanFor}
use mitcbcu.Pool.Save.{registered_lem}
use mitcbcu.Alarm.{
  Alarm, AlarmPool, Mallocs, create, check_time_out, KernelCall, alarm_create, alarm_initialize,
  alarm_disable,
}

abbrev pub flat : AlarmPool × (List KernelCall × ℤ) → AlarmPool × List KernelCall × ℤ
flat (p, (calls, ret)) = (p, calls, ret)

-- AlarmCreate of a new name that fits, when malloc has memory for the alarm and for a node and no
-- unused node keeps an older byte behind the name: it returns the address of the alarm, which is valid
-- from then on; it has the kernel create the alarm, set its trigger to the delay from now with the
-- interval, and disable it, in this order; and what AlarmCheckTimeOut then returns is what lay in the
-- memory that malloc gave, since no statement sets the state.
pub alarm_create_lem :
    (p : AlarmPool) (name : List ℕ) (abs_trigger_time interval cb_func now : ℕ) (m : Mallocs)
    (h : ℕ)
    → m.structure ≡ some h
    → h ≢ 0
    → m.node_ok ≡ true
    → IsName name
    → IsCleanFor name p.names
    → name_taken name p.names ≡ false
    → let (p', calls, ret) = flat (create p (some name) abs_trigger_time interval cb_func now m) in
      (ret ≡ to_int h)
      × (is_valid h p'.names ≡ true)
      × (calls
          ≡ alarm_create m.kernel_handle
            ∷ alarm_initialize m.kernel_handle (now + abs_trigger_time) interval
            ∷ alarm_disable m.kernel_handle
            ∷ [])
      × (check_time_out p' h ≡ some m.old_timeout)
unfolding create check_time_out
alarm_create_lem p name abs_trigger_time interval cb_func now m h e hn ok v c t =
    let (r, o, valid, l) = registered_lem p h new name m.node_ok hn ok v c t in
    rw e (r, valid, refl, rw (valid, l) refl)
  where
    new : Alarm
    new = record {
      alarm_handle = m.kernel_handle;
      alarm_handle_function = cb_func;
      abs_trigger_time = abs_trigger_time;
      interval = interval;
      timeout = m.old_timeout;
    }
