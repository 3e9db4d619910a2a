-- ===== src/Alarm/Tests.antt =====
-- An alarm started, timed out and polled.
use mitcbcu.Common.{◌≡◌, refl, List, [], ◌∷◌, true, none, some, pos, negsuc}
use mitcbcu.Names.{no_names}
use mitcbcu.Names.Tests.{two_names, two_names-IsDistinct, two_names-valid}
use mitcbcu.Alarm.{Alarm, AlarmPool, Mallocs, check_time_out}
use mitcbcu.Alarm.Status.{
  Call, enable_call, disable_call, time_out_process_call, run, IsAlarmPool, check_time_out_lem,
}

abbrev alarm : Alarm
alarm = record {
  alarm_handle = 3;
  alarm_handle_function = 4000;
  abs_trigger_time = 100;
  interval = 50;
  timeout = negsuc 0;
}

abbrev alarms : AlarmPool
alarms = record { names = two_names; heap = λ h. some alarm }

alarms-IsAlarmPool : IsAlarmPool alarms
alarms-IsAlarmPool = record { distinct = two_names-IsDistinct; live = λ h e. (alarm, refl, tt) }

-- The alarm 500 times out; the other one is started and stopped.
abbrev script : List Call
script = enable_call 500 9 ∷ enable_call 600 9 ∷ time_out_process_call 500 ∷ disable_call 600 ∷ []

check_time_out_lem_example :
    (p' : AlarmPool) × (run alarms script ≡ some p') × (check_time_out p' 500 ≡ some (pos 1))
check_time_out_lem_example =
    check_time_out_lem alarms 500 alarm script alarms-IsAlarmPool two_names-valid refl

-- malloc finds the alarm at 500, with 42 in the place of its state.
abbrev memory : Mallocs
memory = record { structure = some 500; old_timeout = pos 42; node_ok = true; kernel_handle = 3 }

abbrev no_alarms : AlarmPool
no_alarms = record { names = no_names; heap = λ h. none }
