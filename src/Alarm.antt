-- ===== src/Alarm.antt =====
-- The alarms of 1.0.x/ProdExplUnits/sourcecode/alarm_list_fun.cxx. An alarm is an alarm of the eCos
-- kernel with a state that its call-back sets; the calls of the kernel are results, in their order.
-- `char` is signed, as the header's comment on the state has it.
pub mod Status
pub mod Create
mod Tests
use mitcbcu.Common.{
  ℕ, ◌+◌, Bool, true, false, if◌then◌else◌, Option, none, some, List, [], ◌∷◌, ℤ, pos, negsuc,
  to_int,
}
use mathlib.Core.Option
use mitcbcu.Names
use mitcbcu.Names.{is_valid}
use mitcbcu.Pool.{Pool, with_handle, ask, registered}

-- `alarm_param_type_t`, of which the code uses these fields.
pub record Alarm : Type 0 where
  pub alarm_handle : ℕ
  pub alarm_handle_function : ℕ
  pub abs_trigger_time : ℕ
  pub interval : ℕ
  pub timeout : ℤ

-- The calls of the kernel, each with the handle that it is about.
pub data KernelCall : Type 0 where
  alarm_create : ℕ → KernelCall
  alarm_initialize : ℕ → ℕ → ℕ → KernelCall
  alarm_enable : ℕ → KernelCall
  alarm_disable : ℕ → KernelCall

abbrev pub AlarmPool : Type 0
AlarmPool = Pool Alarm

-- AlarmPointerSave.
abbrev pub alarm_pointer_save : ℕ → List ℕ → Bool → Names.Names → Names.Names × ℤ
alarm_pointer_save h name node_ok ns = Names.save h name node_ok ns

-- AlarmIdIsValid.
abbrev pub alarm_id_is_valid : ℕ → Names.Names → Bool
alarm_id_is_valid h ns = is_valid h ns

-- What malloc and cyg_alarm_create return to one call of AlarmCreate: the structure (NULL is
-- `none`), with whatever `timeout` lies there, whether there is memory for a node, and the handle.
pub record Mallocs : Type 0 where
  pub structure : Option ℕ
  pub old_timeout : ℤ
  pub node_ok : Bool
  pub kernel_handle : ℕ

-- AlarmCreate at the kernel's time `now`; the result 0 is NULL.
pub create :
    AlarmPool → Option (List ℕ) → ℕ → ℕ → ℕ → ℕ → Mallocs → AlarmPool × (List KernelCall × ℤ)
create p none abs_trigger_time interval cb_func now m = (p, ([], pos 0))
create p (some name) abs_trigger_time interval cb_func now m = elim m.structure [
  | none ↦ (p, ([], pos 0))
  | some h ↦
      let (p', ret) =
        registered p h
          (record {
            alarm_handle = m.kernel_handle;
            alarm_handle_function = cb_func;
            abs_trigger_time = abs_trigger_time;
            interval = interval;
            timeout = m.old_timeout;
          })
          (alarm_pointer_save h name m.node_ok p.names) in
      (
        p',
        (
          alarm_create m.kernel_handle
              ∷ alarm_initialize m.kernel_handle (now + abs_trigger_time) interval
              ∷ alarm_disable m.kernel_handle
              ∷ [],
          ret,
        ),
      )
]

-- What starts the kernel's alarm.
abbrev pub start : Alarm → ℕ → List KernelCall
start a now =
    alarm_initialize a.alarm_handle (now + a.abs_trigger_time) a.interval
    ∷ alarm_enable a.alarm_handle
    ∷ []

abbrev pub started : ℕ → Alarm → Alarm × (List KernelCall × ℤ)
started now a = (record a { timeout = pos 0 }, (start a now, pos 0))

-- AlarmEnable.
pub enable : AlarmPool → ℕ → ℕ → Option (AlarmPool × (List KernelCall × ℤ))
enable p h now = with_handle p h ([], negsuc 0) (started now)

-- AlarmEnableWithNewTrigger.
pub enable_with_new_trigger : AlarmPool → ℕ → ℕ → ℕ → ℕ → Option (AlarmPool × (List KernelCall × ℤ))
enable_with_new_trigger p h new_trigger_time new_interval now =
    with_handle p h ([], negsuc 0)
      (λ a. started now (record a { abs_trigger_time = new_trigger_time; interval = new_interval }))

-- AlarmDisable.
pub disable : AlarmPool → ℕ → Option (AlarmPool × (List KernelCall × ℤ))
disable p h =
    with_handle p h ([], negsuc 0)
      (λ a. (record a { timeout = negsuc 0 }, (alarm_disable a.alarm_handle ∷ [], pos 0)))

-- AlarmResetTimeOut.
pub reset_time_out : AlarmPool → ℕ → Option (AlarmPool × (List KernelCall × ℤ))
reset_time_out p h =
    with_handle p h ([], negsuc 0) (λ a. (record a { timeout = negsuc 0 }, ([], pos 0)))

-- AlarmCheckTimeOut.
pub check_time_out : AlarmPool → ℕ → Option ℤ
check_time_out p h = ask p h (negsuc 0) (λ a. a.timeout)

-- AlarmTimeOutProcess, which the alarm's call-back calls.
pub time_out_process : AlarmPool → ℕ → Option (AlarmPool × (List KernelCall × ℤ))
time_out_process p h =
    with_handle p h ([], negsuc 0) (λ a. (record a { timeout = pos 1 }, ([], pos 0)))
