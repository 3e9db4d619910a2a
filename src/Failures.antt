-- ===== src/Failures.antt =====
-- The failures of the devices: WhetherHaveDevFailureInfo, CheckCertificateDeviceFailureInfo and
-- CheckDeviceFailureStatusPerTypeDeviceFFromNet of 1.0.x/ProdExplUnits/sourcecode/bcu_function.cxx.
pub mod Summary
pub mod Changes
mod Tests
use mitcbcu.Common.{
  ℕ, zero, suc, ◌+◌, Bool, true, false, not, ◌&&◌, ◌||◌, ◌==◌, if◌then◌else◌, List, [], ◌∷◌,
}

-- `eamp_info_t` with its `eamp_per_dev_failure_info`.
pub record EampInfo : Type 0 where
  pub online : ℕ
  pub outer_sider_led1 : ℕ
  pub outer_sider_led2 : ℕ
  pub in_sider_led1 : ℕ
  pub in_sider_led2 : ℕ
  pub nd1 : ℕ
  pub nd2 : ℕ
  pub dm : ℕ

-- `g_dev_fault_info_t`: its arrays of 6 amplifiers, 2 BCUs, 2 CCUs and 12 PCUs. Of a CCU there are
-- `online` and `fdu_failure_info`.
pub record DevFaultInfo : Type 0 where
  pub eamp_info : ℕ → EampInfo
  pub bcu_online : ℕ → ℕ
  pub ccu_online : ℕ → ℕ
  pub ccu_fdu : ℕ → ℕ
  pub pcu_online : ℕ → ℕ

-- The loops `for(i = 0;i < n;i++) if(...) { ret = 1; break; }`, with the rounds left.
abbrev pub any_from : ℕ → ℕ → (ℕ → Bool) → Bool
any_from zero i p = false
any_from (suc n) i p = let rest = any_from n (i + 1) p in if p i then true else rest

abbrev pub any : ℕ → (ℕ → Bool) → Bool
any n p = any_from n 0 p

abbrev pub differs : ℕ → ℕ → Bool
differs a b = not (a == b)

abbrev pub ret_of : Bool → ℕ
ret_of b = if b then 1 else 0

abbrev pub eamp_fails : EampInfo → Bool
eamp_fails e =
    differs e.online 1
    || (differs e.dm 0
        || (differs e.in_sider_led1 0
            || (differs e.in_sider_led2 0
                || (differs e.nd1 0
                    || (differs e.nd2 0
                        || (differs e.outer_sider_led1 0 || (differs e.outer_sider_led2 0)))))))

-- WhetherHaveDevFailureInfo.
unfoldable pub whether_have_dev_failure_info : DevFaultInfo → ℕ
whether_have_dev_failure_info f =
    if any 2 (λ i. differs (f.bcu_online i) 1)
    then 1
    else if any 2 (λ i. differs (f.ccu_online i) 1 || differs (f.ccu_fdu i) 0)
    then 1
    else if any 6 (λ i. eamp_fails (f.eamp_info i))
    then 1
    else if any 12 (λ i. differs (f.pcu_online i) 1)
    then 1
    else 0

-- CheckCertificateDeviceFailureInfo on `dev_falut_info` and `dev_falut_last_info`.
unfoldable pub check_certificate_device_failure_info : DevFaultInfo → DevFaultInfo → ℕ → ℕ
check_certificate_device_failure_info f last flag =
    if flag == 1
    then ret_of (any 2 (λ i. differs (f.bcu_online i) (last.bcu_online i)))
    else if flag == 2
    then ret_of (any 2 (λ i. differs (f.ccu_online i) (last.ccu_online i)))
    else if flag == 3
    then ret_of (any 6 (λ i. differs (f.eamp_info i).online (last.eamp_info i).online))
    else if flag == 4
    then ret_of (any 12 (λ i. differs (f.pcu_online i) (last.pcu_online i)))
    else if flag == 5
    then ret_of (
        any 6 (λ i.
          differs (f.eamp_info i).nd1 (last.eamp_info i).nd1
          || differs (f.eamp_info i).nd2 (last.eamp_info i).nd2))
    else if flag == 6
    then ret_of (any 6 (λ i. differs (f.eamp_info i).dm (last.eamp_info i).dm))
    else if flag == 7
    then ret_of (any 2 (λ i. differs (f.ccu_fdu i) (last.ccu_fdu i)))
    else if flag == 8
    then ret_of (
        any 6 (λ i.
          differs (f.eamp_info i).in_sider_led1 (last.eamp_info i).in_sider_led2
          || differs (f.eamp_info i).in_sider_led2 (last.eamp_info i).in_sider_led2))
    else if flag == 9
    then ret_of (
        any 6 (λ i.
          differs (f.eamp_info i).outer_sider_led1 (last.eamp_info i).outer_sider_led1
          || differs (f.eamp_info i).outer_sider_led2 (last.eamp_info i).outer_sider_led2))
    else 0

-- `device_recv_failure` and `device_failure`.
pub record DeviceFailure : Type 0 where
  pub bcu : ℕ
  pub ccu : ℕ
  pub eamp : ℕ
  pub pcu : ℕ
  pub fdu : ℕ
  pub outer_sider_led : ℕ
  pub in_sider_led : ℕ
  pub dm : ℕ
  pub nd : ℕ

-- `device_recv_failure` as CheckDeviceFailureStatusPerTypeDeviceFFromNet sets it.
abbrev pub device_recv_failure : DevFaultInfo → DeviceFailure
device_recv_failure f = record {
  bcu = ret_of (any 2 (λ i. differs (f.bcu_online i) 1));
  ccu = ret_of (any 2 (λ i. differs (f.ccu_online i) 1));
  eamp = ret_of (any 6 (λ i. differs (f.eamp_info i).online 1));
  pcu = ret_of (any 12 (λ i. differs (f.pcu_online i) 1));
  fdu = ret_of (any 2 (λ i. differs (f.ccu_fdu i) 0));
  in_sider_led = ret_of (
      any 6
        (λ i. differs (f.eamp_info i).in_sider_led1 0 || differs (f.eamp_info i).in_sider_led2 0));
  outer_sider_led = ret_of (
      any 6 (λ i.
        differs (f.eamp_info i).outer_sider_led1 0 || differs (f.eamp_info i).outer_sider_led2 0));
  nd = ret_of (any 6 (λ i. differs (f.eamp_info i).nd1 0 || differs (f.eamp_info i).nd2 0));
  dm = ret_of (any 6 (λ i. differs (f.eamp_info i).dm 0));
}

-- Its last loop, over the entries 0 to 8.
abbrev pub failures_differ : DeviceFailure → DeviceFailure → Bool
failures_differ a b =
    differs a.bcu b.bcu
    || (differs a.ccu b.ccu
        || (differs a.eamp b.eamp
            || (differs a.pcu b.pcu
                || (differs a.fdu b.fdu
                    || (differs a.outer_sider_led b.outer_sider_led
                        || (differs a.in_sider_led b.in_sider_led
                            || (differs a.dm b.dm || (differs a.nd b.nd))))))))

-- CheckDeviceFailureStatusPerTypeDeviceFFromNet: its result and the new `device_recv_failure`.
unfoldable pub check_device_failure_status : DevFaultInfo → DeviceFailure → ℕ × DeviceFailure
check_device_failure_status f device_failure =
    let recv = device_recv_failure f in (ret_of (failures_differ recv device_failure), recv)
