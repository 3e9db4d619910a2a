-- ===== src/Failures/Tests.antt =====
-- Tables of failures for 1.0.x/ProdExplUnits/sourcecode/bcu_function.cxx.
use mitcbcu.Common.{◌≡◌, refl, ◌==◌, if◌then◌else◌}
use mitcbcu.Failures.{
  EampInfo, DevFaultInfo, whether_have_dev_failure_info, check_device_failure_status,
  check_certificate_device_failure_info,
}
use mitcbcu.Failures.Summary.{no_failure, whether_have_dev_failure_info_lem}
use mitcbcu.Failures.Changes.{check_certificate_same}

abbrev works : EampInfo
works = record {
  online = 1;
  outer_sider_led1 = 0;
  outer_sider_led2 = 0;
  in_sider_led1 = 0;
  in_sider_led2 = 0;
  nd1 = 0;
  nd2 = 0;
  dm = 0;
}

-- The first inner display of the fifth amplifier fails.
abbrev one_led : DevFaultInfo
one_led = record {
  eamp_info = λ i. if i == 4 then record works { in_sider_led1 = 1 } else works;
  bcu_online = λ _. 1;
  ccu_online = λ _. 1;
  ccu_fdu = λ _. 0;
  pcu_online = λ _. 1;
}

finds_led : whether_have_dev_failure_info one_led ≡ 1
unfolding whether_have_dev_failure_info
finds_led = refl

whether_have_dev_failure_info_lem_example :
    whether_have_dev_failure_info one_led ≡ (check_device_failure_status one_led no_failure).0
whether_have_dev_failure_info_lem_example = whether_have_dev_failure_info_lem one_led

check_certificate_same_example : check_certificate_device_failure_info one_led one_led 8 ≡ 1
check_certificate_same_example = check_certificate_same one_led 8
