-- ===== src/Failures/Changes.antt =====
-- Which changes CheckCertificateDeviceFailureInfo of 1.0.x/ProdExplUnits/sourcecode/bcu_function.cxx
-- reports.
use mitcbcu.Common.{
  ℕ, zero, suc, ◌+◌, ◌≡◌, ◌≢◌, refl, ap, arith, Bool, true, false, not, ◌||◌, ◌==◌, if◌then◌else◌,
  ==-of_eq,
}
use mitcbcu.Failures.{
  DevFaultInfo, any_from, any, differs, ret_of, check_certificate_device_failure_info,
}

-- Whether the two inner displays of an amplifier have different values.
abbrev pub leds_differ : DevFaultInfo → ℕ → Bool
leds_differ f i = differs (f.eamp_info i).in_sider_led1 (f.eamp_info i).in_sider_led2

differs_self : (n : ℕ) → differs n n ≡ false
differs_self n = ap not (==-of_eq n n refl)

or_false : (b : Bool) → (b || false) ≡ b
or_false true = refl
or_false false = refl

any_from-congr :
    (n i : ℕ) (p q : ℕ → Bool) → ((k : ℕ) → p k ≡ q k) → any_from n i p ≡ any_from n i q
any_from-congr zero i p q h = refl
any_from-congr (suc n) i p q h = rw (h i) (rw (any_from-congr n (i + 1) p q h) refl)

any_from-none : (n i : ℕ) (p : ℕ → Bool) → ((k : ℕ) → p k ≡ false) → any_from n i p ≡ false
any_from-none zero i p h = refl
any_from-none (suc n) i p h = rw (h i) (any_from-none n (i + 1) p h)

none_differ : (n : ℕ) (p : ℕ → Bool) → ((k : ℕ) → p k ≡ false) → ret_of (any n p) ≡ 0
none_differ n p h = ap ret_of (any_from-none n 0 p h)

-- The cases of the switch in front of 8, and the last two.
other_case :
    (flag k x y e : ℕ)
    → k ≢ 8
    → x ≡ 0
    → y ≡ (if flag == 8 then e else 0)
    → (if flag == k then x else y) ≡ (if flag == 8 then e else 0)
other_case flag k x y e n h h' = ground arith

last_cases :
    (flag x z e : ℕ)
    → x ≡ e
    → z ≡ 0
    → (if flag == 8 then x else if flag == 9 then z else 0) ≡ (if flag == 8 then e else 0)
last_cases flag x z e h h' = ground arith

two_same : (a b : ℕ) → (differs a a || differs b b) ≡ false
two_same a b = rw (differs_self a) (differs_self b)

inner_lem : (a b : ℕ) → (differs a b || differs b b) ≡ differs a b
inner_lem a b = rw (differs_self b) (or_false (differs a b))

-- Compared with itself, a table of failures has no change to report, for every kind of device except
-- the inner displays; for these a change is reported exactly if the two displays of some amplifier
-- have different values.
pub check_certificate_same :
    (f : DevFaultInfo) (flag : ℕ)
    → check_certificate_device_failure_info f f flag
      ≡ (if flag == 8 then ret_of (any 6 (leds_differ f)) else 0)
unfolding check_certificate_device_failure_info
check_certificate_same f flag =
    other_case flag 1 _ _ _ (omega arith) (none_differ 2 _ (λ i. differs_self (f.bcu_online i))) (
      other_case flag 2 _ _ _ (omega arith) (none_differ 2 _ (λ i. differs_self (f.ccu_online i))) (
        other_case flag 3 _ _ _ (omega arith)
          (none_differ 6 _ (λ i. differs_self (f.eamp_info i).online))
          (other_case flag 4 _ _ _ (omega arith)
            (none_differ 12 _ (λ i. differs_self (f.pcu_online i)))
            (other_case flag 5 _ _ _ (omega arith)
              (none_differ 6 _ (λ i. two_same (f.eamp_info i).nd1 (f.eamp_info i).nd2))
              (other_case flag 6 _ _ _ (omega arith)
                (none_differ 6 _ (λ i. differs_self (f.eamp_info i).dm))
                (other_case flag 7 _ _ _ (omega arith)
                  (none_differ 2 _ (λ i. differs_self (f.ccu_fdu i)))
                  (last_cases flag _ _ _
                    (ap ret_of (
                      any_from-congr 6 0 _ _ (λ i.
                        inner_lem (f.eamp_info i).in_sider_led1 (f.eamp_info i).in_sider_led2)))
                    (none_differ 6 _ (λ i.
                      two_same (f.eamp_info i).outer_sider_led1
                        (f.eamp_info i).outer_sider_led2)))))))))
