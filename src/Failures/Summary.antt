-- ===== src/Failures/Summary.antt =====
-- Two functions of 1.0.x/ProdExplUnits/sourcecode/bcu_function.cxx look for a failing device in different
-- ways, and agree.
use mitcbcu.Common.{
  ℕ, zero, suc, ◌+◌, ◌≡◌, refl, ap, ◌∙◌, sym, Bool, true, false, ◌||◌, if◌then◌else◌,
}
use mitcbcu.Failures.{
  DevFaultInfo, DeviceFailure, any_from, any, differs, ret_of, eamp_fails,
  whether_have_dev_failure_info, failures_differ, check_device_failure_status,
}

-- No failure.
abbrev pub no_failure : DeviceFailure
no_failure = record {
  bcu = 0;
  ccu = 0;
  eamp = 0;
  pcu = 0;
  fdu = 0;
  outer_sider_led = 0;
  in_sider_led = 0;
  dm = 0;
  nd = 0;
}

or_swap : (a b c d : Bool) → ((a || b) || (c || d)) ≡ ((a || c) || (b || d))
or_swap true b c d = refl
or_swap false true true d = refl
or_swap false true false d = refl
or_swap false false c d = refl

if_or : (a b : Bool) → (if a then true else b) ≡ (a || b)
if_or true b = refl
if_or false b = refl

any_from-or :
    (n i : ℕ) (p q : ℕ → Bool) → any_from n i (λ k. p k || q k) ≡ (any_from n i p || any_from n i q)
any_from-or zero i p q = refl
any_from-or (suc n) i p q =
    let P = any_from n (i + 1) p in
    let Q = any_from n (i + 1) q in
    if_or (p i || q i) (any_from n (i + 1) (λ k. p k || q k))
    ∙ ap (λ b. (p i || q i) || b) (any_from-or n (i + 1) p q)
    ∙ or_swap (p i) (q i) P Q
    ∙ sym (
        ap (λ b. b || (if q i then true else Q)) (if_or (p i) P)
        ∙ ap (λ b. (p i || P) || b) (if_or (q i) Q))

or_true : (x : Bool) → (x || true) ≡ true
or_true true = refl
or_true false = refl

reorder :
    (b c cf eo dm i1 i2 n1 n2 o1 o2 p : Bool)
    → (b || ((c || cf) || ((eo || (dm || (i1 || (i2 || (n1 || (n2 || (o1 || o2))))))) || p)))
      ≡ (b || (c || (eo || (p || (cf || ((o1 || o2) || ((i1 || i2) || (dm || (n1 || n2)))))))))
reorder true c cf eo dm i1 i2 n1 n2 o1 o2 p = refl
reorder false true cf eo dm i1 i2 n1 n2 o1 o2 p = refl
reorder false false true eo dm i1 i2 n1 n2 o1 o2 p = simp or_true
reorder false false false true dm i1 i2 n1 n2 o1 o2 p = refl
reorder false false false false true i1 i2 n1 n2 o1 o2 p = simp or_true
reorder false false false false false true i2 n1 n2 o1 o2 p = simp or_true
reorder false false false false false false true n1 n2 o1 o2 p = simp or_true
reorder false false false false false false false true n2 o1 o2 p = simp or_true
reorder false false false false false false false false true o1 o2 p = simp or_true
reorder false false false false false false false false false true o2 p = simp or_true
reorder false false false false false false false false false false true p = simp or_true
reorder false false false false false false false false false false false true = refl
reorder false false false false false false false false false false false false = refl

differs-ret_of : (b : Bool) → differs (ret_of b) 0 ≡ b
differs-ret_of true = refl
differs-ret_of false = refl

chain_lem :
    (a b c d : Bool)
    → (if a then 1 else if b then 1 else if c then 1 else if d then 1 else 0)
      ≡ ret_of (a || (b || (c || d)))
chain_lem true b c d = refl
chain_lem false true c d = refl
chain_lem false false true d = refl
chain_lem false false false true = refl
chain_lem false false false false = refl

-- A loop over a test of eight conditions.
any_eight :
    (n : ℕ) (p0 p1 p2 p3 p4 p5 p6 p7 : ℕ → Bool)
    → any n (λ i. p0 i || (p1 i || (p2 i || (p3 i || (p4 i || (p5 i || (p6 i || p7 i))))))) ≡ (
        any n p0
        || (any n p1
            || (any n p2 || (any n p3 || (any n p4 || (any n p5 || (any n p6 || any n p7)))))))
any_eight n p0 p1 p2 p3 p4 p5 p6 p7 =
    any_from-or n 0 p0 (λ i. p1 i || (p2 i || (p3 i || (p4 i || (p5 i || (p6 i || p7 i))))))
    ∙ ap (λ b. any n p0 || b)
        (any_from-or n 0 p1 (λ i. p2 i || (p3 i || (p4 i || (p5 i || (p6 i || p7 i)))))
          ∙ ap (λ b. any n p1 || b)
              (any_from-or n 0 p2 (λ i. p3 i || (p4 i || (p5 i || (p6 i || p7 i))))
                ∙ ap (λ b. any n p2 || b)
                    (any_from-or n 0 p3 (λ i. p4 i || (p5 i || (p6 i || p7 i)))
                      ∙ ap (λ b. any n p3 || b)
                          (any_from-or n 0 p4 (λ i. p5 i || (p6 i || p7 i))
                            ∙ ap (λ b. any n p4 || b)
                                (any_from-or n 0 p5 (λ i. p6 i || p7 i)
                                  ∙ ap (λ b. any n p5 || b) (any_from-or n 0 p6 p7))))))

-- The comparison of a summary with that of no failure.
failures_lem :
    (b c eo p cf o i dm n : Bool) {o' i' n' : Bool}
    → o ≡ o'
    → i ≡ i'
    → n ≡ n'
    → failures_differ
        (record {
          bcu = ret_of b;
          ccu = ret_of c;
          eamp = ret_of eo;
          pcu = ret_of p;
          fdu = ret_of cf;
          outer_sider_led = ret_of o;
          in_sider_led = ret_of i;
          dm = ret_of dm;
          nd = ret_of n;
        })
        no_failure
      ≡ (b || (c || (eo || (p || (cf || (o' || (i' || (dm || n'))))))))
failures_lem b c eo p cf o i dm n e e' e'' =
    simp differs-ret_of (rw (← e) (rw (← e') (rw (← e'') refl)))

-- WhetherHaveDevFailureInfo finds a failure exactly if the summary that
-- CheckDeviceFailureStatusPerTypeDeviceFFromNet makes of the same table differs from that of no
-- failure, which is then its result.
pub whether_have_dev_failure_info_lem :
    (f : DevFaultInfo)
    → whether_have_dev_failure_info f ≡ (check_device_failure_status f no_failure).0
unfolding whether_have_dev_failure_info check_device_failure_status
whether_have_dev_failure_info_lem f =
    let b = any 2 (λ i. differs (f.bcu_online i) 1) in
    let c = any 2 (λ i. differs (f.ccu_online i) 1) in
    let cf = any 2 (λ i. differs (f.ccu_fdu i) 0) in
    let p = any 12 (λ i. differs (f.pcu_online i) 1) in
    let online : ℕ → Bool = λ i. differs (f.eamp_info i).online 1 in
    let dm : ℕ → Bool = λ i. differs (f.eamp_info i).dm 0 in
    let in_sider_led1 : ℕ → Bool = λ i. differs (f.eamp_info i).in_sider_led1 0 in
    let in_sider_led2 : ℕ → Bool = λ i. differs (f.eamp_info i).in_sider_led2 0 in
    let nd1 : ℕ → Bool = λ i. differs (f.eamp_info i).nd1 0 in
    let nd2 : ℕ → Bool = λ i. differs (f.eamp_info i).nd2 0 in
    let outer_sider_led1 : ℕ → Bool = λ i. differs (f.eamp_info i).outer_sider_led1 0 in
    let outer_sider_led2 : ℕ → Bool = λ i. differs (f.eamp_info i).outer_sider_led2 0 in
    chain_lem b (any 2 (λ i. differs (f.ccu_online i) 1 || differs (f.ccu_fdu i) 0))
      (any 6 (λ i. eamp_fails (f.eamp_info i))) p
    ∙ ap (λ x. ret_of (b || (x || (any 6 (λ i. eamp_fails (f.eamp_info i)) || p))))
        (any_from-or 2 0 (λ i. differs (f.ccu_online i) 1) (λ i. differs (f.ccu_fdu i) 0))
    ∙ ap (λ x. ret_of (b || ((c || cf) || (x || p))))
        (any_eight 6 online dm in_sider_led1 in_sider_led2 nd1 nd2 outer_sider_led1
          outer_sider_led2)
    ∙ ap ret_of (
        reorder b c cf (any 6 online) (any 6 dm) (any 6 in_sider_led1) (any 6 in_sider_led2)
          (any 6 nd1) (any 6 nd2) (any 6 outer_sider_led1) (any 6 outer_sider_led2) p)
    ∙ ap ret_of (
        sym (
          failures_lem b c (any 6 online) p cf
            (any 6 (λ i. outer_sider_led1 i || outer_sider_led2 i))
            (any 6 (λ i. in_sider_led1 i || in_sider_led2 i)) (any 6 dm)
            (any 6 (λ i. nd1 i || nd2 i)) (any_from-or 6 0 outer_sider_led1 outer_sider_led2)
            (any_from-or 6 0 in_sider_led1 in_sider_led2) (any_from-or 6 0 nd1 nd2)))
