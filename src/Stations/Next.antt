-- ===== src/Stations/Next.antt =====
-- GetNextStationNo of 1.0.x/ProdExplUnits/sourcecode/bcu_function.cxx on line 3, the only one that it is
-- called for.
use mitcbcu.Common.{
  ℕ, dec_lt, ==-of_ne, ap, sym, ◌∙◌, zero, suc, ◌+◌, ◌-◌, ◌≤◌, ◌<◌, ◌≡◌, ◌≢◌, refl, ◌==◌,
  if◌then◌else◌, List, [], ◌∷◌, length, arith, min,
}
use mathlib.Core.Path.{subst}
use mitcbcu.Stations.{
  found, unfinished, scan, step_up, step_down, get_next_station_no, max_station_number,
  clear_skip_station_info,
}
use mitcbcu.Stations.Scan.{IsSkipped, IsServed, iterate, scan-IsFirst, scan-never}

step_up_lem : (ter r : ℕ) → ter < 255 → r ≤ ter → step_up ter r ≡ min (suc r) ter
step_up_lem ter r h l = ground arith

iterate-up : (k ter r : ℕ) → ter < 255 → r ≤ ter → iterate (step_up ter) k r ≡ min (r + k) ter
iterate-up zero ter r h l = omega arith
iterate-up (suc k) ter r h l =
    ap (iterate (step_up ter) k) (step_up_lem ter r h l)
    ∙ (iterate-up k ter (min (suc r) ter) h (omega arith) ∙ omega arith)

-- The greater of two numbers, in a form for subtraction.
step_down_lem : (ter r : ℕ) → 0 < ter → ter ≤ r → r < 256 → step_down ter r ≡ ter + (r - 1 - ter)
step_down_lem ter r z l h = ground arith

iterate-down :
    (k ter r : ℕ) → 0 < ter → ter ≤ r → r < 256 → iterate (step_down ter) k r ≡ ter + (r - k - ter)
iterate-down zero ter r z l h = omega arith
iterate-down (suc k) ter r z l h =
    ap (iterate (step_down ter) k) (step_down_lem ter r z l h)
    ∙ (iterate-down k ter (ter + (r - 1 - ter)) z (omega arith) (omega arith) ∙ omega arith)

-- The next station that is served, upwards and downwards.
pub record IsNextUp (row : List ℕ) (cur ter n : ℕ) : Type 0 where
  pub behind : cur < n
  pub within : n ≤ ter
  pub served : IsServed row n
  pub passed : (i : ℕ) → cur < i → i < n → IsSkipped row i

pub record IsNextDown (row : List ℕ) (cur ter n : ℕ) : Type 0 where
  pub behind : n < cur
  pub within : ter ≤ n
  pub served : IsServed row n
  pub passed : (i : ℕ) → n < i → i < cur → IsSkipped row i

scan-up :
    (row : List ℕ) (cur ter fuel : ℕ)
    → length row < 256
    → cur < ter
    → ter < length row
    → length row ≤ fuel
    → IsServed row ter
    → (n : ℕ) × (scan fuel (step_up ter) row (suc cur) ≡ found n) × IsNextUp row cur ter n
scan-up row cur ter fuel small h b f v =
    let at : (i : ℕ) → iterate (step_up ter) i (suc cur) ≡ min (suc cur + i) ter =
      λ i. iterate-up i ter (suc cur) (omega arith) (omega arith) in
    let w =
      scan-IsFirst (ter - suc cur) fuel (step_up ter) row (suc cur) (omega arith)
        (λ i _. omega (arith, at i))
        (subst (IsServed row) (sym (at (ter - suc cur) ∙ omega arith)) v) in
    (
      iterate (step_up ter) w.rounds (suc cur),
      w.result,
      record {
        behind = omega (arith, at w.rounds);
        within = omega (arith, at w.rounds);
        served = w.served;
        passed = λ i l m.
            subst (IsSkipped row) (at (i - suc cur) ∙ omega (arith, at w.rounds))
              (w.skipped (i - suc cur) (omega (arith, at w.rounds, w.within)));
      },
    )

scan-down :
    (row : List ℕ) (cur ter fuel : ℕ)
    → length row < 256
    → 0 < ter
    → ter < cur
    → cur ≤ length row
    → length row ≤ fuel
    → IsServed row ter
    → (n : ℕ) × (scan fuel (step_down ter) row (cur - 1) ≡ found n) × IsNextDown row cur ter n
scan-down row cur ter fuel small z h b f v =
    let at : (i : ℕ) → iterate (step_down ter) i (cur - 1) ≡ ter + (cur - 1 - i - ter) =
      λ i. iterate-down i ter (cur - 1) z (omega arith) (omega arith) in
    let w =
      scan-IsFirst (cur - 1 - ter) fuel (step_down ter) row (cur - 1) (omega arith)
        (λ i _. omega (arith, at i))
        (subst (IsServed row) (sym (at (cur - 1 - ter) ∙ omega arith)) v) in
    (
      iterate (step_down ter) w.rounds (cur - 1),
      w.result,
      record {
        behind = omega (arith, at w.rounds);
        within = omega (arith, at w.rounds);
        served = w.served;
        passed = λ i l m.
            subst (IsSkipped row) (at (cur - 1 - i) ∙ omega (arith, at w.rounds))
              (w.skipped (cur - 1 - i) (omega (arith, at w.rounds, w.within)));
      },
    )

first_up : (ter cur : ℕ) → ter < 255 → cur < ter → step_up ter cur ≡ suc cur
first_up ter cur h l = ground arith

first_down : (ter cur : ℕ) → ter < cur → cur < 256 → step_down ter cur ≡ cur - 1
first_down ter cur h l = ground arith

-- On line 3 upwards, before the terminal station and if that is served: GetNextStationNo returns the
-- first station behind the current one that is served, and the terminal one at the latest. As many
-- rounds as there are stations are enough.
pub next_station_up :
    (row : List ℕ) (cur ter fuel : ℕ)
    → length row ≡ max_station_number
    → max_station_number ≤ fuel
    → cur < ter
    → ter < max_station_number
    → IsServed row ter
    → (n : ℕ) × (get_next_station_no fuel row 3 cur 1 ter ≡ found n) × IsNextUp row cur ter n
unfolding get_next_station_no
next_station_up row cur ter fuel size f h b v =
    rw (first_up ter cur (omega arith) h) (
      scan-up row cur ter fuel (omega (arith, size)) h (omega (arith, size)) (omega (arith, size))
        v)

-- On line 3 downwards, before the terminal station, if that is served and is not the number 0:
-- GetNextStationNo returns the first station that is served on the way down from the current one, and
-- the terminal one at the latest. As many rounds as there are stations are enough.
pub next_station_down :
    (row : List ℕ) (cur up_or_down ter fuel : ℕ)
    → length row ≡ max_station_number
    → max_station_number ≤ fuel
    → up_or_down ≢ 1
    → 0 < ter
    → ter < cur
    → cur < max_station_number
    → IsServed row ter
    → (n : ℕ) × (get_next_station_no fuel row 3 cur up_or_down ter ≡ found n)
      × IsNextDown row cur ter n
unfolding get_next_station_no
next_station_down row cur d ter fuel size f nd z h b v =
    rw (==-of_ne d 1 nd, first_down ter cur h (omega arith))
      (scan-down row cur ter fuel (omega (arith, size)) z h (omega (arith, size))
        (omega (arith, size)) v)

-- On line 3 upwards, before the terminal station: if all stations behind the current one up to the
-- terminal one, that included, are left out, GetNextStationNo does not return, whatever number of
-- rounds its loop gets.
pub next_station_never :
    (row : List ℕ) (cur ter fuel : ℕ)
    → cur < ter
    → ter < max_station_number
    → ((i : ℕ) → cur < i → i ≤ ter → IsSkipped row i)
    → get_next_station_no fuel row 3 cur 1 ter ≡ unfinished
unfolding get_next_station_no
next_station_never row cur ter fuel h b all = rw (first_up ter cur (omega arith) h) (
    scan-never fuel (step_up ter) row (suc cur) λ i.
      subst (IsSkipped row) (sym (iterate-up i ter (suc cur) (omega arith) (omega arith)))
        (all (min (suc cur + i) ter) (omega arith) (omega arith)))

length-clear : (row : List ℕ) → length (clear_skip_station_info row) ≡ length row
unfolding clear_skip_station_info
length-clear [] = refl
length-clear (e ∷ row) = ap suc (length-clear row)

pub clear-IsServed :
    (row : List ℕ) (i : ℕ) → i < length row → IsServed (clear_skip_station_info row) i
unfolding clear_skip_station_info
clear-IsServed [] i h = absurd (omega arith)
clear-IsServed (e ∷ row) zero h = (if e == 2 then e else 1, refl, ground arith)
clear-IsServed (e ∷ row) (suc i) h = clear-IsServed row i (omega arith)

not_skipped : (row : List ℕ) (i : ℕ) → IsServed row i → IsSkipped row i → ⊥
not_skipped row i (e, h, n) s = n (ground (arith, h, s))

-- After ClearSkipStationInfo has cleared the row, GetNextStationNo upwards returns the station right
-- behind the current one.
pub next_after_clear :
    (row : List ℕ) (cur ter fuel : ℕ)
    → length row ≡ max_station_number
    → max_station_number ≤ fuel
    → cur < ter
    → ter < max_station_number
    → get_next_station_no fuel (clear_skip_station_info row) 3 cur 1 ter ≡ found (suc cur)
next_after_clear row cur ter fuel size f h b =
    let row' = clear_skip_station_info row in
    let (n, e, p) =
      next_station_up row' cur ter fuel (length-clear row ∙ size) f h b
        (clear-IsServed row ter (omega (arith, size))) in
    elim (dec_lt (suc cur) n) [
      | yes far ↦ absurd (
          not_skipped row' (suc cur) (clear-IsServed row (suc cur) (omega (arith, size)))
            (p.passed (suc cur) (omega arith) far))
      | no near ↦ e ∙ ap found (omega (arith, p.behind))
    ]
