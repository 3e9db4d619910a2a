-- ===== src/Stations/Adjust.antt =====
-- AdjustStationNo of 1.0.x/ProdExplUnits/sourcecode/bcu_function.cxx.
use mitcbcu.Common.{
  ℕ, ap, sym, ◌∙◌, zero, suc, ◌+◌, ◌-◌, ◌≤◌, ◌<◌, ◌≡◌, ◌≢◌, ◌⊎◌, inl, inr, refl, false, ◌&&◌, ◌==◌,
  ltb, if◌then◌else◌, List, none, some, length, arith, Bool-cases, ==-of_ne,
}
use mathlib.Core.Path.{subst}
use mitcbcu.Stations.{found, scan, step_back, adjust_station_no, Region, max_station_number}
use mitcbcu.Stations.Scan.{IsSkipped, IsServed, iterate, scan-IsFirst, scan-never}

-- The stations on the way back, which goes round from 1 to 31, or from 31 to 1.
abbrev pub back_down : ℕ → ℕ → ℕ
back_down r k = if ltb k r then r - k else r + 31 - k

abbrev pub back_up : ℕ → ℕ → ℕ
back_up r k = if ltb (r + k) 32 then r + k else r + k - 31

back_down_lem : (r : ℕ) → 1 ≤ r → r ≤ 31 → step_back 1 r ≡ back_down r 1
back_down_lem r l h = ground arith

iterate-back_down : (k r : ℕ) → 1 ≤ r → r ≤ 31 → k ≤ 31 → iterate (step_back 1) k r ≡ back_down r k
iterate-back_down zero r l h b = ground arith
iterate-back_down (suc k) r l h b =
    ap (iterate (step_back 1) k) (back_down_lem r l h)
    ∙ (iterate-back_down k (back_down r 1) (ground arith) (ground arith) (omega arith)
        ∙ ground arith)

back_up_lem : (r : ℕ) → 1 ≤ r → r ≤ 31 → step_back 2 r ≡ back_up r 1
back_up_lem r l h = ground arith

iterate-back_up : (k r : ℕ) → 1 ≤ r → r ≤ 31 → k ≤ 31 → iterate (step_back 2) k r ≡ back_up r k
iterate-back_up zero r l h b = ground arith
iterate-back_up (suc k) r l h b =
    ap (iterate (step_back 2) k) (back_up_lem r l h)
    ∙ (iterate-back_up k (back_up r 1) (ground arith) (ground arith) (omega arith) ∙ ground arith)

-- The station that comes `k` stations back.
abbrev pub back : ℕ → ℕ → ℕ → ℕ
back d r k = if d == 1 then back_down r k else back_up r k

back_bounds : (d r k : ℕ) → 1 ≤ r → r ≤ 31 → k ≤ 31 → (1 ≤ back d r k) × (back d r k ≤ 31)
back_bounds d r k l h b = ground arith

-- How far back a station lies.
distance :
    (d r j : ℕ) → 1 ≤ r → r ≤ 31 → 1 ≤ j → j ≤ 31 → (k : ℕ) × (1 ≤ k) × (k ≤ 31) × (back d r k ≡ j)
distance d r j l h l' h' = elim (Bool-cases (d == 1)) [
  | inl e ↦ (if ltb j r then r - j else r + 31 - j, ground arith, ground arith, ground (arith, e))
  | inr e ↦ (if ltb r j then j - r else j + 31 - r, ground arith, ground arith, ground (arith, e))
]

iterate-back :
    (d k r : ℕ)
    → (d ≡ 1) ⊎ (d ≡ 2)
    → 1 ≤ r
    → r ≤ 31
    → k ≤ 31
    → iterate (step_back d) k r ≡ back d r k
iterate-back d k r (inl e) l h b = rw e (iterate-back_down k r l h b)
iterate-back d k r (inr e) l h b = rw e (iterate-back_up k r l h b)

-- The first station on the way back that is served.
pub record IsPrevious (row : List ℕ) (d cur n : ℕ) : Type 0 where
  pub stations : ℕ
  pub near : (1 ≤ stations) × (stations ≤ 31)
  pub place : n ≡ back d cur stations
  pub bounds : (1 ≤ n) × (n ≤ 31)
  pub served : IsServed row n
  pub passed : (i : ℕ) → 1 ≤ i → i < stations → IsSkipped row (back d cur i)

scan-back :
    (row : List ℕ) (d cur j fuel : ℕ)
    → length row ≡ 32
    → 31 ≤ fuel
    → (d ≡ 1) ⊎ (d ≡ 2)
    → (1 ≤ cur) × (cur ≤ 31)
    → (1 ≤ j) × (j ≤ 31)
    → IsServed row j
    → (n : ℕ) × (scan fuel (step_back d) row (step_back d cur) ≡ found n) × IsPrevious row d cur n
scan-back row d cur j fuel size f dir (l, h) (l', h') v =
    let (k, k1, k31, e) = distance d cur j l h l' h' in
    let at : (i : ℕ) → i ≤ 30 → iterate (step_back d) i (step_back d cur) ≡ back d cur (suc i) =
      λ i b. iterate-back d (suc i) cur dir l h (omega arith) in
    let w =
      scan-IsFirst (k - 1) fuel (step_back d) row (step_back d cur) (omega arith)
        (λ i b.
          omega (arith, at i (omega arith), back_bounds d cur (suc i) l h (omega arith), size))
        (subst (IsServed row) (sym (at (k - 1) (omega arith) ∙ (ap (back d cur) (omega arith) ∙ e)))
          v) in
    let small : w.rounds ≤ 30 = omega (arith, w.within) in
    let place = at w.rounds small in
    (
      iterate (step_back d) w.rounds (step_back d cur),
      w.result,
      record {
        stations = suc w.rounds;
        near = omega arith;
        place = place;
        bounds =
            subst (λ n. (1 ≤ n) × (n ≤ 31)) (sym place)
              (back_bounds d cur (suc w.rounds) l h (omega arith));
        served = w.served;
        passed = λ i m n.
            subst (IsSkipped row) (at (i - 1) (omega arith) ∙ ap (back d cur) (omega arith))
              (w.skipped (i - 1) (omega arith));
      },
    )

-- AdjustStationNo at a station from 1 to 31, in one of the two directions, when the train stops there
-- and the station is not where its line begins, or the line is a circle: if some station is served it
-- ends, and 31 rounds of its loop are enough. The station becomes the next one, and the current one is
-- the first that is served on the way back, on which the numbers go round.
pub adjust_station_no_lem :
    (row : List ℕ) (g : Region) (j fuel : ℕ)
    → length row ≡ max_station_number
    → 31 ≤ fuel
    → (g.os_running_up_or_down ≡ 1) ⊎ (g.os_running_up_or_down ≡ 2)
    → (1 ≤ g.os_current_station_no) × (g.os_current_station_no ≤ 31)
    → (1 ≤ j) × (j ≤ 31)
    → IsServed row j
    → g.stop_or_leave ≡ 0
    → (g.os_current_station_no == g.os_begin_station_no && g.os_cycle_line == 0) ≡ false
    → (n : ℕ) × (adjust_station_no fuel row g
        ≡ some
            (record g { os_current_station_no = n; os_next_station_no = g.os_current_station_no }))
      × IsPrevious row g.os_running_up_or_down g.os_current_station_no n
unfolding adjust_station_no
adjust_station_no_lem row g j fuel size f dir at there v stops along =
    let (n, e, p) =
      scan-back row g.os_running_up_or_down g.os_current_station_no j fuel size f dir at there v in
    (n, ground (arith, stops, along, e), p)

iterate-fixed : (step : ℕ → ℕ) (r : ℕ) (i : ℕ) → ((x : ℕ) → step x ≡ x) → iterate step i r ≡ r
iterate-fixed step r zero h = refl
iterate-fixed step r (suc i) h = ap (iterate step i) (h r) ∙ iterate-fixed step r i h

-- With a direction that is neither 1 nor 2, at a station that is left out, the loop of AdjustStationNo
-- does not end, whatever number of rounds it gets.
pub adjust_station_no_never :
    (row : List ℕ) (g : Region) (fuel : ℕ)
    → g.os_running_up_or_down ≢ 1
    → g.os_running_up_or_down ≢ 2
    → IsSkipped row g.os_current_station_no
    → g.stop_or_leave ≡ 0
    → (g.os_current_station_no == g.os_begin_station_no && g.os_cycle_line == 0) ≡ false
    → adjust_station_no fuel row g ≡ none
unfolding adjust_station_no
adjust_station_no_never row g fuel n1 n2 s stops along =
    let d = g.os_running_up_or_down in
    let stay : (r : ℕ) → step_back d r ≡ r = λ r. rw (==-of_ne d 1 n1, ==-of_ne d 2 n2) refl in
    let never = scan-never fuel (step_back d) row (step_back d g.os_current_station_no) (λ i.
      subst (IsSkipped row)
        (sym (
          iterate-fixed (step_back d) (step_back d g.os_current_station_no) i stay
          ∙ stay g.os_current_station_no))
        s) in
    ground (arith, stops, along, never)
