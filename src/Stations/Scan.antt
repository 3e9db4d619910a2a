-- ===== src/Stations/Scan.antt =====
-- The loops over the stations in 1.0.x/ProdExplUnits/sourcecode/bcu_function.cxx: when they end, and
-- where.
use mitcbcu.Common.{
  ℕ, zero, suc, ◌≤◌, ◌<◌, ◌≡◌, ◌∙◌, ◌≢◌, ◌⊎◌, inl, inr, refl, ◌==◌, List, [], ◌∷◌, some, get_elem?,
  length, arith, Bool-cases,
}
use mitcbcu.Stations.{Search, found, unfinished, scan}

-- The station is left out, and it is not.
abbrev pub IsSkipped : List ℕ → ℕ → Type 0
IsSkipped row r = get_elem? row r ≡ some 0

abbrev pub IsServed : List ℕ → ℕ → Type 0
IsServed row r = (e : ℕ) × (get_elem? row r ≡ some e) × (e ≢ 0)

abbrev pub iterate : (ℕ → ℕ) → ℕ → ℕ → ℕ
iterate step zero r = r
iterate step (suc k) r = iterate step k (step r)

pub IsServed-or_IsSkipped :
    (row : List ℕ) (r : ℕ) → r < length row → IsServed row r ⊎ IsSkipped row r
IsServed-or_IsSkipped [] r h = absurd (omega arith)
IsServed-or_IsSkipped (e ∷ row) zero h = elim (Bool-cases (e == 0)) [
  | inl z ↦ inr (ground (arith, z))
  | inr z ↦ inl (e, refl, ground (arith, z))
]
IsServed-or_IsSkipped (e ∷ row) (suc r) h = IsServed-or_IsSkipped row r (omega arith)

pub scan-served :
    (fuel : ℕ) (step : ℕ → ℕ) (row : List ℕ) (r : ℕ)
    → IsServed row r
    → scan (suc fuel) step row r ≡ found r
unfolding scan
scan-served fuel step row r (e, h, n) = ground (arith, h, n)

pub scan-skipped :
    (fuel : ℕ) (step : ℕ → ℕ) (row : List ℕ) (r : ℕ)
    → IsSkipped row r
    → scan (suc fuel) step row r ≡ scan fuel step row (step r)
unfolding scan
scan-skipped fuel step row r h = ground (arith, h)

-- The first station on the way that is served.
pub record IsFirst (step : ℕ → ℕ) (row : List ℕ) (r k : ℕ) (s : Search) : Type 0 where
  pub rounds : ℕ
  pub within : rounds ≤ k
  pub result : s ≡ found (iterate step rounds r)
  pub served : IsServed row (iterate step rounds r)
  pub skipped : (i : ℕ) → i < rounds → IsSkipped row (iterate step i r)

-- If the way stays in the array and comes to a station that is served after `k` rounds, the loop ends
-- at the first such station.
pub scan-IsFirst :
    (k fuel : ℕ) (step : ℕ → ℕ) (row : List ℕ) (r : ℕ)
    → k < fuel
    → ((i : ℕ) → i ≤ k → iterate step i r < length row)
    → IsServed row (iterate step k r)
    → IsFirst step row r k (scan fuel step row r)
scan-IsFirst k zero step row r f b h = absurd (omega arith)
scan-IsFirst zero (suc fuel) step row r f b h = record {
  rounds = 0;
  within = omega arith;
  result = scan-served fuel step row r h;
  served = h;
  skipped = λ i n. absurd (omega arith);
}
scan-IsFirst (suc k) (suc fuel) step row r f b h =
    elim (IsServed-or_IsSkipped row r (b 0 (omega arith))) [
      | inl v ↦ record {
        rounds = 0;
        within = omega arith;
        result = scan-served fuel step row r v;
        served = v;
        skipped = λ i n. absurd (omega arith);
      }
      | inr v ↦
          let w =
            scan-IsFirst k fuel step row (step r) (omega arith) (λ i n. b (suc i) (omega arith))
              h in
          record {
            rounds = suc w.rounds;
            within = omega (arith, w.within);
            result = rw (scan-skipped fuel step row r v) w.result;
            served = w.served;
            skipped = later v w.skipped;
          }
    ]
  where
    later :
        IsSkipped row r
        → {n : ℕ} → ((i : ℕ) → i < n → IsSkipped row (iterate step i (step r)))
        → (i : ℕ) → i < suc n
        → IsSkipped row (iterate step i r)
    later v g zero n = v
    later v g (suc i) n = g i (omega arith)

-- If every station on the way is left out, the loop does not end.
pub scan-never :
    (fuel : ℕ) (step : ℕ → ℕ) (row : List ℕ) (r : ℕ)
    → ((i : ℕ) → IsSkipped row (iterate step i r))
    → scan fuel step row r ≡ unfinished
unfolding scan
scan-never zero step row r h = refl
scan-never (suc fuel) step row r h =
    scan-skipped fuel step row r (h 0) ∙ (scan-never fuel step row (step r) (λ i. h (suc i)))
