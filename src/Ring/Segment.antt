-- ===== src/Ring/Segment.antt =====
-- The cells between two indices of a ring, as a list.
use mathlib.Core.Path.{ap₂, ◌≡⟨◌⟩◌, ◌∎}
use native.Mathlib.Nat.{le_refl}
use mitcbcu.Common.{
  ℕ, zero, suc, ◌<◌, ◌≤◌, ◌≡◌, refl, ap, arith, [], ◌∷◌, ◌++◌, length, drop, update, update_self,
  update_ne, ℕ_discrete,
}
use mitcbcu.Ring.{
  next, distance, segment, next-lt, distance_self, distance-eq_zero, distance-next_left,
}

module _ {ℓ} {A : Type ℓ} (f : ℕ → A) (n : ℕ) where
  pub length-segment : (r k : ℕ) → length (segment f n r k) ≡ k
  length-segment r zero = refl
  length-segment r (suc k) = ap suc (length-segment (next n r) k)

  -- A write to the right end does not touch the cells before it.
  pub segment-update :
      (x : A) (w k r : ℕ)
      → r < n
      → w < n
      → k ≤ distance n r w
      → segment (update f w x) n r k ≡ segment f n r k
  segment-update x w zero r hr hw h = refl
  segment-update x w (suc k) r hr hw h = elim (ℕ_discrete r w) [
    | yes e ↦ absurd (ground (arith, distance_self n r))
    | no ne ↦ ground (
      arith,
      update_ne f w r x ne,
      segment-update x w k (next n r) (next-lt n r hr) hw,
      distance-next_left n r w hr hw ne,
    )
  ]

  -- One cell more on the right.
  pub segment_snoc :
      (w k r : ℕ)
      → r < n
      → w < n
      → k ≡ distance n r w
      → segment f n r (suc k) ≡ segment f n r k ++ (f w ∷ [])
  segment_snoc w zero r hr hw h =
      ap (λ i. f i ∷ []) (distance-eq_zero n r w hr hw (omega (arith, h)))
  segment_snoc w (suc k) r hr hw h = elim (ℕ_discrete r w) [
    | yes e ↦ absurd (ground (arith, distance_self n r))
    | no ne ↦
        ap (λ t. f r ∷ t)
          (segment_snoc w k (next n r) (next-lt n r hr) hw
            (omega (arith, distance-next_left n r w hr hw ne)))
  ]

  -- Moving the left end on to `r'` drops the cells that it passes.
  pub drop-segment :
      (w r' j r k : ℕ)
      → r < n
      → w < n
      → r' < n
      → j ≡ distance n r r'
      → k ≡ distance n r w
      → j ≤ k
      → drop j (segment f n r k) ≡ segment f n r' (distance n r' w)
  drop-segment w r' zero r k hr hw hr' hj hk le =
      let e = distance-eq_zero n r r' hr hr' (omega (arith, hj)) in rw (hk, e)
  drop-segment w r' (suc j) r zero hr hw hr' hj hk le = absurd (omega arith)
  drop-segment w r' (suc j) r (suc k) hr hw hr' hj hk le = elim (ℕ_discrete r r') [
    | yes e ↦ absurd (ground (arith, distance_self n r))
    | no ne ↦ elim (ℕ_discrete r w) [
      | yes e ↦ absurd (ground (arith, distance_self n r))
      | no nw ↦
          drop-segment w r' j (next n r) k (next-lt n r hr) hw hr'
            (omega (arith, distance-next_left n r r' hr hr' ne))
            (omega (arith, distance-next_left n r w hr hw nw)) (omega arith)
    ]
  ]

module _ {ℓ} {A : Type ℓ} (f : ℕ → A) (n : ℕ) where
  -- A cell written at the right end, which then moves on, is the last of the new segment.
  pub segment_push :
      (x : A) (r w : ℕ)
      → r < n
      → w < n
      → segment (update f w x) n r (suc (distance n r w))
        ≡ segment f n r (distance n r w) ++ (x ∷ [])
  segment_push x r w hr hw =
      segment (update f w x) n r (suc (distance n r w))
      ≡⟨ segment_snoc (update f w x) n w (distance n r w) r hr hw refl ⟩
        segment (update f w x) n r (distance n r w) ++ (update f w x w ∷ [])
      ≡⟨ ap₂ (λ s v. s ++ (v ∷ [])) (segment-update f n x w (distance n r w) r hr hw (le_refl _))
          (update_self f w x) ⟩
        segment f n r (distance n r w) ++ (x ∷ []) ∎
