-- ===== src/Pool/Remove.antt =====
-- CharBufferDelete and BlockBufferDelete: the handle is refused from then on.
use mitcbcu.Common.{
  ℕ, suc, ◌≡◌, sym, ◌∙◌, arith, true, false, ◌==◌, Bool-cases, inl, inr, ==→ne, ==→eq,
}
use mitcbcu.Names.{is_valid}
use mitcbcu.Names.Lookup.{reset_lem}
use mitcbcu.Pool.{Pool, IsSound, remove}

module _ {ℓ κ} {A : Type ℓ} (P : A → Type κ) (p : Pool A) (h : ℕ) (s : IsSound P p) where
  pub remove-IsSound : IsSound P (remove p h)
  remove-IsSound = elim (Bool-cases (is_valid h p.names)) [
    | inl e ↦ rw e (record {
      distinct = (reset_lem h (suc h) p.names s.distinct (ground arith)).2;
      live = λ k f. elim (Bool-cases (k == h)) [
        | inl same ↦ cc (==→eq k h same, (reset_lem h (suc h) p.names s.distinct (ground arith)).0)
        | inr other ↦
            let old = s.live k (sym (reset_lem h k p.names s.distinct (==→ne k h other)).1 ∙ f) in
            (old.0, rw other old.1, old.2)
      ];
    })
    | inr e ↦ rw e s
  ]

  pub remove-invalid : is_valid h p.names ≡ true → is_valid h (remove p h).names ≡ false
  remove-invalid e = rw e (reset_lem h (suc h) p.names s.distinct (ground arith)).0
