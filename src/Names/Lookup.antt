-- ===== src/Names/Lookup.antt =====
-- The validity check of a handle, and how the list changes it.
use mitcbcu.Common.{
  ℕ, ◌≡◌, ◌≢◌, refl, arith, List, [], ◌∷◌, Bool, true, false, ◌==◌, Bool-cases, inl, inr,
}
use mitcbcu.Names.{Node, Names, fill, put_name, save, is_valid, any_holds, holds, reset, unlink}

-- No two used nodes hold the same handle.
abbrev pub IsDistinct : Names → Type 0
IsDistinct [] = Unit
IsDistinct (n ∷ ns) = (n.used ≡ true → any_holds n.handle ns ≡ false) × IsDistinct ns

any_holds-unlink_self : (h : ℕ) (ns : Names) → IsDistinct ns → any_holds h (unlink h ns) ≡ false
unfolding any_holds unlink
any_holds-unlink_self h [] d = refl
any_holds-unlink_self h (n ∷ ns) d = ground (arith, any_holds-unlink_self h ns d.1)

any_holds-unlink_other : (h k : ℕ) (ns : Names) → k ≢ h → any_holds k (unlink h ns) ≡ any_holds k ns
unfolding any_holds unlink
any_holds-unlink_other h k [] ne = refl
any_holds-unlink_other h k (n ∷ ns) ne = ground (arith, any_holds-unlink_other h k ns ne)

IsDistinct-unlink : (h : ℕ) (ns : Names) → IsDistinct ns → IsDistinct (unlink h ns)
unfolding any_holds unlink
IsDistinct-unlink h [] d = tt
IsDistinct-unlink h (n ∷ ns) d = elim (Bool-cases (holds h n)) [
  | inl e ↦ rw e d.1
  | inr e ↦ rw e (
    (λ u.
        ground
          (arith, d.0 u, any_holds-unlink_self h ns d.1, any_holds-unlink_other h n.handle ns)),
    IsDistinct-unlink h ns d.1,
  )
]

IsDistinct-keep_unlink :
    (h : ℕ) (n : Node) (ns : Names) → IsDistinct (n ∷ ns) → IsDistinct (n ∷ unlink h ns)
IsDistinct-keep_unlink h n ns d = (
  (λ u.
      ground (arith, d.0 u, any_holds-unlink_self h ns d.1, any_holds-unlink_other h n.handle ns)),
  IsDistinct-unlink h ns d.1,
)

IsDistinct-reset : (h : ℕ) (ns : Names) → IsDistinct ns → IsDistinct (reset h ns)
unfolding reset
IsDistinct-reset h [] d = tt
IsDistinct-reset h (n ∷ ns) d = elim (Bool-cases (h == 0)) [
  | inl z ↦ rw z d
  | inr z ↦ elim (Bool-cases (holds h n)) [
    | inl e ↦ rw (z, e) ((λ u. cc), d.1)
    | inr e ↦ rw (z, e) (IsDistinct-keep_unlink h n ns d)
  ]
]

any_holds-reset_self :
    (h : ℕ) (ns : Names) → h ≢ 0 → IsDistinct ns → any_holds h (reset h ns) ≡ false
unfolding any_holds reset
any_holds-reset_self h [] z d = refl
any_holds-reset_self h (n ∷ ns) z d = ground (arith, any_holds-unlink_self h ns d.1)

any_holds-reset_other : (h k : ℕ) (ns : Names) → k ≢ h → any_holds k (reset h ns) ≡ any_holds k ns
unfolding any_holds reset
any_holds-reset_other h k [] ne = refl
any_holds-reset_other h k (n ∷ ns) ne = ground (arith, any_holds-unlink_other h k ns ne)

-- Once a handle has been reset it is no longer valid, every other handle is as valid as before, and
-- the handles in use stay distinct.
pub reset_lem :
    (h k : ℕ) (ns : Names)
    → IsDistinct ns
    → k ≢ h
    → (is_valid h (reset h ns) ≡ false)
      × (is_valid k (reset h ns) ≡ is_valid k ns)
      × IsDistinct (reset h ns)
unfolding is_valid
reset_lem h k ns d ne = (
  ground (arith, any_holds-reset_self h ns),
  ground (arith, any_holds-reset_other h k ns ne),
  IsDistinct-reset h ns d,
)

any_holds-put_name :
    (h k : ℕ) (name : List ℕ) (ok : Bool) (ns : Names)
    → k ≢ h
    → any_holds k (put_name h name ok ns).0 ≡ any_holds k ns
unfolding any_holds put_name fill
any_holds-put_name h k name ok [] ne = ground arith
any_holds-put_name h k name ok (n ∷ ns) ne = ground (arith, any_holds-put_name h k name ok ns ne)

IsDistinct-put_name :
    (h : ℕ) (name : List ℕ) (ok : Bool) (ns : Names)
    → any_holds h ns ≡ false
    → IsDistinct ns
    → IsDistinct (put_name h name ok ns).0
unfolding put_name any_holds fill
IsDistinct-put_name h name false [] f d = tt
IsDistinct-put_name h name true [] f d = ((λ u. refl), tt)
IsDistinct-put_name h name ok (n ∷ ns) f d = elim (Bool-cases n.used) [
  | inl e ↦ rw e (
    (λ u. ground (arith, d.0 e, any_holds-put_name h n.handle name ok ns)),
    IsDistinct-put_name h name ok ns (ground arith) d.1,
  )
  | inr e ↦ rw e ((λ u. ground arith), d.1)
]

-- Saving a handle that is not in use keeps the handles distinct, and every other handle is as valid
-- as before.
pub save_others :
    (h k : ℕ) (name : List ℕ) (malloc_ok : Bool) (ns : Names)
    → k ≢ h
    → any_holds h ns ≡ false
    → IsDistinct ns
    → (is_valid k (save h name malloc_ok ns).0 ≡ is_valid k ns)
      × IsDistinct (save h name malloc_ok ns).0
unfolding save is_valid
save_others h k name ok ns ne f d =
    ground (arith, any_holds-put_name h k name ok ns ne, IsDistinct-put_name h name ok ns f d)

-- An address that is not NULL and fails the check is in no used node.
pub any_holds_of_invalid :
    (h : ℕ) (ns : Names) → h ≢ 0 → is_valid h ns ≡ false → any_holds h ns ≡ false
unfolding is_valid
any_holds_of_invalid h ns z e = ground arith
