-- ===== src/StateMachine/Sort/Bubble.antt =====
-- The bubble sort sorts.
use mitcbcu.Common.{
  ℕ, zero, suc, ◌<◌, ◌≤◌, ◌≡◌, refl, ap, arith, ltb, [], ◌∷◌, length, drop, Bool-cases, inl, inr,
  if◌then◌else◌, none, some, Returns, sub_u32,
}
use mathlib.Core.List.{Perm}
use mathlib.Core.List.Perm
use mitcbcu.StateMachine.Sort.{Row, Table, pass, passes, dynamic_state_sort}

-- A pass over a table with more rows than comparisons, and the passes.
abbrev swept : ℕ → Table → Table
swept zero t = t
swept (suc k) [] = []
swept (suc k) (a ∷ []) = a ∷ []
swept (suc k) (a ∷ b ∷ t) =
    if ltb b.event_priority a.event_priority then b ∷ swept k (a ∷ t) else a ∷ swept k (b ∷ t)

abbrev bubbled : ℕ → Table → Table
bubbled zero t = t
bubbled (suc k) t = bubbled k (swept (suc k) t)

pass_lem : (k : ℕ) (t : Table) → k < length t → pass k t ≡ some (swept k t)
unfolding pass
pass_lem zero t l = refl
pass_lem (suc k) [] l = absurd (omega arith)
pass_lem (suc k) (a ∷ []) l = absurd (omega arith)
pass_lem (suc k) (a ∷ b ∷ t) l = elim (Bool-cases (ltb b.event_priority a.event_priority)) [
  | inl e ↦ rw e (rw (pass_lem k (a ∷ t) (omega arith)) refl)
  | inr e ↦ rw e (rw (pass_lem k (b ∷ t) (omega arith)) refl)
]

length-swept : (k : ℕ) (t : Table) → length (swept k t) ≡ length t
length-swept zero t = refl
length-swept (suc k) [] = refl
length-swept (suc k) (a ∷ []) = refl
length-swept (suc k) (a ∷ b ∷ t) = elim (Bool-cases (ltb b.event_priority a.event_priority)) [
  | inl e ↦ rw e (ap suc (length-swept k (a ∷ t)))
  | inr e ↦ rw e (ap suc (length-swept k (b ∷ t)))
]

passes_lem : (k : ℕ) (t : Table) → k < length t → passes k t ≡ some (bubbled k t)
unfolding passes
passes_lem zero t l = refl
passes_lem (suc k) t l =
    rw (pass_lem (suc k) t l)
      (passes_lem k (swept (suc k) t) (omega (arith, length-swept (suc k) t)))

-- No row has a lower priority value.
abbrev pub AtLeast : ℕ → Table → Type 0
AtLeast n [] = Unit
AtLeast n (b ∷ t) = (n ≤ b.event_priority) × AtLeast n t

abbrev pub IsSorted : Table → Type 0
IsSorted [] = Unit
IsSorted (a ∷ t) = AtLeast a.event_priority t × IsSorted t

-- The rows from the index `k` on are sorted, and no row before them has a higher value than one of them.
abbrev IsSettled : ℕ → Table → Type 0
IsSettled zero t = IsSorted t
IsSettled (suc k) [] = Unit
IsSettled (suc k) (a ∷ t) = AtLeast a.event_priority (drop k t) × IsSettled k t

AtLeast-empty : (n k : ℕ) → AtLeast n (drop k [])
AtLeast-empty n zero = tt
AtLeast-empty n (suc k) = tt

IsSettled-empty : (k : ℕ) → IsSettled k []
IsSettled-empty zero = tt
IsSettled-empty (suc k) = tt

swept-AtLeast :
    (n k : ℕ) (a : Row) (t : Table)
    → n ≤ a.event_priority
    → AtLeast n (drop k t)
    → AtLeast n (drop k (swept k (a ∷ t)))
swept-AtLeast n zero a t h l = (h, l)
swept-AtLeast n (suc k) a [] h l = AtLeast-empty n k
swept-AtLeast n (suc k) a (b ∷ t) h l = elim (Bool-cases (ltb b.event_priority a.event_priority)) [
  | inl e ↦ rw e (swept-AtLeast n k a t h l)
  | inr e ↦ rw e (swept-AtLeast n k b t (ground arith) l)
]

-- A pass settles one row more.
swept-IsSettled : (k : ℕ) (t : Table) → IsSettled (suc k) t → IsSettled k (swept k t)
swept-IsSettled zero [] s = tt
swept-IsSettled zero (a ∷ t) s = s
swept-IsSettled (suc k) [] s = tt
swept-IsSettled (suc k) (a ∷ []) s = (AtLeast-empty a.event_priority k, IsSettled-empty k)
swept-IsSettled (suc k) (a ∷ b ∷ t) (la, (lb, s)) =
    elim (Bool-cases (ltb b.event_priority a.event_priority)) [
      | inl e ↦ rw e (
        swept-AtLeast b.event_priority k a t (ground arith) lb,
        swept-IsSettled k (a ∷ t) (la, s),
      )
      | inr e ↦ rw e (
        swept-AtLeast a.event_priority k b t (ground arith) la,
        swept-IsSettled k (b ∷ t) (lb, s),
      )
    ]

bubbled-IsSorted : (k : ℕ) (t : Table) → IsSettled (suc k) t → IsSorted (bubbled k t)
bubbled-IsSorted zero [] s = tt
bubbled-IsSorted zero (a ∷ t) s = s
bubbled-IsSorted (suc k) t s = bubbled-IsSorted k (swept (suc k) t) (swept-IsSettled (suc k) t s)

start-IsSettled : (t : Table) → IsSettled (length t) t
start-IsSettled [] = tt
start-IsSettled (a ∷ t) = (nothing_left a.event_priority t, start-IsSettled t)
  where
    nothing_left : (n : ℕ) (t : Table) → AtLeast n (drop (length t) t)
    nothing_left n [] = tt
    nothing_left n (b ∷ t) = nothing_left n t

swept-Perm : (k : ℕ) (t : Table) → Perm (swept k t) t
swept-Perm zero t = Perm.rfl
swept-Perm (suc k) [] = Perm.rfl
swept-Perm (suc k) (a ∷ []) = Perm.rfl
swept-Perm (suc k) (a ∷ b ∷ t) = elim (Bool-cases (ltb b.event_priority a.event_priority)) [
  | inl e ↦ rw e (Perm.trans (Perm.cons b (swept-Perm k (a ∷ t))) (Perm.swap a b t))
  | inr e ↦ rw e (Perm.cons a (swept-Perm k (b ∷ t)))
]

bubbled-Perm : (k : ℕ) (t : Table) → Perm (bubbled k t) t
bubbled-Perm zero t = Perm.rfl
bubbled-Perm (suc k) t = Perm.trans (bubbled-Perm k (swept (suc k) t)) (swept-Perm (suc k) t)

-- BcuDynamicStateSort makes of a table that is not empty, with at most 2^31 rows, a permutation of it
-- whose priority values do not decrease, without an access outside of it.
pub dynamic_state_sort_lem :
    (t : Table)
    → 0 < length t
    → length t ≤ 2147483648
    → Returns (λ t'. IsSorted t' × Perm t' t) (dynamic_state_sort t)
unfolding dynamic_state_sort
dynamic_state_sort_lem [] l u = absurd (omega arith)
dynamic_state_sort_lem (a ∷ t) l u =
    let one_less : sub_u32 (length (a ∷ t)) 1 ≡ length t = omega arith in
    rw one_less (
      rw (passes_lem (length t) (a ∷ t) (omega arith)) (
        bubbled-IsSorted (length t) (a ∷ t) (start-IsSettled (a ∷ t)),
        bubbled-Perm (length t) (a ∷ t),
      ))

-- The first comparison of a table without rows is behind its end.
empty_table : dynamic_state_sort [] ≡ none
unfolding dynamic_state_sort passes pass
empty_table = refl
