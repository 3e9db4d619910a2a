-- ===== src/Pool.antt =====
-- The buffers that a program can name by a handle: the list of named handles of `Names`, and the
-- memory where the structures themselves lie. Both kinds of buffers of
-- 1.0.x/ProdExplUnits/sourcecode/buffer_read_write_fun.cxx are kept so, and the alarms of
-- alarm_list_fun.cxx in the same directory.
pub mod Save
pub mod Remove
use mitcbcu.Common.{
  ℕ, ◌≡◌, ◌≢◌, refl, arith, Bool, true, false, if◌then◌else◌, Option, none, some, update, ◌==◌,
  Bool-cases, inl, inr, update_self, update_ne, Option-cases, ℤ, pos, negsuc, to_int,
}
use mathlib.Core.Option
use mitcbcu.Names.{Names, is_valid, reset}
use mitcbcu.Names.Lookup.{IsDistinct}

module _ {ℓ} where
  pub record Pool (A : Type ℓ) : Type ℓ where
    pub names : Names
    pub heap : ℕ → Option A

  -- What every function on a handle does: it checks the handle, returns an error if it is not in
  -- the list, and otherwise works on the structure behind the pointer. `none` is a fault: the
  -- structure is not there.
  pub with_handle {κ} :
      {A : Type ℓ} {R : Type κ} → Pool A → ℕ → R → (A → A × R) → Option (Pool A × R)
  with_handle p h bad f =
      if is_valid h p.names
      then elim (p.heap h) [
        | none ↦ none
        | some a ↦ some (record p { heap = update p.heap h (some (f a).0) }, (f a).1)
      ]
      else some (p, bad)

  -- A question about the structure, which changes nothing.
  abbrev pub ask {κ} : {A : Type ℓ} {R : Type κ} → Pool A → ℕ → R → (A → R) → Option R
  ask p h bad f = if is_valid h p.names then Option.map f (p.heap h) else some bad

  -- The end of a function that creates a structure: it keeps the structure if its name could be
  -- saved, and returns its address; otherwise it frees it and returns NULL.
  abbrev pub registered : {A : Type ℓ} → Pool A → ℕ → A → Names × ℤ → Pool A × ℤ
  registered p h a (names, pos _) =
      (record p { names = names; heap = update p.heap h (some a) }, to_int h)
  registered p h a (_, negsuc _) = (p, pos 0)

  -- What deletes a structure: its node and itself.
  abbrev pub remove : {A : Type ℓ} → Pool A → ℕ → Pool A
  remove p h =
      if is_valid h p.names
      then record { names = reset h p.names; heap = update p.heap h none }
      else p

  -- The handles are distinct, and behind each handle in the list lies a structure that satisfies
  -- the invariant.
  pub record IsSound {κ} {A : Type ℓ} (P : A → Type κ) (p : Pool A) : Type (ℓ ⊔ κ) where
    pub distinct : IsDistinct p.names
    pub live : (h : ℕ) → is_valid h p.names ≡ true → (a : A) × (p.heap h ≡ some a) × P a

  -- An invalid handle: the error, and nothing else.
  pub with_handle_invalid {κ} :
      {A : Type ℓ} {R : Type κ} (p : Pool A) (h : ℕ) (bad : R) (f : A → A × R)
      → is_valid h p.names ≡ false
      → with_handle p h bad f ≡ some (p, bad)
  unfolding with_handle
  with_handle_invalid p h bad f e = rw e

  -- A valid handle: the work on the structure behind it.
  pub with_handle_valid {κ} :
      {A : Type ℓ} {R : Type κ} (p : Pool A) (h : ℕ) (bad : R) (f : A → A × R) (a : A)
      → is_valid h p.names ≡ true
      → p.heap h ≡ some a
      → with_handle p h bad f ≡ some (record p { heap = update p.heap h (some (f a).0) }, (f a).1)
  unfolding with_handle
  with_handle_valid p h bad f a e g = ground arith

  -- Writing back a structure keeps the pool sound.
  pub heap-IsSound {κ} :
      {A : Type ℓ} (P : A → Type κ) (p : Pool A) (h : ℕ) (a : A)
      → IsSound P p
      → P a
      → IsSound P (record p { heap = update p.heap h (some a) })
  heap-IsSound P p h a s pa = record {
    distinct = s.distinct;
    live = λ k e. elim (Bool-cases (k == h)) [
      | inl same ↦ (a, rw same, pa)
      | inr other ↦ let old = s.live k e in (old.0, rw other old.1, old.2)
    ];
  }

  -- On a sound pool no handle faults, and the pool stays sound.
  pub with_handle-IsSound {κ λ'} :
      {A : Type ℓ} {R : Type κ} (P : A → Type λ') (p : Pool A) (h : ℕ) (bad : R) (f : A → A × R)
      → IsSound P p
      → ((a : A) → P a → P (f a).0)
      → (out : Pool A × R) × (with_handle p h bad f ≡ some out) × IsSound P out.0
  with_handle-IsSound P p h bad f s keep = elim (Bool-cases (is_valid h p.names)) [
    | inl e ↦
        let (a, g, pa) = s.live h e in
        (
          (record p { heap = update p.heap h (some (f a).0) }, (f a).1),
          with_handle_valid p h bad f a e g,
          heap-IsSound P p h (f a).0 s (keep a pa),
        )
    | inr e ↦ ((p, bad), with_handle_invalid p h bad f e, s)
  ]
