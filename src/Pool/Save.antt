-- ===== src/Pool/Save.antt =====
-- The end of CharBufferCreate, BlockBufferCreate and AlarmCreate: the new structure is reachable.
use mitcbcu.Common.{
  ℕ, suc, ◌≡◌, ◌≢◌, refl, sym, ◌∙◌, arith, List, Bool, true, false, some, ◌==◌, Bool-cases, inl,
  inr, ℤ, pos, negsuc, update, to_int, ==→ne, update_self,
}
use mitcbcu.Names.{Names, is_valid, name_taken, any_holds, save, open_name}
use mitcbcu.Names.Lookup.{IsDistinct, save_others, any_holds_of_invalid}
use mitcbcu.Names.Text.{IsName}
use mitcbcu.Names.Save.{IsCleanFor, save_lem, save_ok}
use mitcbcu.Pool.{Pool, IsSound, registered}

module _ {ℓ} {A : Type ℓ} where
  registered_of_save {κ} :
      (P : A → Type κ) (p : Pool A) (h : ℕ) (a : A) (s : Names × ℤ)
      → IsSound P p
      → P a
      → IsDistinct s.0
      → ((k : ℕ) → k ≢ h → is_valid k s.0 ≡ is_valid k p.names)
      → IsSound P (registered p h a s).0
  registered_of_save P p h a (names, negsuc _) sound v d same = sound
  registered_of_save P p h a (names, pos _) sound v d same = record {
    distinct = d;
    live = λ k e. elim (Bool-cases (k == h)) [
      | inl eq ↦ (a, rw eq, v)
      | inr ne ↦
          let old = sound.live k (sym (same k (==→ne k h ne)) ∙ e) in (old.0, rw ne old.1, old.2)
    ];
  }

  -- Whether or not the name can be saved, the pool stays sound.
  pub registered-IsSound {κ} :
      (P : A → Type κ) (p : Pool A) (h : ℕ) (a : A) (name : List ℕ) (ok : Bool)
      → IsSound P p
      → P a
      → h ≢ 0
      → is_valid h p.names ≡ false
      → IsSound P (registered p h a (save h name ok p.names)).0
  registered-IsSound P p h a name ok s v hn free =
      registered_of_save P p h a (save h name ok p.names) s v
        (save_others h (suc h) name ok p.names (omega arith) unheld s.distinct).1
        (λ j ne. (save_others h j name ok p.names ne unheld s.distinct).0)
    where
      unheld : any_holds h p.names ≡ false
      unheld = any_holds_of_invalid h p.names hn free

  registered_ok :
      (p : Pool A) (h : ℕ) (a : A) (s : Names × ℤ)
      → s.1 ≡ pos 0
      → registered p h a s ≡ (record p { names = s.0; heap = update p.heap h (some a) }, to_int h)
  registered_ok p h a (names, pos _) e = refl
  registered_ok p h a (names, negsuc _) e = cc

  -- A new name that fits: the structure is found under it, and lies behind its handle.
  pub registered_lem :
      (p : Pool A) (h : ℕ) (a : A) (name : List ℕ) (ok : Bool)
      → h ≢ 0
      → ok ≡ true
      → IsName name
      → IsCleanFor name p.names
      → name_taken name p.names ≡ false
      → let (p', ret) = registered p h a (save h name ok p.names) in
        (ret ≡ to_int h)
        × (open_name name p'.names ≡ to_int h)
        × (is_valid h p'.names ≡ true)
        × (p'.heap h ≡ some a)
  registered_lem p h a name ok hn e v c t =
      rw (registered_ok p h a (save h name ok p.names) stored)
        (refl, found.0, found.1, update_self p.heap h (some a))
    where
      stored : (save h name ok p.names).1 ≡ pos 0
      stored = rw e (save_ok h name p.names t)

      found :
          (open_name name (save h name ok p.names).0 ≡ to_int h)
          × (is_valid h (save h name ok p.names).0 ≡ true)
      found = save_lem h name ok p.names hn v c stored
