-- ===== src/Names/Save.antt =====
-- A name that has been saved is found again, and its handle is valid.
use mitcbcu.Common.{
  ℕ, suc, ◌<◌, ◌≡◌, ◌≢◌, refl, ap, ◌∙◌, arith, List, [], ◌∷◌, ◌++◌, Bool, true, false, length,
  get_elem?, some, Bool-cases, inl, inr, length-append, pos, negsuc, to_int,
}
use mitcbcu.Names.{
  Node, Names, text_eq, fill, name_taken, put_name, save, is_valid, any_holds, open_name, matches,
  zero_node,
}
use mitcbcu.Names.Text.{
  IsName, text_eq_refl, text_eq_of_length, matches_short, store_name_clean, store_name_stale,
  zero_node_clean,
}

-- Every unused node could take the name without leaving an older byte behind it.
abbrev pub IsCleanFor : List ℕ → Names → Type 0
IsCleanFor name [] = Unit
IsCleanFor name (n ∷ ns) =
    (n.used ≡ false → get_elem? n.name (length name) ≡ some 0) × IsCleanFor name ns

-- A node that has just been filled is the one that is found.
matches-fill :
    (n : Node) (h : ℕ) (name : List ℕ)
    → IsName name
    → get_elem? n.name (length name) ≡ some 0
    → matches name (fill n h name) ≡ true
unfolding fill
matches-fill n h name v c =
    matches_short name (fill n h name) v.some_byte v.short
    ∙ ap (λ s. text_eq s name) (store_name_clean name n.name v c)
    ∙ text_eq_refl name

handle-fill : (n : Node) (h : ℕ) (name : List ℕ) → (fill n h name).handle ≡ h
unfolding fill
handle-fill n h name = refl

open_name-put_name :
    (h : ℕ) (name : List ℕ) (ok : Bool) (ns : Names)
    → IsName name
    → IsCleanFor name ns
    → name_taken name ns ≡ false
    → (put_name h name ok ns).1 ≡ pos 0
    → open_name name (put_name h name ok ns).0 ≡ to_int h
unfolding open_name put_name name_taken
open_name-put_name h name false [] v c t r = cc
open_name-put_name h name true [] v c t r =
    rw (matches-fill zero_node h name v (zero_node_clean (length name) v.short))
      (ap to_int (handle-fill zero_node h name))
open_name-put_name h name ok (n ∷ ns) v c t r = elim (Bool-cases n.used) [
  | inl e ↦
      ground
        (arith, matches_short name n v.some_byte v.short, open_name-put_name h name ok ns v c.1)
  | inr e ↦ ground (arith, matches-fill n h name v, handle-fill n h name)
]

-- A handle that has been saved is valid.
is_valid-put_name :
    (h : ℕ) (name : List ℕ) (ok : Bool) (ns : Names)
    → (put_name h name ok ns).1 ≡ pos 0
    → any_holds h (put_name h name ok ns).0 ≡ true
unfolding any_holds put_name fill
is_valid-put_name h name false [] r = cc
is_valid-put_name h name true [] r = ground arith
is_valid-put_name h name ok (n ∷ ns) r = ground (arith, is_valid-put_name h name ok ns)

-- A name that fits its array, when no unused node would leave an older byte behind it: if the
-- function that saves a handle under it returns 0, looking the name up gives the handle, and the
-- handle is valid.
pub save_lem :
    (h : ℕ) (name : List ℕ) (malloc_ok : Bool) (ns : Names)
    → h ≢ 0
    → IsName name
    → IsCleanFor name ns
    → (save h name malloc_ok ns).1 ≡ pos 0
    → (open_name name (save h name malloc_ok ns).0 ≡ to_int h)
      × (is_valid h (save h name malloc_ok ns).0 ≡ true)
unfolding save is_valid
save_lem h name ok ns hn v c r =
    ground (arith, open_name-put_name h name ok ns v c, is_valid-put_name h name ok ns)

-- A name that is in use is refused, and nothing changes.
pub save-taken :
    (h : ℕ) (name : List ℕ) (ok : Bool) (ns : Names)
    → name_taken name ns ≡ true
    → save h name ok ns ≡ (ns, negsuc 0)
unfolding save
save-taken h name ok ns t = rw t

-- A name that no used node has is not found.
open_name-free :
    (name : List ℕ) (ns : Names)
    → IsName name
    → name_taken name ns ≡ false
    → open_name name ns ≡ negsuc 0
unfolding open_name name_taken
open_name-free name [] v t = refl
open_name-free name (n ∷ ns) v t =
    ground (arith, matches_short name n v.some_byte v.short, open_name-free name ns v)

-- A node whose array keeps an older byte is not found under the name that it was given.
matches-fill_stale :
    (n : Node) (h : ℕ) (name : List ℕ) (c : ℕ)
    → IsName name
    → get_elem? n.name (length name) ≡ some (suc c)
    → suc (length name) < length n.name
    → matches name (fill n h name) ≡ false
unfolding fill
matches-fill_stale n h name c v g l =
    matches_short name (fill n h name) v.some_byte v.short
    ∙ ap (λ s. text_eq s name) (store_name_stale name n.name c v g l)
    ∙ text_eq_of_length (name ++ (suc c ∷ [])) name
        (omega (arith, length-append {0} name (suc c ∷ [])))

-- The static node is free and its array holds, behind the place of the new name, a byte of an
-- older and longer name: the handle is saved with result 0, but no lookup of the name finds it.
pub save_stale :
    (h : ℕ) (name : List ℕ) (ok : Bool) (n : Node) (ns : Names) (c : ℕ)
    → IsName name
    → n.used ≡ false
    → get_elem? n.name (length name) ≡ some (suc c)
    → suc (length name) < length n.name
    → name_taken name ns ≡ false
    → ((save h name ok (n ∷ ns)).1 ≡ pos 0)
      × (open_name name (save h name ok (n ∷ ns)).0 ≡ negsuc 0)
unfolding save put_name open_name name_taken
save_stale h name ok n ns c v u g l t =
    ground (arith, matches-fill_stale n h name c v g l, open_name-free name ns v t)

put_name_ok : (h : ℕ) (name : List ℕ) (ns : Names) → (put_name h name true ns).1 ≡ pos 0
unfolding put_name
put_name_ok h name [] = refl
put_name_ok h name (n ∷ ns) = ground (arith, put_name_ok h name ns)

-- With memory for a node, a new name is always saved.
pub save_ok :
    (h : ℕ) (name : List ℕ) (ns : Names)
    → name_taken name ns ≡ false
    → (save h name true ns).1 ≡ pos 0
unfolding save
save_ok h name ns t = rw t (put_name_ok h name ns)
