-- ===== src/Names/Text.antt =====
-- C strings: comparison, and what a `char[64]` holds after a name has been stored in it.
use mitcbcu.Common.{
  ℕ, zero, suc, ◌-◌, ◌<◌, ◌≡◌, ◌≢◌, refl, ap, ◌∙◌, arith, List, [], ◌∷◌, ◌++◌, true, false, ◌&&◌,
  length, take_all, get_elem?, some, set, replicate, ◌==◌, Bool-cases, inl, inr,
}
use mitcbcu.Names.{
  Node, c_string, text_eq, strncpy, save_len, store_name, name_len, matches, zero_node,
}

abbrev pub IsText : List ℕ → Type 0
IsText [] = Unit
IsText (c ∷ cs) = (c ≢ 0) × IsText cs

-- A name that fits its array with its NUL, and is not empty.
pub record IsName (name : List ℕ) : Type 0 where
  pub text : IsText name
  pub some_byte : 0 < length name
  pub short : length name < name_len

pub text_eq→eq : (a b : List ℕ) → text_eq a b ≡ true → a ≡ b
text_eq→eq [] [] h = refl
text_eq→eq [] (y ∷ b) h = cc
text_eq→eq (x ∷ a) [] h = cc
text_eq→eq (x ∷ a) (y ∷ b) h = ground (arith, text_eq→eq a b)

pub text_eq_refl : (a : List ℕ) → text_eq a a ≡ true
text_eq_refl [] = refl
text_eq_refl (x ∷ a) = ground (arith, text_eq_refl a)

pub text_eq_of_length : (a b : List ℕ) → length a ≢ length b → text_eq a b ≡ false
text_eq_of_length a b h = elim (Bool-cases (text_eq a b)) [
  | inl e ↦ absurd (h (ap length (text_eq→eq a b e)))
  | inr e ↦ e
]

-- For a name that fits, the comparison of CharBufferOpen is `strcmp`.
pub matches_short :
    (name : List ℕ) (n : Node)
    → 0 < length name
    → length name < name_len
    → matches name n ≡ (n.used && text_eq (c_string n.name) name)
matches_short name n h0 h = elim (Bool-cases (length name == length (c_string n.name))) [
  | inl e ↦ ground (
    arith,
    take_all (length (c_string n.name)) (c_string n.name),
    take_all (length (c_string n.name)) name,
  )
  | inr e ↦ ground (arith, text_eq_of_length (c_string n.name) name)
]

-- An array whose cell behind the copied name is 0 then holds the name.
c_string-clean :
    (name cells : List ℕ)
    → IsText name
    → get_elem? cells (length name) ≡ some 0
    → c_string (set (strncpy cells name (length name)) (suc (length name)) 0) ≡ name
c_string-clean [] [] t h = cc
c_string-clean [] (zero ∷ ds) t h = refl
c_string-clean [] (suc d ∷ ds) t h = cc
c_string-clean (c ∷ cs) [] t h = cc
c_string-clean (zero ∷ cs) (d ∷ ds) t h = absurd (t.0 refl)
c_string-clean (suc c ∷ cs) (d ∷ ds) t h = ap (λ l. suc c ∷ l) (c_string-clean cs ds t.1 h)

-- An array with an older byte there holds the name and that byte.
c_string-stale :
    (name cells : List ℕ) (c : ℕ)
    → IsText name
    → get_elem? cells (length name) ≡ some (suc c)
    → suc (length name) < length cells
    → c_string (set (strncpy cells name (length name)) (suc (length name)) 0) ≡ name ++ (suc c ∷ [])
c_string-stale [] [] c t h l = cc
c_string-stale [] (d ∷ []) c t h l = absurd (omega arith)
c_string-stale [] (zero ∷ e ∷ ds) c t h l = absurd (ground arith)
c_string-stale [] (suc d ∷ e ∷ ds) c t h l = ground arith
c_string-stale (x ∷ cs) [] c t h l = cc
c_string-stale (zero ∷ cs) (d ∷ ds) c t h l = absurd (t.0 refl)
c_string-stale (suc x ∷ cs) (d ∷ ds) c t h l =
    ap (λ l. suc x ∷ l) (c_string-stale cs ds c t.1 h (omega arith))

save_len_short : (name : List ℕ) → length name < name_len → save_len name ≡ suc (length name)
save_len_short name h = ground arith

pub store_name_clean :
    (name cells : List ℕ)
    → IsName name
    → get_elem? cells (length name) ≡ some 0
    → c_string (store_name cells name) ≡ name
unfolding store_name
store_name_clean name cells v h =
    ap (λ k. c_string (set (strncpy cells name (k - 1)) k 0)) (save_len_short name v.short)
    ∙ ap (λ k. c_string (set (strncpy cells name k) (suc (length name)) 0)) (omega arith)
    ∙ c_string-clean name cells v.text h

pub store_name_stale :
    (name cells : List ℕ) (c : ℕ)
    → IsName name
    → get_elem? cells (length name) ≡ some (suc c)
    → suc (length name) < length cells
    → c_string (store_name cells name) ≡ name ++ (suc c ∷ [])
unfolding store_name
store_name_stale name cells c v h l =
    ap (λ k. c_string (set (strncpy cells name (k - 1)) k 0)) (save_len_short name v.short)
    ∙ ap (λ k. c_string (set (strncpy cells name k) (suc (length name)) 0)) (omega arith)
    ∙ c_string-stale name cells c v.text h l

get_elem?-replicate : (n i : ℕ) → i < n → get_elem? {A = ℕ} (replicate n 0) i ≡ some 0
get_elem?-replicate zero i h = absurd (omega arith)
get_elem?-replicate (suc n) zero h = refl
get_elem?-replicate (suc n) (suc i) h = get_elem?-replicate n i (omega arith)

-- A node that has just been allocated is clean for every name that fits.
pub zero_node_clean : (i : ℕ) → i < name_len → get_elem? zero_node.name i ≡ some 0
zero_node_clean i h = get_elem?-replicate name_len i h
