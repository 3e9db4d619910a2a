-- ===== src/Names/Tests.antt =====
-- Names saved, looked up and taken out of small lists.
use mitcbcu.Common.{ℕ, ◌≡◌, refl, arith, List, [], ◌∷◌, ◌++◌, true, false, pos, replicate}
use mitcbcu.Names.{Node, Names, no_names, save, put_name, name_taken, is_valid, any_holds}
use mitcbcu.Names.Text.{IsName}
use mitcbcu.Names.Lookup.{IsDistinct}

-- "AB", and "ABC".
abbrev pub short_name : List ℕ
short_name = 65 ∷ 66 ∷ []

abbrev pub longer_name : List ℕ
longer_name = 65 ∷ 66 ∷ 67 ∷ []

pub short_name-IsName : IsName short_name
short_name-IsName = record {
  text = (omega arith, (omega arith, tt));
  some_byte = omega arith;
  short = omega arith;
}

saved : (save 500 short_name true no_names).1 ≡ pos 0
unfolding save put_name name_taken
saved = refl

-- The static node, used before for a longer name and then reset.
abbrev stale_node : Node
stale_node = record { name = longer_name ++ replicate 61 0; handle = 500; used = false }

-- Two handles in use.
abbrev pub two_names : Names
two_names =
    record { name = short_name ++ replicate 62 0; handle = 500; used = true }
    ∷ record { name = longer_name ++ replicate 61 0; handle = 600; used = true }
    ∷ []

pub two_names-IsDistinct : IsDistinct two_names
unfolding any_holds
two_names-IsDistinct = ((λ e. refl), ((λ e. refl), tt))

pub two_names-valid : is_valid 500 two_names ≡ true
unfolding is_valid any_holds
two_names-valid = refl

pub no_names-IsDistinct : IsDistinct no_names
unfolding any_holds
no_names-IsDistinct = ((λ e. refl), tt)

-- Before anything is created, no handle is valid.
pub no_names-invalid : (h : ℕ) → is_valid h no_names ≡ false
unfolding is_valid any_holds
no_names-invalid h = ground arith

pub short_name-free : name_taken short_name no_names ≡ false
unfolding name_taken
short_name-free = refl
