-- ===== src/Reorder/Append.antt =====
-- Where AddAndSortFun2 of 1.0.x/ProdExplUnits/sourcecode/network/udp_recv_fun.cxx puts a package.
use mitcbcu.Common.{
  ℕ, zero, suc, ◌+◌, ◌<◌, ◌≢◌, ltb, ==-of_ne, Bool-cases, ◌≡◌, refl, ap, ◌∙◌, Bool, true, false,
  ◌&&◌, ◌||◌, leb, ◌==◌, if◌then◌else◌, ◌⊎◌, inl, inr, List, Option, none, some, u32, u8, ◌>>=◌,
  store, arith, if_ind,
}
use mitcbcu.Reorder.{
  Package, Cache, slt, node, node_before, take_next, add_pakage_to_cache2, move_loop,
  array_move_sort2, add_and_sort_fun2, max_sort_nuffer_num_3, max_sort_nuffer_num_4,
}

-- The package that was received, behind all those that wait.
abbrev pub appended : Cache → Option Cache
appended c = store c.handles c.network_buffer_num c.p_to_data >>= λ hs.
    take_next (record c { handles = hs; network_buffer_num = u8 (c.network_buffer_num + 1) })

abbrev IsKept : Cache → Option Cache → Type 0
IsKept c o = (o ≡ some c) ⊎ (o ≡ appended c)

pub add_pakage_to_cache2_lem :
    (c : Cache) (p : Package) → node c c.p_to_data ≡ some p → IsKept c (add_pakage_to_cache2 c)
unfolding add_pakage_to_cache2
add_pakage_to_cache2_lem c p e = rw e (
    if_ind (IsKept c)
      (leb p.package_counter c.push_value && (if c.network_buffer_num == 0 then false else true)) _
      _ (λ _. inl refl) (λ _. inr refl))

&&-left : (a b : Bool) → (a && b) ≡ true → a ≡ true
&&-left true b h = refl
&&-left false b h = h

slt_asym : (a b : ℕ) → slt a b ≡ true → slt b a ≡ false
slt_asym a b h = ground arith

-- The loop of ArrayMoveSort2 ends in its first round.
move_loop_lem :
    (n : ℕ) (c : Cache) (p last : Package)
    → node c c.p_to_data ≡ some p
    → node_before c n ≡ some last
    → slt p.package_counter last.package_counter ≡ true
    → move_loop n c ≡ (store c.handles n c.p_to_data >>= λ hs. some (record c { handles = hs }))
move_loop_lem zero c p last e l h = cc
move_loop_lem (suc i) c p last e l h =
    rw e (rw l (rw (slt_asym p.package_counter last.package_counter h) refl))

moved_next :
    (c : Cache) (o : Option (List ℕ))
    → ((o >>= λ hs. some (record c { handles = hs })) >>= λ moved.
        take_next (record moved { network_buffer_num = u8 (moved.network_buffer_num + 1) }))
      ≡ (o >>= λ hs.
          take_next (record c { handles = hs; network_buffer_num = u8 (c.network_buffer_num + 1) }))
moved_next c none = refl
moved_next c (some hs) = refl

-- What the code does where it calls ArrayMoveSort2.
array_move_sort2-appended :
    (c : Cache) (p last : Package)
    → node c c.p_to_data ≡ some p
    → node_before c c.network_buffer_num ≡ some last
    → slt p.package_counter last.package_counter ≡ true
    → (array_move_sort2 c >>= λ moved.
        take_next (record moved { network_buffer_num = u8 (moved.network_buffer_num + 1) }))
      ≡ appended c
unfolding array_move_sort2
array_move_sort2-appended c p last e l h =
    ap
      (λ m. m >>= λ moved.
        take_next (record moved { network_buffer_num = u8 (moved.network_buffer_num + 1) }))
      (move_loop_lem c.network_buffer_num c p last e l h)
    ∙ moved_next c (store c.handles c.network_buffer_num c.p_to_data)

-- Whatever the numbers are, AddAndSortFun2 leaves the cache as it was or puts the package behind the others.
pub add_and_sort_fun2-IsKept :
    (c : Cache) (p last : Package)
    → node c c.p_to_data ≡ some p
    → node_before c c.network_buffer_num ≡ some last
    → (add_and_sort_fun2 c ≡ some c) ⊎ (add_and_sort_fun2 c ≡ appended c)
unfolding add_and_sort_fun2
add_and_sort_fun2-IsKept c p last e l = rw e (
    rw l (
      if_ind (IsKept c) (p.package_counter == u32 (last.package_counter + 1)) _ _
        (λ _. add_pakage_to_cache2_lem c p e)
        (λ _.
          if_ind (IsKept c)
            (slt p.package_counter (u32 (last.package_counter + max_sort_nuffer_num_3))
              && slt last.package_counter p.package_counter)
            _ _ (λ _. add_pakage_to_cache2_lem c p e)
            (λ _.
              if_ind (IsKept c)
                (slt p.package_counter last.package_counter
                  && (leb c.desired_value p.package_counter
                      || slt p.package_counter max_sort_nuffer_num_4))
                _ _ (λ h. inr (array_move_sort2-appended c p last e l (&&-left _ _ h)))
                (λ _. inl refl)))))

-- Which packages are taken: a number above the last one by less than 9, which is not played yet, and a
-- number below it, which is still expected or one of the first twelve.
abbrev pub is_taken : Cache → ℕ → ℕ → Bool
is_taken c number last =
    if ltb last number
    then ltb number (last + 9) && ltb c.push_value number
    else ltb number last && (leb c.desired_value number || ltb number 12)

add_pakage_to_cache2-taken :
    (c : Cache) (p : Package)
    → node c c.p_to_data ≡ some p
    → c.network_buffer_num ≢ 0
    → add_pakage_to_cache2 c ≡ (if leb p.package_counter c.push_value then some c else appended c)
unfolding add_pakage_to_cache2
add_pakage_to_cache2-taken c p e n =
    rw (e, ==-of_ne c.network_buffer_num 0 n)
      (elim (Bool-cases (leb p.package_counter c.push_value)) [
        | inl k ↦ rw k refl
        | inr k ↦ rw k refl
      ])

if_then {ℓ} :
    {A : Type ℓ} (b : Bool) (x y z : A)
    → (b ≡ true → x ≡ y)
    → (if b then x else z) ≡ (if b then y else z)
if_then true x y z h = h refl
if_then false x y z h = refl

taken :
    {A : Type 0} (x y : A) (c : Cache) (number last : ℕ)
    → number < 2147483639
    → last < 2147483639
    → (if number == u32 (last + 1)
        then if leb number c.push_value then y else x
        else if slt number (u32 (last + max_sort_nuffer_num_3)) && slt last number
        then if leb number c.push_value then y else x
        else if slt number last && (leb c.desired_value number || slt number max_sort_nuffer_num_4)
        then x
        else y)
      ≡ (if is_taken c number last then x else y)
taken x y c number last h l = ground arith

has_last : (c : Cache) (last : Package) (n : ℕ) → node_before c n ≡ some last → n ≢ 0
has_last c last zero e = ground arith
has_last c last (suc n) e = omega arith

-- AddAndSortFun2, where the package received and the last one that waits are behind pointers that are
-- set and have numbers below 2^31 - 9: the package is put behind all those that wait, if its number is
-- above the last one by less than 9 and above push_value, or if it is below the last one and either not
-- below desired_value or below 12; else the cache stays as it was. So a package with a lower number, for
-- which the code calls ArrayMoveSort2, is put behind the higher ones too.
pub add_and_sort_fun2_lem :
    (c : Cache) (p last : Package)
    → node c c.p_to_data ≡ some p
    → node_before c c.network_buffer_num ≡ some last
    → p.package_counter < 2147483639
    → last.package_counter < 2147483639
    → add_and_sort_fun2 c
      ≡ (if is_taken c p.package_counter last.package_counter then appended c else some c)
unfolding add_and_sort_fun2
add_and_sort_fun2_lem c p last e l h k =
    rw
      (
        e,
        l,
        add_pakage_to_cache2-taken c p e (has_last c last c.network_buffer_num l),
        if_then
            (slt p.package_counter last.package_counter
              && (leb c.desired_value p.package_counter
                  || slt p.package_counter max_sort_nuffer_num_4))
            _ _ (some c) (λ lower. array_move_sort2-appended c p last e l (&&-left _ _ lower)),
      )
      (taken (appended c) (some c) c p.package_counter last.package_counter h k)
