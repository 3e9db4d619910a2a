-- ===== src/Reorder/Entries.antt =====
-- The array of pointers of 1.0.x/ProdExplUnits/sourcecode/network/udp_recv_fun.cxx: its first 6 entries
-- are never NULL.
use mitcbcu.Common.{
  ℕ, zero, suc, ◌<◌, ◌≡◌, arith, List, [], ◌∷◌, false, some, get_elem?, Returns, store,
}
use mitcbcu.Reorder.{array_sort, has_null, cache_pack_num}

pub data AreSet : List ℕ → Type 0 where
  are_set :
      {a b c d e f g h : ℕ}
      → 0 < a
      → 0 < b
      → 0 < c
      → 0 < d
      → 0 < e
      → 0 < f
      → AreSet (a ∷ b ∷ c ∷ d ∷ e ∷ f ∷ g ∷ h ∷ [])

pub get_elem?-AreSet :
    {hs : List ℕ} → AreSet hs → (i : ℕ) → i < 6 → Returns (λ h. 0 < h) (get_elem? hs i)
get_elem?-AreSet (are_set pa pb pc pd pe pf) zero l = pa
get_elem?-AreSet (are_set pa pb pc pd pe pf) (suc zero) l = pb
get_elem?-AreSet (are_set pa pb pc pd pe pf) (suc (suc zero)) l = pc
get_elem?-AreSet (are_set pa pb pc pd pe pf) (suc (suc (suc zero))) l = pd
get_elem?-AreSet (are_set pa pb pc pd pe pf) (suc (suc (suc (suc zero)))) l = pe
get_elem?-AreSet (are_set pa pb pc pd pe pf) (suc (suc (suc (suc (suc zero))))) l = pf
get_elem?-AreSet s (suc (suc (suc (suc (suc (suc i)))))) l = absurd (omega arith)

pub store-AreSet :
    {hs : List ℕ} → AreSet hs → (i v : ℕ) → i < 6 → 0 < v → Returns AreSet (store hs i v)
store-AreSet (are_set pa pb pc pd pe pf) zero v l p = are_set p pb pc pd pe pf
store-AreSet (are_set pa pb pc pd pe pf) (suc zero) v l p = are_set pa p pc pd pe pf
store-AreSet (are_set pa pb pc pd pe pf) (suc (suc zero)) v l p = are_set pa pb p pd pe pf
store-AreSet (are_set pa pb pc pd pe pf) (suc (suc (suc zero))) v l p = are_set pa pb pc p pe pf
store-AreSet (are_set pa pb pc pd pe pf) (suc (suc (suc (suc zero)))) v l p =
    are_set pa pb pc pd p pf
store-AreSet (are_set pa pb pc pd pe pf) (suc (suc (suc (suc (suc zero))))) v l p =
    are_set pa pb pc pd pe p
store-AreSet s (suc (suc (suc (suc (suc (suc i)))))) v l p = absurd (omega arith)

pub array_sort-AreSet : {hs : List ℕ} → AreSet hs → Returns AreSet (array_sort hs)
unfolding array_sort
array_sort-AreSet (are_set pa pb pc pd pe pf) = are_set pb pc pd pe pf pa

pub has_null-AreSet : {hs : List ℕ} → AreSet hs → has_null cache_pack_num 0 hs ≡ some false
has_null-AreSet (are_set pa pb pc pd pe pf) = ground arith
