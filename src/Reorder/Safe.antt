-- ===== src/Reorder/Safe.antt =====
-- No call of the sorting in 1.0.x/ProdExplUnits/sourcecode/network/udp_recv_fun.cxx faults.
use mitcbcu.Common.{
  ℕ, zero, suc, ◌+◌, ◌<◌, ◌≤◌, ◌≡◌, refl, arith, ◌||◌, leb, ltb, ◌==◌, List, [], ◌∷◌, Option, none,
  some, inl, inr, get_elem?, ℤ, pos, negsuc, update, ◌>>=◌, Returns, Returns-mono, Returns-bind,
  if_ind, u32,
}
use mitcbcu.Reorder.{
  Package, Cache, node, node_at, node_before, copy_to_app_buffer2, add_and_sort_fun2, copy_expected,
  copy_crowded, sort_algorithm2, audio, data_recv_and_handle2, force_clear_data_cache, force_loop,
  force_push_data_cache_to_buffer, max_pre_arrive_num, max_sort_nuffer_num,
}
use mitcbcu.Reorder.Entries.{get_elem?-AreSet, has_null-AreSet}
use mitcbcu.Reorder.Append.{add_and_sort_fun2-IsKept}
use mitcbcu.Reorder.Bounds.{
  IsReady, Holds, node-Returns, node_at-Returns, push_to_buffer2-Holds, push_to_data_buffer2-Holds,
  copy_to_app_buffer2-Holds, one_more,
}

some-Returns {ℓ} :
    {A : Type ℓ} (P : A → Type 0) (m : Option A) → Returns P m → (a : A) × (m ≡ some a)
some-Returns P none h = absurd h
some-Returns P (some a) h = (a, refl)

node_before-some :
    {c : Cache} (n : ℕ) → IsReady c → 0 < n → n ≤ 6 → (p : Package) × (node_before c n ≡ some p)
node_before-some zero r l m = absurd (omega arith)
node_before-some {c} (suc i) r l m =
    some-Returns _ (node_at c i) (node_at-Returns r i (omega arith))

add_and_sort_fun2-Holds :
    {n : ℕ} {c : Cache}
    → Holds n c
    → 0 < c.network_buffer_num
    → n ≤ 4
    → Returns (Holds (suc n)) (add_and_sort_fun2 c)
add_and_sort_fun2-Holds {n} {c} k l m =
    let (p, e) = some-Returns _ (node c c.p_to_data) (node-Returns c c.p_to_data k.0.node_set) in
    let (last, e') = node_before-some c.network_buffer_num k.0 l (omega arith) in
    elim (add_and_sort_fun2-IsKept c p last e e') [
      | inl h ↦ rw h (k.0, omega arith)
      | inr h ↦ rw h (one_more c.network_buffer_num c.p_to_data k m (omega arith) k.0.node_set)
    ]

copy_expected-Holds : {c : Cache} → Holds 4 c → Returns (Holds 4) (copy_expected c)
copy_expected-Holds {c} k =
    Returns-bind _ (Holds 4) (node_at c 0) _ (node_at-Returns k.0 0 (omega arith)) λ first _.
      if_ind (Returns (Holds 4)) (c.desired_value == first.package_counter) _ _
        (λ _.
          Returns-mono _ _ (copy_to_app_buffer2 c) (copy_to_app_buffer2-Holds k (omega arith))
            (λ c' k'. (k'.0, omega arith)))
        (λ _. k)

copy_crowded-Holds : {c : Cache} → Holds 4 c → Returns (Holds 3) (copy_crowded c)
copy_crowded-Holds {c} k =
    if_ind (Returns (Holds 3)) (ltb max_sort_nuffer_num c.network_buffer_num) _ _
      (λ _. copy_to_app_buffer2-Holds k (omega arith)) (λ e. (k.0, ground arith))

sort_algorithm2-Holds : {c : Cache} → Holds 3 c → Returns (Holds 3) (sort_algorithm2 c)
unfolding sort_algorithm2
sort_algorithm2-Holds {c} k =
    Returns-bind _ (Holds 3) (node c c.p_to_data) _ (node-Returns c c.p_to_data k.0.node_set) λ p _.
      if_ind (Returns (Holds 3)) (c.network_buffer_num == 0) _ _
        (λ _. push_to_data_buffer2-Holds p k)
        (λ e.
          if_ind (Returns (Holds 3))
            (leb p.package_counter c.push_value
              || ltb (u32 (c.desired_value + max_pre_arrive_num)) p.package_counter)
            _ _
            (λ _.
              Returns-mono _ _ (copy_to_app_buffer2 c) (copy_to_app_buffer2-Holds k (omega arith))
                (λ c' k'. (k'.0, omega arith)))
            (λ _.
              Returns-bind (Holds 4) (Holds 3) (add_and_sort_fun2 c) _
                (add_and_sort_fun2-Holds k (ground arith) (omega arith))
                (λ added ka.
                  Returns-bind (Holds 4) (Holds 3) (copy_expected added) copy_crowded
                    (copy_expected-Holds ka) (λ copied kc. copy_crowded-Holds kc))))

-- The calls that the threads make, with the socket and what recvfrom gives.
pub data Call : Type 0 where
  recv : ℤ → Option Package → Call
  force_clear : Call
  force_push : Call

abbrev pub call : Cache → Call → Option Cache
call c (recv sockfd received) = do r ← data_recv_and_handle2 c sockfd received; some r.0
call c force_clear = force_clear_data_cache c
call c force_push = force_push_data_cache_to_buffer c

abbrev pub calls : Cache → List Call → Option Cache
calls c [] = some c
calls c (x ∷ xs) = do c' ← call c x; calls c' xs

recv_ready :
    {c : Cache} (sockfd : ℕ) (p : Package)
    → IsReady c
    → data_recv_and_handle2 c (pos sockfd) (some p) ≡ (
        sort_algorithm2 (record c { nodes = update c.nodes c.p_to_data p }) >>= λ sorted.
        some (sorted, pos 0))
unfolding data_recv_and_handle2
recv_ready sockfd p r = rw (has_null-AreSet r.set) (ground arith)

recv-Holds :
    {c : Cache} (sockfd : ℤ) (received : Option Package)
    → Holds 3 c
    → Returns (Holds 3) (call c (recv sockfd received))
unfolding data_recv_and_handle2
recv-Holds (negsuc _) received k = k
recv-Holds (pos sockfd) none k = k
recv-Holds {c} (pos sockfd) (some p) k = rw (recv_ready sockfd p k.0) (
    Returns-bind (λ r. Holds 3 r.0) (Holds 3) _ _
      (Returns-bind (Holds 3) (λ r. Holds 3 r.0)
        (sort_algorithm2 (record c { nodes = update c.nodes c.p_to_data p })) _
        (sort_algorithm2-Holds (record { set = k.0.set; node_set = k.0.node_set }, k.1)) (λ a h. h))
      (λ a h. h))

force_clear-Holds : {c : Cache} → Holds 3 c → Returns (Holds 3) (force_clear_data_cache c)
unfolding force_clear_data_cache
force_clear-Holds {c} k =
    Returns-bind _ (Holds 3) (get_elem? c.handles 0) _ (get_elem?-AreSet k.0.set 0 (omega arith))
      (λ h p. (record { set = k.0.set; node_set = p }, k.1))

force_loop-Holds :
    (n ret_ye : ℕ) {c : Cache}
    → Holds 3 c
    → n + ret_ye ≤ 6
    → Returns (Holds 3) (force_loop n ret_ye c)
force_loop-Holds zero ret_ye k l = k
force_loop-Holds (suc n) ret_ye {c} k l =
    Returns-bind _ (Holds 3) (get_elem? c.handles ret_ye) _
      (get_elem?-AreSet k.0.set ret_ye (omega arith))
      λ h p.
        if_ind (Returns (Holds 3)) (c.p_to_data == h) _ _ (λ _. force_clear-Holds k)
          (λ _. Returns-bind _ (Holds 3) (node c h) _ (node-Returns c h p) (λ q _.
            force_loop-Holds n (ret_ye + 1) (push_to_buffer2-Holds (audio q) k) (omega arith)))

call-Holds : {c : Cache} (x : Call) → Holds 3 c → Returns (Holds 3) (call c x)
unfolding force_push_data_cache_to_buffer
call-Holds (recv sockfd received) k = recv-Holds sockfd received k
call-Holds force_clear k = force_clear-Holds k
call-Holds force_push k = force_loop-Holds 6 0 k (omega arith)

-- From a cache with its memory that holds at most 3 packages, no sequence of calls of DataRecvAndHandle2,
-- ForceClearDataCache and ForcePushDataCacheToBuffer follows a NULL pointer, leaves the array of pointers
-- or runs without an end, whatever the packages are and whether or not recvfrom fails: afterwards again
-- the 6 pointers and the one to receive into are set, and at most 3 packages wait.
pub calls_lem :
    (c : Cache) (xs : List Call)
    → IsReady c
    → c.network_buffer_num ≤ 3
    → Returns (λ c'. IsReady c' × (c'.network_buffer_num ≤ 3)) (calls c xs)
calls_lem c [] r l = (r, l)
calls_lem c (x ∷ xs) r l =
    Returns-bind (Holds 3) (Holds 3) (call c x) _ (call-Holds x (r, l))
      (λ c' k. calls_lem c' xs k.0 k.1)
