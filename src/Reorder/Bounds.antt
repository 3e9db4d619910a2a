-- ===== src/Reorder/Bounds.antt =====
-- The cache of 1.0.x/ProdExplUnits/sourcecode/network/udp_recv_fun.cxx stays within its array, also when
-- packages wait in it.
use mitcbcu.Common.{
  ℕ, zero, suc, ◌+◌, ◌-◌, ◌<◌, ◌≤◌, ◌≡◌, refl, arith, List, get_elem?, ℤ, pos, negsuc, ◌>>=◌, store,
  Returns, Returns-mono, Returns-bind, if_ind, ltb, u32, ◌==◌, u8,
}
use mitcbcu.CharBuffer
use mitcbcu.CharBuffer.{CharBuffer}
use mitcbcu.Reorder.{
  Package, Cache, node, node_at, array_sort, counted, push_to_buffer2, numbered,
  push_to_data_buffer2, write_to_buffer2, copy_loop, copy_to_app_buffer2, take_next, audio,
}
use mitcbcu.Reorder.Entries.{AreSet, get_elem?-AreSet, store-AreSet, array_sort-AreSet}

-- No pointer that the code follows is NULL.
pub record IsReady (c : Cache) : Type 0 where
  pub set : AreSet c.handles
  pub node_set : 0 < c.p_to_data

-- Ready, with a number of packages at most.
abbrev pub Holds : ℕ → Cache → Type 0
Holds n c = IsReady c × (c.network_buffer_num ≤ n)

pub node-Returns : (c : Cache) (h : ℕ) → 0 < h → Returns (λ p. p ≡ c.nodes h) (node c h)
node-Returns c h l = ground arith

pub node_at-Returns :
    {c : Cache} → IsReady c → (i : ℕ) → i < 6 → Returns (λ (p : Package). 0 ≤ i) (node_at c i)
node_at-Returns {c} r i l =
    Returns-bind (λ h. 0 < h) _ (get_elem? c.handles i) (node c) (get_elem?-AreSet r.set i l)
      (λ h p. Returns-mono _ _ (node c h) (node-Returns c h p) (λ a e. omega arith))

counted-IsReady :
    (c : Cache) (r : CharBuffer × ℤ)
    → ((counted c r).handles ≡ c.handles)
      × ((counted c r).p_to_data ≡ c.p_to_data)
      × ((counted c r).network_buffer_num ≡ c.network_buffer_num)
counted-IsReady c (b, pos n) = (refl, refl, refl)
counted-IsReady c (b, negsuc n) = (refl, refl, refl)

push-num :
    (c : Cache) (p : Package) → (push_to_data_buffer2 c p).network_buffer_num ≡ c.network_buffer_num
unfolding push_to_data_buffer2 push_to_buffer2
push-num c p = (counted-IsReady (numbered c p) (CharBuffer.write c.app (audio p))).2

pub push_to_buffer2-Holds :
    {n : ℕ} {c : Cache} (src : List ℕ) → Holds n c → Holds n (push_to_buffer2 c src)
unfolding push_to_buffer2
push_to_buffer2-Holds {n} {c} src (r, l) =
    let (h, d, m) = counted-IsReady c (CharBuffer.write c.app src) in
    (record { set = rw h r.set; node_set = rw d r.node_set }, rw m l)

pub push_to_data_buffer2-Holds :
    {n : ℕ} {c : Cache} (p : Package) → Holds n c → Holds n (push_to_data_buffer2 c p)
unfolding push_to_data_buffer2
push_to_data_buffer2-Holds {n} {c} p (r, l) =
    push_to_buffer2-Holds {c = numbered c p} (audio p)
      (record { set = r.set; node_set = r.node_set }, l)

-- One package less.
write_to_buffer2-Holds :
    {n : ℕ} {c : Cache}
    → Holds (suc n) c
    → 0 < c.network_buffer_num
    → n ≤ 6
    → Returns (Holds n) (write_to_buffer2 c)
unfolding write_to_buffer2
write_to_buffer2-Holds {n} {c} k l m =
    Returns-bind _ (Holds n) (node_at c 0) _ (node_at-Returns k.0 0 (omega arith)) λ p z.
      let q = push_to_data_buffer2-Holds p k in
      let e = push-num c p in
      Returns-bind AreSet (Holds n) (array_sort (push_to_data_buffer2 c p).handles) _
        (array_sort-AreSet q.0.set)
        (λ hs s. (record { set = s; node_set = q.0.node_set }, rw e (omega arith)))

copy_loop-Holds :
    (n fuel : ℕ) (c : Cache)
    → Holds n c
    → n < fuel
    → n ≤ 6
    → Returns (Holds (n - 1)) (copy_loop fuel c)
copy_loop-Holds n zero c k f m = absurd (omega arith)
copy_loop-Holds n (suc fuel) c k f m =
    if_ind (Returns (Holds (n - 1))) (ltb 0 c.network_buffer_num) _ _
      (λ e.
        Returns-bind (Holds (n - 1)) (Holds (n - 1)) (write_to_buffer2 c) _
          (write_to_buffer2-Holds {n = n - 1} {c = c} (k.0, omega arith) (ground arith)
            (omega arith))
          λ w kw.
            Returns-bind (λ (p : Package). 0 ≤ n) (Holds (n - 1)) (node_at w 0) _
              (Returns-mono _ _ (node_at w 0) (node_at-Returns kw.0 0 (omega arith))
                (λ _ _. omega arith))
              λ first z.
                if_ind (Returns (Holds (n - 1))) (first.package_counter == u32 (w.push_value + 1)) _
                  _
                  (λ _.
                    Returns-mono _ _ (copy_loop fuel w)
                      (copy_loop-Holds (n - 1) fuel w kw (ground arith) (omega arith))
                      (λ c' k'. (k'.0, omega arith)))
                  (λ _. kw))
      (λ e. (k.0, ground arith))

pub copy_to_app_buffer2-Holds :
    {n : ℕ} {c : Cache} → Holds n c → n ≤ 6 → Returns (Holds (n - 1)) (copy_to_app_buffer2 c)
unfolding copy_to_app_buffer2
copy_to_app_buffer2-Holds {n} {c} k l =
    Returns-mono _ _ (copy_to_app_buffer2 c)
      (copy_loop-Holds c.network_buffer_num (c.network_buffer_num + 1) c (k.0, omega arith)
        (omega arith) (omega arith))
      (λ c' k'. (k'.0, omega arith))

take_next-Holds : {n : ℕ} {c : Cache} → Holds n c → n ≤ 5 → Returns (Holds n) (take_next c)
take_next-Holds {n} {c} k l =
    Returns-bind (λ h. 0 < h) (Holds n) (get_elem? c.handles c.network_buffer_num) _
      (get_elem?-AreSet k.0.set c.network_buffer_num (omega arith))
      (λ h p. (record { set = k.0.set; node_set = p }, k.1))

-- A pointer stored at the end, and one package more.
pub one_more :
    {n : ℕ} {c : Cache} (i v : ℕ)
    → Holds n c
    → n ≤ 4
    → i ≤ 4
    → 0 < v
    → Returns (Holds (suc n)) (
        store c.handles i v >>= λ hs.
        take_next (record c { handles = hs; network_buffer_num = u8 (c.network_buffer_num + 1) }))
one_more {n} {c} i v k l m p =
    Returns-bind AreSet (Holds (suc n)) (store c.handles i v) _
      (store-AreSet k.0.set i v (omega arith) p)
      (λ hs s.
        take_next-Holds (record { set = s; node_set = k.0.node_set }, omega arith) (omega arith))
