-- ===== src/Reorder.antt =====
-- The cache that sorts the audio packages in
-- 1.0.x/ProdExplUnits/sourcecode/network/udp_recv_fun.cxx: its second version, which UdpRecvFun uses,
-- together with CacheCreate, ForceClearDataCache and ForcePushDataCacheToBuffer. Prints, the log and
-- the trace in `network_flag` are left out.
pub mod Entries
pub mod Arrival
pub mod Bounds
pub mod Append
pub mod Safe
mod Tests
use mitcbcu.Common.{
  ℕ, zero, suc, ◌+◌, ◌-◌, Bool, true, false, ◌&&◌, ◌||◌, ltb, leb, ◌==◌, if◌then◌else◌, List, [],
  ◌∷◌, ◌++◌, Option, none, some, get_elem?, ℤ, pos, negsuc, u32, u8, update, ◌>>=◌, store,
}
use mitcbcu.CharBuffer
use mitcbcu.CharBuffer.{CharBuffer}

-- SIZE_LEN.
abbrev pub size_len : ℕ
size_len = 1024

-- `data_package_node_t`, less the fields that are not read. The `int` fields are 32-bit patterns;
-- `data_buffer` is an array of SIZE_LEN bytes, and `behind` what is in the memory after it.
pub record Package : Type 0 where
  pub package_counter : ℕ
  pub send_len : ℕ
  pub data_buffer : ℕ → ℕ
  pub behind : ℕ → ℕ

-- `buffer_pointer_t`, the globals of the file and the buffer behind `buffer_rw_id`. A pointer to a
-- node is a number, 0 is NULL; `handles` is ArrayToHandle with its 8 entries.
pub record Cache : Type 0 where
  pub handles : List ℕ
  pub p_to_data : ℕ
  pub nodes : ℕ → Package
  pub network_buffer_num : ℕ  -- char
  pub desired_value : ℕ
  pub push_value : ℕ
  pub clean_force_len : Bool
  pub app : CharBuffer
  pub byte_into_buffer : ℕ
  pub buffer_over_times : ℕ

abbrev pub cache_pack_num : ℕ
cache_pack_num = 6

-- MAX_SORT_NUFFER_NUM, and its multiples by 3 and by 4.
abbrev pub max_sort_nuffer_num : ℕ
max_sort_nuffer_num = 3

abbrev pub max_sort_nuffer_num_3 : ℕ
max_sort_nuffer_num_3 = 9

abbrev pub max_sort_nuffer_num_4 : ℕ
max_sort_nuffer_num_4 = 12

abbrev pub max_pre_arrive_num : ℕ
max_pre_arrive_num = 12

-- `a < b` of two `int` patterns.
abbrev pub slt : ℕ → ℕ → Bool
slt a b = ltb (u32 (a + 2147483648)) (u32 (b + 2147483648))

-- The first bytes of a memory.
abbrev pub bytes : (ℕ → ℕ) → ℕ → List ℕ
bytes f zero = []
bytes f (suc n) = f 0 ∷ bytes (λ i. f (suc i)) n

-- The memory from `data_buffer` on.
abbrev pub data_memory : Package → ℕ → ℕ
data_memory p i = if ltb i size_len then p.data_buffer i else p.behind (i - size_len)

-- What is copied of a package: `send_len` is not checked, so that these may be bytes behind its array.
abbrev pub audio : Package → List ℕ
audio p = bytes (data_memory p) p.send_len

-- The node behind a pointer, and behind an entry of the array.
abbrev pub node : Cache → ℕ → Option Package
node c h = if h == 0 then none else some (c.nodes h)

abbrev pub node_at : Cache → ℕ → Option Package
node_at c i = do h ← get_elem? c.handles i; node c h

-- The entry before an index; the one before 0 is outside of the array.
abbrev pub node_before : Cache → ℕ → Option Package
node_before c zero = none
node_before c (suc i) = node_at c i

-- ArraySort: its loop, and the first entry behind the others.
abbrev pub shift_loop : ℕ → ℕ → List ℕ → Option (List ℕ)
shift_loop zero loop_arry hs = some hs
shift_loop (suc n) loop_arry hs = do
  h ← get_elem? hs (loop_arry + 1)
  shifted ← store hs loop_arry h
  shift_loop n (loop_arry + 1) shifted

unfoldable pub array_sort : List ℕ → Option (List ℕ)
array_sort hs = do
  p_transform ← get_elem? hs 0
  shifted ← shift_loop cache_pack_num 0 hs
  store shifted 5 p_transform

-- PushToBuffer2, which PushToBuffer is too: what CharBufferWrite returned is counted.
abbrev pub counted : Cache → CharBuffer × ℤ → Cache
counted c (b, pos n) = record c { app = b; byte_into_buffer = u32 (c.byte_into_buffer + n) }
counted c (b, negsuc _) = record c { app = b; buffer_over_times = u32 (c.buffer_over_times + 1) }

unfoldable pub push_to_buffer2 : Cache → List ℕ → Cache
push_to_buffer2 c src = counted c (CharBuffer.write c.app src)

-- PushToDataBuffer2: the numbers that it sets, and the copy.
abbrev pub numbered : Cache → Package → Cache
numbered c p = record c {
  push_value = p.package_counter;
  desired_value =
      if leb c.desired_value p.package_counter
      then u32 (p.package_counter + 1)
      else c.desired_value;
}

unfoldable pub push_to_data_buffer2 : Cache → Package → Cache
push_to_data_buffer2 c p = push_to_buffer2 (numbered c p) (audio p)

-- WriteTobuffer2.
unfoldable pub write_to_buffer2 : Cache → Option Cache
write_to_buffer2 c = do
  p ← node_at c 0
  let pushed = push_to_data_buffer2 c p
  sorted ← array_sort pushed.handles
  some (record pushed {
    handles = sorted;
    network_buffer_num = u8 (pushed.network_buffer_num + 255);
  })

-- CopyToAppBuffer2: its loop, on fuel.
abbrev pub copy_loop : ℕ → Cache → Option Cache
copy_loop zero c = none
copy_loop (suc fuel) c =
    if ltb 0 c.network_buffer_num
    then (do
      written ← write_to_buffer2 c
      first ← node_at written 0
      let rest = copy_loop fuel written
      if first.package_counter == u32 (written.push_value + 1) then rest else some written)
    else some c

unfoldable pub copy_to_app_buffer2 : Cache → Option Cache
copy_to_app_buffer2 c = copy_loop (c.network_buffer_num + 1) c

-- The pointer to receive the next package into.
abbrev pub take_next : Cache → Option Cache
take_next c = do h ← get_elem? c.handles c.network_buffer_num; some (record c { p_to_data = h })

-- AddPakageToCache2.
unfoldable pub add_pakage_to_cache2 : Cache → Option Cache
add_pakage_to_cache2 c = do
  p ← node c c.p_to_data
  if leb p.package_counter c.push_value && (if c.network_buffer_num == 0 then false else true)
      then some c
      else do
        hs ← store c.handles c.network_buffer_num c.p_to_data
        take_next (record c { handles = hs; network_buffer_num = u8 (c.network_buffer_num + 1) })

-- ArrayMoveSort2: its loop over `local_var`.
abbrev pub move_loop : ℕ → Cache → Option Cache
move_loop zero c = none
move_loop (suc i) c = do
  p ← node c c.p_to_data
  before ← node_at c i
  if slt before.package_counter p.package_counter
      then (do
        h ← get_elem? c.handles i
        hs ← store c.handles (suc i) h
        move_loop i (record c { handles = hs }))
      else do hs ← store c.handles (suc i) c.p_to_data; some (record c { handles = hs })

unfoldable pub array_move_sort2 : Cache → Option Cache
array_move_sort2 c = move_loop c.network_buffer_num c

-- AddAndSortFun2. Its test for an entry that is NULL comes after an access through that entry.
unfoldable pub add_and_sort_fun2 : Cache → Option Cache
add_and_sort_fun2 c = do
  p ← node c c.p_to_data
  last ← node_before c c.network_buffer_num
  if p.package_counter == u32 (last.package_counter + 1)
      then add_pakage_to_cache2 c
      else if slt p.package_counter (u32 (last.package_counter + max_sort_nuffer_num_3))
          && slt last.package_counter p.package_counter
      then add_pakage_to_cache2 c
      else if slt p.package_counter last.package_counter
          && (leb c.desired_value p.package_counter || slt p.package_counter max_sort_nuffer_num_4)
      then (do
        moved ← array_move_sort2 c
        take_next (record moved { network_buffer_num = u8 (moved.network_buffer_num + 1) }))
      else some c

-- The two tests behind AddAndSortFun2 in SortAlgorithm2.
abbrev pub copy_expected : Cache → Option Cache
copy_expected c = do
  first ← node_at c 0
  if c.desired_value == first.package_counter then copy_to_app_buffer2 c else some c

abbrev pub copy_crowded : Cache → Option Cache
copy_crowded c =
    if ltb max_sort_nuffer_num c.network_buffer_num then copy_to_app_buffer2 c else some c

-- SortAlgorithm2.
unfoldable pub sort_algorithm2 : Cache → Option Cache
sort_algorithm2 c = do
  p ← node c c.p_to_data
  if c.network_buffer_num == 0
      then some (push_to_data_buffer2 c p)
      else if leb p.package_counter c.push_value
          || ltb (u32 (c.desired_value + max_pre_arrive_num)) p.package_counter
      then copy_to_app_buffer2 c
      else do added ← add_and_sort_fun2 c; copied ← copy_expected added; copy_crowded copied

-- The loop of DataRecvAndHandle2 that looks for a NULL.
abbrev pub has_null : ℕ → ℕ → List ℕ → Option Bool
has_null zero loop_ye hs = some false
has_null (suc n) loop_ye hs = do
  h ← get_elem? hs loop_ye
  if h == 0 then some true else has_null n (loop_ye + 1) hs

-- DataRecvAndHandle2. What recvfrom leaves in the node, also where the datagram is shorter than it, is
-- the second argument; recvfrom fails with `none`.
unfoldable pub data_recv_and_handle2 : Cache → ℤ → Option Package → Option (Cache × ℤ)
data_recv_and_handle2 c (negsuc _) received = some (c, negsuc 0)
data_recv_and_handle2 c (pos sockfd) none = some (c, negsuc 0)
data_recv_and_handle2 c (pos sockfd) (some p) = if c.p_to_data == 0 then some (c, negsuc 0) else do
  null ← has_null cache_pack_num 0 c.handles
  if null then some (c, negsuc 0) else do
    sorted ← sort_algorithm2 (record c { nodes = update c.nodes c.p_to_data p })
    some (sorted, pos 0)

-- CacheCreate with the memory at `head`, and the globals as the program starts with them.
abbrev pub addresses : ℕ → ℕ → List ℕ
addresses zero head = []
addresses (suc n) head = head ∷ addresses n (head + 1)

unfoldable pub cache_create : ℕ → (ℕ → Package) → CharBuffer → Cache
cache_create head old app = record {
  handles = addresses cache_pack_num head ++ (0 ∷ 0 ∷ []);
  p_to_data = head;
  nodes = old;
  network_buffer_num = 0;
  desired_value = 0;
  push_value = 0;
  clean_force_len = false;
  app = app;
  byte_into_buffer = 0;
  buffer_over_times = 0;
}

-- ForceClearDataCache.
unfoldable pub force_clear_data_cache : Cache → Option Cache
force_clear_data_cache c = do
  first ← get_elem? c.handles 0
  some (record c { p_to_data = first; clean_force_len = true })

-- ForcePushDataCacheToBuffer: its loop over `ret_ye`.
abbrev pub force_loop : ℕ → ℕ → Cache → Option Cache
force_loop zero ret_ye c = some c
force_loop (suc n) ret_ye c = do
  h ← get_elem? c.handles ret_ye
  if c.p_to_data == h
      then force_clear_data_cache c
      else do p ← node c h; force_loop n (ret_ye + 1) (push_to_buffer2 c (audio p))

unfoldable pub force_push_data_cache_to_buffer : Cache → Option Cache
force_push_data_cache_to_buffer c = force_loop cache_pack_num 0 c
