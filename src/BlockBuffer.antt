-- ===== src/BlockBuffer.antt =====
-- The block buffers of 1.0.x/ProdExplUnits/sourcecode/buffer_read_write_fun.cxx, at the level of one
-- `block_buffer_t` and without CONFIG_BUFFER_MUTEX_LOCK, which the header leaves undefined: each
-- function as it runs once BlockBufferIsValid has accepted the handle. pb_readfrom is the block that
-- was read last. Every pointer stays on the start of a block, so the memory is read as a function
-- from such an address to the block there. A pointer moves within its memory, so that adding to it does
-- not wrap; products of sizes are computed in `unsigned int`, and do.
pub mod View
pub mod Scan
pub mod Queue
use mitcbcu.Common.{
  ℕ, zero, suc, ◌+◌, ◌-◌, ◌*◌, List, [], ◌∷◌, ◌++◌, Bool, true, false, ◌&&◌, ◌||◌, not, ltb, leb,
  ◌==◌, if◌then◌else◌, ℤ, pos, negsuc, update, u32, sub_u32, length, take, drop, Option, none, some,
}

-- The 4 bytes of the length, and the bytes behind them.
pub record Block : Type 0 where
  pub len : ℕ
  pub bytes : List ℕ

-- `block_buffer_t`.
pub record BlockBuffer : Type 0 where
  pub pb_head : ℕ
  pub pb_tail : ℕ
  pub pb_writeto : ℕ
  pub pb_readfrom : ℕ
  pub items_waiting : ℕ
  pub total_items : ℕ
  pub item_size : ℕ
  pub mem : ℕ → Block

abbrev pub err_buffer_full : ℤ
err_buffer_full = negsuc 0

abbrev pub err_buffer_empty : ℤ
err_buffer_empty = negsuc 1

abbrev pub err_buffer_pointer_error : ℤ
err_buffer_pointer_error = negsuc 2

abbrev pub err_buffer_rw_busy : ℤ
err_buffer_rw_busy = negsuc 3

-- A pointer moved on by one block.
abbrev pub forward : BlockBuffer → ℕ → ℕ
forward b p = if leb b.pb_tail (p + b.item_size) then b.pb_head else p + b.item_size

-- The search of BlockBufferPtrIsValid for a pointer among the block starts from `tmp_pos` on, with
-- the rounds left and `i`: `some true` if it is found, `some false` if not, `none` for the early
-- return at `loop_max`.
pub find_position : ℕ → ℕ → ℕ → ℕ → ℕ → Option Bool
find_position zero item_size target tmp_pos i = some false
find_position (suc rounds) item_size target tmp_pos i =
    let rest = find_position rounds item_size target (tmp_pos + item_size) (i + 1) in
    if target == tmp_pos then some true else if leb 256 i then none else rest

abbrev pub found : Option Bool → Bool
found none = false
found (some b) = b

-- BlockBufferPtrIsValid, as a truth value for the result 0.
pub ptr_is_valid : BlockBuffer → Bool
unfolding find_position
ptr_is_valid b =
    (leb b.pb_head b.pb_readfrom && leb b.pb_readfrom b.pb_tail)
    && ((leb b.pb_head b.pb_writeto && leb b.pb_writeto b.pb_tail)
        && (found (find_position b.total_items b.item_size b.pb_readfrom b.pb_head 0)
            && found (find_position b.total_items b.item_size b.pb_writeto b.pb_head 0)))

-- The loop of BlockBufferWrite and BlockBufferRead that counts the blocks waiting, with the rounds
-- left, `tmp_readfrom`, `i` and `items_waiting`; `none` stands for `i == total_items` behind the loop.
pub scan : BlockBuffer → ℕ → ℕ → ℕ → ℕ → Option ℕ
scan b zero tmp_readfrom i items_waiting = none
scan b (suc rounds) tmp_readfrom i items_waiting =
    let rest = scan b rounds (forward b tmp_readfrom) (i + 1) (items_waiting + 1) in
    if forward b tmp_readfrom == b.pb_writeto
    then some items_waiting
    else if leb 255 i
    then none
    else rest

-- The number of blocks waiting as these two functions find it; with one block they do not look.
abbrev pub waiting : BlockBuffer → Option ℕ
waiting b = if b.total_items == 1 then some 0 else scan b b.total_items b.pb_readfrom 0 0

-- prvCopyQueueData.
pub copy_queue_data : BlockBuffer → List ℕ → BlockBuffer × ℕ
copy_queue_data b src =
    let min_len = if leb (length src) (b.item_size - 4) then length src else b.item_size - 4 in
    let old = (b.mem b.pb_writeto).bytes in
    (
      record b {
        mem =
            update b.mem b.pb_writeto
              (record { len = min_len; bytes = take min_len src ++ drop min_len old });
        items_waiting = u32 (b.items_waiting + 1);
        pb_writeto = forward b b.pb_writeto;
      },
      min_len,
    )

-- BlockBufferWrite.
pub write : BlockBuffer → List ℕ → BlockBuffer × ℤ
write b src =
    let (b', n) = copy_queue_data b src in
    if ptr_is_valid b
    then elim (waiting b) [
      | none ↦ (b, err_buffer_rw_busy)
      | some items_waiting ↦
          if b.total_items == 1
          then (b', pos n)
          else if ltb items_waiting (b.total_items - 1)
          then (b', pos n)
          else (b, err_buffer_full)
    ]
    else (b, err_buffer_rw_busy)

-- The branch of BlockBufferRead that takes the next block.
pub take_block : BlockBuffer → ℕ → BlockBuffer × List ℕ × ℤ
take_block b dest =
    let block = b.mem (forward b b.pb_readfrom) in
    let min_len = if leb dest block.len then dest else block.len in
    (
      record b { pb_readfrom = forward b b.pb_readfrom; items_waiting = sub_u32 b.items_waiting 1 },
      take min_len block.bytes,
      pos min_len,
    )

-- BlockBufferRead into a destination of a size: the buffer, the bytes copied, and the result.
pub read : BlockBuffer → ℕ → BlockBuffer × List ℕ × ℤ
read b dest =
    if ptr_is_valid b
    then elim (waiting b) [
      | none ↦ (b, [], err_buffer_rw_busy)
      | some items_waiting ↦
          if ltb 0 items_waiting then take_block b dest else (b, [], err_buffer_empty)
    ]
    else (b, [], err_buffer_rw_busy)

-- BlockBufferClear.
pub clear : BlockBuffer → BlockBuffer
clear b = record b {
  items_waiting = 0;
  pb_writeto = b.pb_head;
  pb_readfrom = b.pb_head + u32 ((b.total_items - 1) * b.item_size);
}

-- The endless loop of BlockBufferFull, BlockBufferCnt and BlockBufferEmpty, on fuel; `none` means
-- that the fuel ran out.
pub count_loop : BlockBuffer → ℕ → ℕ → ℕ → Option ℕ
count_loop b zero tmp_readfrom items_waiting = none
count_loop b (suc fuel) tmp_readfrom items_waiting =
    let rest = count_loop b fuel (forward b tmp_readfrom) (items_waiting + 1) in
    if forward b tmp_readfrom == b.pb_writeto then some items_waiting else rest

abbrev pub counted : BlockBuffer → Option ℕ
counted b = if b.total_items == 1 then some 0 else count_loop b b.total_items b.pb_readfrom 0

abbrev pub map_count : (ℕ → ℤ) → Option ℕ → Option ℤ
map_count f none = none
map_count f (some n) = some (f n)

-- BlockBufferCnt.
pub cnt : BlockBuffer → Option ℤ
unfolding count_loop
cnt b = map_count pos (counted b)

-- BlockBufferFull.
pub full : BlockBuffer → Option ℤ
unfolding count_loop
full b = map_count (λ n. if n == b.total_items then pos 1 else pos 0) (counted b)

-- BlockBufferEmpty.
pub empty : BlockBuffer → Option ℤ
unfolding count_loop
empty b = map_count (λ n. if n == 0 then pos 1 else pos 0) (counted b)

-- The structure over `n` blocks of a size, as BlockBufferCreate fills it in.
abbrev pub filled : ℕ → ℕ → ℕ → (ℕ → Block) → BlockBuffer
filled start n size old = record {
  pb_head = start;
  pb_tail = start + u32 (n * size);
  pb_writeto = start;
  pb_readfrom = start + u32 ((n - 1) * size);
  items_waiting = 0;
  total_items = n;
  item_size = size;
  mem = old;
}

-- The structure that BlockBufferCreate fills in at a block of memory, for a number of items that is
-- not 0: without a lock one block is made two, and each has 4 bytes more for the length.
pub fresh_buffer : ℕ → ℕ → ℕ → (ℕ → Block) → BlockBuffer
fresh_buffer start total_items item_size old =
    filled start (if total_items == 1 then 2 else total_items) (u32 (item_size + 4)) old

-- `buffer_size_bytes`: the bytes that BlockBufferCreate asks malloc for, in `unsigned int`.
unfoldable pub buffer_size_bytes : ℕ → ℕ → ℕ
buffer_size_bytes total_items item_size =
    u32 (u32 ((if total_items == 1 then 2 else total_items) * u32 (item_size + 4)) + 1)
