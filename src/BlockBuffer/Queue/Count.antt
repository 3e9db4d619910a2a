-- ===== src/BlockBuffer/Queue/Count.antt =====
-- BlockBufferCnt, BlockBufferEmpty, BlockBufferFull, BlockBufferClear and a buffer just created,
-- seen as a queue.
use mitcbcu.Common.{
  ℕ, zero, suc, ◌+◌, ◌-◌, ◌*◌, ◌<◌, ◌≤◌, ◌≡◌, refl, ap, sym, ◌∙◌, arith, [], length, pos, u32_of_lt,
  if◌then◌else◌, ◌==◌, ==-of_ne, some,
}
use mitcbcu.Ring.{next, distance, segment, distance_self}
use mitcbcu.BlockBuffer.{
  Block, BlockBuffer, cnt, full, empty, clear, fresh_buffer, buffer_size_bytes, filled, map_count,
}
use mitcbcu.BlockBuffer.View.{IsAt, slot, used, contents, length-contents, slot_mono}
use mitcbcu.BlockBuffer.Queue.{room_of}
use mitcbcu.BlockBuffer.Scan.{counted_lem, used-lt}

-- BlockBufferCnt ends on a valid buffer, and returns the number of blocks waiting.
pub cnt_lem :
    (b : BlockBuffer) (r w : ℕ) → IsAt b r w → cnt b ≡ some (pos (length (contents b r w)))
unfolding cnt
cnt_lem b r w v =
    ap (map_count pos) (counted_lem b r w v) ∙ ap (λ k. some (pos k)) (sym (length-contents b r w))

-- BlockBufferEmpty ends on a valid buffer, and returns 1 if no block is waiting and 0 if one is.
pub empty_lem :
    (b : BlockBuffer) (r w : ℕ)
    → IsAt b r w
    → empty b ≡ some (if length (contents b r w) == 0 then pos 1 else pos 0)
unfolding empty
empty_lem b r w v =
    ap (map_count (λ n. if n == 0 then pos 1 else pos 0)) (counted_lem b r w v)
    ∙ ap (λ k. some (if k == 0 then pos 1 else pos 0)) (sym (length-contents b r w))

-- BlockBufferFull ends on a valid buffer and returns 0, also when every further block is refused.
pub full_never : (b : BlockBuffer) (r w : ℕ) → IsAt b r w → full b ≡ some (pos 0)
unfolding full
full_never b r w v =
    ap (map_count (λ n. if n == b.total_items then pos 1 else pos 0)) (counted_lem b r w v)
    ∙ ap (λ t. some (if t then pos 1 else pos 0))
        (==-of_ne (used b r w) b.total_items (omega (arith, used-lt b r w v)))

-- The last index before the first one.
next_last : (n : ℕ) → 0 < n → next n (n - 1) ≡ 0
next_last n h = ground arith

clear_used :
    (b : BlockBuffer)
    → 0 < b.total_items
    → distance b.total_items (next b.total_items (b.total_items - 1)) 0 ≡ 0
clear_used b h =
    ap (λ i. distance b.total_items i 0) (next_last b.total_items h) ∙ distance_self b.total_items 0

-- BlockBufferClear leaves a valid buffer valid, with no block waiting.
pub clear_blocks_lem :
    (b : BlockBuffer) (r w : ℕ)
    → IsAt b r w
    → IsAt (clear b) (b.total_items - 1) 0 × (contents (clear b) (b.total_items - 1) 0 ≡ [])
unfolding clear slot
clear_blocks_lem b r w v = (
  record {
    two = v.two;
    at_most = v.at_most;
    header = v.header;
    below = v.below;
    tail_eq = v.tail_eq;
    read_eq =
        ap (λ o. b.pb_head + o)
          (u32_of_lt ((b.total_items - 1) * b.item_size)
            (omega (arith, v.below, slot_mono b (b.total_items - 1) b.total_items (omega arith))));
    write_eq = omega arith;
    read_in = omega (arith, v.two);
    write_in = omega (arith, v.two);
    count_eq = sym (clear_used b (omega (arith, v.two)));
  },
  ap (segment _ b.total_items _) (clear_used b (omega (arith, v.two))),
)

-- BlockBufferCreate fills in one block for one item as if two had been asked for.
fresh_buffer_IsAt :
    (start item_size n : ℕ) (old : ℕ → Block)
    → 2 ≤ n
    → n ≤ 256
    → start + n * (item_size + 4) < 4294967296
    → let b = filled start n (item_size + 4) old in IsAt b (n - 1) 0 × (contents b (n - 1) 0 ≡ [])
unfolding slot
fresh_buffer_IsAt start item_size n old h l k = (
  record {
    two = h;
    at_most = l;
    header = omega arith;
    below = k;
    tail_eq = ap (λ o. start + o) (u32_of_lt (n * (item_size + 4)) (omega arith));
    read_eq =
        ap (λ o. start + o)
          (u32_of_lt ((n - 1) * (item_size + 4)) (
            omega (arith, slot_mono (filled start n (item_size + 4) old) (n - 1) n (omega arith))));
    write_eq = omega arith;
    read_in = omega arith;
    write_in = omega arith;
    count_eq = sym (clear_used (filled start n (item_size + 4) old) (omega arith));
  },
  ap (segment _ n _) (clear_used (filled start n (item_size + 4) old) (omega arith)),
)

one_block : (n size : ℕ) → 2 ≤ n → size ≤ n * size
one_block zero size h = absurd (omega arith)
one_block (suc n) size h = grind arith

-- Where the product does not wrap, malloc is asked for the blocks and one byte more.
pub buffer_size_bytes_lem :
    (total_items item_size : ℕ)
    → 0 < total_items
    → let n = if total_items == 1 then 2 else total_items in
      n * (item_size + 4) + 1 < 4294967296
      → buffer_size_bytes total_items item_size ≡ n * (item_size + 4) + 1
unfolding buffer_size_bytes
buffer_size_bytes_lem total_items item_size h below =
    let n = if total_items == 1 then 2 else total_items in
    rw (u32_of_lt (item_size + 4) (omega (arith, one_block n (item_size + 4) (ground arith)))) (
      rw (u32_of_lt (n * (item_size + 4)) (omega arith))
        (u32_of_lt (n * (item_size + 4) + 1) below))

fresh_buffer-eq :
    (start total_items item_size : ℕ) (old : ℕ → Block)
    → 0 < total_items
    → let n = if total_items == 1 then 2 else total_items in
      start + n * (item_size + 4) < 4294967296
      → fresh_buffer start total_items item_size old ≡ filled start n (item_size + 4) old
unfolding fresh_buffer
fresh_buffer-eq start total_items item_size old h below =
    let n = if total_items == 1 then 2 else total_items in
    ap (λ size. filled start n size old)
      (u32_of_lt (item_size + 4) (omega (arith, one_block n (item_size + 4) (ground arith))))

-- For 1 to 256 items, in memory that ends below 2 ^ 32, the structure that BlockBufferCreate fills in is valid and holds no block; it
-- has one block for each item, but two if there is one item, and 4 bytes more in each for the length.
pub fresh_buffer_lem :
    (start total_items item_size : ℕ) (old : ℕ → Block)
    → 0 < total_items
    → total_items ≤ 256
    → let n = if total_items == 1 then 2 else total_items in
      start + n * (item_size + 4) < 4294967296
      → let b = fresh_buffer start total_items item_size old in
        IsAt b (b.total_items - 1) 0
        × (contents b (b.total_items - 1) 0 ≡ [])
        × (b.total_items ≡ (if total_items == 1 then 2 else total_items))
        × (room_of b ≡ item_size)
fresh_buffer_lem start total_items item_size old h l below =
    let n = if total_items == 1 then 2 else total_items in
    let k = fresh_buffer_IsAt start item_size n old (ground arith) (ground arith) below in
    rw (fresh_buffer-eq start total_items item_size old h below) (k.0, k.1, refl, omega arith)
