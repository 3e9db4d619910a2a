-- ===== src/CharBuffer.antt =====
-- The byte buffers of 1.0.x/ProdExplUnits/sourcecode/buffer_read_write_fun.cxx, at the level of one
-- `char_buffer_t`: each function as it runs once CharBufferIsValid has accepted the handle. The
-- memory between pb_head and pb_tail belongs to the buffer alone, since it comes from its own
-- malloc; `CharPool` adds the handles.
pub mod View
pub mod Write
pub mod Read
pub mod Space
pub mod Pointer
pub mod BackWrite
mod Tests
use mitcbcu.Common.{
  ℕ, zero, suc, ◌+◌, ◌-◌, List, [], ◌∷◌, Bool, true, false, ltb, leb, ◌==◌, if◌then◌else◌, ℤ, pos,
  negsuc, update, u8, u32, sub_u32, to_int,
}

-- `char_buffer_t`, with the bytes that its addresses hold.
pub record CharBuffer : Type 0 where
  pub pb_head : ℕ
  pub pb_tail : ℕ
  pub pb_writeto : ℕ
  pub pb_readfrom : ℕ
  pub buffer_size : ℕ
  pub clear_count : ℕ  -- unsigned char
  pub mem : ℕ → ℕ

abbrev pub err_buffer_full : ℤ
err_buffer_full = negsuc 0

abbrev pub err_buffer_empty : ℤ
err_buffer_empty = negsuc 1

abbrev pub err_buffer_pointer_error : ℤ
err_buffer_pointer_error = negsuc 2

-- `if( p >= pbuffer->pb_tail ) p = pbuffer->pb_head;`
abbrev pub wrap : CharBuffer → ℕ → ℕ
wrap b p = if leb b.pb_tail p then b.pb_head else p

-- `pwriteto_test`: where the write pointer would go next.
abbrev pub writeto_test : CharBuffer → ℕ
writeto_test b = wrap b (b.pb_writeto + 1)

-- One round of the loop of CharBufferWrite that stores a byte.
pub put : CharBuffer → ℕ → CharBuffer
put b x = record b { mem = update b.mem b.pb_writeto x; pb_writeto = wrap b (b.pb_writeto + 1) }

-- The loop of CharBufferWrite over the source bytes left, with `copy_bytes` and `xreturn`.
pub write_loop : CharBuffer → List ℕ → ℕ → ℤ → CharBuffer × ℤ
unfolding put
write_loop b [] copy_bytes xreturn = (b, xreturn)
write_loop b (x ∷ xs) copy_bytes xreturn =
    let rest = write_loop (put b x) xs (copy_bytes + 1) (pos (copy_bytes + 1)) in
    if writeto_test b == b.pb_readfrom
    then (b, if copy_bytes == 0 then err_buffer_full else xreturn)
    else rest

-- CharBufferWrite.
pub write : CharBuffer → List ℕ → CharBuffer × ℤ
unfolding write_loop
write b src = write_loop b src 0 (pos 0)

-- One round of the loop of CharBufferRead that takes a byte.
pub skip : CharBuffer → CharBuffer
skip b = record b { pb_readfrom = wrap b (b.pb_readfrom + 1) }

-- `*dest_ptr = *(pbuffer->pb_readfrom)`, in front of what the later rounds deliver.
abbrev pub deliver : ℕ → CharBuffer × List ℕ × ℤ → CharBuffer × List ℕ × ℤ
deliver x (b, out, ret) = (b, x ∷ out, ret)

-- The loop of CharBufferRead. The first number is what is left of `dest_buffer_size`, the list
-- what goes to `dest_ptr` from here on.
pub read_loop : CharBuffer → ℕ → ℕ → ℤ → CharBuffer × List ℕ × ℤ
unfolding skip
read_loop b zero copy_bytes xreturn =
    if b.pb_writeto == b.pb_readfrom
    then (b, [], if copy_bytes == 0 then err_buffer_empty else xreturn)
    else (b, [], xreturn)
read_loop b (suc room) copy_bytes xreturn =
    let rest =
      deliver (b.mem b.pb_readfrom)
        (read_loop (skip b) room (copy_bytes + 1) (pos (copy_bytes + 1))) in
    if b.pb_writeto == b.pb_readfrom
    then (b, [], if copy_bytes == 0 then err_buffer_empty else xreturn)
    else rest

-- CharBufferRead.
pub read : CharBuffer → ℕ → CharBuffer × List ℕ × ℤ
unfolding read_loop
read b dest_buffer_size = read_loop b dest_buffer_size 0 (pos 0)

-- The free bytes as CharBufferIsFull and CharBufferCurrentBytes compute them, where not full.
abbrev pub free_bytes : CharBuffer → ℕ
free_bytes b =
    if leb b.pb_readfrom b.pb_writeto
    then sub_u32 (sub_u32 b.buffer_size (b.pb_writeto - b.pb_readfrom)) 1
    else b.pb_readfrom - b.pb_writeto - 1

-- CharBufferIsFull.
pub is_full : CharBuffer → ℤ
is_full b = if writeto_test b == b.pb_readfrom then err_buffer_full else to_int (free_bytes b)

-- CharBufferCurrentBytes.
pub current_bytes : CharBuffer → ℤ
current_bytes b =
    if writeto_test b == b.pb_readfrom
    then err_buffer_full
    else to_int (sub_u32 b.buffer_size (free_bytes b))

-- CharBufferCurrentReadPointer: the pointer, `*pcurrent_total_bytes` and `*pcurrent_right_delta`.
pub current_read_pointer : CharBuffer → ℕ × ℕ × ℕ
current_read_pointer b =
    if leb b.pb_readfrom b.pb_writeto
    then (b.pb_readfrom, b.pb_writeto - b.pb_readfrom, b.pb_writeto - b.pb_readfrom)
    else (
      b.pb_readfrom,
      b.pb_tail - b.pb_readfrom + (b.pb_writeto - b.pb_head),
      b.pb_tail - b.pb_readfrom,
    )

-- The new pb_readfrom of CharBufferUpdateCurrentReadPointer.
pub advance_read : CharBuffer → ℕ → ℕ → ℕ
advance_read b origin_len left_len =
    let tmp_rd = u32 (b.pb_readfrom + sub_u32 origin_len left_len) in
    let delta_2 = b.pb_writeto - b.pb_head in
    let delta_3 = sub_u32 (sub_u32 origin_len left_len) (b.pb_tail - b.pb_readfrom) in
    if b.pb_readfrom == b.pb_writeto
    then b.pb_readfrom
    else if ltb b.pb_readfrom b.pb_writeto
    then (if leb b.pb_writeto tmp_rd then b.pb_writeto else tmp_rd)
    else if leb b.pb_tail tmp_rd
    then (if leb delta_2 delta_3 then b.pb_head + delta_2 else b.pb_head + delta_3)
    else tmp_rd

-- CharBufferUpdateCurrentReadPointer.
pub update_current_read_pointer : CharBuffer → ℕ → ℕ → CharBuffer
unfolding advance_read
update_current_read_pointer b origin_len left_len = record b {
  pb_readfrom = advance_read b origin_len left_len;
}

-- CharBufferUpdateCurrentReadPointer2, which puts the pointers back if the buffer was cleared
-- since the caller read `last_clear_flag`.
pub update_current_read_pointer2 : CharBuffer → ℕ → ℕ → ℕ → CharBuffer
unfolding advance_read
update_current_read_pointer2 b origin_len left_len last_clear_flag =
    let moved = record b { pb_readfrom = advance_read b origin_len left_len } in
    if b.pb_readfrom == b.pb_writeto
    then b
    else if last_clear_flag == b.clear_count
    then moved
    else record moved { pb_readfrom = b.pb_readfrom; pb_writeto = b.pb_writeto }

-- SingleThreadCharBufferBackWrite, whose result is 0 on every branch. A negative `back_len`, which is
-- an `int`, passes the first test of both branches, and subtracting it moves pb_readfrom forward.
pub back_write : CharBuffer → ℤ → CharBuffer
back_write b (negsuc n) = record b { pb_readfrom = u32 (b.pb_readfrom + (n + 1)) }
back_write b (pos back_len) =
    let before = b.pb_readfrom - b.pb_head in
    if leb b.pb_readfrom b.pb_writeto
    then (if leb back_len before
        then record b { pb_readfrom = b.pb_readfrom - back_len }
        else if leb back_len (before + (b.pb_tail - b.pb_writeto - 1))
        then record b { pb_readfrom = b.pb_tail - (back_len - before) }
        else b)
    else if leb back_len (b.pb_readfrom - b.pb_writeto - 1)
    then record b { pb_readfrom = b.pb_readfrom - back_len }
    else b

-- CharBufferClear.
pub clear : CharBuffer → CharBuffer
clear b = record b {
  pb_writeto = b.pb_head;
  pb_readfrom = b.pb_head;
  clear_count = u8 (b.clear_count + 1);
}

-- CharBufferBrush.
pub brush : CharBuffer → CharBuffer
brush b = record b { pb_readfrom = b.pb_head }
