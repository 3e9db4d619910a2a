-- ===== src/CharBuffer/Tests.antt =====
-- Runs of the byte buffer functions on a buffer of four cells.
use mitcbcu.Common.{◌-◌, ◌≡◌, refl, arith, [], ◌∷◌, length, drop, update, pos, negsuc}
use mitcbcu.CharBuffer.{CharBuffer, write, read, back_write, err_buffer_full}
use mitcbcu.CharBuffer.View.{IsValid, contents}
use mitcbcu.CharBuffer.Write.{write_lem}
use mitcbcu.CharBuffer.Read.{read_lem, Reading}
use mitcbcu.CharBuffer.BackWrite.{back_write-read}

-- 8, then 9, round the end of the ring.
abbrev wrapped : CharBuffer
wrapped = record {
  pb_head = 100;
  pb_tail = 104;
  pb_writeto = 101;
  pb_readfrom = 103;
  buffer_size = 4;
  clear_count = 0;
  mem = update (update (λ p. 0) 103 8) 100 9;
}

wrapped-IsValid : IsValid wrapped
wrapped-IsValid = ground arith

contents-wrapped : contents wrapped ≡ 8 ∷ 9 ∷ []
contents-wrapped = refl

write-full : (write (write wrapped (7 ∷ [])).0 (6 ∷ [])).1 ≡ err_buffer_full
unfolding write
write-full = refl

write_lem_example :
    let (b', ret) = write wrapped (5 ∷ 6 ∷ []) in
    (contents b' ≡ 8 ∷ 9 ∷ 5 ∷ [])
    × (ret ≡ pos 1)
    × IsValid b'
    × (b'.buffer_size ≡ 4)
    × (b'.pb_readfrom ≡ 103)
write_lem_example = write_lem (5 ∷ 6 ∷ []) wrapped-IsValid

read_lem_example : let (b', out, ret) = read wrapped 1 in Reading wrapped 1 b' out ret
read_lem_example = read_lem 1 wrapped-IsValid

read_two : length (read wrapped 5).1 ≡ 2
unfolding read
read_two = refl

-- A length of -1 moves the read pointer forward, past the last byte.
back_write-negative : (back_write (read wrapped 5).0 (negsuc 0)).pb_readfrom ≡ 102
unfolding back_write read
back_write-negative = refl

back_write-read_example :
    (contents (back_write (read wrapped 5).0 (pos 1))
      ≡ drop (length (read wrapped 5).1 - 1) (8 ∷ 9 ∷ []))
    × IsValid (back_write (read wrapped 5).0 (pos 1))
back_write-read_example = back_write-read 5 1 wrapped-IsValid (omega (arith, read_two))
