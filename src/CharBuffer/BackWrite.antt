-- ===== src/CharBuffer/BackWrite.antt =====
-- SingleThreadCharBufferBackWrite.
-- CharBufferUpdateCurrentReadPointer and its second version, SingleThreadCharBufferBackWrite,
-- CharBufferClear and CharBufferBrush.
use mitcbcu.Common.{
  ℕ, ◌+◌, ◌-◌, ◌<◌, ◌≤◌, ◌≡◌, ap, sym, arith, length, length-take, length-drop, drop, if◌then◌else◌,
  min, ◌∙◌, leb, pos,
}
use mitcbcu.Ring.{distance}
use mitcbcu.CharBuffer.{CharBuffer, read, back_write}
use mitcbcu.CharBuffer.View.{IsValid, contents, used, room, wr, length-contents, used-lt}
use mitcbcu.CharBuffer.Read.{read_lem, Reading}
use mitcbcu.CharBuffer.Pointer.{Behind, contents-Behind, at_read, at_read-IsValid}

-- Where SingleThreadCharBufferBackWrite puts the read position, if there is room.
back_position : CharBuffer → ℕ → ℕ
back_position b k =
    if leb k (b.pb_readfrom - b.pb_head)
    then b.pb_readfrom - k
    else b.pb_tail - (k - (b.pb_readfrom - b.pb_head))

back_write-at_read :
    {b : CharBuffer} (k : ℕ)
    → IsValid b
    → k ≤ room b
    → back_write b (pos k) ≡ at_read b (back_position b k)
unfolding back_write back_position
back_write-at_read {b} k v h = ground arith

back_position_range :
    {b : CharBuffer} (k : ℕ)
    → IsValid b
    → k ≤ room b
    → (b.pb_head ≤ back_position b k) × (back_position b k < b.pb_tail)
unfolding back_position
back_position_range {b} k v h = ground arith

back_position_used :
    {b : CharBuffer} (k : ℕ)
    → IsValid b
    → k ≤ room b
    → distance b.buffer_size (back_position b k - b.pb_head) (wr b) ≡ used b + k
unfolding back_position
back_position_used {b} k v h = ground arith

-- SingleThreadCharBufferBackWrite of no more bytes than CharBufferRead has just delivered makes the
-- last of them wait again: the buffer holds what it held before, less the bytes that stay read.
pub back_write-read :
    {b : CharBuffer} (dest back_len : ℕ)
    → IsValid b
    → let (b1, out, _) = read b dest in
      back_len ≤ length out
      → (contents (back_write b1 (pos back_len)) ≡ drop (length out - back_len) (contents b))
        × IsValid (back_write b1 (pos back_len))
back_write-read {b} dest k v h = rw (back_write-at_read k v1 fits) (
  contents-Behind b b2 v v2 behind
      ∙ ap (λ j. drop j (contents b)) (omega (arith, out_len, left, back)),
  v2,
)
  where
    b1 : CharBuffer
    b1 = (read b dest).0

    b2 : CharBuffer
    b2 = at_read b1 (back_position b1 k)

    done : let (b', out, ret) = read b dest in Reading b dest b' out ret
    done = read_lem dest v

    v1 : IsValid b1
    v1 = done.3

    out_len : length (read b dest).1 ≡ min dest (used b)
    out_len = ap length done.1 ∙ length-take dest (contents b) ∙ ap (min dest) (length-contents b)

    left : used b1 ≡ used b - dest
    left =
        sym (length-contents b1)
        ∙ ap length done.0
        ∙ length-drop dest (contents b)
        ∙ ap (λ u. u - dest) (length-contents b)

    fits : k ≤ room b1
    fits = omega (arith, left, out_len, used-lt v, done.7)

    v2 : IsValid b2
    v2 =
        at_read-IsValid (back_position b1 k) v1 (back_position_range k v1 fits).0
          (back_position_range k v1 fits).1

    back : used b2 ≡ used b1 + k
    back = back_position_used k v1 fits

    behind : Behind b b2
    behind = record {
      same_mem = done.4;
      same_head = done.6;
      same_size = done.7;
      same_write = done.5;
      fewer = omega (arith, back, left, out_len);
    }

-- SingleThreadCharBufferBackWrite keeps a buffer valid for any number of bytes that is not negative.
pub back_write-IsValid : {b : CharBuffer} (k : ℕ) → IsValid b → IsValid (back_write b (pos k))
unfolding back_write
back_write-IsValid k v = ground arith
