-- ===== src/CharBuffer/Pointer.antt =====
-- The functions that move the read position of a byte buffer without copying bytes:
-- CharBufferUpdateCurrentReadPointer and its second version, CharBufferClear and CharBufferBrush.
use mathlib.Core.Path.{ap₂}
use mitcbcu.Common.{
  ℕ, ◌+◌, ◌-◌, ◌<◌, ◌≤◌, ◌≡◌, refl, ap, sym, arith, List, [], length, drop, drop_all, ◌==◌,
  if◌then◌else◌, min, dec_lt, ◌∙◌, ◌%◌,
}
use mitcbcu.Ring.{distance, segment, distance_self, distance_split}
use mitcbcu.Ring.Segment.{drop-segment}
use mitcbcu.CharBuffer.{
  CharBuffer, advance_read, update_current_read_pointer, update_current_read_pointer2, clear, brush,
}
use mitcbcu.CharBuffer.View.{IsValid, contents, used, rd, wr, cell, length-contents}

advance_read_range :
    (b : CharBuffer) (origin_len left_len : ℕ)
    → IsValid b
    → left_len ≤ origin_len
    → b.pb_readfrom + (origin_len - left_len) < 4294967296
    → (b.pb_head ≤ advance_read b origin_len left_len)
      × (advance_read b origin_len left_len < b.pb_tail)
unfolding advance_read
advance_read_range b o l v h k = ground arith

distance-advance_read :
    (b : CharBuffer) (origin_len left_len : ℕ)
    → IsValid b
    → left_len ≤ origin_len
    → b.pb_readfrom + (origin_len - left_len) < 4294967296
    → distance b.buffer_size (rd b) (advance_read b origin_len left_len - b.pb_head)
      ≡ min (origin_len - left_len) (used b)
unfolding advance_read
distance-advance_read b o l v h k = ground arith

-- The buffer `b'` shares all with `b` but the read position, which is further on.
pub record Behind (b b' : CharBuffer) : Type 0 where
  pub same_mem : b'.mem ≡ b.mem
  pub same_head : b'.pb_head ≡ b.pb_head
  pub same_size : b'.buffer_size ≡ b.buffer_size
  pub same_write : b'.pb_writeto ≡ b.pb_writeto
  pub fewer : used b' ≤ used b

pub contents-Behind :
    (b b' : CharBuffer)
    → IsValid b
    → IsValid b'
    → Behind b b'
    → contents b' ≡ drop (used b - used b') (contents b)
contents-Behind b b' v v' s =
    same
    ∙ sym (
        drop-segment (cell b) b.buffer_size (wr b) (rd b') (used b - used b') (rd b) (used b)
          (omega arith) (omega arith) (omega arith) (ground arith) refl (omega arith))
  where
    same_cell : cell b' ≡ cell b
    same_cell = ap₂ (λ m h i. m (h + i)) s.same_mem s.same_head

    same :
        contents b' ≡ segment (cell b) b.buffer_size (rd b') (distance b.buffer_size (rd b') (wr b))
    same = λ i.
        segment (same_cell i) (s.same_size i) (rd b')
          (distance (s.same_size i) (rd b') (s.same_write i - s.same_head i))

pub drop-min : (d : ℕ) (l : List ℕ) → drop (min d (length l)) l ≡ drop d l
drop-min d l = elim (dec_lt d (length l)) [
  | yes h ↦ ap (λ k. drop k l) (omega arith)
  | no h ↦ drop_all (min d (length l)) l (omega arith) ∙ sym (drop_all d l (omega arith))
]

-- The read position moved to an address of the buffer.
abbrev pub at_read : CharBuffer → ℕ → CharBuffer
at_read b p = record b { pb_readfrom = p }

pub at_read-IsValid :
    {b : CharBuffer} (p : ℕ) → IsValid b → b.pb_head ≤ p → p < b.pb_tail → IsValid (at_read b p)
at_read-IsValid p v lo hi = ground arith

-- CharBufferUpdateCurrentReadPointer on a valid buffer discards the first `origin_len - left_len`
-- bytes that wait, and all of them if there are fewer, provided that `left_len` is not greater than
-- `origin_len` and the sum with the read address does not wrap. The buffer stays valid.
pub update_current_read_pointer_lem :
    {b : CharBuffer} (origin_len left_len : ℕ)
    → IsValid b
    → left_len ≤ origin_len
    → b.pb_readfrom + (origin_len - left_len) < 4294967296
    → let b' = update_current_read_pointer b origin_len left_len in
      (contents b' ≡ drop (origin_len - left_len) (contents b)) × IsValid b'
unfolding update_current_read_pointer
update_current_read_pointer_lem {b} o l v h k = (
  contents-Behind b b' v v' behind
      ∙ ap (λ j. drop j (contents b)) moved
      ∙ drop-min (o - l) (contents b),
  v',
)
  where
    b' : CharBuffer
    b' = at_read b (advance_read b o l)

    v' : IsValid b'
    v' =
        at_read-IsValid (advance_read b o l) v (advance_read_range b o l v h k).0
          (advance_read_range b o l v h k).1

    used_split : distance b.buffer_size (rd b) (rd b') + used b' ≡ used b
    used_split =
        distance_split b.buffer_size (rd b) (rd b') (wr b) (omega arith)
          (omega (arith, v'.read_high)) (omega arith)
          (omega (arith, distance-advance_read b o l v h k))

    left : used b' + min (o - l) (used b) ≡ used b
    left = omega (arith, distance-advance_read b o l v h k, used_split)

    behind : Behind b b'
    behind = record {
      same_mem = refl;
      same_head = refl;
      same_size = refl;
      same_write = refl;
      fewer = omega (arith, left);
    }

    moved : used b - used b' ≡ min (o - l) (length (contents b))
    moved = omega (arith, left, length-contents b)

-- CharBufferUpdateCurrentReadPointer2 does the same as the first version if the buffer has not been
-- cleared since the caller read `last_clear_flag`, and otherwise leaves the buffer as it is.
pub update_current_read_pointer2_lem :
    (b : CharBuffer) (origin_len left_len last_clear_flag : ℕ)
    → update_current_read_pointer2 b origin_len left_len last_clear_flag ≡ (
        if last_clear_flag == b.clear_count
        then update_current_read_pointer b origin_len left_len
        else b)
unfolding update_current_read_pointer2 update_current_read_pointer advance_read
update_current_read_pointer2_lem b o l flag = ground arith

-- CharBufferClear empties a buffer, and counts the call modulo 256. The buffer stays valid.
pub clear_lem :
    {b : CharBuffer}
    → IsValid b
    → (contents (clear b) ≡ [])
      × IsValid (clear b)
      × ((clear b).clear_count ≡ (b.clear_count + 1) % 256)
unfolding clear
clear_lem {b} v = (
  ap (segment (cell b) b.buffer_size (b.pb_head - b.pb_head))
      (distance_self b.buffer_size (rd (clear b))),
  ground arith,
  refl,
)

-- CharBufferBrush makes every byte from the start of the ring to the write position wait. The
-- buffer stays valid.
pub brush_lem :
    {b : CharBuffer}
    → IsValid b
    → IsValid (brush b) × (length (contents (brush b)) ≡ b.pb_writeto - b.pb_head)
unfolding brush
brush_lem {b} v = (ground arith, length-contents (brush b) ∙ ground arith)
