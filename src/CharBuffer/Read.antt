-- ===== src/CharBuffer/Read.antt =====
-- CharBufferRead: which bytes it delivers, and what it returns.
use mitcbcu.Common.{
  ℕ, zero, suc, ◌+◌, ◌≡◌, ◌≢◌, refl, ap, sym, arith, List, [], ◌∷◌, take, drop, drop_all, ◌==◌,
  if◌then◌else◌, ℤ, pos, min, ℕ_discrete, ◌∙◌,
}
use mitcbcu.CharBuffer.{CharBuffer, skip, read_loop, read, deliver, err_buffer_empty}
use mitcbcu.CharBuffer.View.{
  IsValid, contents, used, skip-IsValid, empty_iff, used-skip, contents-skip, length-contents,
}

-- What CharBufferRead returns for a number of waiting bytes and a size of the destination.
abbrev pub read_result : ℕ → ℕ → ℤ
read_result zero dest = err_buffer_empty
read_result (suc u) dest = pos (min dest (suc u))

-- The same in the middle of the loop.
abbrev loop_result : ℕ → ℕ → ℕ → ℤ → ℤ
loop_result zero dest copied ret = if copied == 0 then err_buffer_empty else ret
loop_result (suc u) zero copied ret = ret
loop_result (suc u) (suc dest) copied ret = pos (copied + min (suc dest) (suc u))

loop_result_next :
    (u dest copied : ℕ)
    → loop_result u dest (copied + 1) (pos (copied + 1)) ≡ pos (copied + min (suc dest) (suc u))
loop_result_next zero dest copied = ground arith
loop_result_next (suc u) zero copied = ap pos (omega arith)
loop_result_next (suc u) (suc dest) copied = ap pos (omega arith)

loop_result_stop : (u copied : ℕ) (ret : ℤ) → u ≢ 0 → loop_result u 0 copied ret ≡ ret
loop_result_stop zero copied ret h = absurd (h refl)
loop_result_stop (suc u) copied ret h = refl

loop_result_more :
    (u dest copied : ℕ) (ret : ℤ)
    → u ≢ 0
    → loop_result u (suc dest) copied ret ≡ pos (copied + min (suc dest) u)
loop_result_more zero dest copied ret h = absurd (h refl)
loop_result_more (suc u) dest copied ret h = refl

-- What the loop has done when it stops, started at `b` with `copied` bytes delivered.
record Took (b : CharBuffer) (dest copied : ℕ) (ret : ℤ) (out : CharBuffer × List ℕ × ℤ)
    : Type 0 where
  valid : IsValid out.0
  rest : contents out.0 ≡ drop dest (contents b)
  bytes : out.1 ≡ take dest (contents b)
  result : out.2 ≡ loop_result (used b) dest copied ret
  same_mem : out.0.mem ≡ b.mem
  same_write : out.0.pb_writeto ≡ b.pb_writeto
  same_head : out.0.pb_head ≡ b.pb_head
  same_size : out.0.buffer_size ≡ b.buffer_size

read_loop_empty :
    {b : CharBuffer} (dest copied : ℕ) (ret : ℤ)
    → IsValid b
    → used b ≡ 0
    → read_loop b dest copied ret ≡ (b, [], if copied == 0 then err_buffer_empty else ret)
unfolding read_loop
read_loop_empty zero copied ret v e = ground (arith, empty_iff v)
read_loop_empty (suc dest) copied ret v e = ground (arith, empty_iff v)

read_loop_stop :
    {b : CharBuffer} (copied : ℕ) (ret : ℤ)
    → IsValid b
    → used b ≢ 0
    → read_loop b 0 copied ret ≡ (b, [], ret)
unfolding read_loop
read_loop_stop copied ret v e = ground (arith, empty_iff v)

read_loop_take :
    {b : CharBuffer} (dest copied : ℕ) (ret : ℤ)
    → IsValid b
    → used b ≢ 0
    → read_loop b (suc dest) copied ret
      ≡ deliver (b.mem b.pb_readfrom) (read_loop (skip b) dest (copied + 1) (pos (copied + 1)))
unfolding read_loop
read_loop_take dest copied ret v e = ground (arith, empty_iff v)

contents-empty : (b : CharBuffer) → used b ≡ 0 → contents b ≡ []
contents-empty b h =
    sym (ap (λ k. drop k (contents b)) h)
    ∙ drop_all (used b) (contents b) (omega (arith, length-contents b))

take-nil : (n : ℕ) → take {A = ℕ} n [] ≡ []
take-nil zero = refl
take-nil (suc n) = refl

skip_same :
    (b : CharBuffer)
    → ((skip b).mem ≡ b.mem)
      × ((skip b).pb_writeto ≡ b.pb_writeto)
      × ((skip b).pb_head ≡ b.pb_head)
      × ((skip b).buffer_size ≡ b.buffer_size)
unfolding skip
skip_same b = (refl, refl, refl, refl)

Took-empty :
    {b : CharBuffer} (dest copied : ℕ) (ret : ℤ)
    → IsValid b
    → used b ≡ 0
    → Took b dest copied ret (read_loop b dest copied ret)
Took-empty {b} dest copied ret v e = rw (read_loop_empty dest copied ret v e) (record {
  valid = v;
  rest =
      contents-empty b e
      ∙ sym (drop_all dest [] (omega arith))
      ∙ ap (drop dest) (sym (contents-empty b e));
  bytes = sym (take-nil dest) ∙ ap (take dest) (sym (contents-empty b e));
  result = rw e;
  same_mem = refl;
  same_write = refl;
  same_head = refl;
  same_size = refl;
})

Took-stop :
    {b : CharBuffer} (copied : ℕ) (ret : ℤ)
    → IsValid b
    → used b ≢ 0
    → Took b 0 copied ret (read_loop b 0 copied ret)
Took-stop {b} copied ret v ne = rw (read_loop_stop copied ret v ne) (record {
  valid = v;
  rest = refl;
  bytes = refl;
  result = sym (loop_result_stop (used b) copied ret ne);
  same_mem = refl;
  same_write = refl;
  same_head = refl;
  same_size = refl;
})

Took-more :
    {b : CharBuffer} (dest copied : ℕ) (ret : ℤ)
    → IsValid b
    → used b ≢ 0
    → Took
        (skip b)
        dest
        (copied + 1)
        (pos (copied + 1))
        (read_loop (skip b) dest (copied + 1) (pos (copied + 1)))
    → Took b (suc dest) copied ret (read_loop b (suc dest) copied ret)
Took-more {b} dest copied ret v ne t = rw (read_loop_take dest copied ret v ne) (record {
  valid = t.valid;
  rest = t.rest ∙ ap (drop (suc dest)) (sym first);
  bytes = ap (λ l. b.mem b.pb_readfrom ∷ l) t.bytes ∙ ap (take (suc dest)) (sym first);
  result =
      t.result
      ∙ loop_result_next (used (skip b)) dest copied
      ∙ ap (λ k. pos (copied + min (suc dest) k)) (used-skip v (omega arith))
      ∙ sym (loop_result_more (used b) dest copied ret ne);
  same_mem = t.same_mem ∙ (skip_same b).0;
  same_write = t.same_write ∙ (skip_same b).1;
  same_head = t.same_head ∙ (skip_same b).2;
  same_size = t.same_size ∙ (skip_same b).3;
})
  where
    first : contents b ≡ b.mem b.pb_readfrom ∷ contents (skip b)
    first = contents-skip v (omega arith)

read_loop-Took :
    (dest : ℕ) {b : CharBuffer} (copied : ℕ) (ret : ℤ)
    → IsValid b
    → Took b dest copied ret (read_loop b dest copied ret)
read_loop-Took zero {b} copied ret v = elim (ℕ_discrete (used b) 0) [
  | yes e ↦ Took-empty 0 copied ret v e
  | no ne ↦ Took-stop copied ret v ne
]
read_loop-Took (suc dest) {b} copied ret v = elim (ℕ_discrete (used b) 0) [
  | yes e ↦ Took-empty (suc dest) copied ret v e
  | no ne ↦
      Took-more dest copied ret v ne
        (read_loop-Took dest (copied + 1) (pos (copied + 1)) (skip-IsValid v))
]

read_result_lem : (u dest : ℕ) → loop_result u dest 0 (pos 0) ≡ read_result u dest
read_result_lem zero dest = refl
read_result_lem (suc u) zero = ap pos (omega arith)
read_result_lem (suc u) (suc dest) = ap pos (omega arith)

-- What one call of CharBufferRead on `b` does: the buffer, the delivered bytes and the result.
abbrev pub Reading : CharBuffer → ℕ → CharBuffer → List ℕ → ℤ → Type 0
Reading b dest b' out ret =
    (contents b' ≡ drop dest (contents b))
    × (out ≡ take dest (contents b))
    × (ret ≡ read_result (used b) dest)
    × IsValid b'
    × (b'.mem ≡ b.mem)
    × (b'.pb_writeto ≡ b.pb_writeto)
    × (b'.pb_head ≡ b.pb_head)
    × (b'.buffer_size ≡ b.buffer_size)

-- CharBufferRead on a valid buffer delivers the oldest bytes that fit the destination, in order,
-- and leaves the others. It returns their number, or errBUFFER_EMPTY if no byte waits. The buffer
-- stays valid; its memory, its write position, its address and its size do not change.
pub read_lem :
    {b : CharBuffer} (dest : ℕ)
    → IsValid b
    → let (b', out, ret) = read b dest in Reading b dest b' out ret
unfolding read
read_lem {b} dest v =
    let t = read_loop-Took dest 0 (pos 0) v in
    (
      t.rest,
      t.bytes,
      t.result ∙ read_result_lem (used b) dest,
      t.valid,
      t.same_mem,
      t.same_write,
      t.same_head,
      t.same_size,
    )
