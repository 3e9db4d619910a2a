-- ===== src/CharBuffer/Space.antt =====
-- What CharBufferIsFull, CharBufferCurrentBytes and CharBufferCurrentReadPointer report.
use mitcbcu.Common.{
  ℕ, zero, suc, ◌+◌, ◌-◌, ◌<◌, ◌≤◌, ◌≡◌, refl, ap, sym, arith, List, [], ◌∷◌, length, take, ◌==◌,
  if◌then◌else◌, pos, ◌∙◌, to_int, leb,
}
use mitcbcu.CharBuffer.{
  CharBuffer, is_full, current_bytes, free_bytes, current_read_pointer, err_buffer_full,
}
use mitcbcu.CharBuffer.View.{IsValid, contents, used, room, full_iff, rd, length-contents}
use mitcbcu.Ring.{segment}

free_bytes_lem : {b : CharBuffer} → IsValid b → free_bytes b ≡ room b
free_bytes_lem v = ground arith

to_int_small : (n : ℕ) → n < 2147483648 → to_int n ≡ pos n
to_int_small n h = ground arith

-- CharBufferIsFull on a valid buffer returns the number of bytes that can still be written, or
-- errBUFFER_FULL if that is 0.
pub is_full_lem :
    {b : CharBuffer}
    → IsValid b
    → is_full b ≡ (if room b == 0 then err_buffer_full else pos (room b))
unfolding is_full
is_full_lem {b} v = ground (arith, full_iff v, free_bytes_lem v, to_int_small (room b))

-- CharBufferCurrentBytes on a valid buffer does not return the number of bytes that wait: it returns
-- one more, also for an empty buffer, and errBUFFER_FULL for a full one.
pub current_bytes_off_by_one :
    {b : CharBuffer}
    → IsValid b
    → current_bytes b ≡ (if room b == 0 then err_buffer_full else pos (suc (length (contents b))))
unfolding current_bytes
current_bytes_off_by_one {b} v =
    ground (arith, full_iff v, free_bytes_lem v, length-contents b, to_int_small (suc (used b)))

-- The `k` bytes of memory from an address on.
abbrev pub block : (ℕ → ℕ) → ℕ → ℕ → List ℕ
block m p zero = []
block m p (suc k) = m p ∷ block m (p + 1) k

-- Before the end of the ring its cells lie side by side.
take-segment :
    (m : ℕ → ℕ) (head n r j k : ℕ)
    → r + j ≤ n
    → j ≤ k
    → take j (segment (λ i. m (head + i)) n r k) ≡ block m (head + r) j
take-segment m head n r zero k h hk = refl
take-segment m head n r (suc j) zero h hk = absurd (omega arith)
take-segment m head n r (suc zero) (suc k) h hk = refl
take-segment m head n r (suc (suc j)) (suc k) h hk =
    ap (λ l. m (head + r) ∷ l)
      (ap (λ i. take (suc j) (segment (λ i. m (head + i)) n i k)) (ground arith)
        ∙ take-segment m head n (suc r) (suc j) k (omega arith) (omega arith)
        ∙ ap (λ p. block m p (suc j)) (omega arith))

-- The number of bytes that can be read without going round.
abbrev delta : CharBuffer → ℕ
delta b =
    if leb b.pb_readfrom b.pb_writeto
    then b.pb_writeto - b.pb_readfrom
    else b.pb_tail - b.pb_readfrom

current_read_pointer-eq :
    {b : CharBuffer} → IsValid b → current_read_pointer b ≡ (b.pb_readfrom, used b, delta b)
unfolding current_read_pointer
current_read_pointer-eq v = ground arith

block-delta :
    {b : CharBuffer} → IsValid b → block b.mem b.pb_readfrom (delta b) ≡ take (delta b) (contents b)
block-delta {b} v =
    ap (λ p. block b.mem p (delta b)) (omega arith)
    ∙ sym (
        take-segment b.mem b.pb_head b.buffer_size (rd b) (delta b) (used b) (ground arith)
          (ground arith))

-- CharBufferCurrentReadPointer on a valid buffer reports the number of bytes that wait, and a
-- pointer at which the first `right_delta` of them lie side by side in memory; at least one does
-- unless the buffer is empty.
pub current_read_pointer_lem :
    {b : CharBuffer}
    → IsValid b
    → let (p, total, right_delta) = current_read_pointer b in
      (total ≡ length (contents b))
      × (block b.mem p right_delta ≡ take right_delta (contents b))
      × (right_delta ≤ total)
      × (right_delta ≡ 0 → total ≡ 0)
current_read_pointer_lem {b} v =
    rw (current_read_pointer-eq v)
      (sym (length-contents b), block-delta v, ground arith, ground arith)
