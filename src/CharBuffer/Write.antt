-- ===== src/CharBuffer/Write.antt =====
-- CharBufferWrite: which bytes it takes, and what it returns.
use mathlib.Core.Path.{ap₂}
use mitcbcu.Common.{
  ℕ, zero, suc, ◌+◌, ◌-◌, ◌≡◌, ◌≢◌, refl, ap, sym, arith, List, [], ◌∷◌, ◌++◌, length, take, ◌==◌,
  if◌then◌else◌, ℤ, pos, min, append-nil, append_assoc, take_all, ℕ_discrete, ◌∙◌,
}
use mitcbcu.CharBuffer.{CharBuffer, put, write_loop, write, err_buffer_full}
use mitcbcu.CharBuffer.View.{IsValid, contents, room, put-IsValid, full_iff, used-put, contents-put}

-- What CharBufferWrite returns for a source when there is room for a number of bytes.
abbrev pub write_result : ℕ → List ℕ → ℤ
write_result k [] = pos 0
write_result zero (_ ∷ _) = err_buffer_full
write_result (suc k) (x ∷ xs) = pos (min (suc k) (length (x ∷ xs)))

-- The same in the middle of the loop.
abbrev loop_result : ℕ → ℕ → ℤ → List ℕ → ℤ
loop_result k copied ret [] = ret
loop_result zero copied ret (_ ∷ _) = if copied == 0 then err_buffer_full else ret
loop_result (suc k) copied ret (x ∷ xs) = pos (copied + min (suc k) (length (x ∷ xs)))

loop_result_next :
    (k copied : ℕ) (xs : List ℕ)
    → loop_result k (copied + 1) (pos (copied + 1)) xs
      ≡ pos (copied + min (suc k) (suc (length xs)))
loop_result_next k copied [] = ap pos (omega arith)
loop_result_next zero copied (x ∷ xs) = ground arith
loop_result_next (suc k) copied (x ∷ xs) = ap pos (omega arith)

loop_result_more :
    (k copied : ℕ) (ret : ℤ) (x : ℕ) (xs : List ℕ)
    → k ≢ 0
    → loop_result k copied ret (x ∷ xs) ≡ pos (copied + min k (suc (length xs)))
loop_result_more zero copied ret x xs h = absurd (h refl)
loop_result_more (suc k) copied ret x xs h = refl

take_more : (k x : ℕ) (xs : List ℕ) → k ≢ 0 → take k (x ∷ xs) ≡ x ∷ take (k - 1) xs
take_more zero x xs h = absurd (h refl)
take_more (suc k) x xs h = ap (λ j. x ∷ take j xs) (omega arith)

-- What the loop has done when it stops, started at `b` with `copied` bytes stored.
record Wrote (b : CharBuffer) (src : List ℕ) (copied : ℕ) (ret : ℤ) (out : CharBuffer × ℤ)
    : Type 0 where
  valid : IsValid out.0
  bytes : contents out.0 ≡ contents b ++ take (room b) src
  result : out.1 ≡ loop_result (room b) copied ret src
  size : out.0.buffer_size ≡ b.buffer_size
  read_kept : out.0.pb_readfrom ≡ b.pb_readfrom

size-put : (b : CharBuffer) (x : ℕ) → (put b x).buffer_size ≡ b.buffer_size
unfolding put
size-put b x = refl

readfrom-put : (b : CharBuffer) (x : ℕ) → (put b x).pb_readfrom ≡ b.pb_readfrom
unfolding put
readfrom-put b x = refl

room-put : {b : CharBuffer} (x : ℕ) → IsValid b → room b ≢ 0 → room (put b x) ≡ room b - 1
room-put {b} x v h =
    ap₂ (λ n k. n - 1 - k) (size-put b x) (used-put x v (omega arith)) ∙ omega arith

write_loop_full :
    {b : CharBuffer} (x : ℕ) (xs : List ℕ) (copied : ℕ) (ret : ℤ)
    → IsValid b
    → room b ≡ 0
    → write_loop b (x ∷ xs) copied ret ≡ (b, if copied == 0 then err_buffer_full else ret)
unfolding write_loop
write_loop_full x xs copied ret v e = ground (arith, full_iff v)

write_loop-room :
    {b : CharBuffer} (x : ℕ) (xs : List ℕ) (copied : ℕ) (ret : ℤ)
    → IsValid b
    → room b ≢ 0
    → write_loop b (x ∷ xs) copied ret ≡ write_loop (put b x) xs (copied + 1) (pos (copied + 1))
unfolding write_loop
write_loop-room {b} x xs copied ret v e = ground (arith, full_iff v)

write_loop-Wrote :
    (src : List ℕ) {b : CharBuffer} (copied : ℕ) (ret : ℤ)
    → IsValid b
    → Wrote b src copied ret (write_loop b src copied ret)
write_loop-Wrote [] {b} copied ret v =
    unfold write_loop in
    record {
      valid = v;
      bytes = sym (
          ap (λ t. contents b ++ t) (take_all (room b) [] (omega arith)) ∙ append-nil (contents b));
      result = refl;
      size = refl;
      read_kept = refl;
    }
write_loop-Wrote (x ∷ xs) {b} copied ret v = elim (ℕ_discrete (room b) 0) [
  | yes e ↦ rw (write_loop_full x xs copied ret v e) (record {
    valid = v;
    bytes = rw e (sym (append-nil (contents b)));
    result = rw e;
    size = refl;
    read_kept = refl;
  })
  | no ne ↦ rw (write_loop-room x xs copied ret v ne) (
      let rest = write_loop-Wrote xs (copied + 1) (pos (copied + 1)) (put-IsValid x v) in
      record {
        valid = rest.valid;
        bytes =
            rest.bytes
            ∙ ap₂ (λ s k. s ++ take k xs) (contents-put x v (omega arith)) (room-put x v ne)
            ∙ append_assoc (contents b) (x ∷ []) (take (room b - 1) xs)
            ∙ ap (λ t. contents b ++ t) (sym (take_more (room b) x xs ne));
        result =
            rest.result
            ∙ ap (λ k. loop_result k (copied + 1) (pos (copied + 1)) xs) (room-put x v ne)
            ∙ loop_result_next (room b - 1) copied xs
            ∙ ap (λ k. pos (copied + min k (suc (length xs)))) (omega arith)
            ∙ sym (loop_result_more (room b) copied ret x xs ne);
        size = rest.size ∙ size-put b x;
        read_kept = rest.read_kept ∙ readfrom-put b x;
      })
]

write_result_lem : (k : ℕ) (src : List ℕ) → loop_result k 0 (pos 0) src ≡ write_result k src
write_result_lem k [] = refl
write_result_lem zero (x ∷ xs) = refl
write_result_lem (suc k) (x ∷ xs) = ap pos (omega arith)

-- CharBufferWrite on a valid buffer appends the bytes of the source that fit, in order, and no
-- others; it returns their number, 0 for an empty source, and errBUFFER_FULL if there are bytes and
-- none fits. The buffer stays valid and keeps its size and its read position.
pub write_lem :
    {b : CharBuffer} (src : List ℕ)
    → IsValid b
    → let (b', ret) = write b src in
      (contents b' ≡ contents b ++ take (room b) src)
      × (ret ≡ write_result (room b) src)
      × IsValid b'
      × (b'.buffer_size ≡ b.buffer_size)
      × (b'.pb_readfrom ≡ b.pb_readfrom)
unfolding write
write_lem {b} src v =
    let w = write_loop-Wrote src 0 (pos 0) v in
    (w.bytes, w.result ∙ write_result_lem (room b) src, w.valid, w.size, w.read_kept)
