-- ===== src/CharBuffer/View.antt =====
-- What a byte buffer holds, and the representation invariant of `char_buffer_t`.
use mathlib.Core.Path.{ap₂, fun_ext}
use mitcbcu.Common.{
  ℕ, suc, ◌+◌, ◌-◌, ◌<◌, ◌≤◌, ◌≡◌, ap, sym, arith, List, [], ◌∷◌, ◌++◌, length, ◌∙◌, ◌==◌, update,
}
use mitcbcu.Ring.{next, distance, segment}
use mitcbcu.Ring.Segment.{length-segment, segment_push}
use mitcbcu.CharBuffer.{CharBuffer, writeto_test, put, skip}

pub record IsValid (b : CharBuffer) : Type 0 where
  pub positive : 0 < b.buffer_size
  pub tail_eq : b.pb_tail ≡ b.pb_head + b.buffer_size
  pub write_low : b.pb_head ≤ b.pb_writeto
  pub write_high : b.pb_writeto < b.pb_tail
  pub read_low : b.pb_head ≤ b.pb_readfrom
  pub read_high : b.pb_readfrom < b.pb_tail
  pub size_int : b.buffer_size < 2147483648
  pub address : b.pb_tail < 4294967296

abbrev pub rd : CharBuffer → ℕ
rd b = b.pb_readfrom - b.pb_head

abbrev pub wr : CharBuffer → ℕ
wr b = b.pb_writeto - b.pb_head

abbrev pub cell : CharBuffer → ℕ → ℕ
cell b i = b.mem (b.pb_head + i)

-- The number of bytes waiting to be read.
abbrev pub used : CharBuffer → ℕ
used b = distance b.buffer_size (rd b) (wr b)

-- The bytes waiting to be read, oldest first.
abbrev pub contents : CharBuffer → List ℕ
contents b = segment (cell b) b.buffer_size (rd b) (used b)

-- One cell stays free, so that a full buffer differs from an empty one.
abbrev pub capacity : CharBuffer → ℕ
capacity b = b.buffer_size - 1

abbrev pub room : CharBuffer → ℕ
room b = capacity b - used b

pub length-contents : (b : CharBuffer) → length (contents b) ≡ used b
length-contents b = length-segment (cell b) b.buffer_size (rd b) (used b)

pub used-lt : {b : CharBuffer} → IsValid b → used b < b.buffer_size
used-lt v = ground arith

pub put-IsValid : {b : CharBuffer} (x : ℕ) → IsValid b → IsValid (put b x)
unfolding put
put-IsValid x v = ground arith

pub skip-IsValid : {b : CharBuffer} → IsValid b → IsValid (skip b)
unfolding skip
skip-IsValid v = ground arith

-- The test of CharBufferWrite finds exactly the buffers with no room.
pub full_iff : {b : CharBuffer} → IsValid b → (writeto_test b == b.pb_readfrom) ≡ (room b == 0)
full_iff v = ground arith

pub empty_iff : {b : CharBuffer} → IsValid b → (b.pb_writeto == b.pb_readfrom) ≡ (used b == 0)
empty_iff v = ground arith

pub used-put : {b : CharBuffer} (x : ℕ) → IsValid b → 0 < room b → used (put b x) ≡ suc (used b)
unfolding put
used-put x v h = ground arith

pub used-skip : {b : CharBuffer} → IsValid b → 0 < used b → suc (used (skip b)) ≡ used b
unfolding skip
used-skip v h = ground arith

cell-put :
    (b : CharBuffer) (x i : ℕ)
    → b.pb_head ≤ b.pb_writeto
    → cell (put b x) i ≡ update (cell b) (wr b) x i
unfolding put
cell-put b x i h = ground arith

-- Storing a byte where there is room appends it.
pub contents-put :
    {b : CharBuffer} (x : ℕ) → IsValid b → 0 < room b → contents (put b x) ≡ contents b ++ (x ∷ [])
unfolding put
contents-put {b} x v h =
    ap₂ (λ f k. segment f b.buffer_size (rd b) k) (fun_ext (λ i. cell-put b x i v.write_low))
      (used-put x v h)
    ∙ segment_push (cell b) b.buffer_size x (rd b) (wr b) (omega arith) (omega arith)

rd-skip : {b : CharBuffer} → IsValid b → next b.buffer_size (rd b) ≡ rd (skip b)
unfolding skip
rd-skip v = ground arith

-- Taking a byte removes the oldest one.
pub contents-skip :
    {b : CharBuffer} → IsValid b → 0 < used b → contents b ≡ b.mem b.pb_readfrom ∷ contents (skip b)
unfolding skip
contents-skip {b} v h =
    ap (λ k. segment (cell b) b.buffer_size (rd b) k) (sym (used-skip v h))
    ∙ ap₂ ◌∷◌ (ap b.mem (omega arith))
        (ap (λ r. segment (cell b) b.buffer_size r (used (skip b))) (rd-skip v))
