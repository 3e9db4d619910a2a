-- ===== src/BlockBuffer/View.antt =====
-- What a block buffer holds, and the representation invariant of `block_buffer_t`.
use mitcbcu.Common.{
  ℕ, suc, ◌+◌, ◌*◌, ◌<◌, ◌≤◌, ◌≡◌, refl, ap, sym, ◌∙◌, arith, List, ◌==◌, take, length, ℕ_discrete,
  ==-of_eq, ==-of_ne,
}
use mitcbcu.Ring.{next, distance, segment}
use mitcbcu.Ring.Segment.{length-segment}
use mitcbcu.BlockBuffer.{Block, BlockBuffer, forward}

-- The address of a block by its index.
unfoldable pub slot : BlockBuffer → ℕ → ℕ
slot b i = b.pb_head + i * b.item_size

-- The buffer's pointers stand at the blocks with the indices `r` and `w`. The loops that search
-- the ring give up behind 256 blocks.
pub record IsAt (b : BlockBuffer) (r w : ℕ) : Type 0 where
  pub two : 2 ≤ b.total_items
  pub at_most : b.total_items ≤ 256
  pub header : 4 ≤ b.item_size
  pub below : slot b b.total_items < 4294967296
  pub tail_eq : b.pb_tail ≡ slot b b.total_items
  pub read_eq : b.pb_readfrom ≡ slot b r
  pub write_eq : b.pb_writeto ≡ slot b w
  pub read_in : r < b.total_items
  pub write_in : w < b.total_items
  pub count_eq : b.items_waiting ≡ distance b.total_items (next b.total_items r) w

-- A block as a reader sees it.
abbrev pub trim : Block → Block
trim x = record { len = x.len; bytes = take x.len x.bytes }

abbrev pub item : BlockBuffer → ℕ → Block
item b i = trim (b.mem (slot b i))

abbrev pub used : BlockBuffer → ℕ → ℕ → ℕ
used b r w = distance b.total_items (next b.total_items r) w

-- The blocks waiting to be read, oldest first.
abbrev pub contents : BlockBuffer → ℕ → ℕ → List Block
contents b r w = segment (item b) b.total_items (next b.total_items r) (used b r w)

pub length-contents : (b : BlockBuffer) (r w : ℕ) → length (contents b r w) ≡ used b r w
length-contents b r w = length-segment (item b) b.total_items (next b.total_items r) (used b r w)

-- Blocks do not overlap.
slot-lt : (b : BlockBuffer) (i j : ℕ) → i < j → slot b i + b.item_size ≤ slot b j
unfolding slot
slot-lt b i j h = grind arith

pub slot-eq : (b : BlockBuffer) (i j : ℕ) → 0 < b.item_size → (slot b i == slot b j) ≡ (i == j)
slot-eq b i j h = elim (ℕ_discrete i j) [
  | yes e ↦ rw (e, ==-of_eq (slot b j) (slot b j) refl, ==-of_eq j j refl)
  | no ne ↦
      ==-of_ne (slot b i) (slot b j) (grind (arith, slot-lt b i j, slot-lt b j i))
      ∙ sym (==-of_ne i j ne)
]

pub slot_mono : (b : BlockBuffer) (i j : ℕ) → i ≤ j → slot b i ≤ slot b j
unfolding slot
slot_mono b i j h = grind arith

pub slot-zero : (b : BlockBuffer) → slot b 0 ≡ b.pb_head
unfolding slot
slot-zero b = omega arith

pub slot-suc : (b : BlockBuffer) (i : ℕ) → slot b (suc i) ≡ slot b i + b.item_size
unfolding slot
slot-suc b i = grind arith

-- Moving a pointer on by one block moves its index on round the ring.
pub forward-slot :
    (b : BlockBuffer) (i : ℕ)
    → b.pb_tail ≡ slot b b.total_items
    → 0 < b.item_size
    → i < b.total_items
    → forward b (slot b i) ≡ slot b (next b.total_items i)
forward-slot b i t s h = elim (ℕ_discrete (suc i) b.total_items) [
  | yes e ↦ ground (arith, slot-suc b i, slot-zero b, ap (slot b) e)
  | no ne ↦ ground (arith, slot-suc b i, slot-lt b (suc i) b.total_items (omega arith))
]
