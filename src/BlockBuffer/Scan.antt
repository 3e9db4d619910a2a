-- ===== src/BlockBuffer/Scan.antt =====
-- The loops that walk round a block buffer: they end, and count the blocks that wait.
use mathlib.Core.Path.{ap₂}
use mitcbcu.Common.{
  ℕ, zero, suc, ◌+◌, ◌<◌, ◌≤◌, ◌≡◌, ap, sym, ◌∙◌, arith, true, false, leb, ◌==◌, if◌then◌else◌,
  ℕ_discrete, ==-of_ne, some, ◌&&◌, leb-of_le,
}
use mitcbcu.Ring.{next, distance, next-lt, distance-lt, distance_self, distance-next_left}
use mitcbcu.BlockBuffer.{
  BlockBuffer, forward, find_position, found, ptr_is_valid, scan, waiting, count_loop, counted,
}
use mitcbcu.BlockBuffer.View.{
  IsAt, slot, used, slot-eq, slot-zero, slot-suc, forward-slot, slot_mono,
}

module _ (b : BlockBuffer) (w : ℕ) where
  -- The pointers and the size are right; the read position is left open.
  record IsRing : Type 0 where
    tail_eq : b.pb_tail ≡ slot b b.total_items
    header : 0 < b.item_size
    write_eq : b.pb_writeto ≡ slot b w
    write_in : w < b.total_items

  meets :
      IsRing
      → (r : ℕ) → r < b.total_items
      → (forward b (slot b r) == b.pb_writeto) ≡ (next b.total_items r == w)
  meets k r hr =
      ap₂ ◌==◌ (forward-slot b r k.tail_eq k.header hr) k.write_eq
      ∙ slot-eq b (next b.total_items r) w k.header

  -- One round of the counting loop with the fuel for the way that is left.
  count_loop_lem :
      IsRing
      → (fuel r acc : ℕ) → r < b.total_items
      → distance b.total_items (next b.total_items r) w < fuel
      → count_loop b fuel (slot b r) acc
        ≡ some (acc + distance b.total_items (next b.total_items r) w)
  unfolding count_loop
  count_loop_lem k zero r acc hr h = absurd (omega arith)
  count_loop_lem k (suc fuel) r acc hr h = elim (ℕ_discrete (next b.total_items r) w) [
    | yes e ↦ ground (arith, meets k r hr, distance_self b.total_items w)
    | no ne ↦ ground (
      arith,
      meets k r hr,
      forward-slot b r k.tail_eq k.header hr,
      next-lt b.total_items r hr,
      distance-next_left b.total_items (next b.total_items r) w,
      count_loop_lem k fuel (next b.total_items r) (acc + 1),
    )
  ]

  scan_lem :
      IsRing
      → (rounds r i acc : ℕ) → r < b.total_items
      → distance b.total_items (next b.total_items r) w < rounds
      → i + distance b.total_items (next b.total_items r) w ≤ 255
      → scan b rounds (slot b r) i acc
        ≡ some (acc + distance b.total_items (next b.total_items r) w)
  unfolding scan
  scan_lem k zero r i acc hr h l = absurd (omega arith)
  scan_lem k (suc rounds) r i acc hr h l = elim (ℕ_discrete (next b.total_items r) w) [
    | yes e ↦ ground (arith, meets k r hr, distance_self b.total_items w)
    | no ne ↦ ground (
      arith,
      meets k r hr,
      forward-slot b r k.tail_eq k.header hr,
      next-lt b.total_items r hr,
      distance-next_left b.total_items (next b.total_items r) w,
      scan_lem k rounds (next b.total_items r) (i + 1) (acc + 1),
    )
  ]

-- The search for a pointer among the block starts finds every index up to 256.
find_position_lem :
    (b : BlockBuffer) (target : ℕ)
    → 0 < b.item_size
    → (rounds i : ℕ) → i ≤ target
    → target < i + rounds
    → target ≤ 256
    → find_position rounds b.item_size (slot b target) (slot b i) i ≡ some true
unfolding find_position
find_position_lem b target s zero i lo hi l = absurd (omega arith)
find_position_lem b target s (suc rounds) i lo hi l = elim (ℕ_discrete target i) [
  | yes e ↦ ground (arith, slot-eq b target i s)
  | no ne ↦ ground (
    arith,
    slot-eq b target i s,
    ap (λ p. find_position rounds b.item_size (slot b target) p (i + 1)) (sym (slot-suc b i)),
    find_position_lem b target s rounds (suc i),
  )
]

at-IsRing : {b : BlockBuffer} {r w : ℕ} → IsAt b r w → IsRing b w
at-IsRing v = record {
  tail_eq = v.tail_eq;
  header = omega arith;
  write_eq = v.write_eq;
  write_in = v.write_in;
}

pub used-lt : (b : BlockBuffer) (r w : ℕ) → IsAt b r w → used b r w < b.total_items
used-lt b r w v =
    distance-lt b.total_items (next b.total_items r) w (next-lt b.total_items r v.read_in)
      v.write_in

position_found :
    (b : BlockBuffer) (r w i p : ℕ)
    → IsAt b r w
    → i < b.total_items
    → p ≡ slot b i
    → find_position b.total_items b.item_size p b.pb_head 0 ≡ some true
position_found b r w i p v h e =
    ap₂ (λ t q. find_position b.total_items b.item_size t q 0) e (sym (slot-zero b))
    ∙ find_position_lem b i (omega arith) b.total_items 0 (omega arith) (omega arith) (omega arith)

slot_bounds :
    (b : BlockBuffer) (r w i p : ℕ)
    → IsAt b r w
    → i < b.total_items
    → p ≡ slot b i
    → (leb b.pb_head p ≡ true) × (leb p b.pb_tail ≡ true)
slot_bounds b r w i p v h e = (
  leb-of_le b.pb_head p (omega (arith, slot-zero b, slot_mono b 0 i)),
  leb-of_le p b.pb_tail (omega (arith, slot_mono b i b.total_items, v.tail_eq)),
)

-- BlockBufferPtrIsValid accepts the pointers of a valid buffer.
pub ptr_is_valid_lem : (b : BlockBuffer) (r w : ℕ) → IsAt b r w → ptr_is_valid b ≡ true
unfolding ptr_is_valid
ptr_is_valid_lem b r w v = ap₂ ◌&&◌ (ap₂ ◌&&◌ rb.0 rb.1) (
    ap₂ ◌&&◌ (ap₂ ◌&&◌ wb.0 wb.1) (
      ap₂ ◌&&◌ (ap found (position_found b r w r b.pb_readfrom v v.read_in v.read_eq))
        (ap found (position_found b r w w b.pb_writeto v v.write_in v.write_eq))))
  where
    rb : (leb b.pb_head b.pb_readfrom ≡ true) × (leb b.pb_readfrom b.pb_tail ≡ true)
    rb = slot_bounds b r w r b.pb_readfrom v v.read_in v.read_eq

    wb : (leb b.pb_head b.pb_writeto ≡ true) × (leb b.pb_writeto b.pb_tail ≡ true)
    wb = slot_bounds b r w w b.pb_writeto v v.write_in v.write_eq

pub several : (b : BlockBuffer) (r w : ℕ) → IsAt b r w → (b.total_items == 1) ≡ false
several b r w v = ==-of_ne b.total_items 1 (ground arith)

-- The counting loop of BlockBufferWrite and BlockBufferRead finds the number of blocks waiting.
pub waiting_lem : (b : BlockBuffer) (r w : ℕ) → IsAt b r w → waiting b ≡ some (used b r w)
waiting_lem b r w v =
    ap₂ (λ t o. if t then some 0 else o) (several b r w v)
      (ap (λ p. scan b b.total_items p 0 0) v.read_eq
        ∙ scan_lem b w (at-IsRing v) b.total_items r 0 0 v.read_in (used-lt b r w v)
            (omega (arith, used-lt b r w v))
        ∙ ap some (omega arith))

-- The endless loop of BlockBufferCnt, BlockBufferFull and BlockBufferEmpty ends within as many
-- rounds as there are blocks, and finds the same number.
pub counted_lem : (b : BlockBuffer) (r w : ℕ) → IsAt b r w → counted b ≡ some (used b r w)
counted_lem b r w v =
    ap₂ (λ t o. if t then some 0 else o) (several b r w v)
      (ap (λ p. count_loop b b.total_items p 0) v.read_eq
        ∙ count_loop_lem b w (at-IsRing v) b.total_items r 0 v.read_in (used-lt b r w v)
        ∙ ap some (omega arith))
