-- ===== src/BlockBuffer/Queue/Pop.antt =====
-- BlockBufferRead takes the oldest block out of the queue.
use mitcbcu.Common.{
  ℕ, zero, suc, ◌<◌, ◌≤◌, ◌≡◌, refl, ap, sym, ◌∙◌, arith, List, [], ◌∷◌, take, min, pos, ℕ_discrete,
  sub_u32,
}
use mitcbcu.Ring.{next, distance, segment, next-lt, distance-next_left, distance_self}
use mitcbcu.BlockBuffer.{Block, BlockBuffer, forward, take_block, read, err_buffer_empty}
use mitcbcu.BlockBuffer.View.{IsAt, slot, item, trim, used, contents, forward-slot}
use mitcbcu.BlockBuffer.Scan.{ptr_is_valid_lem, waiting_lem, used-lt, several}
use mitcbcu.BlockBuffer.Queue.{pop}

take-take : (j k : ℕ) (xs : List ℕ) → j ≤ k → take j (take k xs) ≡ take j xs
take-take zero k xs h = refl
take-take (suc j) zero xs h = absurd (omega arith)
take-take (suc j) (suc k) [] h = refl
take-take (suc j) (suc k) (x ∷ xs) h = ap (λ l. x ∷ l) (take-take j k xs (omega arith))

-- The buffer behind the oldest block.
popped : BlockBuffer → BlockBuffer
popped b = record b {
  pb_readfrom = forward b b.pb_readfrom;
  items_waiting = sub_u32 b.items_waiting 1;
}

-- What a reader gets of a block.
abbrev bytes_of : Block → ℕ → List ℕ
bytes_of x dest = take (min dest x.len) x.bytes

bytes_of-trim : (x : Block) (dest : ℕ) → bytes_of (trim x) dest ≡ bytes_of x dest
bytes_of-trim x dest = take-take (min dest x.len) x.len x.bytes (omega arith)

take_block-eq :
    (b : BlockBuffer) (dest : ℕ)
    → let x = b.mem (forward b b.pb_readfrom) in
      take_block b dest ≡ (popped b, bytes_of x dest, pos (min dest x.len))
unfolding take_block popped
take_block-eq b dest =
    ap (λ n. (popped b, take n (b.mem (forward b b.pb_readfrom)).bytes, pos n)) (ground arith)

next_block :
    (b : BlockBuffer) (r w : ℕ)
    → IsAt b r w
    → forward b b.pb_readfrom ≡ slot b (next b.total_items r)
next_block b r w v =
    ap (forward b) v.read_eq ∙ forward-slot b r v.tail_eq (omega (arith, v.header)) v.read_in

read-takes :
    (b : BlockBuffer) (r w dest : ℕ) → IsAt b r w → 0 < used b r w → read b dest ≡ take_block b dest
unfolding read
read-takes b r w dest v h =
    ground (arith, ptr_is_valid_lem b r w v, waiting_lem b r w v, several b r w v)

read-some :
    (b : BlockBuffer) (r w dest : ℕ)
    → IsAt b r w
    → 0 < used b r w
    → let x = item b (next b.total_items r) in
      read b dest ≡ (popped b, bytes_of x dest, pos (min dest x.len))
read-some b r w dest v h =
    read-takes b r w dest v h
    ∙ take_block-eq b dest
    ∙ ap (λ p. (popped b, bytes_of (b.mem p) dest, pos (min dest (b.mem p).len)))
        (next_block b r w v)
    ∙ ap (λ l. (popped b, l, pos (min dest (item b (next b.total_items r)).len)))
        (sym (bytes_of-trim (b.mem (slot b (next b.total_items r))) dest))

read-none :
    (b : BlockBuffer) (r w dest : ℕ)
    → IsAt b r w
    → used b r w ≡ 0
    → read b dest ≡ (b, [], err_buffer_empty)
unfolding read
read-none b r w dest v h =
    ground (arith, ptr_is_valid_lem b r w v, waiting_lem b r w v, several b r w v)

used-popped :
    (b : BlockBuffer) (r w : ℕ)
    → IsAt b r w
    → 0 < used b r w
    → used b r w ≡ suc (used b (next b.total_items r) w)
used-popped b r w v h = sym (
    distance-next_left b.total_items (next b.total_items r) w (next-lt b.total_items r v.read_in)
      v.write_in
      (λ e.
        absurd
          (omega (arith, distance_self b.total_items w, ap (λ i. distance b.total_items i w) e))))

popped-IsAt :
    (b : BlockBuffer) (r w : ℕ)
    → IsAt b r w
    → 0 < used b r w
    → IsAt (popped b) (next b.total_items r) w
unfolding popped slot
popped-IsAt b r w v h = record {
  two = v.two;
  at_most = v.at_most;
  header = v.header;
  below = v.below;
  tail_eq = v.tail_eq;
  read_eq = next_block b r w v;
  write_eq = v.write_eq;
  read_in = next-lt b.total_items r v.read_in;
  write_in = v.write_in;
  count_eq = omega (arith, v.count_eq, used-popped b r w v h, used-lt b r w v, v.at_most);
}

-- The oldest block stands first.
contents-popped :
    (b : BlockBuffer) (r w : ℕ)
    → IsAt b r w
    → 0 < used b r w
    → contents b r w
      ≡ (item b (next b.total_items r) ∷ contents (popped b) (next b.total_items r) w)
unfolding popped slot
contents-popped b r w v h =
    ap (segment (item b) b.total_items (next b.total_items r)) (used-popped b r w v h)

-- BlockBufferRead on a valid buffer is the pop of a queue: it takes the oldest block, of which the
-- destination gets the first bytes, or reports an empty buffer and changes nothing; the buffer holds
-- the new queue afterwards, and the write pointer's place and the number and the size of the blocks
-- do not change.
pub read_refines :
    (b : BlockBuffer) (r w dest : ℕ)
    → IsAt b r w
    → let (b', bytes, ret) = read b dest in
      (r' : ℕ) × IsAt b' r' w
      × ((contents b' r' w, bytes, ret) ≡ pop (contents b r w) dest)
      × (b'.total_items ≡ b.total_items)
      × (b'.item_size ≡ b.item_size)
unfolding popped slot
read_refines b r w dest v = elim (ℕ_discrete (used b r w) 0) [
  | yes e ↦ rw (read-none b r w dest v e) (
    r,
    v,
    ap (λ k. (segment (item b) b.total_items (next b.total_items r) k, [], err_buffer_empty)) e
        ∙ sym (ap (λ k. pop (segment (item b) b.total_items (next b.total_items r) k) dest) e),
    refl,
    refl,
  )
  | no ne ↦ rw (read-some b r w dest v (omega arith)) (
    next b.total_items r,
    popped-IsAt b r w v (omega arith),
    sym (ap (λ q. pop q dest) (contents-popped b r w v (omega arith))),
    refl,
    refl,
  )
]
