-- ===== src/BlockBuffer/Queue/Tests.antt =====
-- Runs of the block buffer functions on a buffer of three blocks of two bytes.
use mitcbcu.Common.{ℕ, ◌≡◌, refl, arith, [], ◌∷◌, update, pos, some}
use mitcbcu.BlockBuffer.{Block, BlockBuffer, write, read, full}
use mitcbcu.BlockBuffer.View.{IsAt, slot, contents}
use mitcbcu.BlockBuffer.Queue.{push, pop}
use mitcbcu.BlockBuffer.Queue.Push.{write_refines}
use mitcbcu.BlockBuffer.Queue.Pop.{read_refines}
use mitcbcu.BlockBuffer.Queue.Count.{full_never}

abbrev no_bytes : Block
no_bytes = record { len = 0; bytes = [] }

abbrev seven : Block
seven = record { len = 1; bytes = 7 ∷ 0 ∷ [] }

-- One block waits, in the last of the three.
abbrev one_block : BlockBuffer
one_block = record {
  pb_head = 100;
  pb_tail = 118;
  pb_writeto = 100;
  pb_readfrom = 106;
  items_waiting = 1;
  total_items = 3;
  item_size = 6;
  mem = update (λ p. no_bytes) 112 seven;
}

one_block-IsAt : IsAt one_block 1 0
unfolding slot
one_block-IsAt = record {
  two = omega arith;
  at_most = omega arith;
  header = omega arith;
  below = omega arith;
  tail_eq = refl;
  read_eq = refl;
  write_eq = refl;
  read_in = omega arith;
  write_in = omega arith;
  count_eq = refl;
}

contents-one_block : contents one_block 1 0 ≡ record { len = 1; bytes = 7 ∷ [] } ∷ []
unfolding slot
contents-one_block = refl

write_refines_example :
    let (b', ret) = write one_block (1 ∷ 2 ∷ 3 ∷ []) in
    (w' : ℕ) × IsAt b' 1 w'
    × ((contents b' 1 w', ret) ≡ push 2 2 (contents one_block 1 0) (1 ∷ 2 ∷ 3 ∷ []))
    × (b'.total_items ≡ 3)
    × (b'.item_size ≡ 6)
write_refines_example = write_refines one_block 1 0 (1 ∷ 2 ∷ 3 ∷ []) one_block-IsAt

read_refines_example :
    let (b', bytes, ret) = read one_block 10 in
    (r' : ℕ) × IsAt b' r' 0
    × ((contents b' r' 0, bytes, ret) ≡ pop (contents one_block 1 0) 10)
    × (b'.total_items ≡ 3)
    × (b'.item_size ≡ 6)
read_refines_example = read_refines one_block 1 0 10 one_block-IsAt

full_never_example : full one_block ≡ some (pos 0)
full_never_example = full_never one_block 1 0 one_block-IsAt
