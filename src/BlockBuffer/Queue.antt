-- ===== src/BlockBuffer/Queue.antt =====
-- What a block buffer promises: a bounded first-in first-out queue of blocks.
pub mod Push
pub mod Pop
pub mod Count
mod Tests
use mitcbcu.Common.{ℕ, ◌-◌, List, [], ◌∷◌, ◌++◌, if◌then◌else◌, ltb, leb, ℤ, pos, length, take, min}
use mitcbcu.BlockBuffer.{Block, BlockBuffer, err_buffer_full, err_buffer_empty}

abbrev pub Queue : Type 0
Queue = List Block

-- A block of the first bytes of a source.
abbrev pub cut : ℕ → List ℕ → Block
cut size src = record { len = min (length src) size; bytes = take size src }

-- A queue takes a block if it holds fewer than `cap`, and cuts it to `size` bytes.
abbrev pub push : ℕ → ℕ → Queue → List ℕ → Queue × ℤ
push cap size q src =
    if ltb (length q) cap
    then (q ++ (cut size src ∷ []), pos (min (length src) size))
    else (q, err_buffer_full)

-- A queue gives up its oldest block, of which the destination takes the first bytes.
abbrev pub pop : Queue → ℕ → Queue × List ℕ × ℤ
pop [] dest = ([], [], err_buffer_empty)
pop (x ∷ q) dest = (q, take (min dest x.len) x.bytes, pos (min dest x.len))

-- The most blocks that a buffer holds, and the bytes of each.
abbrev pub capacity : BlockBuffer → ℕ
capacity b = b.total_items - 1

abbrev pub room_of : BlockBuffer → ℕ
room_of b = b.item_size - 4
