-- ===== src/BlockPool.antt =====
-- The block buffer functions of 1.0.x/ProdExplUnits/sourcecode/buffer_read_write_fun.cxx as their
-- callers see them: on handles. A function returns `none` where the code follows a pointer to memory
-- that holds no buffer, or where a counting loop does not end; a NULL pointer is `none` in the
-- argument.
pub mod Create
pub mod Sound
mod Tests
use mitcbcu.Common.{
  ℕ, ◌+◌, Bool, true, false, if◌then◌else◌, Option, none, some, ◌==◌, ltb, List, [], ◌∷◌, ℤ, pos,
  negsuc, update,
}
use mitcbcu.Names
use mitcbcu.Names.{is_valid}
use mitcbcu.Pool.{Pool, with_handle, registered}
use mitcbcu.BlockBuffer
use mitcbcu.BlockBuffer.{Block, BlockBuffer, err_buffer_pointer_error}

abbrev pub BlockPool : Type 0
BlockPool = Pool BlockBuffer

-- What malloc returns to one call of BlockBufferCreate: the structure, the bytes (each NULL is
-- `none`), and whether there is memory for a node. Memory is not cleared: it holds `old`.
pub record Mallocs : Type 0 where
  pub structure : Option ℕ
  pub bytes : Option ℕ
  pub node_ok : Bool
  pub old : ℕ → Block

-- BlockBufferPointerSave.
abbrev pub block_buffer_pointer_save : ℕ → List ℕ → Bool → Names.Names → Names.Names × ℤ
block_buffer_pointer_save h name node_ok ns = Names.save h name node_ok ns

-- BlockBufferIdReset.
abbrev pub block_buffer_id_reset : ℕ → Names.Names → Names.Names
block_buffer_id_reset h ns = Names.reset h ns

-- BlockBufferIsValid.
abbrev pub block_buffer_is_valid : ℕ → Names.Names → Bool
block_buffer_is_valid h ns = is_valid h ns

-- BlockBufferCreate; the result 0 is NULL.
pub create : BlockPool → ℕ → ℕ → Option (List ℕ) → Mallocs → BlockPool × ℤ
create p total_items item_size none m = (p, pos 0)
create p total_items item_size (some name) m =
    if ltb 0 total_items
    then elim m.structure [
      | none ↦ (p, pos 0)
      | some h ↦ elim m.bytes [
        | none ↦ (p, pos 0)
        | some start ↦
            registered p h (BlockBuffer.fresh_buffer start total_items item_size m.old)
              (block_buffer_pointer_save h name m.node_ok p.names)
      ]
    ]
    else (p, pos 0)

-- BlockBufferOpen.
pub open_buffer : BlockPool → Option (List ℕ) → ℤ
open_buffer p none = negsuc 0
open_buffer p (some name) = Names.open_name name p.names

-- BlockBufferWrite.
pub write : BlockPool → ℕ → Option (List ℕ) → Option (BlockPool × ℤ)
write p h none = some (p, err_buffer_pointer_error)
write p h (some src) = with_handle p h err_buffer_pointer_error (λ b. BlockBuffer.write b src)

abbrev pub read_one : ℕ → BlockBuffer → BlockBuffer × (List ℕ × ℤ)
read_one dest b = let (b', bytes, ret) = BlockBuffer.read b dest in (b', (bytes, ret))

-- BlockBufferRead into a destination of a size; the destination NULL is `none`.
pub read : BlockPool → ℕ → Option ℕ → Option (BlockPool × (List ℕ × ℤ))
read p h none = some (p, ([], err_buffer_pointer_error))
read p h (some dest) = with_handle p h ([], err_buffer_pointer_error) (read_one dest)

-- BlockBufferClear.
pub clear : BlockPool → ℕ → Option (BlockPool × Unit {0})
clear p h = with_handle p h tt (λ b. (BlockBuffer.clear b, tt))

-- The functions that count the blocks.
abbrev pub count : (BlockBuffer → Option ℤ) → BlockPool → ℕ → Option ℤ
count f p h =
    if block_buffer_is_valid h p.names
    then elim (p.heap h) [ none ↦ none | some b ↦ f b ]
    else some (negsuc 0)

-- BlockBufferFull.
pub full : BlockPool → ℕ → Option ℤ
full p h = count BlockBuffer.full p h

-- BlockBufferCnt.
pub cnt : BlockPool → ℕ → Option ℤ
cnt p h = count BlockBuffer.cnt p h

-- BlockBufferEmpty.
pub empty : BlockPool → ℕ → Option ℤ
empty p h = count BlockBuffer.empty p h

-- BlockBufferDelete.
pub delete : BlockPool → ℕ → BlockPool
delete p h =
    if block_buffer_is_valid h p.names
    then record { names = block_buffer_id_reset h p.names; heap = update p.heap h none }
    else p
