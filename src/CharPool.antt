-- ===== src/CharPool.antt =====
-- The byte buffer functions of 1.0.x/ProdExplUnits/sourcecode/buffer_read_write_fun.cxx as their callers
-- see them: on handles. A function returns `none` where the code follows a pointer to memory that
-- holds no buffer; a NULL data pointer is `none` in the argument.
pub mod Create
pub mod Delete
pub mod Sound
mod Tests
use mitcbcu.Common.{
  ℕ, ◌+◌, ◌≡◌, Bool, true, false, if◌then◌else◌, Option, none, some, update, ◌==◌, ltb, List, [],
  ◌∷◌, ℤ, pos, negsuc, to_int,
}
use mathlib.Core.Option
use mitcbcu.Names
use mitcbcu.Names.{is_valid}
use mitcbcu.Pool.{Pool, with_handle, ask, registered, remove}
use mitcbcu.CharBuffer
use mitcbcu.CharBuffer.{CharBuffer, err_buffer_pointer_error}

abbrev pub CharPool : Type 0
CharPool = Pool CharBuffer

-- What malloc returns to one call of CharBufferCreate: the structure, the bytes (each NULL is
-- `none`), and whether there is memory for a node. Memory is not cleared: it holds `old_bytes`, and
-- the `clear_count` of the structure, which the code does not set, is `old_count`.
pub record Mallocs : Type 0 where
  pub structure : Option ℕ
  pub bytes : Option ℕ
  pub node_ok : Bool
  pub old_bytes : ℕ → ℕ
  pub old_count : ℕ

-- The `char_buffer_t` that CharBufferCreate fills in.
pub fresh_buffer : ℕ → ℕ → Mallocs → CharBuffer
fresh_buffer start buffer_size m = record {
  pb_head = start;
  pb_tail = start + buffer_size;
  pb_writeto = start;
  pb_readfrom = start;
  buffer_size = buffer_size;
  clear_count = m.old_count;
  mem = m.old_bytes;
}

-- CharBufferCreate; the result 0 is NULL.
pub create : CharPool → ℕ → Option (List ℕ) → Mallocs → CharPool × ℤ
create p buffer_size none m = (p, pos 0)
create p buffer_size (some name) m =
    if ltb 0 buffer_size
    then elim m.structure [
      | none ↦ (p, pos 0)
      | some h ↦ elim m.bytes [
        | none ↦ (p, pos 0)
        | some start ↦
            registered p h (fresh_buffer start buffer_size m) (Names.save h name m.node_ok p.names)
      ]
    ]
    else (p, pos 0)

-- CharBufferOpen.
pub open_buffer : CharPool → Option (List ℕ) → ℤ
open_buffer p none = negsuc 0
open_buffer p (some name) = Names.open_name name p.names

-- CharBufferWrite.
pub write : CharPool → ℕ → Option (List ℕ) → Option (CharPool × ℤ)
write p h none = some (p, err_buffer_pointer_error)
write p h (some src) = with_handle p h err_buffer_pointer_error (λ b. CharBuffer.write b src)

abbrev pub read_one : ℕ → CharBuffer → CharBuffer × (List ℕ × ℤ)
read_one dest b = let (b', out, ret) = CharBuffer.read b dest in (b', (out, ret))

-- CharBufferRead into a destination of a size; the destination NULL is `none`.
pub read : CharPool → ℕ → Option ℕ → Option (CharPool × (List ℕ × ℤ))
read p h none = some (p, ([], err_buffer_pointer_error))
read p h (some dest) = with_handle p h ([], err_buffer_pointer_error) (read_one dest)

-- CharBufferIsFull.
pub is_full : CharPool → ℕ → Option ℤ
is_full p h = ask p h err_buffer_pointer_error CharBuffer.is_full

-- CharBufferCurrentBytes.
pub current_bytes : CharPool → ℕ → Option ℤ
current_bytes p h = ask p h err_buffer_pointer_error CharBuffer.current_bytes

-- CharBufferCurrentReadPointer with both result pointers given; the first `none` is NULL.
pub current_read_pointer : CharPool → ℕ → Option (Option (ℕ × ℕ × ℕ))
current_read_pointer p h = ask p h none (λ b. some (CharBuffer.current_read_pointer b))

-- CharBufferCheckClearFlag.
pub check_clear_flag : CharPool → ℕ → Option ℤ
check_clear_flag p h = ask p h (negsuc 0) (λ b. pos b.clear_count)

-- CharBufferBrush.
pub brush : CharPool → ℕ → Option (CharPool × Unit {0})
brush p h = with_handle p h tt (λ b. (CharBuffer.brush b, tt))

-- CharBufferClear.
pub clear : CharPool → ℕ → Option (CharPool × Unit {0})
clear p h = with_handle p h tt (λ b. (CharBuffer.clear b, tt))

-- SingleThreadCharBufferBackWrite.
pub back_write : CharPool → ℕ → ℤ → Option (CharPool × ℤ)
back_write p h back_len =
    with_handle p h err_buffer_pointer_error (λ b. (CharBuffer.back_write b back_len, pos 0))

-- CharBufferUpdateCurrentReadPointer reads `pbuffer->pb_readfrom` before it checks the handle.
pub update_current_read_pointer : CharPool → ℕ → ℕ → ℕ → Option (CharPool × Unit {0})
update_current_read_pointer p h origin_len left_len = elim (p.heap h) [
  | none ↦ none
  | some _ ↦
      with_handle p h tt (λ b. (CharBuffer.update_current_read_pointer b origin_len left_len, tt))
]

-- CharBufferUpdateCurrentReadPointer2 reads both pointers before it checks the handle.
pub update_current_read_pointer2 : CharPool → ℕ → ℕ → ℕ → ℕ → Option (CharPool × Unit {0})
update_current_read_pointer2 p h origin_len left_len last_clear_flag = elim (p.heap h) [
  | none ↦ none
  | some _ ↦
      with_handle p h tt
        (λ b. (CharBuffer.update_current_read_pointer2 b origin_len left_len last_clear_flag, tt))
]

-- CharBufferDelete.
pub delete : CharPool → ℕ → CharPool
delete p h = remove p h
