-- ===== src/CharPool/Delete.antt =====
-- CharBufferDelete: the handle is refused from then on.
use mitcbcu.Common.{ℕ, ◌≡◌, arith, List, [], true, false, none, some}
use mitcbcu.Names.{is_valid}
use mitcbcu.Pool.Remove.{remove-invalid}
use mitcbcu.Pool.{IsSound, with_handle_invalid}
use mitcbcu.CharBuffer
use mitcbcu.CharBuffer.{CharBuffer, err_buffer_pointer_error}
use mitcbcu.CharBuffer.View.{IsValid}
use mitcbcu.CharPool.{CharPool, write, read, read_one, delete, update_current_read_pointer, is_full}

-- After CharBufferDelete of a valid handle on a sound pool, CharBufferWrite, CharBufferRead and
-- CharBufferIsFull refuse the handle with errBUFFER_POINTER_ERROR and change nothing.
pub delete_lem :
    (p : CharPool) (h : ℕ) (src : List ℕ) (dest : ℕ)
    → IsSound IsValid p
    → is_valid h p.names ≡ true
    → let p' = delete p h in
      (write p' h (some src) ≡ some (p', err_buffer_pointer_error))
      × (read p' h (some dest) ≡ some (p', ([], err_buffer_pointer_error)))
      × (is_full p' h ≡ some err_buffer_pointer_error)
unfolding write read is_full delete
delete_lem p h src dest s e = (
  with_handle_invalid p' h err_buffer_pointer_error (λ b. CharBuffer.write b src) gone,
  with_handle_invalid p' h ([], err_buffer_pointer_error) (read_one dest) gone,
  rw gone,
)
  where
    p' : CharPool
    p' = delete p h

    gone : is_valid h p'.names ≡ false
    gone = remove-invalid IsValid p h s e

-- CharBufferUpdateCurrentReadPointer of a handle that has been deleted does not return an error: it
-- reads the freed structure before it checks the handle.
pub update-delete_faults :
    (p : CharPool) (h origin_len left_len : ℕ)
    → is_valid h p.names ≡ true
    → update_current_read_pointer (delete p h) h origin_len left_len ≡ none
unfolding update_current_read_pointer delete
update-delete_faults p h o l e = ground arith
