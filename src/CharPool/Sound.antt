-- ===== src/CharPool/Sound.antt =====
-- No sequence of calls on byte buffers follows a bad pointer, whatever handles it passes.
use mitcbcu.Common.{
  ℕ, ◌<◌, ◌≡◌, refl, ap, List, [], ◌∷◌, Option, none, some, ℤ, pos, negsuc, ◌⊎◌, inl, inr,
}
use mitcbcu.Pool.{IsSound, with_handle-IsSound}
use mitcbcu.CharBuffer
use mitcbcu.CharBuffer.{CharBuffer, err_buffer_pointer_error}
use mitcbcu.CharBuffer.View.{IsValid}
use mitcbcu.CharBuffer.Write.{write_lem}
use mitcbcu.CharBuffer.Read.{read_lem}
use mitcbcu.CharBuffer.Pointer.{clear_lem, brush_lem}
use mitcbcu.CharBuffer.BackWrite.{back_write-IsValid}
use mitcbcu.CharPool.{
  CharPool, Mallocs, create, write, read, read_one, clear, brush, back_write, delete,
}
use mitcbcu.CharPool.Create.{MallocsKeep, create-IsSound, IsRefused, create_refused}
use mitcbcu.Pool.Remove.{remove-IsSound}

-- One call, with its arguments.
pub data Call : Type 0 where
  create_call : ℕ → Option (List ℕ) → Mallocs → Call
  write_call : ℕ → Option (List ℕ) → Call
  read_call : ℕ → Option ℕ → Call
  clear_call : ℕ → Call
  brush_call : ℕ → Call
  back_write_call : ℕ → ℤ → Call
  delete_call : ℕ → Call

abbrev pub state {ℓ} : {R : Type ℓ} → Option (CharPool × R) → Option CharPool
state none = none
state (some (p, _)) = some p

-- The pool after a call; `none` is a fault.
pub step : CharPool → Call → Option CharPool
step p (create_call size name m) = some (create p size name m).0
step p (write_call h src) = state (write p h src)
step p (read_call h dest) = state (read p h dest)
step p (clear_call h) = state (clear p h)
step p (brush_call h) = state (brush p h)
step p (back_write_call h k) = state (back_write p h k)
step p (delete_call h) = some (delete p h)

pub run : CharPool → List Call → Option CharPool
run p [] = some p
run p (c ∷ cs) = elim (step p c) [ none ↦ none | some p' ↦ run p' cs ]

-- A call of CharBufferCreate with a name is refused, or asks for 1 to 2 ^ 31 - 1 bytes and malloc
-- keeps its promise. A call of SingleThreadCharBufferBackWrite has a `back_len` that is not negative.
abbrev pub IsAllowed : CharPool → Call → Type 0
IsAllowed p (create_call size (some name) m) =
    IsRefused size m
    ⊎ ((h : ℕ) × (start : ℕ) × (0 < size) × (size < 2147483648) × MallocsKeep p size m h start)
IsAllowed p (create_call size none m) = Unit
IsAllowed p (back_write_call h (negsuc n)) = ⊥
IsAllowed p _ = Unit

abbrev pub AllAllowed : CharPool → List Call → Type 0
AllAllowed p [] = Unit
AllAllowed p (c ∷ cs) = IsAllowed p c × ((p' : CharPool) → step p c ≡ some p' → AllAllowed p' cs)

from_out {ℓ} :
    {R : Type ℓ} (o : Option (CharPool × R))
    → (out : CharPool × R) × (o ≡ some out) × IsSound IsValid out.0
    → (p' : CharPool) × (state o ≡ some p') × IsSound IsValid p'
from_out o (out, e, s) = (out.0, ap state e, s)

step-IsSound :
    (p : CharPool) (c : Call)
    → IsSound IsValid p
    → IsAllowed p c
    → (p' : CharPool) × (step p c ≡ some p') × IsSound IsValid p'
unfolding step write read clear brush back_write delete create
step-IsSound p (create_call size none m) s a = (p, refl, s)
step-IsSound p (create_call size (some name) m) s (inl e) =
    (p, ap (λ x. some x.0) (create_refused p size name m e), s)
step-IsSound p (create_call size (some name) m) s (inr (h, start, z, i, k)) =
    ((create p size (some name) m).0, refl, create-IsSound p size name m s z i k)
step-IsSound p (write_call h none) s a = (p, refl, s)
step-IsSound p (write_call h (some src)) s a = from_out (write p h (some src)) (
    with_handle-IsSound IsValid p h err_buffer_pointer_error (λ b. CharBuffer.write b src) s
      (λ b v. (write_lem src v).2))
step-IsSound p (read_call h none) s a = (p, refl, s)
step-IsSound p (read_call h (some dest)) s a = from_out (read p h (some dest)) (
    with_handle-IsSound IsValid p h ([], err_buffer_pointer_error) (read_one dest) s
      (λ b v. (read_lem dest v).3))
step-IsSound p (clear_call h) s a =
    from_out (clear p h) (
      with_handle-IsSound IsValid p h tt (λ b. (CharBuffer.clear b, tt)) s (λ b v. (clear_lem v).1))
step-IsSound p (brush_call h) s a =
    from_out (brush p h) (
      with_handle-IsSound IsValid p h tt (λ b. (CharBuffer.brush b, tt)) s (λ b v. (brush_lem v).0))
step-IsSound p (back_write_call h (negsuc n)) s a = absurd a
step-IsSound p (back_write_call h (pos k)) s a = from_out (back_write p h (pos k)) (
    with_handle-IsSound IsValid p h err_buffer_pointer_error
      (λ b. (CharBuffer.back_write b (pos k), pos 0)) s (λ b v. back_write-IsValid k v))
step-IsSound p (delete_call h) s a = (delete p h, refl, remove-IsSound IsValid p h s)

-- No sequence of calls of CharBufferCreate, CharBufferWrite, CharBufferRead, CharBufferClear,
-- CharBufferBrush, SingleThreadCharBufferBackWrite and CharBufferDelete faults on a sound pool, such
-- as the empty one at the start of the program, whatever handles and NULL pointers it passes, if each
-- call of CharBufferCreate is given no memory, or asks for fewer than 2 ^ 31 bytes and is given
-- memory that is not in use, and no call of SingleThreadCharBufferBackWrite has a negative length; and
-- it leaves a sound pool, in which every handle that is in the list leads to a valid buffer.
pub run-IsSound :
    (p : CharPool) (cs : List Call)
    → IsSound IsValid p
    → AllAllowed p cs
    → (p' : CharPool) × (run p cs ≡ some p') × IsSound IsValid p'
unfolding run
run-IsSound p [] s a = (p, refl, s)
run-IsSound p (c ∷ cs) s a =
    let (q, e, t) = step-IsSound p c s a.0 in rw (run, e) (run-IsSound q cs t (a.1 q e))
