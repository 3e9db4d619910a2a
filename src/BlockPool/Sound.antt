-- ===== src/BlockPool/Sound.antt =====
-- No sequence of calls on block buffers follows a bad pointer or loops for ever.
use mitcbcu.Common.{
  ◌⊎◌, ◌-◌, ℕ, ◌≡◌, refl, ap, arith, List, [], ◌∷◌, Option, none, some, ℤ, Bool-cases, inl, inr,
  negsuc,
}
use mitcbcu.Names.{is_valid}
use mitcbcu.Pool.{IsSound, with_handle-IsSound}
use mitcbcu.Pool.Remove.{remove-IsSound}
use mitcbcu.BlockBuffer
use mitcbcu.BlockBuffer.{BlockBuffer, err_buffer_pointer_error}
use mitcbcu.BlockBuffer.Queue.Push.{write_refines}
use mitcbcu.BlockBuffer.Queue.Pop.{read_refines}
use mitcbcu.BlockBuffer.Queue.Count.{cnt_lem, empty_lem, full_never, clear_blocks_lem}
use mitcbcu.BlockPool.{
  BlockPool, Mallocs, create, write, read, read_one, clear, count, full, cnt, empty, delete,
}
use mitcbcu.BlockPool.Create.{IsValid, IsFit, create-IsSound, IsRefused, create_refused}

-- One call, with its arguments.
pub data Call : Type 0 where
  create_call : ℕ → ℕ → Option (List ℕ) → Mallocs → Call
  write_call : ℕ → Option (List ℕ) → Call
  read_call : ℕ → Option ℕ → Call
  clear_call : ℕ → Call
  full_call : ℕ → Call
  cnt_call : ℕ → Call
  empty_call : ℕ → Call
  delete_call : ℕ → Call

abbrev pub state {ℓ} : {R : Type ℓ} → Option (BlockPool × R) → Option BlockPool
state none = none
state (some (p, _)) = some p

-- The pool behind a call that only counts.
abbrev pub unchanged : BlockPool → Option ℤ → Option BlockPool
unchanged p none = none
unchanged p (some _) = some p

-- The pool after a call; `none` is a fault, or a call that does not end.
pub step : BlockPool → Call → Option BlockPool
step p (create_call n size name m) = some (create p n size name m).0
step p (write_call h src) = state (write p h src)
step p (read_call h dest) = state (read p h dest)
step p (clear_call h) = state (clear p h)
step p (full_call h) = unchanged p (full p h)
step p (cnt_call h) = unchanged p (cnt p h)
step p (empty_call h) = unchanged p (empty p h)
step p (delete_call h) = some (delete p h)

pub run : BlockPool → List Call → Option BlockPool
run p [] = some p
run p (c ∷ cs) = elim (step p c) [ none ↦ none | some p' ↦ run p' cs ]

-- A call of BlockBufferCreate with a name is refused or fit.
abbrev pub IsAllowed : BlockPool → Call → Type 0
IsAllowed p (create_call n size (some name) m) =
    IsRefused n m ⊎ ((h : ℕ) × (start : ℕ) × IsFit p n size m h start)
IsAllowed p (create_call n size none m) = Unit
IsAllowed p _ = Unit

abbrev pub AllAllowed : BlockPool → List Call → Type 0
AllAllowed p [] = Unit
AllAllowed p (c ∷ cs) = IsAllowed p c × ((p' : BlockPool) → step p c ≡ some p' → AllAllowed p' cs)

from_out {ℓ} :
    {R : Type ℓ} (o : Option (BlockPool × R))
    → (out : BlockPool × R) × (o ≡ some out) × IsSound IsValid out.0
    → (p' : BlockPool) × (state o ≡ some p') × IsSound IsValid p'
from_out o (out, e, s) = (out.0, ap state e, s)

-- A function that counts the blocks of every valid buffer comes back with every handle.
pub count-some :
    (f : BlockBuffer → Option ℤ) (p : BlockPool) (h : ℕ)
    → ((b : BlockBuffer) → IsValid b → (n : ℤ) × (f b ≡ some n))
    → IsSound IsValid p
    → (n : ℤ) × (count f p h ≡ some n)
count-some f p h g s = elim (Bool-cases (is_valid h p.names)) [
  | inl e ↦ let (b, l, v) = s.live h e in let (n, q) = g b v in (n, ground (arith, q))
  | inr e ↦ (negsuc 0, rw e refl)
]

counting :
    (f : BlockBuffer → Option ℤ) (p : BlockPool) (h : ℕ)
    → ((b : BlockBuffer) → IsValid b → (n : ℤ) × (f b ≡ some n))
    → IsSound IsValid p
    → (p' : BlockPool) × (unchanged p (count f p h) ≡ some p') × IsSound IsValid p'
counting f p h g s = let (n, e) = count-some f p h g s in (p, ap (unchanged p) e, s)

step-IsSound :
    (p : BlockPool) (c : Call)
    → IsSound IsValid p
    → IsAllowed p c
    → (p' : BlockPool) × (step p c ≡ some p') × IsSound IsValid p'
unfolding step write read clear full cnt empty delete create
step-IsSound p (create_call n size none m) s a = (p, refl, s)
step-IsSound p (create_call n size (some name) m) s (inl e) =
    (p, ap (λ x. some x.0) (create_refused p n size name m e), s)
step-IsSound p (create_call n size (some name) m) s (inr (h, start, k)) =
    ((create p n size (some name) m).0, refl, create-IsSound p n size name m k s)
step-IsSound p (write_call h none) s a = (p, refl, s)
step-IsSound p (write_call h (some src)) s a = from_out (write p h (some src)) (
    with_handle-IsSound IsValid p h err_buffer_pointer_error (λ b. BlockBuffer.write b src) s
      (λ b (r, w, v). let (w', v', _, _, _) = write_refines b r w src v in (r, w', v')))
step-IsSound p (read_call h none) s a = (p, refl, s)
step-IsSound p (read_call h (some dest)) s a = from_out (read p h (some dest)) (
    with_handle-IsSound IsValid p h ([], err_buffer_pointer_error) (read_one dest) s
      (λ b (r, w, v). let (r', v', _, _, _) = read_refines b r w dest v in (r', w, v')))
step-IsSound p (clear_call h) s a = from_out (clear p h) (
    with_handle-IsSound IsValid p h tt (λ b. (BlockBuffer.clear b, tt)) s
      (λ b (r, w, v). (b.total_items - 1, 0, (clear_blocks_lem b r w v).0)))
step-IsSound p (full_call h) s a =
    counting BlockBuffer.full p h (λ b (r, w, v). (_, full_never b r w v)) s
step-IsSound p (cnt_call h) s a =
    counting BlockBuffer.cnt p h (λ b (r, w, v). (_, cnt_lem b r w v)) s
step-IsSound p (empty_call h) s a =
    counting BlockBuffer.empty p h (λ b (r, w, v). (_, empty_lem b r w v)) s
step-IsSound p (delete_call h) s a = (delete p h, refl, remove-IsSound IsValid p h s)

-- No sequence of calls of BlockBufferCreate, BlockBufferWrite, BlockBufferRead, BlockBufferClear,
-- BlockBufferFull, BlockBufferCnt, BlockBufferEmpty and BlockBufferDelete faults or loops for ever on
-- a sound pool, such as the empty one at the start of the program, whatever handles and NULL pointers
-- it passes, if each call of BlockBufferCreate is given no memory, or asks for 1 to 256 items, whose
-- bytes and one more are below 2 ^ 32 when each item, or two for one item, has 4 bytes more, and is
-- given memory that is not in use; and it leaves a sound pool, in which every handle that is in the
-- list leads to a valid buffer.
pub run_blocks-IsSound :
    (p : BlockPool) (cs : List Call)
    → IsSound IsValid p
    → AllAllowed p cs
    → (p' : BlockPool) × (run p cs ≡ some p') × IsSound IsValid p'
unfolding run
run_blocks-IsSound p [] s a = (p, refl, s)
run_blocks-IsSound p (c ∷ cs) s a =
    let (q, e, t) = step-IsSound p c s a.0 in rw (run, e) (run_blocks-IsSound q cs t (a.1 q e))
