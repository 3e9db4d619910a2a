-- ===== src/CharPool/Tests.antt =====
-- Runs of the byte buffer functions on handles.
use mitcbcu.Common.{◌≡◌, refl, arith, List, [], ◌∷◌, true, none, some, pos, negsuc, inr}
use mitcbcu.Names.{no_names, is_valid}
use mitcbcu.Names.Tests.{
  short_name, short_name-IsName, short_name-free, two_names, two_names-IsDistinct, two_names-valid,
  no_names-IsDistinct, no_names-invalid,
}
use mitcbcu.Pool.{IsSound}
use mitcbcu.CharBuffer.{CharBuffer, err_buffer_pointer_error}
use mitcbcu.CharBuffer.View.{IsValid, contents}
use mitcbcu.CharPool.{
  CharPool, Mallocs, create, open_buffer, write, read, is_full, delete, current_bytes,
  current_read_pointer, check_clear_flag, update_current_read_pointer2, update_current_read_pointer,
}
use mitcbcu.CharPool.Create.{MallocsKeep, create_lem}
use mitcbcu.CharPool.Delete.{delete_lem}
use mitcbcu.CharPool.Sound.{Call, create_call, write_call, read_call, delete_call, run, run-IsSound}

-- The pool when the program starts.
abbrev start : CharPool
start = record { names = no_names; heap = λ h. none }

start-IsSound : IsSound IsValid start
start-IsSound = record { distinct = no_names-IsDistinct; live = λ h e. cc (e, no_names-invalid h) }

-- malloc finds the structure at 500 and the bytes at 1000.
abbrev memory : Mallocs
memory = record {
  structure = some 500;
  bytes = some 1000;
  node_ok = true;
  old_bytes = λ p. 0;
  old_count = 0;
}

start-MallocsKeep : MallocsKeep start 16 memory 500 1000
start-MallocsKeep = record {
  structure_at = refl;
  bytes_at = refl;
  not_null = omega arith;
  unused = no_names-invalid 500;
  below = omega arith;
}

create_lem_example :
    let (p', ret) = create start 16 (some short_name) memory in
    (ret ≡ pos 500)
    × (open_buffer p' (some short_name) ≡ pos 500)
    × (is_valid 500 p'.names ≡ true)
    × (b : CharBuffer) × (p'.heap 500 ≡ some b)
    × IsValid b
    × (contents b ≡ [])
create_lem_example =
    create_lem start 16 short_name memory (omega arith) (omega arith) start-MallocsKeep refl
      short_name-IsName ((λ e. refl), tt) short_name-free

-- A buffer of four cells behind the handle 500.
abbrev some_buffer : CharBuffer
some_buffer = record {
  pb_head = 100;
  pb_tail = 104;
  pb_writeto = 101;
  pb_readfrom = 103;
  buffer_size = 4;
  clear_count = 0;
  mem = λ p. 0;
}

some_buffer-IsValid : IsValid some_buffer
some_buffer-IsValid = ground arith

abbrev two_buffers : CharPool
two_buffers = record { names = two_names; heap = λ h. some some_buffer }

two_buffers-IsSound : IsSound IsValid two_buffers
two_buffers-IsSound = record {
  distinct = two_names-IsDistinct;
  live = λ h e. (some_buffer, refl, some_buffer-IsValid);
}

delete_lem_example :
    let p' = delete two_buffers 500 in
    (write p' 500 (some (7 ∷ [])) ≡ some (p', err_buffer_pointer_error))
    × (read p' 500 (some 3) ≡ some (p', ([], err_buffer_pointer_error)))
    × (is_full p' 500 ≡ some err_buffer_pointer_error)
delete_lem_example = delete_lem two_buffers 500 (7 ∷ []) 3 two_buffers-IsSound two_names-valid

-- A buffer is made, written, deleted, and written again.
abbrev script : List Call
script =
    create_call 16 (some short_name) memory
    ∷ write_call 500 (some (7 ∷ []))
    ∷ delete_call 500
    ∷ write_call 500 (some (8 ∷ []))
    ∷ read_call 123 (some 4)
    ∷ []

run-IsSound_example : (p' : CharPool) × (run start script ≡ some p') × IsSound IsValid p'
run-IsSound_example = run-IsSound start script start-IsSound (
  inr (500, 1000, omega arith, omega arith, start-MallocsKeep),
  λ p1 e1. (tt, λ p2 e2. (tt, λ p3 e3. (tt, λ p4 e4. (tt, λ p5 e5. tt)))),
)

-- The questions to a handle that is not in the list.
invalid_handle :
    (is_full start 500 ≡ some err_buffer_pointer_error)
    × (current_bytes start 500 ≡ some err_buffer_pointer_error)
    × (current_read_pointer start 500 ≡ some none)
    × (check_clear_flag start 500 ≡ some (negsuc 0))
unfolding is_full current_bytes current_read_pointer check_clear_flag
invalid_handle = (
  rw (no_names-invalid 500) refl,
  rw (no_names-invalid 500) refl,
  rw (no_names-invalid 500) refl,
  rw (no_names-invalid 500) refl,
)

-- Both functions that move the read pointer read through a handle that leads nowhere.
update_faults :
    (update_current_read_pointer start 500 2 1 ≡ none)
    × (update_current_read_pointer2 start 500 2 1 0 ≡ none)
unfolding update_current_read_pointer update_current_read_pointer2
update_faults = (refl, refl)
