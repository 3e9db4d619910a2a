-- ===== src/BlockPool/Tests.antt =====
-- Runs of the block buffer functions on handles.
use mitcbcu.Common.{◌≡◌, refl, arith, List, [], ◌∷◌, true, none, some, inr}
use mitcbcu.Names.{no_names}
use mitcbcu.Names.Tests.{short_name, no_names-IsDistinct, no_names-invalid}
use mitcbcu.Pool.{IsSound}
use mitcbcu.BlockBuffer.{buffer_size_bytes}
use mitcbcu.BlockPool.{BlockPool, Mallocs}
use mitcbcu.BlockPool.Create.{IsValid, IsFit}
use mitcbcu.BlockPool.Sound.{
  Call, create_call, write_call, read_call, cnt_call, empty_call, delete_call, run,
  run_blocks-IsSound,
}

-- The pool when the program starts.
abbrev start : BlockPool
start = record { names = no_names; heap = λ h. none }

start-IsSound : IsSound IsValid start
start-IsSound = record { distinct = no_names-IsDistinct; live = λ h e. cc (e, no_names-invalid h) }

-- malloc finds the structure at 500 and the blocks at 1000.
abbrev memory : Mallocs
memory = record {
  structure = some 500;
  bytes = some 1000;
  node_ok = true;
  old = λ p. record { len = 0; bytes = [] };
}

start-IsFit : IsFit start 10 64 memory 500 1000
unfolding buffer_size_bytes
start-IsFit = record {
  some_items = omega arith;
  at_most = omega arith;
  structure_at = refl;
  bytes_at = refl;
  not_null = omega arith;
  unused = no_names-invalid 500;
  no_wrap = omega arith;
  in_space = omega arith;
}

-- The bytes of 2 items of 2 ^ 31 - 4 bytes wrap: malloc is asked for one byte.
wrapped_size : buffer_size_bytes 2 2147483644 ≡ 1
unfolding buffer_size_bytes
wrapped_size = refl

-- A buffer is made, written, counted, read, deleted and asked again.
abbrev script : List Call
script =
    create_call 10 64 (some short_name) memory
    ∷ write_call 500 (some (7 ∷ 8 ∷ []))
    ∷ cnt_call 500
    ∷ read_call 500 (some 64)
    ∷ delete_call 500
    ∷ empty_call 500
    ∷ []

run_blocks-IsSound_example : (p' : BlockPool) × (run start script ≡ some p') × IsSound IsValid p'
run_blocks-IsSound_example = run_blocks-IsSound start script start-IsSound (
  inr (500, 1000, start-IsFit),
  λ p1 e1. (tt, λ p2 e2. (tt, λ p3 e3. (tt, λ p4 e4. (tt, λ p5 e5. (tt, λ p6 e6. tt))))),
)
